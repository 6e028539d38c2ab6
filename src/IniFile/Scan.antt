-- ===== src/IniFile/Scan.antt =====
-- src/inifile.c: the functions that look ahead in the buffer. A pointer is the part of the buffer
-- from it on, and each function gives the number of bytes that it goes ahead or counts. To read
-- behind the end of the buffer is a fault.
use kindle_launchpad.Base.{
  ℕ, zero, suc, ◌+◌, ◌-◌, ℤ, pos, minus_one, ◌+ℤ◌, eqb_ℤ, Bool, ◌||◌, [], ◌∷◌, leb, ltb, ◌==◌,
  if◌then◌else◌, Bytes, get_or, Outcome, ok, fault, ◌>>=◌,
}

-- `*p`
abbrev pub deref : Bytes → Outcome ℕ
deref [] = fault
deref (c ∷ cs) = ok c

abbrev pub is_blank : ℕ → Bool
is_blank c = c == b' ' || (c == b'\t' || c == b'\r')

-- One byte further.
abbrev pub further : Outcome ℕ → Outcome ℕ
further m = m >>= λ n. ok (suc n)

-- The bytes that skipws passes over.
unfoldable pub skipws : Bytes → Outcome ℕ
skipws [] = fault
skipws (c ∷ cs) = let rest = further (skipws cs) in if is_blank c then rest else ok 0

-- The bytes that skipline passes over: up to a newline and over it, or up to a zero byte.
unfoldable pub skipline : Bytes → Outcome ℕ
skipline [] = fault
skipline (c ∷ cs) =
    let rest = further (skipline cs) in if c == b'\n' then ok 1 else if c == 0 then ok 0 else rest

-- `if (len == -1) len = 0; ++len`
abbrev pub count_char : ℤ → ℤ
count_char len = (if eqb_ℤ len minus_one then pos 0 else len) +ℤ pos 1

-- The loop of parse_section_name. `len` is -1 until a character is counted; a carriage return is
-- passed over and not counted; a newline or a zero byte ends the loop with 0.
unfoldable pub section_name_from : ℤ → Bytes → Outcome ℤ
section_name_from len [] = fault
section_name_from len (c ∷ cs) =
    let skipped = section_name_from len cs in
    let counted = section_name_from (count_char len) cs in
    if c == b']'
    then ok len
    else if c == b'\n' || c == 0
    then ok (pos 0)
    else if c == b'\r'
    then skipped
    else counted

unfoldable pub parse_section_name : Bytes → Outcome ℤ
unfolding section_name_from
parse_section_name p = section_name_from minus_one p

abbrev pub is_line_end : ℕ → Bool
is_line_end c = c == b'\n' || (c == b'\r' || c == 0)

abbrev pub is_name_end : ℕ → Bool
is_name_end c = c == b'=' || is_line_end c

-- `for (q = p; !stop(*q); ++q)`, as the distance from `p`
unfoldable pub until : (ℕ → Bool) → Bytes → Outcome ℕ
until stop [] = fault
until stop (c ∷ cs) = let rest = further (until stop cs) in if stop c then ok 0 else rest

-- `while ((*q <= ' ') && (q > p)) --q`
unfoldable pub back : Bytes → ℕ → ℕ
back p zero = 0
back p (suc q) = let lower = back p q in if leb (get_or p (suc q) 0) b' ' then lower else suc q

-- The same, and `if (*q > ' ') ++q`.
unfoldable pub trim : Bytes → ℕ → ℕ
unfolding back
trim p q = let r = back p q in if ltb b' ' (get_or p r 0) then r + 1 else r

unfoldable pub parse_key_value : Bytes → Outcome ℕ
unfolding until trim
parse_key_value p = until is_line_end p >>= λ q. ok (if ltb 0 q then trim p q else 0)

unfoldable pub parse_key_name : Bytes → Outcome ℕ
unfolding until trim
parse_key_name p = until is_name_end p >>= λ q.
    ok (if get_or p q 0 == b'=' then if ltb 0 q then trim p (q - 1) else 0 else 0)
