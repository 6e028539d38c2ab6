-- ===== src/IniFile/Inside.antt =====
-- src/inifile.c: the places of the buffer that the parser may stand at, and the moves between them.
use kindle_launchpad.Base.{
  ltb, if_rule, ℕ, zero, suc, ◌+◌, ◌-◌, ◌<◌, ◌≤◌, ◌≡◌, refl, ap, ◌∙◌, ◌⊎◌, inl, inr, ℤ, pos, negsuc,
  pos_part, List, [], ◌∷◌, some, ◌==◌, Bool-cases, Bytes, length, length-drop, length-set, get_or,
  get_or-drop, get_or-set, set, OnSafe, OnSafe->>=, arith,
}
use kindle_launchpad.IniFile.Scan.{deref, skipws, skipline}
use kindle_launchpad.IniFile.Parse.{
  SectionRow, KeyRow, Parser, ahead, go, by_skipws, by_skipline, section_line, terminate, container,
}
use kindle_launchpad.IniFile.Bounds.{LineEnd, skipws-OnSafe, skipline-OnSafe}

-- The buffer ends in the zero byte behind the place `k`, and a key can find its section.
abbrev pub Buffered : ℕ → Parser → Type 0
Buffered k s =
    (length s.buf ≡ k + 2)
    × (get_or s.buf (k + 1) 0 ≡ 0)
    × OnSafe (λ c. Unit) (container s.sections s.pcursect)

-- The pointer is in the text, and the newline at the place `k` is still there.
abbrev pub Inside : ℕ → Parser → Type 0
Inside k s = Buffered k s × (s.p ≤ k) × (get_or s.buf k 0 ≡ 10)

-- Or it is at the zero byte.
abbrev pub Within : ℕ → Parser → Type 0
Within k s = Inside k s ⊎ (Buffered k s × (s.p ≡ k + 1))

-- What stands ahead, from what stands in the buffer.
pub ahead-get_or : (s : Parser) (i j : ℕ) → s.p + i ≡ j → get_or (ahead s) i 0 ≡ get_or s.buf j 0
ahead-get_or s i j e = get_or-drop s.p i s.buf 0 ∙ ap (λ n. get_or s.buf n 0) e

pub newline_ahead : (k : ℕ) (s : Parser) → Inside k s → get_or (ahead s) (k - s.p) 0 ≡ 10
newline_ahead k s (ends, le, h) = ahead-get_or s (k - s.p) k (omega arith) ∙ h

pub bound_ahead : (k : ℕ) (s : Parser) → Inside k s → k - s.p < length (ahead s)
bound_ahead k s (ends, le, h) =
    let e = length-drop s.p s.buf in let size = ends.0 in omega (arith, e, size)

pub go-Inside : (k : ℕ) (s : Parser) (n : ℕ) → Inside k s → n ≤ k - s.p → Inside k (go s n)
go-Inside k s n (ends, le, h) small = (ends, omega arith, h)

pub go-Within : (k : ℕ) (s : Parser) (n : ℕ) → Inside k s → n ≤ k - s.p + 1 → Within k (go s n)
go-Within k s n (ends, le, h) small = elim (Bool-cases (n == k - s.p + 1)) [
  | inl e ↦ inr (ends, ground arith)
  | inr e ↦ inl (ends, ground arith, h)
]

-- A terminator written before the newline.
pub set-Buffered :
    (k : ℕ) (s : Parser) (i q : ℕ)
    → Buffered k s
    → Buffered k (record s { buf = set s.buf i 0; p = q })
set-Buffered k s i q (size, zero_byte, linked) = (length-set s.buf i 0 ∙ size, z, linked)
  where
    z : get_or (set s.buf i 0) (k + 1) 0 ≡ 0
    z = elim (get_or-set s.buf i (k + 1) 0 0) [ inl e ↦ e ∙ zero_byte | inr (i, e) ↦ e ]

pub set-Within :
    (k : ℕ) (s : Parser) (i q : ℕ)
    → Buffered k s
    → get_or s.buf k 0 ≡ 10
    → i < q
    → q ≤ k + 1
    → Within k (record s { buf = set s.buf i 0; p = q })
set-Within k s i q ends h lt le = elim (Bool-cases (q == k + 1)) [
  | inl e ↦ inr (set-Buffered k s i q ends, ground arith)
  | inr e ↦ inl (
    set-Buffered k s i q ends,
    ground arith,
    elim (get_or-set s.buf i k 0 0) [
      | inl kept ↦ kept ∙ h
      | inr (same, new) ↦ absurd (ground arith)
    ],
  )
]

-- A terminator written in the buffer, with the pointer left where it is.
pub terminate-OnSafe :
    (P : Parser → Type 0) (s : Parser) (i : ℕ)
    → i < length s.buf
    → P (record s { buf = set s.buf i 0 })
    → OnSafe P (terminate s i)
unfolding terminate
terminate-OnSafe P s i lt h =
    if_rule (OnSafe P) (ltb i (length s.buf)) (λ inner. h) (λ outer. absurd (ground arith))

pub by_skipws-OnSafe :
    (k : ℕ) (s : Parser) → Inside k s → OnSafe (λ t. Inside k t × (s.p ≤ t.p)) (by_skipws s)
by_skipws-OnSafe k s h =
    OnSafe->>= (λ n. n ≤ k - s.p) (λ t. Inside k t × (s.p ≤ t.p)) (skipws (ahead s)) _
      (skipws-OnSafe (ahead s) (k - s.p) (bound_ahead k s h) (rw (newline_ahead k s h) refl))
      (λ n le. (go-Inside k s n h le, omega arith))

pub by_skipline-OnSafe : (k : ℕ) (s : Parser) → Within k s → OnSafe (Within k) (by_skipline s)
by_skipline-OnSafe k s (inl h) =
    OnSafe->>= (LineEnd (k - s.p) (get_or (ahead s) (k - s.p) 0)) (Within k) (skipline (ahead s)) _
      (skipline-OnSafe (ahead s) (k - s.p) (bound_ahead k s h) (inl (newline_ahead k s h)))
      (λ n end. go-Within k s n h (omega (arith, end)))
by_skipline-OnSafe k s (inr (ends, e)) =
    let size = ends.0 in
    let left = length-drop s.p s.buf in
    let z : get_or (ahead s) 0 0 ≡ 0 = ahead-get_or s 0 (k + 1) (omega (arith, e)) ∙ ends.1 in
    OnSafe->>= (LineEnd 0 (get_or (ahead s) 0 0)) (Within k) (skipline (ahead s)) _
      (skipline-OnSafe (ahead s) 0 (omega (arith, left, size, e)) (inr z))
      (λ n end. inr (ends, omega (arith, end, e, z)))

pub container-some : (l : List SectionRow) (i : ℕ) → OnSafe (λ c. Unit) (container l (some i))
container-some [] i = tt
container-some (r ∷ rs) i = tt

-- Another section or key leaves the buffer alone.
pub linked-Within :
    (k : ℕ) (s : Parser) (sections : List SectionRow) (keys : List KeyRow) (i : ℕ)
    → Within k s
    → Within k (record s { sections = sections; keys = keys; pcursect = some i })
linked-Within k s sections keys i (inl ((size, z, l), le, nl)) =
    inl ((size, z, container-some sections i), le, nl)
linked-Within k s sections keys i (inr ((size, z, l), e)) =
    inr ((size, z, container-some sections i), e)

pub section_line-OnSafe :
    (k : ℕ) (s : Parser) (n : ℤ)
    → Inside k s
    → pos_part n ≤ k - s.p
    → OnSafe (Within k) (section_line s n)
unfolding section_line
section_line-OnSafe k s (negsuc n) h le = by_skipline-OnSafe k s (inl h)
section_line-OnSafe k s (pos zero) h le = by_skipline-OnSafe k s (inl h)
section_line-OnSafe k s (pos (suc n)) (ends, before, nl) le =
    let P = λ (t : Parser). Within k (record t { p = t.p + suc n + 1 }) in
    let size = ends.0 in
    OnSafe->>= P (Within k) (terminate s (s.p + suc n)) _
      (terminate-OnSafe P s (s.p + suc n) (omega (arith, size))
        (set-Within k s (s.p + suc n) (s.p + suc n + 1) ends nl (omega arith) (omega arith)))
      (λ t w.
        by_skipline-OnSafe k _ (linked-Within k (record t { p = t.p + suc n + 1 }) _ t.keys _ w))

pub deref-OnSafe : (xs : Bytes) → 0 < length xs → OnSafe (λ c. c ≡ get_or xs 0 0) (deref xs)
deref-OnSafe [] lt = absurd (omega arith)
deref-OnSafe (c ∷ cs) lt = refl

pub deref-ahead-OnSafe :
    (k : ℕ) (s : Parser) → Within k s → OnSafe (λ c. c ≡ get_or (ahead s) 0 0) (deref (ahead s))
deref-ahead-OnSafe k s (inl h) =
    let bound = bound_ahead k s h in deref-OnSafe (ahead s) (omega (arith, bound))
deref-ahead-OnSafe k s (inr (ends, e)) =
    let left = length-drop s.p s.buf in
    let size = ends.0 in deref-OnSafe (ahead s) (omega (arith, left, size, e))
