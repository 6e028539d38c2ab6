-- ===== src/IniFile/Parse.antt =====
-- src/inifile.c: parse_ini_file and create_db_structure.
use kindle_launchpad.Base.{
  c_string, ℕ, zero, suc, ◌+◌, ◌/◌, ℤ, pos, negsuc, Bool, not, ◌&&◌, ◌||◌, List, [], ◌∷◌, ◌++◌,
  Option, none, some, leb, ltb, ◌==◌, if◌then◌else◌, Bytes, codes, same_name, length, set, drop,
  Outcome, ok, fault, no_fuel, ◌>>=◌,
}
use kindle_launchpad.IniFile.Scan.{
  deref, skipws, skipline, parse_section_name, parse_key_value, parse_key_name,
}

-- A `char *` of a row: into the buffer, or one of the two constant strings.
pub data Text : Type 0 where
  at : ℕ → Text
  defsection : Text
  emptystring : Text

-- `section_row_t`; `ppairs` is an index into the keys, and `none` is the null pointer.
pub record SectionRow : Type 0 where
  pub psname : Text
  pub ppairs : Option ℕ
  pub npairs : ℕ

-- `key_row_t`; `psect` is an index into the sections.
pub record KeyRow : Type 0 where
  pub pkname : Text
  pub pkvalue : Text
  pub psect : ℕ

-- The buffer, the pointer into it, the used part of the two tables, and `pcursect`.
pub record Parser : Type 0 where
  pub buf : Bytes
  pub p : ℕ
  pub sections : List SectionRow
  pub keys : List KeyRow
  pub pcursect : Option ℕ

abbrev pub default_section_name : Bytes
default_section_name = codes "Default"

abbrev pub default_empty_string : Bytes
default_empty_string = codes "<empty>"

unfoldable pub text_of : Bytes → Text → Bytes
unfolding c_string
text_of buf (at i) = c_string (drop i buf)
text_of buf defsection = default_section_name
text_of buf emptystring = default_empty_string

-- What stands at the pointer.
abbrev pub ahead : Parser → Bytes
ahead s = drop s.p s.buf

abbrev pub go : Parser → ℕ → Parser
go s n = record s { p = s.p + n }

abbrev pub by_skipws : Parser → Outcome Parser
by_skipws s = skipws (ahead s) >>= λ n. ok (go s n)

abbrev pub by_skipline : Parser → Outcome Parser
by_skipline s = skipline (ahead s) >>= λ n. ok (go s n)

abbrev pub first_name : Bytes → List SectionRow → Bytes
first_name buf [] = []
first_name buf (r ∷ rs) = text_of buf r.psname

-- `for (i = 0; i < nsects; i++) if (strcasecmp(psects->psname, psecname) == 0) break`: the rounds
-- left, `i`, and the test, which is on the first row in every round.
unfoldable pub section_index : ℕ → ℕ → Bool → ℕ
section_index zero i hit = i
section_index (suc n) i hit = let rest = section_index n (i + 1) hit in if hit then i else rest

unfoldable pub enter_section : Text → Bytes → List SectionRow → List SectionRow × ℕ
unfolding section_index text_of same_name
enter_section psecname buf sections =
    let n = length sections in
    let i = section_index n 0 (same_name (first_name buf sections) (text_of buf psecname)) in
    (
      if leb n i
          then sections ++ (record { psname = psecname; ppairs = none; npairs = 0 }) ∷ []
          else sections,
      i,
    )

-- `p[i] = '\0'`, of a place of the buffer. A write out of the buffer is a fault.
unfoldable pub terminate : Parser → ℕ → Outcome Parser
terminate s i = if ltb i (length s.buf) then ok (record s { buf = set s.buf i 0 }) else fault

-- `case '['`, with the pointer behind the bracket and the length of the name.
unfoldable pub section_line : Parser → ℤ → Outcome Parser
unfolding enter_section skipline terminate
section_line s (negsuc n) = by_skipline s
section_line s (pos zero) = by_skipline s
section_line s (pos (suc n)) = terminate s (s.p + suc n) >>= λ t.
    let (sections, i) = enter_section (at t.p) t.buf t.sections in
    by_skipline (record t { p = t.p + suc n + 1; sections = sections; pcursect = some i })

-- The section of a key; the default one is made if there is none. No section is a null pointer.
abbrev pub container : List SectionRow → Option ℕ → Outcome (List SectionRow × ℕ)
container [] cur = ok ((record { psname = defsection; ppairs = none; npairs = 0 }) ∷ [], 0)
container (r ∷ rs) none = fault
container (r ∷ rs) (some i) = ok (r ∷ rs, i)

abbrev pub first_pair : Option ℕ → ℕ → Option ℕ
first_pair none n = some n
first_pair (some i) n = some i

-- `if (pcursect->ppairs == NULL) …; npairs += 1`, on one row
abbrev pub count_pair : ℕ → SectionRow → SectionRow
count_pair n r = record r { ppairs = first_pair r.ppairs n; npairs = r.npairs + 1 }

unfoldable pub update_row : (SectionRow → SectionRow) → List SectionRow → ℕ → List SectionRow
update_row f [] i = []
update_row f (r ∷ rs) zero = f r ∷ rs
update_row f (r ∷ rs) (suc i) = r ∷ update_row f rs i

unfoldable pub add_key : Text → Text → Parser → Outcome Parser
unfolding update_row
add_key name value s = container s.sections s.pcursect >>= λ c.
    let nkeys = length s.keys in
    ok (record s {
      sections = update_row (count_pair nkeys) c.0 c.1;
      keys = s.keys ++ (record { pkname = name; pkvalue = value; psect = c.1 }) ∷ [];
      pcursect = some c.1;
    })

-- The value, with the pointer at it: its terminator is written and the pointer goes behind it.
unfoldable pub take_value : Parser → ℕ → Outcome (Parser × Text)
unfolding terminate
take_value s zero = ok (s, emptystring)
take_value s (suc n) =
    terminate s (s.p + suc n) >>= λ t. ok (record t { p = t.p + suc n + 1 }, at s.p)

-- `p += len; if (*p != '=') p = skipws(p); ++p; p = skipws(p);`
abbrev pub to_value : Parser → ℕ → Outcome Parser
to_value s len = do
  let q = go s len
  c ← deref (ahead q)
  r ← (if not (c == b'=') then by_skipws q else ok q)
  by_skipws (go r 1)

unfoldable pub key_line : Parser → ℕ → Outcome Parser
unfolding add_key skipws skipline parse_key_value terminate take_value
key_line s zero = by_skipline s
key_line s (suc n) = do
  r ← to_value s (suc n)
  t ← terminate r (s.p + suc n)
  len ← parse_key_value (ahead t)
  taken ← take_value t len
  u ← add_key (at s.p) taken.1 taken.0
  c ← deref (ahead u)
  if c == b'\n' then by_skipline u else ok u

-- The `switch`, with the byte that it is on.
unfoldable pub dispatch : ℕ → Parser → Outcome Parser
unfolding section_line key_line parse_section_name parse_key_name skipline
dispatch c s =
    if c == b'\n' || c == b'\r'
    then ok (go s 1)
    else if c == b'['
    then (parse_section_name (ahead (go s 1)) >>= section_line (go s 1))
    else if c == b';' || c == b'#'
    then by_skipline s
    else (parse_key_name (ahead s) >>= key_line s)

-- The body of the loop.
unfoldable pub step : Parser → Outcome Parser
unfolding dispatch skipws
step s = do t ← by_skipws s; c ← deref (ahead t); dispatch c t

-- `do … while ((*p != '\0') && ((p - pfb) < pdb->bufsize))`
unfoldable pub parse_loop : ℕ → ℕ → Parser → Outcome Parser
unfolding step
parse_loop zero bufsize s = no_fuel
parse_loop (suc fuel) bufsize s = do
  t ← step s
  c ← deref (ahead t)
  let more = parse_loop fuel bufsize t
  if not (c == 0) && ltb t.p bufsize then more else ok t

abbrev pub initial : Bytes → Parser
initial buf = record { buf = buf; p = 0; sections = []; keys = []; pcursect = none }

-- One round for each byte of the buffer is enough.
unfoldable pub parse_ini_file : Bytes → Outcome Parser
unfolding parse_loop
parse_ini_file text =
    let buf = text ++ 0 ∷ [] in parse_loop (length buf + 1) (length text) (initial buf)

-- The parts of `dbdesc_t` that the accessors read.
pub record Database : Type 0 where
  pub pbuf : Bytes
  pub psections : List SectionRow
  pub pkeys : List KeyRow

-- The tables are allocated for an estimated number of rows, and the parser fills them from the
-- start with no check: a table that gets more rows than that is written out of its bounds. `none`
-- is the failure for a file with no key. The realloc that shrinks the tables behind the parser is taken
-- to leave them in place: the pointers between the rows are not adjusted.
unfoldable pub create_db_structure : Bytes → Outcome (Option Database)
unfolding parse_ini_file
create_db_structure text = do
  let nsects = length text / 4
  let npairs = length text / 4
  s ← parse_ini_file text
  if ltb nsects (length s.sections) || ltb npairs (length s.keys)
      then fault
      else if length s.keys == 0
      then ok none
      else ok (some (record { pbuf = s.buf; psections = s.sections; pkeys = s.keys }))
