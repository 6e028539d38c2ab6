-- ===== src/IniFile/Access.antt =====
-- src/inifile.c: the functions that read a database, and retrieve_key_value of src/launchpad.c.
-- A row is named by its index. What the source reads outside of a table, or through the null
-- `ppairs` of a section with no key, is a fault.
use kindle_launchpad.Base.{
  ℕ, ◌+◌, ℤ, pos, negsuc, ◌&&◌, List, [], ◌∷◌, Option, none, some, ltb, ◌==◌, if◌then◌else◌, Bytes,
  same_name, length, get_elem?, drop, Outcome, ok, fault, ◌>>=◌,
}
use kindle_launchpad.IniFile.Parse.{Text, text_of, SectionRow, KeyRow, Database}

abbrev pub inidb_get_number_of_sections : Database → ℕ
inidb_get_number_of_sections db = length db.psections

abbrev pub row_or_fault : Option SectionRow → Outcome SectionRow
row_or_fault none = fault
row_or_fault (some r) = ok r

-- `p->psections + sidx`, read
abbrev pub section_at : Database → ℕ → Outcome SectionRow
section_at db sidx = row_or_fault (get_elem? db.psections sidx)

-- What a text of the database reads as.
abbrev pub read : Database → Text → Bytes
read db t = text_of db.pbuf t

-- The length that is returned, and the name, which is copied.
abbrev pub inidb_get_section_name : Database → ℕ → Outcome (ℕ × Bytes)
inidb_get_section_name db idx = do
  r ← section_at db idx
  ok (length (read db r.psname), read db r.psname)

abbrev pub inidb_get_number_of_keys : Database → ℕ → Outcome ℕ
inidb_get_number_of_keys db idx = do r ← section_at db idx; ok r.npairs

-- The keys from the first one of a section on.
abbrev pub from_pairs : Database → Option ℕ → Outcome (List KeyRow)
from_pairs db none = fault
from_pairs db (some i) = ok (drop i db.pkeys)

-- The loop of the accessors: `j` counts the keys of the section that were met.
unfoldable pub nth_key : ℕ → ℕ → ℕ → List KeyRow → Option KeyRow
nth_key sidx kidx j [] = none
nth_key sidx kidx j (r ∷ rs) =
    let counted = nth_key sidx kidx (j + 1) rs in
    let other = nth_key sidx kidx j rs in
    if r.psect == sidx then if j == kidx then some r else counted else other

-- The row that the accessors find, if there is one.
unfoldable pub key_at : Database → ℕ → ℕ → Outcome (Option KeyRow)
unfolding nth_key
key_at db sidx kidx = do
  r ← section_at db sidx
  let found = (from_pairs db r.ppairs >>= λ rows. ok (nth_key sidx kidx 0 rows))
  if ltb kidx r.npairs then found else ok none

-- The length that is returned, and the string that is copied, if one is.
abbrev pub copied : Database → Option Text → ℕ × Option Bytes
copied db none = (0, none)
copied db (some t) = (length (read db t), some (read db t))

abbrev pub value_of : Option KeyRow → Option Text
value_of none = none
value_of (some r) = some r.pkvalue

abbrev pub name_of : Option KeyRow → Option Text
name_of none = none
name_of (some r) = some r.pkname

unfoldable pub inidb_get_key_value : Database → ℕ → ℕ → Outcome (ℕ × Option Bytes)
unfolding key_at text_of
inidb_get_key_value db sidx kidx = do r ← key_at db sidx kidx; ok (copied db (value_of r))

unfoldable pub inidb_get_key_name : Database → ℕ → ℕ → Outcome (ℕ × Option Bytes)
unfolding key_at text_of
inidb_get_key_name db sidx kidx = do r ← key_at db sidx kidx; ok (copied db (name_of r))

abbrev pub inidb_get_section_name_length : Database → ℕ → Outcome ℕ
inidb_get_section_name_length db sidx = do r ← section_at db sidx; ok (length (read db r.psname))

-- `len`, which is 0 with no row
abbrev pub length_of : Database → Option Text → ℕ
length_of db none = 0
length_of db (some t) = length (read db t)

unfoldable pub inidb_get_key_value_length : Database → ℕ → ℕ → Outcome ℕ
unfolding key_at text_of
inidb_get_key_value_length db sidx kidx = do r ← key_at db sidx kidx; ok (length_of db (value_of r))

unfoldable pub inidb_get_key_name_length : Database → ℕ → ℕ → Outcome ℕ
unfolding key_at text_of
inidb_get_key_name_length db sidx kidx = do r ← key_at db sidx kidx; ok (length_of db (name_of r))

-- `for (i = 0; i < p->nsections; i++)`, from the row `i` on
unfoldable pub find_section_from : Database → Bytes → ℕ → List SectionRow → Option ℕ
find_section_from db pname i [] = none
find_section_from db pname i (r ∷ rs) =
    let rest = find_section_from db pname (i + 1) rs in
    if same_name pname (read db r.psname) then some i else rest

-- `none` is -1.
unfoldable pub inidb_find_section : Database → Bytes → Option ℕ
unfolding find_section_from
inidb_find_section db pname = find_section_from db pname 0 db.psections

-- The loop of inidb_find_key.
unfoldable pub find_key_from : Database → ℕ → Bytes → ℕ → List KeyRow → Option ℕ
find_key_from db sidx pname j [] = none
find_key_from db sidx pname j (r ∷ rs) =
    let counted = find_key_from db sidx pname (j + 1) rs in
    let other = find_key_from db sidx pname j rs in
    if r.psect == sidx
    then if same_name pname (read db r.pkname) then some j else counted
    else other

-- `none` is -1.
unfoldable pub inidb_find_key : Database → ℤ → Bytes → Outcome (Option ℕ)
unfolding find_key_from
inidb_find_key db (negsuc n) pname = ok none
inidb_find_key db (pos sidx) pname =
    let found = (do
      r ← section_at db sidx
      rows ← from_pairs db r.ppairs
      ok (find_key_from db sidx pname 0 rows)) in
    if ltb 0 (length db.psections) && ltb sidx (length db.psections) then found else ok none
