-- ===== src/Tests/IniFile.antt =====
-- Tests of the reader of configuration files of src/inifile.c.
use mathlib.Core.Path.{subst}
use kindle_launchpad.Base.{
  ℕ, zero, suc, ◌≤◌, true, same_name, get_elem?, OnOk, arith, ◌≡◌, refl, ◌∷◌, [], ◌++◌, ◌≢◌, pos,
  ◌+ℤ◌, some, none, Bytes, codes, Outcome, ok, fault, no_fuel, ◌>>=◌, length,
}
use kindle_launchpad.IniFile.Parse.{
  at, text_of, SectionRow, Database, Parser, parse_ini_file, create_db_structure,
}
use kindle_launchpad.IniFile.Access.{
  inidb_find_section, inidb_find_key, inidb_get_key_value, inidb_get_key_name,
}
use kindle_launchpad.IniFile.Progress.{parse_ini_file-has_fuel}
use kindle_launchpad.IniFile.Consistency.{Sound, parse_ini_file-Sound}
use kindle_launchpad.IniFile.Finding.{inidb_find_key-inidb_get_key_name}
use kindle_launchpad.IniFile.Tables.{Consistent, Counts, keys_of, some_row}
use kindle_launchpad.IniFile.Inside.{Within}
use kindle_launchpad.IniFile.Safety.{parse_ini_file-returns}

abbrev lines : Bytes
lines =
    codes "# keys"
    ++ 10 ∷ codes "[Settings]"
    ++ 10 ∷ codes "Trailer = Sym  "
    ++ 10 ∷ codes "HotInterval=500"

abbrev text : Bytes
text = lines ++ 10 ∷ []

-- What a client reads: the value of a key of the section `Settings`.
abbrev settings_value : Bytes → Outcome Bytes
settings_value key = do
  made ← create_db_structure text
  db ← elim made [ none ↦ fault | some db ↦ ok db ]
  sidx ← elim (inidb_find_section db (codes "settings")) [ none ↦ fault | some i ↦ ok i ]
  found ← inidb_find_key db (pos sidx) key
  kidx ← elim found [ none ↦ fault | some i ↦ ok i ]
  got ← inidb_get_key_value db sidx kidx
  elim got.1 [ none ↦ fault | some value ↦ ok value ]

reads_trailer : settings_value (codes "trailer") ≡ ok (codes "Sym")
unfolding create_db_structure inidb_find_section inidb_find_key inidb_get_key_value ◌+ℤ◌
reads_trailer = refl

reads_interval : settings_value (codes "HOTINTERVAL") ≡ ok (codes "500")
unfolding create_db_structure inidb_find_section inidb_find_key inidb_get_key_value ◌+ℤ◌
reads_interval = refl

-- A last line that is not ended: the parser reads behind its buffer.
open_line : parse_ini_file (codes "Trailer=Sym") ≡ fault
unfolding parse_ini_file
open_line = refl

-- Keys without a value: more rows than there is room for.
short_lines : create_db_structure (codes "a=" ++ 10 ∷ []) ≡ fault
unfolding create_db_structure
short_lines = refl

returns_example : (s : Parser) × (parse_ini_file text ≡ ok s) × Within (length lines) s
returns_example = parse_ini_file-returns lines

has_fuel_example : parse_ini_file (codes "[a") ≢ no_fuel
has_fuel_example = parse_ini_file-has_fuel (codes "[a")

tables_example : OnOk Sound (parse_ini_file text)
tables_example = parse_ini_file-Sound text

-- One section with one key, `k=v`.
abbrev one_key : Database
one_key = record {
  pbuf = codes "s]" ++ 0 ∷ codes "k" ++ 0 ∷ codes "v" ++ 0 ∷ [];
  psections = (record { psname = at 0; ppairs = some 0; npairs = 1 }) ∷ [];
  pkeys = (record { pkname = at 3; pkvalue = at 5; psect = 0 }) ∷ [];
}

one_key-Consistent : Consistent one_key.psections one_key.pkeys
unfolding keys_of
one_key-Consistent = (rows, beyond)
  where
    rows :
        (i : ℕ) (r : SectionRow) → get_elem? one_key.psections i ≡ some r → Counts i one_key.pkeys r
    rows zero r e = subst (Counts 0 one_key.pkeys) (some_row e) (refl, (omega arith, refl))
    rows (suc i) r e = cc

    beyond : (i : ℕ) → 1 ≤ i → keys_of i one_key.pkeys ≡ 0
    beyond zero h = absurd (omega arith)
    beyond (suc i) h = ground arith

found_one : inidb_find_key one_key (pos 0) (codes "K") ≡ ok (some 0)
unfolding inidb_find_key same_name text_of
found_one = refl

find_example :
    (name : Bytes) × (inidb_get_key_name one_key 0 0 ≡ ok (length name, some name))
    × (same_name (codes "K") name ≡ true)
find_example =
    inidb_find_key-inidb_get_key_name one_key 0 (codes "K") 0 one_key-Consistent found_one
