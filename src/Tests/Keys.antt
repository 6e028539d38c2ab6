-- ===== src/Tests/Keys.antt =====
-- Tests of the key tables of src/keydefs.c.
use kindle_launchpad.Base.{
  ◌+ℤ◌, OnOk, none, ok, ◌>>=◌, [], ◌∷◌, ◌++◌, Bytes, ℕ, List, ◌≡◌, refl, ◌≤◌, some, none, codes,
  arith, pos, get_elem?,
}
use kindle_launchpad.Keys.Codes.{kpkey_shift, k3key_home, kpkey_home}
use kindle_launchpad.Keys.Convert.{convert_key_code}
use kindle_launchpad.Keys.Convert.RoundTrip.{
  convert_key_code_round_trip, decimal, octal, hexadecimal, constant,
}
use kindle_launchpad.Keys.Laws.{
  get_default_input_keydefs-IsConsistent, get_key_substitute_code-idempotent,
  default_input_keys_round_trip,
}
use kindle_launchpad.Keys.Load.{load_keys}
use kindle_launchpad.Keys.Load.Rows.{IsKeyTable, load_keys-IsKeyTable}
use kindle_launchpad.Keys.Names.{
  blank_table, get_default_input_keydefs, find_input_key_code, input_key_name,
  get_key_substitute_code,
}
use kindle_launchpad.Keys.Table.{InputKey, max_code, default_input_keys}

find_shift : find_input_key_code get_default_input_keydefs (codes "shift") ≡ some kpkey_shift
unfolding find_input_key_code get_default_input_keydefs
find_shift = refl

name_of_shift : input_key_name get_default_input_keydefs (pos kpkey_shift) ≡ some (codes "Shift")
unfolding input_key_name get_default_input_keydefs
name_of_shift = refl

home_of_kindle3 : get_key_substitute_code k3key_home ≡ kpkey_home
unfolding get_key_substitute_code
home_of_kindle3 = refl

code_forms :
    (convert_key_code (codes "0x2A") ≡ some 42)
    × (convert_key_code (codes "052") ≡ some 42)
    × (convert_key_code (codes " 42") ≡ some 42)
    × (convert_key_code (codes "-1") ≡ none)
    × (convert_key_code (codes "256") ≡ none)
    × (convert_key_code (codes "0x") ≡ none)
unfolding convert_key_code
code_forms = (refl, refl, refl, refl, refl, refl)

round_trip_example :
    (convert_key_code (decimal 42) ≡ some 42)
    × (convert_key_code (octal 42) ≡ some 42)
    × (convert_key_code (hexadecimal 42) ≡ some 42)
    × (convert_key_code (constant 42) ≡ some 42)
    × ((s : List ℕ) (d : ℕ) → convert_key_code s ≡ some d → d ≤ max_code)
round_trip_example = convert_key_code_round_trip 42 (omega arith)

consistent_example :
    (k : InputKey) × (get_elem? get_default_input_keydefs.input_keys 64 ≡ some k)
    × (k.input_key_code ≡ 115)
unfolding get_default_input_keydefs
consistent_example = get_default_input_keydefs-IsConsistent 115 64 refl

idempotent_example :
    get_key_substitute_code (get_key_substitute_code k3key_home)
    ≡ get_key_substitute_code k3key_home
idempotent_example = get_key_substitute_code-idempotent k3key_home

abbrev shift_row : InputKey
shift_row = record { input_key_code = kpkey_shift; input_key_name = codes "Shift" }

names_example :
    (find_input_key_code get_default_input_keydefs shift_row.input_key_name
      ≡ some shift_row.input_key_code)
    × (input_key_name get_default_input_keydefs (pos shift_row.input_key_code)
        ≡ some shift_row.input_key_name)
unfolding default_input_keys
names_example = default_input_keys_round_trip 40 {k = shift_row} refl

-- Two names of one code: the row of the second stays blank, and only two rows are counted.
abbrev keydefs : Bytes
keydefs =
    codes "[InputKeys]" ++ 10 ∷ codes "A=49" ++ 10 ∷ codes "B=49" ++ 10 ∷ codes "C=61" ++ 10 ∷ []

loses_third_name :
    load_keys (some keydefs) blank_table >>= (λ t. ok (find_input_key_code t (codes "C"))) ≡ ok none
unfolding load_keys find_input_key_code ◌+ℤ◌
loses_third_name = refl

keydefs_ini_example : OnOk IsKeyTable (load_keys (some keydefs) blank_table)
keydefs_ini_example = load_keys-IsKeyTable (some keydefs)
