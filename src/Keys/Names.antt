-- ===== src/Keys/Names.antt =====
-- src/keydefs.c: get_default_input_keydefs and get_key_substitute_code; src/launchpad.c:
-- find_input_key_code and input_key_name, which read the table.
use kindle_launchpad.Base.{
  ℕ, ◌+◌, ℤ, pos, negsuc, List, [], ◌∷◌, ◌++◌, ◌-◌, Option, none, some, ltb, ◌==◌, if◌then◌else◌,
  Bytes, same_name, length, get_elem?, get_or, set, take, replicate,
}
use kindle_launchpad.Keys.Table.{
  InputKey, InputKeyAlias, max_keys, max_code, default_input_keys, default_key_alias,
}

-- `input_keys`, `input_key_codes` (`none` is -1) and `n_input_keys` of src/launchpad.c
pub record KeyTable : Type 0 where
  pub input_keys : List InputKey
  pub input_key_codes : List (Option ℕ)
  pub n_input_keys : ℕ

abbrev pub blank_key : InputKey
blank_key = record { input_key_code = 0; input_key_name = [] }

-- All rows zero and all codes -1.
abbrev pub blank_table : KeyTable
blank_table = record {
  input_keys = replicate max_keys blank_key;
  input_key_codes = replicate (max_code + 1) none;
  n_input_keys = 0;
}

-- `for (i = 0; i < n; i++) pcodes[table[i].input_key_code] = i`
unfoldable pub fill_codes : ℕ → List InputKey → List (Option ℕ) → List (Option ℕ)
fill_codes i [] codes = codes
fill_codes i (k ∷ ks) codes = fill_codes (i + 1) ks (set codes k.input_key_code (some i))

unfoldable pub get_default_input_keydefs : KeyTable
unfolding fill_codes default_input_keys
get_default_input_keydefs =
    let n = length default_input_keys in
    record {
      input_keys = default_input_keys ++ replicate (max_keys - n) blank_key;
      input_key_codes = fill_codes 0 default_input_keys (replicate (max_code + 1) none);
      n_input_keys = n;
    }

-- The code of the first row that has the name, case ignored.
unfoldable pub find_in_rows : List InputKey → Bytes → Option ℕ
unfolding same_name
find_in_rows [] pkey = none
find_in_rows (k ∷ ks) pkey =
    if same_name k.input_key_name pkey then some k.input_key_code else find_in_rows ks pkey

-- `none` is the -1 of the source.
unfoldable pub find_input_key_code : KeyTable → Bytes → Option ℕ
unfolding find_in_rows
find_input_key_code t pkey = find_in_rows (take t.n_input_keys t.input_keys) pkey

abbrev name_of_row : Option InputKey → Option Bytes
name_of_row none = none
name_of_row (some k) = some k.input_key_name

abbrev name_at : KeyTable → Option ℕ → Option Bytes
name_at t none = none
name_at t (some i) = name_of_row (get_elem? t.input_keys i)

-- `none` is the null pointer.
unfoldable pub input_key_name : KeyTable → ℤ → Option Bytes
input_key_name t (pos code) =
    if ltb max_code code then none else name_at t (get_or t.input_key_codes code none)
input_key_name t (negsuc n) = none

-- The first alias of the code, or the code itself.
unfoldable pub substitute_in : List InputKeyAlias → ℕ → ℕ
substitute_in [] code = code
substitute_in (a ∷ as') code =
    if code == a.input_key_code then a.substitute_code else substitute_in as' code

unfoldable pub get_key_substitute_code : ℕ → ℕ
unfolding substitute_in default_key_alias
get_key_substitute_code code = substitute_in default_key_alias code
