-- ===== src/Keys/Load.antt =====
-- src/keydefs.c: get_input_keydefs, which reads the names of keys from keydefs.ini.
use kindle_launchpad.Base.{
  ℕ, zero, suc, ◌+◌, ◌-◌, Bytes, codes, Option, none, some, ltb, ◌==◌, if◌then◌else◌, set, get_or,
  take, Outcome, ok, ◌>>=◌,
}
pub mod Rows
use kindle_launchpad.Keys.Table.{InputKey, max_keys}
use kindle_launchpad.Keys.Names.{KeyTable, get_default_input_keydefs}
use kindle_launchpad.Keys.Convert.{convert_key_code}
use kindle_launchpad.IniFile.Parse.{Database}
use kindle_launchpad.IniFile.Open.{inidb_open, into_buffer}
use kindle_launchpad.IniFile.Access.{
  inidb_find_section, inidb_get_number_of_keys, inidb_get_key_name, inidb_get_key_value,
}

-- MAXNAME and MAXPATH, the sizes of `tmpname` and `tmpbuf`
abbrev pub max_name : ℕ
max_name = 16

abbrev pub max_path : ℕ
max_path = 256

-- A code that no row has yet is stored in the row `i`, and `rc` is counted.
abbrev pub store_code : ℕ → Bytes → Option ℕ → KeyTable → KeyTable
store_code i name none t = t
store_code i name (some code) t = elim (get_or t.input_key_codes code none) [
  | some j ↦ t
  | none ↦ record {
    input_keys =
        set t.input_keys i
          (record { input_key_code = code; input_key_name = take (max_name - 1) name });
    input_key_codes = set t.input_key_codes code (some i);
    n_input_keys = t.n_input_keys + 1;
  }
]

abbrev pub with_value : ℕ → Bytes → KeyTable → Option Bytes → KeyTable
with_value i name t none = t
with_value i name t (some value) = store_code i name (convert_key_code value) t

abbrev pub with_name : Database → ℕ → ℕ → KeyTable → Option Bytes → Outcome KeyTable
with_name db s_idx i t none = ok t
with_name db s_idx i t (some name) = do
  got ← inidb_get_key_value db s_idx i
  value ← into_buffer max_path got
  ok (with_value i name t value)

-- The body of the loop over the keys of [InputKeys].
unfoldable pub key_row : Database → ℕ → ℕ → KeyTable → Outcome KeyTable
unfolding inidb_get_key_name inidb_get_key_value convert_key_code
key_row db s_idx i t = do
  got ← inidb_get_key_name db s_idx i
  name ← into_buffer max_name got
  with_name db s_idx i t name

unfoldable pub key_rows : Database → ℕ → ℕ → ℕ → KeyTable → Outcome KeyTable
unfolding key_row
key_rows db s_idx zero i t = ok t
key_rows db s_idx (suc n) i t = key_row db s_idx i t >>= λ next. key_rows db s_idx n (i + 1) next

abbrev pub key_section : Database → KeyTable → Option ℕ → Outcome KeyTable
key_section db t none = ok t
key_section db t (some s_idx) = do
  n ← inidb_get_number_of_keys db s_idx
  key_rows db s_idx (if ltb max_keys n then max_keys else n) 0 t

abbrev pub with_database : KeyTable → Option Database → Outcome KeyTable
with_database t none = ok t
with_database t (some db) = key_section db t (inidb_find_section db (codes "InputKeys"))

-- The table with its rows; `n_input_keys` is the result of the source.
unfoldable pub get_input_keydefs : Option Bytes → KeyTable → Outcome KeyTable
unfolding inidb_open inidb_find_section key_rows
get_input_keydefs contents t = inidb_open contents >>= with_database (record t { n_input_keys = 0 })

-- `if ((n_input_keys = get_input_keydefs(…)) == 0) n_input_keys = get_default_input_keydefs(…);`
unfoldable pub load_keys : Option Bytes → KeyTable → Outcome KeyTable
unfolding get_input_keydefs get_default_input_keydefs
load_keys contents t = get_input_keydefs contents t >>= λ u.
    ok (if u.n_input_keys == 0 then get_default_input_keydefs else u)
