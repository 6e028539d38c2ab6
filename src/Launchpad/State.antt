-- ===== src/Launchpad/State.antt =====
-- The static variables of src/launchpad.c, and the section [Settings] of a configuration file.
use kindle_launchpad.Base.{
  ℕ, ◌-◌, ℤ, pos, ◌++◌, List, [], ◌∷◌, Option, none, some, ltb, if◌then◌else◌, Bytes, codes, length,
  replicate, strncpy, Outcome, ok, ◌>>=◌,
}
pub mod Paths
use kindle_launchpad.Keys.Codes.{kpkey_shift, kpkey_enter}
use kindle_launchpad.Keys.Convert.{atoi}
use kindle_launchpad.Keys.Names.{KeyTable, blank_table, find_input_key_code}
use kindle_launchpad.IniFile.Parse.{Database}
use kindle_launchpad.IniFile.Open.{into_buffer}
use kindle_launchpad.IniFile.Access.{inidb_find_key, inidb_get_key_value}
use kindle_launchpad.Launchpad.Action.{Action, max_path}

-- The paths are arrays of MAXPATH bytes. `trailer` is `none` for -1. `pactions` is the table up to
-- `nactions`; the memory behind it is allocated for every row that is added. The path of the
-- volume buttons is never changed.
pub record Launchpad : Type 0 where
  pub kbd_input : Bytes
  pub fw_input : Bytes
  pub script_dir : Bytes
  pub introducer : ℕ
  pub trailer : Option ℕ
  pub hot_interval : ℤ
  pub key_delay : ℤ
  pub keys : KeyTable
  pub pactions : List Action

-- A `char` array that is initialised by a string.
abbrev pub path_array : Bytes → Bytes
path_array s = s ++ replicate (max_path - length s) 0

-- The values that the program starts with.
abbrev pub initial : Launchpad
initial = record {
  kbd_input = path_array (codes "/dev/input/event0");
  fw_input = path_array (codes "/dev/input/event1");
  script_dir = path_array [];
  introducer = kpkey_shift;
  trailer = some kpkey_enter;
  hot_interval = pos 500;
  key_delay = pos 300;
  keys = blank_table;
  pactions = [];
}

abbrev pub value_at : Database → ℕ → Option ℕ → Outcome (Option Bytes)
value_at db s_idx none = ok none
value_at db s_idx (some k_idx) = inidb_get_key_value db s_idx k_idx >>= into_buffer max_path

-- The value that is copied to `tmpbuf`, where the result of the source is not 0.
unfoldable pub retrieve_key_value : Database → ℕ → Bytes → Outcome (Option Bytes)
unfolding inidb_find_key inidb_get_key_value
retrieve_key_value db s_idx pkey = inidb_find_key db (pos s_idx) pkey >>= value_at db s_idx

-- `if ((len = retrieve_key_value(…)) > 0) …`
abbrev pub on_value {ℓ} : {A : Type ℓ} → (Bytes → A → A) → Option Bytes → A → A
on_value f none l = l
on_value f (some v) l = f v l

unfoldable pub with_value {ℓ} :
    {A : Type ℓ} → Database → ℕ → Bytes → (Bytes → A → A) → A → Outcome A
unfolding retrieve_key_value
with_value db s_idx pkey f l = retrieve_key_value db s_idx pkey >>= λ v. ok (on_value f v l)

-- A name with no code leaves the introducer alone.
abbrev pub set_introducer : Bytes → Launchpad → Launchpad
set_introducer v l = elim (find_input_key_code l.keys v) [
  | none ↦ l
  | some code ↦ record l { introducer = code }
]

-- A name with no code makes the trailer -1.
abbrev pub set_trailer : Bytes → Launchpad → Launchpad
set_trailer v l = record l { trailer = find_input_key_code l.keys v }

-- `strncpy(dst, tmpbuf, (len < MAXPATH) ? len : MAXPATH-1)`
abbrev pub copy_path : Bytes → Bytes → Bytes
copy_path dst v = strncpy dst v (if ltb (length v) max_path then length v else max_path - 1)

-- The values that a section is searched for, in the order of the source, and what is done with each.
abbrev pub Settings {ℓ} : Type ℓ → Type ℓ
Settings A = List (Bytes × (Bytes → A → A))

unfoldable pub read_settings {ℓ} : {A : Type ℓ} → Database → ℕ → Settings A → A → Outcome A
unfolding with_value
read_settings db s_idx [] l = ok l
read_settings db s_idx ((pkey, f) ∷ fs) l =
    with_value db s_idx pkey f l >>= λ next. read_settings db s_idx fs next

abbrev pub settings : Settings Launchpad
settings =
    (codes "Introducer", set_introducer)
    ∷ (codes "Trailer", set_trailer)
    ∷ (codes "HotInterval", λ v l. record l { hot_interval = atoi v })
    ∷ (codes "ScriptDirectory", λ v l. record l { script_dir = copy_path l.script_dir v })
    ∷ (codes "KeyboardInput", λ v l. record l { kbd_input = copy_path l.kbd_input v })
    ∷ (codes "FivewayInput", λ v l. record l { fw_input = copy_path l.fw_input v })
    ∷ (codes "InterKeyDelay", λ v l. record l { key_delay = atoi v })
    ∷ []

-- The block of the section [Settings].
unfoldable pub settings_section : Database → ℕ → Launchpad → Outcome Launchpad
unfolding read_settings find_input_key_code atoi
settings_section db s_idx l = read_settings db s_idx settings l
