-- ===== src/Launchpad/Load.antt =====
-- src/launchpad.c: process_ini_file and launchpad_init.
use kindle_launchpad.Base.{
  ℤ, pos, minus_one, ℕ, zero, suc, ◌+◌, ◌-◌, Bool, true, false, not, ◌||◌, ◌&&◌, List, [], ◌∷◌,
  ◌++◌, Option, none, some, ltb, ◌==◌, if◌then◌else◌, Bytes, codes, c_string, same_bytes, length,
  get_or, drop, strcpy, Outcome, ok, fault, ◌>>=◌,
}
pub mod Table
pub mod Keeping
pub mod Loading
use kindle_launchpad.Keys.Names.{KeyTable, blank_table}
use kindle_launchpad.Keys.Load.{load_keys}
use kindle_launchpad.IniFile.Parse.{Database}
use kindle_launchpad.IniFile.Open.{inidb_open, into_buffer}
use kindle_launchpad.IniFile.Access.{
  inidb_find_section, inidb_get_number_of_keys, inidb_get_key_name, inidb_get_key_value,
}
use kindle_launchpad.Launchpad.Action.{Action, max_path, has_sequence}
use kindle_launchpad.Launchpad.Sequence.{cleared, parse_action_sequence}
use kindle_launchpad.Launchpad.Command.{parse_action_command}
use kindle_launchpad.Launchpad.State.{Launchpad, Settings, read_settings, settings_section}
use kindle_launchpad.Rce.Config.{
  Rce, Network, set_rce_defaults, set_rce_autoenable, set_rce_enable_string, set_rce_disable_string,
  set_rce_interface, set_rce_mcgroup, set_rce_port,
}

-- The loop over `pactions` that sets `found`.
unfoldable pub is_defined : Action → List Action → Bool
unfolding has_sequence
is_defined pnew [] = false
is_defined pnew (pa ∷ l) = has_sequence pnew.sequence pnew.len pa || is_defined pnew l

-- `if ((parse_action_command(…)) > 0) nactions += 1;`
abbrev pub add_action : Action → Launchpad → Launchpad
add_action pnew l =
    if ltb 0 (length pnew.command) then record l { pactions = l.pactions ++ pnew ∷ [] } else l

abbrev pub with_command : Action → Launchpad → Option Bytes → Outcome Launchpad
with_command pnew l none = ok l
with_command pnew l (some value) = do
  pact ← parse_action_command (c_string l.script_dir) value pnew
  ok (add_action pact l)

abbrev pub with_sequence : Database → ℕ → ℕ → Launchpad → Action → Outcome Launchpad
with_sequence db s_idx i l pnew =
    let value = (do
      got ← inidb_get_key_value db s_idx i
      v ← into_buffer max_path got
      with_command pnew l v) in
    if ltb 0 pnew.len && not (is_defined pnew l.pactions) then value else ok l

abbrev pub with_name : Database → ℕ → ℕ → Launchpad → Option Bytes → Outcome Launchpad
with_name db s_idx i l none = ok l
with_name db s_idx i l (some name) =
    parse_action_sequence l.keys name cleared >>= with_sequence db s_idx i l

-- The body of the loop over the keys of [Actions].
unfoldable pub action_row : Database → ℕ → ℕ → Launchpad → Outcome Launchpad
unfolding parse_action_sequence parse_action_command is_defined inidb_get_key_name
    inidb_get_key_value
action_row db s_idx i l = do
  got ← inidb_get_key_name db s_idx i
  name ← into_buffer max_path got
  with_name db s_idx i l name

-- `for (i = 0; i < n; i++)`, with the rounds that are left and `i`.
unfoldable pub action_rows : Database → ℕ → ℕ → ℕ → Launchpad → Outcome Launchpad
unfolding action_row
action_rows db s_idx zero i l = ok l
action_rows db s_idx (suc n) i l =
    action_row db s_idx i l >>= λ next. action_rows db s_idx n (i + 1) next

-- The block of the section [Actions].
unfoldable pub actions_section : Database → ℕ → Launchpad → Outcome Launchpad
unfolding action_rows
actions_section db s_idx l = do n ← inidb_get_number_of_keys db s_idx; action_rows db s_idx n 0 l

-- `if ((s_idx = inidb_find_section(pdb, p)) >= 0) …`
abbrev pub in_section {ℓ} : {A : Type ℓ} → Database → Bytes → (ℕ → A → Outcome A) → A → Outcome A
in_section db p f l = elim (inidb_find_section db p) [ none ↦ ok l | some s_idx ↦ f s_idx l ]

module _ (net : Network) where
  abbrev pub rce_settings : Settings Rce
  rce_settings =
      (codes "AutoEnable", set_rce_autoenable)
      ∷ (codes "enableRCE", set_rce_enable_string)
      ∷ (codes "disableRCE", set_rce_disable_string)
      ∷ (codes "Interface", set_rce_interface net)
      ∷ (codes "MulticastGroup", set_rce_mcgroup net)
      ∷ (codes "Port", set_rce_port)
      ∷ []

  -- The block of the section [RemoteCommandEntry].
  unfoldable pub rce_section : Database → ℕ → Rce → Outcome Rce
  unfolding read_settings
  rce_section db s_idx r = read_settings db s_idx rce_settings r

  -- The three sections of a database.
  unfoldable pub process_database : Database → Launchpad × Rce → Outcome (Launchpad × Rce)
  unfolding settings_section actions_section rce_section inidb_find_section
  process_database db (l0, r0) = do
    l1 ← in_section db (codes "Settings") (settings_section db) l0
    l2 ← in_section db (codes "Actions") (actions_section db) l1
    r1 ← in_section db (codes "RemoteCommandEntry") (rce_section db) r0
    ok (l2, r1)

  abbrev pub with_database : Option Database → Launchpad × Rce → Outcome (Launchpad × Rce)
  with_database none s = ok s
  with_database (some db) s = process_database db s

  -- The result of the source is not read by its caller.
  unfoldable pub process_ini_file : Option Bytes → Launchpad × Rce → Outcome (Launchpad × Rce)
  unfolding inidb_open process_database
  process_ini_file contents s = inidb_open contents >>= λ db. with_database db s

-- A directory entry: whether it is a regular file, its name, and what is read from it.
pub record DirEntry : Type 0 where
  pub is_regular : Bool
  pub d_name : Bytes
  pub contents : Option Bytes

-- `(n > 3) && (strcmp(&d_name[n-4], ".ini") == 0)`
unfoldable pub is_ini_name : Bytes → Bool
is_ini_name d_name =
    let n = length d_name in ltb 3 n && same_bytes (drop (n - 4) d_name) (codes ".ini")

-- The length of `path` with the slash that is put behind it.
abbrev pub path_length : Bytes → ℕ
path_length path = if get_or path (length path - 1) 0 == b'/' then length path else length path + 1

-- The path of a file is put together in an array of MAXPATH bytes; the last byte of an empty path is
-- in front of it.
abbrev pub path_fits : Bytes → Bytes → Bool
path_fits path d_name = ltb 0 (length path) && ltb (path_length path + length d_name) max_path

module _ (net : Network) where
  -- The loop over the directory.
  unfoldable pub process_entries :
      Bytes → List DirEntry → Launchpad × Rce → Outcome (Launchpad × Rce)
  unfolding is_ini_name process_ini_file same_bytes
  process_entries path [] s = ok s
  process_entries path (dp ∷ dps) s =
      let rest = (λ (next : Launchpad × Rce). process_entries path dps next) in
      let this = if path_fits path dp.d_name then process_ini_file net dp.contents s else fault in
      if dp.is_regular && is_ini_name dp.d_name then this >>= rest else rest s

  -- The state behind it (`init_result` is the number that it returns); `entries` is `none` if the directory cannot be opened, and `keydefs` is what
  -- is read from keydefs.ini in the directory of the process. The rows behind [Settings] and the
  -- strings of remote command entry are those of the call before, if there was one.
  unfoldable pub launchpad_init :
      Bytes → Option Bytes → Option (List DirEntry) → Launchpad × Rce → Outcome (Launchpad × Rce)
  unfolding process_entries load_keys
  launchpad_init path keydefs entries (l, r) = do
    keys ← load_keys keydefs blank_table
    let s : Launchpad × Rce = (record l { keys = keys }, set_rce_defaults net r)
    elim entries [ none ↦ ok s | some dps ↦ process_entries path dps s ]

-- What launchpad_init returns, from the state behind it: the number of actions, or -1 if the directory
-- cannot be opened.
abbrev pub init_result : Option (List DirEntry) → Launchpad × Rce → ℤ
init_result none s = minus_one
init_result (some dps) s = pos (length s.0.pactions)
