-- ===== src/Launchpad/Load/Loading.antt =====
-- The table of actions that launchpad_init of src/launchpad.c makes.
use kindle_launchpad.Base.{
  codes, ℕ, zero, suc, ◌+◌, ◌<◌, ◌≡◌, refl, sym, true, not, ◌&&◌, List, [], ◌∷◌, ◌++◌, Option, none,
  some, ltb, ltb→lt, if_rule, Bytes, length, c_string, ok, fault, strcpy, OnOk, OnOk-ok, OnOk->>=,
  OnOk-always, arith, if◌then◌else◌,
}
use kindle_launchpad.IniFile.Parse.{Database}
use kindle_launchpad.IniFile.Open.{inidb_open, into_buffer}
use kindle_launchpad.IniFile.Access.{
  inidb_get_number_of_keys, inidb_get_key_name, inidb_get_key_value,
}
use kindle_launchpad.Keys.Names.{blank_table, find_input_key_code}
use kindle_launchpad.Keys.Load.{load_keys}
use kindle_launchpad.Rce.Config.{Rce, Network}
use kindle_launchpad.Launchpad.Action.{Action, max_path, action, find_sequence_action}
use kindle_launchpad.Launchpad.State.{settings, set_introducer, Launchpad, settings_section}
use kindle_launchpad.Launchpad.Sequence.{cleared, parse_action_sequence}
use kindle_launchpad.Launchpad.Command.{parse_action_command, command_type, in_script_dir}
use kindle_launchpad.Launchpad.Load.{
  is_defined, add_action, with_command, with_sequence, with_name, action_row, action_rows,
  actions_section, in_section, rce_section, process_database, with_database, process_ini_file,
  DirEntry, is_ini_name, path_fits, process_entries, launchpad_init,
}
use kindle_launchpad.Launchpad.Load.Keeping.{read_settings-OnOk, in_section-OnOk}
use kindle_launchpad.Launchpad.Action.Laws.{NoneCarries, find_sequence_action-first}
use kindle_launchpad.Launchpad.State.{initial}
use kindle_launchpad.Launchpad.Load.Table.{
  NoneCarries-append, IsTable, HasKeys, IsTable-snoc, NoneCarries-is_defined,
  parse_action_sequence-HasKeys,
}

-- The action of which the command is read: its keys are kept, and the command fits in its array.
abbrev Completes : Action → Action → Type 0
Completes pnew pa =
    (pa.len ≡ pnew.len) × (pa.sequence ≡ pnew.sequence) × (length pa.command < max_path)

parse_action_command-Completes :
    (dir value : Bytes) (pnew : Action)
    → OnOk (Completes pnew) (parse_action_command dir value pnew)
unfolding parse_action_command
parse_action_command-Completes dir value pnew =
    let (type, p) = command_type value in
    let command = in_script_dir dir type p in
    OnOk->>= (λ c. length c < max_path) (Completes pnew) (strcpy max_path command) _
      (if_rule (OnOk (λ (c : Bytes). length c < max_path)) (ltb (length command) max_path)
        (λ e. ltb→lt (length command) max_path e) (λ e. tt))
      (λ c fits. (refl, refl, fits))

abbrev Tabled : Launchpad → Type 0
Tabled l = IsTable l.pactions

add_action-Tabled :
    (pnew pa : Action) (l : Launchpad)
    → Tabled l
    → HasKeys pnew
    → (ltb 0 pnew.len && not (is_defined pnew l.pactions)) ≡ true
    → Completes pnew pa
    → Tabled (add_action pa l)
add_action-Tabled pnew pa l h keys new (len, seq, fits) =
    if_rule Tabled (ltb 0 (length pa.command))
      (λ e.
        let (few, size) = keys (ground arith) in
        IsTable-snoc l.pactions pa h (ground (arith, len, seq, few, size, fits))
          (rw (seq, len) (NoneCarries-is_defined pnew l.pactions (ground arith))))
      (λ e. h)

with_sequence-Tabled :
    (db : Database) (s_idx i : ℕ) (l : Launchpad) (pnew : Action)
    → Tabled l
    → HasKeys pnew
    → OnOk Tabled (with_sequence db s_idx i l pnew)
with_sequence-Tabled db s_idx i l pnew h keys =
    if_rule (OnOk Tabled) (ltb 0 pnew.len && not (is_defined pnew l.pactions))
      (λ new.
        OnOk->>= (λ g. Unit {0}) Tabled (inidb_get_key_value db s_idx i) _ (OnOk-always _)
          (λ got x.
            OnOk->>= (λ v. Unit {0}) Tabled (into_buffer max_path got) _ (OnOk-always _)
              (λ v y. value v new)))
      (λ old. h)
  where
    value :
        (v : Option Bytes)
        → (ltb 0 pnew.len && not (is_defined pnew l.pactions)) ≡ true
        → OnOk Tabled (with_command pnew l v)
    value none new = h
    value (some v) new =
        OnOk->>= (Completes pnew) Tabled (parse_action_command (c_string l.script_dir) v pnew) _
          (parse_action_command-Completes (c_string l.script_dir) v pnew)
          (λ pa c. add_action-Tabled pnew pa l h keys new c)

with_name-Tabled :
    (db : Database) (s_idx i : ℕ) (l : Launchpad) (name : Option Bytes)
    → Tabled l
    → OnOk Tabled (with_name db s_idx i l name)
with_name-Tabled db s_idx i l none h = h
with_name-Tabled db s_idx i l (some name) h =
    OnOk->>= HasKeys Tabled (parse_action_sequence l.keys name cleared) _
      (parse_action_sequence-HasKeys l.keys name)
      (λ pnew keys. with_sequence-Tabled db s_idx i l pnew h keys)

action_row-Tabled :
    (db : Database) (s_idx i : ℕ) (l : Launchpad) → Tabled l → OnOk Tabled (action_row db s_idx i l)
unfolding action_row
action_row-Tabled db s_idx i l h =
    OnOk->>= (λ g. Unit {0}) Tabled (inidb_get_key_name db s_idx i) _ (OnOk-always _)
      (λ got x.
        OnOk->>= (λ v. Unit {0}) Tabled (into_buffer max_path got) _ (OnOk-always _)
          (λ name y. with_name-Tabled db s_idx i l name h))

action_rows-Tabled :
    (db : Database) (s_idx n i : ℕ) (l : Launchpad)
    → Tabled l
    → OnOk Tabled (action_rows db s_idx n i l)
unfolding action_rows
action_rows-Tabled db s_idx zero i l h = h
action_rows-Tabled db s_idx (suc n) i l h =
    OnOk->>= Tabled Tabled (action_row db s_idx i l) _ (action_row-Tabled db s_idx i l h)
      (λ next t. action_rows-Tabled db s_idx n (i + 1) next t)

actions_section-Tabled :
    (db : Database) (s_idx : ℕ) (l : Launchpad)
    → Tabled l
    → OnOk Tabled (actions_section db s_idx l)
unfolding actions_section
actions_section-Tabled db s_idx l h =
    OnOk->>= (λ n. Unit {0}) Tabled (inidb_get_number_of_keys db s_idx) _ (OnOk-always _)
      (λ n x. action_rows-Tabled db s_idx n 0 l h)

set_introducer-Tabled : (v : Bytes) (l : Launchpad) → Tabled l → Tabled (set_introducer v l)
set_introducer-Tabled v l h =
    elim (find_input_key_code l.keys v)
      as (λ c. Tabled (elim c [ none ↦ l | some code ↦ record l { introducer = code } ])) [
        | none ↦ h
        | some code ↦ h
      ]

settings_section-Tabled :
    (db : Database) (s_idx : ℕ) (l : Launchpad)
    → Tabled l
    → OnOk Tabled (settings_section db s_idx l)
unfolding settings_section
settings_section-Tabled db s_idx l h =
    let same = λ (v : Bytes) (l : Launchpad) (h : Tabled l). h in
    read_settings-OnOk Tabled db s_idx settings
      (set_introducer-Tabled, (same, (same, (same, (same, (same, (same, tt))))))) l h

-- The state of the program behind the loading.
abbrev pub Loaded : Launchpad × Rce → Type 0
Loaded s = IsTable s.0.pactions

module _ (net : Network) where
  process_database-Loaded :
      (db : Database) (s : Launchpad × Rce) → Loaded s → OnOk Loaded (process_database net db s)
  unfolding process_database
  process_database-Loaded db (l0, r0) h0 =
      OnOk->>= Tabled Loaded (in_section db (codes "Settings") (settings_section db) l0) _
        (in_section-OnOk Tabled db (codes "Settings") (settings_section db)
          (settings_section-Tabled db) l0 h0)
        (λ l1 h1.
          OnOk->>= Tabled Loaded (in_section db (codes "Actions") (actions_section db) l1) _
            (in_section-OnOk Tabled db (codes "Actions") (actions_section db)
              (actions_section-Tabled db) l1 h1)
            (λ l2 h2.
              OnOk->>= (λ r. Unit {0}) Loaded
                (in_section db (codes "RemoteCommandEntry") (rce_section net db) r0) _
                (OnOk-always _) (λ r1 x. h2)))

  with_database-Loaded :
      (o : Option Database) (s : Launchpad × Rce) → Loaded s → OnOk Loaded (with_database net o s)
  with_database-Loaded none s h = h
  with_database-Loaded (some db) s h = process_database-Loaded db s h

  process_ini_file-Loaded :
      (contents : Option Bytes) (s : Launchpad × Rce)
      → Loaded s
      → OnOk Loaded (process_ini_file net contents s)
  unfolding process_ini_file
  process_ini_file-Loaded contents s h =
      OnOk->>= (λ o. Unit {0}) Loaded (inidb_open contents) _ (OnOk-always _)
        (λ o x. with_database-Loaded o s h)

  process_entries-Loaded :
      (path : Bytes) (dps : List DirEntry) (s : Launchpad × Rce)
      → Loaded s
      → OnOk Loaded (process_entries net path dps s)
  unfolding process_entries
  process_entries-Loaded path [] s h = h
  process_entries-Loaded path (dp ∷ dps) s h =
      if_rule (OnOk Loaded) (dp.is_regular && is_ini_name dp.d_name)
        (λ e.
          OnOk->>= Loaded Loaded
            (if path_fits path dp.d_name then process_ini_file net dp.contents s else fault) _
            (if_rule (OnOk Loaded) (path_fits path dp.d_name)
              (λ fits. process_ini_file-Loaded dp.contents s h) (λ long. tt))
            (λ next t. process_entries-Loaded path dps next t))
        (λ e. process_entries-Loaded path dps s h)

  launchpad_init-Loaded :
      (path : Bytes) (keydefs : Option Bytes) (entries : Option (List DirEntry))
      (s : Launchpad × Rce)
      → Loaded s
      → OnOk Loaded (launchpad_init net path keydefs entries s)
  unfolding launchpad_init
  launchpad_init-Loaded path keydefs none (l, r) h =
      OnOk->>= (λ t. Unit {0}) Loaded (load_keys keydefs blank_table) _ (OnOk-always _)
        (λ keys x. h)
  launchpad_init-Loaded path keydefs (some dps) (l, r) h =
      OnOk->>= (λ t. Unit {0}) Loaded (load_keys keydefs blank_table) _ (OnOk-always _)
        (λ keys x. process_entries-Loaded path dps _ h)

-- However the files are spelled: whenever launchpad_init returns, every action of its table has a
-- command that fits in its array and between one and eight keys, and no two actions have the same
-- keys, if that was so of the table that it started with.
pub launchpad_init-IsTable :
    (net : Network) (path : Bytes) (keydefs : Option Bytes) (entries : Option (List DirEntry))
    (s : Launchpad × Rce)
    → IsTable s.0.pactions
    → OnOk (λ t. IsTable t.0.pactions) (launchpad_init net path keydefs entries s)
launchpad_init-IsTable net path keydefs entries s h =
    launchpad_init-Loaded net path keydefs entries s h

-- Whenever launchpad_init returns from the initial state, find_sequence_action finds each action of
-- the table under the sequence of codes that is stored in it, and no other action in its place.
pub launchpad_init-find_sequence_action :
    (net : Network) (path : Bytes) (keydefs : Option Bytes) (entries : Option (List DirEntry))
    (r : Rce) (t : Launchpad × Rce) (before after : List Action) (pa : Action)
    → launchpad_init net path keydefs entries (initial, r) ≡ ok t
    → t.0.pactions ≡ before ++ pa ∷ after
    → find_sequence_action t.0.pactions pa.sequence pa.len ≡ some (action pa)
launchpad_init-find_sequence_action net path keydefs entries r t before after pa runs split =
    let table : IsTable t.0.pactions =
      OnOk-ok Loaded (launchpad_init net path keydefs entries (initial, r)) runs
        (launchpad_init-Loaded net path keydefs entries (initial, r) tt) in
    let unlike : NoneCarries pa.sequence pa.len before =
      NoneCarries-append before after pa (rw (sym split) table) in
    rw split (find_sequence_action-first before after pa pa.sequence pa.len unlike (refl, refl))
