-- ===== src/Tests/Launchpad.antt =====
-- Tests of the loading of the configuration of src/launchpad.c.
use kindle_launchpad.Base.{
  ◌++◌, minus_one, pos, arith, take, words, ◌==◌, ℕ, ◌≢◌, ◌↔◌, OnOk, ℕ, ◌≡◌, refl, ◌∷◌, [], ◌++◌,
  List, some, none, Bytes, codes, Outcome, ok, fault, no_fuel, ◌>>=◌, true, false, map, c_string,
  ◌+ℤ◌,
}
use kindle_launchpad.Launchpad.Action.{
  Action, Found, action, shell_command, kindle_script, find_sequence_action,
}
use kindle_launchpad.Launchpad.Load.Table.{IsTable}
use kindle_launchpad.Launchpad.Load.Loading.{
  launchpad_init-IsTable, launchpad_init-find_sequence_action,
}
use kindle_launchpad.Launchpad.Sequence.{is_space, cleared, parse_action_sequence}
use kindle_launchpad.Launchpad.Sequence.Words.{codes_of, Reads, parse_action_sequence-Reads}
use kindle_launchpad.Launchpad.Command.{parse_action_command}
use kindle_launchpad.Launchpad.Command.Types.{
  IsTooLong, parse_action_command-print_command, parse_action_command-IsTooLong,
}
use kindle_launchpad.Keys.Names.{get_default_input_keydefs}
use kindle_launchpad.Keys.Codes.{kpkey_shift, kpkey_sym}
use kindle_launchpad.Hotkey.State.{Hotkey}
use kindle_launchpad.Hotkey.Reach.{start}
use kindle_launchpad.Launchpad.State.Paths.{copy_path_lem}
use kindle_launchpad.Launchpad.State.{Launchpad, initial, path_array, copy_path}
use kindle_launchpad.Launchpad.Load.{DirEntry, init_result, launchpad_init}
use kindle_launchpad.Rce.Config.{Rce, Network, blank_rce}

abbrev net : Network
net = record { inet_addr = λ p. 0; interfaces = [] }

abbrev line : Bytes → Bytes → Bytes
line text rest = text ++ (10 ∷ rest)

abbrev config : Bytes
config = line (codes "[Settings]") (
    line (codes "Trailer=Sym") (
      line (codes "KeyboardInput=/dev/kb")
        (line (codes "[Actions]") (line (codes "Q 1=!ls") (line (codes "q 1=!df") [])))))

abbrev files : List DirEntry
files = record { is_regular = true; d_name = codes "a.ini"; contents = some config } ∷ []

abbrev loaded : Outcome (Launchpad × Rce)
loaded = launchpad_init net (codes "/mnt/us") none (some files) (initial, blank_rce)

-- The second definition of the sequence is left out.
loads_first :
    loaded >>= (λ s. ok (map (λ (a : Action). a.command) s.0.pactions)) ≡ ok (codes "ls" ∷ [])
unfolding launchpad_init ◌+ℤ◌
loads_first = refl

-- The state behind the loading.
abbrev result : Outcome (Launchpad × Rce) → Launchpad × Rce
result (ok s) = s
result fault = (initial, blank_rce)
result no_fuel = (initial, blank_rce)

loads :
    launchpad_init net (codes "/mnt/us") none (some files) (initial, blank_rce) ≡ ok (result loaded)
unfolding launchpad_init ◌+ℤ◌
loads = refl

abbrev lists_files : Action
lists_files = record {
  type = shell_command;
  len = 2;
  sequence = 16 ∷ 2 ∷ 0 ∷ 0 ∷ 0 ∷ 0 ∷ 0 ∷ 0 ∷ [];
  command = codes "ls";
  dispname = codes "Q 1";
}

loads_one : (result loaded).0.pactions ≡ [] ++ lists_files ∷ []
unfolding launchpad_init ◌+ℤ◌
loads_one = refl

find_loaded_example :
    find_sequence_action (result loaded).0.pactions (16 ∷ 2 ∷ 0 ∷ 0 ∷ 0 ∷ 0 ∷ 0 ∷ 0 ∷ []) 2
    ≡ some (action lists_files)
find_loaded_example =
    launchpad_init-find_sequence_action net (codes "/mnt/us") none (some files) blank_rce
      (result loaded) [] [] lists_files loads loads_one

init_actions_example : OnOk (λ t. IsTable t.0.pactions) loaded
init_actions_example =
    launchpad_init-IsTable net (codes "/mnt/us") none (some files) (initial, blank_rce) tt

reads_example :
    (pact : Action) × (parse_action_sequence get_default_input_keydefs (codes "Q  1 ") cleared
      ≡ ok pact)
    × Reads [] 8 (codes_of get_default_input_keydefs (take 8 (words is_space (codes "Q  1 ")))) pact
reads_example = parse_action_sequence-Reads get_default_input_keydefs (codes "Q  1 ") (omega arith)

-- Two words, whatever the spaces between them.
words_of_name : words is_space (codes " Q  1 ") ≡ codes "Q" ∷ codes "1" ∷ []
unfolding words
words_of_name = refl

print_example :
    parse_action_command (codes "/mnt/us") (codes "@run.txt") cleared
    ≡ ok (record cleared { type = kindle_script; command = codes "/mnt/us/run.txt" })
print_example =
    parse_action_command-print_command (codes "/mnt/us") (codes "run.txt") kindle_script cleared
      (omega arith)

overlong_example :
    (parse_action_command (codes "/mnt/us") (codes "@run.txt") cleared ≡ fault)
    ↔ IsTooLong (codes "/mnt/us") (kindle_script, codes "run.txt")
overlong_example =
    parse_action_command-IsTooLong (codes "/mnt/us") (codes "@run.txt") cleared (omega arith)

differ : {a b : ℕ} → (a == b) ≡ false → a ≢ b
differ h e = ground arith

copy_example : c_string (copy_path (path_array (codes "/dev/e0")) (codes "/kb")) ≡ codes "/kbv/e0"
copy_example =
    copy_path_lem (codes "/dev/e0") (codes "/kb")
      ((
        differ refl,
        (
          differ refl,
          (differ refl, (differ refl, (differ refl, (differ refl, (differ refl, tt))))),
        ),
      ))
      (differ refl, (differ refl, (differ refl, tt))) (omega arith)

-- The state machine with the table that was loaded.
abbrev ready : Hotkey
ready =
    start kpkey_shift (some kpkey_sym) (pos 500) (pos 3) (pos 4) minus_one
      (result loaded).0.pactions

abbrev skips_none : Found → ℕ
skips_none found = 0

init_counts : init_result (some files) (result loaded) ≡ pos 1
unfolding launchpad_init ◌+ℤ◌
init_counts = refl
