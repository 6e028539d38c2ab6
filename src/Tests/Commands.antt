-- ===== src/Tests/Commands.antt =====
-- Tests of the execution of actions, src/launchpad.c.
use kindle_launchpad.Base.{
  ◌≡◌, ◌≤◌, ◌↔◌, refl, false, true, List, [], ◌∷◌, ◌++◌, Bytes, none, codes, length, take, drop,
  words, map, ok, fault, OnOk, Returns, replicate, arith,
}
use kindle_launchpad.Keys.Names.{get_default_input_keydefs}
use kindle_launchpad.Launchpad.Action.{Action, kindle_keys, action}
use kindle_launchpad.Launchpad.Script.{is_separator, but_last, send_tokens, process_kindle_script}
use kindle_launchpad.Launchpad.Script.Tokens.{process_kindle_script-words}
use kindle_launchpad.Launchpad.SendKeys.{process_sendkeys_command}
use kindle_launchpad.Launchpad.SendKeys.Ending.{process_sendkeys_command-Returns}
use kindle_launchpad.Launchpad.SendKeys.Items.{
  Item, word, string, print_items, items_calls, process_sendkeys_command-print_items,
}
use kindle_launchpad.Launchpad.Execute.{System, show_bar, hide_bar, sent, announce, execute_action}
use kindle_launchpad.Launchpad.Execute.Keys.{execute_action-words, execute_action-fault_iff}
use kindle_launchpad.Launchpad.Execute.Bracket.{Bracketed, execute_action-Bracketed}

abbrev sys : System
sys = record { script_file = λ p. none; shell_ok = λ p. true; screenshot_ok = false }

abbrev script : Bytes
script = codes "send_string 'Home' \"ab\" x 'DEL'"

-- The three tokens between the first and the last.
tokens_of_script :
    but_last (take 64 (drop 1 (words is_separator script)))
    ≡ codes "'Home'" ∷ codes "\"ab\"" ∷ codes "x" ∷ []
unfolding words
tokens_of_script = refl

script_example :
    process_kindle_script false 300 get_default_input_keydefs script
    ≡ ok (
        send_tokens false 300 get_default_input_keydefs
          (but_last (take 64 (drop 1 (words is_separator script)))))
script_example =
    process_kindle_script-words false 300 get_default_input_keydefs script (omega arith)

abbrev items : List Item
items = word (codes "Home") ∷ string (codes "a b") ∷ word (codes "x") ∷ []

items_are_printed : print_items items ≡ codes "Home \"a b\"x "
items_are_printed = refl

sendkeys_example :
    Returns
      (λ calls. Unit {0})
      (process_sendkeys_command false 300 get_default_input_keydefs (codes "Home \"a\\"))
sendkeys_example =
    process_sendkeys_command-Returns false 300 get_default_input_keydefs (codes "Home \"a\\")
      (omega arith)

items_example :
    process_sendkeys_command false 300 get_default_input_keydefs (print_items items)
    ≡ ok (items_calls false 300 get_default_input_keydefs items)
items_example =
    process_sendkeys_command-print_items false 300 get_default_input_keydefs items
      (
        (refl, (omega arith, (omega arith, (omega arith, (omega arith, tt))))),
        ((refl, refl, (refl, refl, (refl, refl, tt))), ((refl, (omega arith, tt)), tt)),
      )
      (omega arith)

abbrev types_keys : Action
types_keys = record {
  type = kindle_keys;
  len = 1;
  sequence = 16 ∷ [];
  command = codes "'Home' ab";
  dispname = codes "Q";
}

abbrev types_long : Action
types_long = record types_keys { command = replicate 240 b'x' }

keys_example :
    execute_action sys false 300 get_default_input_keydefs (action types_keys)
    ≡ ok (
      (send_tokens false 300 get_default_input_keydefs (words is_separator (codes "'Home' ab"))).0,
      show_bar
          ∷ (announce (codes "^[Q]")
              ++ (map sent
                    (send_tokens false 300 get_default_input_keydefs
                      (words is_separator (codes "'Home' ab"))).1
                  ++ hide_bar ∷ [])),
    )
keys_example =
    execute_action-words sys false 300 get_default_input_keydefs types_keys refl (omega arith)
      (omega arith) (unfold words in omega arith)

long_script_example :
    (execute_action sys false 300 get_default_input_keydefs (action types_long) ≡ fault)
    ↔ (238 ≤ length (types_long.command))
long_script_example =
    execute_action-fault_iff sys false 300 get_default_input_keydefs types_long refl (omega arith)

bracket_example :
    OnOk
      (λ r. Bracketed r.1)
      (execute_action sys false 300 get_default_input_keydefs (action types_keys))
bracket_example =
    execute_action-Bracketed sys false 300 get_default_input_keydefs (action types_keys)
