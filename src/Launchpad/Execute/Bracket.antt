-- ===== src/Launchpad/Execute/Bracket.antt =====
-- execute_action of src/launchpad.c and the status bar.
use kindle_launchpad.Base.{
  ◌>>=◌, c_string, strcpy, some, none, Option, ℕ, ◌≡◌, refl, Bool, List, [], ◌∷◌, ◌++◌, Bytes,
  codes, map, ok, OnOk, OnOk->>=, OnOk-always,
}
use kindle_launchpad.Ascii.Send.{Call}
use kindle_launchpad.Keys.Names.{KeyTable}
use kindle_launchpad.Launchpad.Action.{
  ActionType, sendkeys, shell_command, kindle_keys, kindle_script, Found, action, screenshot,
  max_path,
}
use kindle_launchpad.Launchpad.Script.{process_kindle_script}
use kindle_launchpad.Launchpad.SendKeys.{process_sendkeys_command}
use kindle_launchpad.Launchpad.Execute.{
  Deed, System, show_bar, bar_text, pause, flash_bar, hide_bar, take_screenshot, shell, sent,
  announce, outcome_text, as_script, sent_all, run_script_file, run_command, execute_action,
}

-- The bar is neither shown nor hidden.
abbrev pub NoBar : List Deed → Type 0
NoBar [] = Unit
NoBar (show_bar ∷ l) = ⊥
NoBar (hide_bar ∷ l) = ⊥
NoBar (_ ∷ l) = NoBar l

-- Things done with the bar hidden, then with the bar shown, and then it is hidden.
abbrev pub Bracketed : List Deed → Type 0
Bracketed deeds =
    (before : List Deed) × (inside : List Deed) × (deeds
      ≡ before ++ (show_bar ∷ (inside ++ hide_bar ∷ [])))
    × NoBar before
    × NoBar inside

NoBar-append : (a b : List Deed) → NoBar a → NoBar b → NoBar (a ++ b)
NoBar-append [] b h k = k
NoBar-append (show_bar ∷ a) b h k = absurd h
NoBar-append (hide_bar ∷ a) b h k = absurd h
NoBar-append (bar_text p ∷ a) b h k = NoBar-append a b h k
NoBar-append (pause n ∷ a) b h k = NoBar-append a b h k
NoBar-append (flash_bar ∷ a) b h k = NoBar-append a b h k
NoBar-append (take_screenshot ∷ a) b h k = NoBar-append a b h k
NoBar-append (shell p ∷ a) b h k = NoBar-append a b h k
NoBar-append (sent c ∷ a) b h k = NoBar-append a b h k

NoBar-sent : (calls : List Call) → NoBar (map sent calls)
NoBar-sent [] = tt
NoBar-sent (c ∷ calls) = NoBar-sent calls

abbrev Quiet : ℕ × List Deed → Type 0
Quiet r = NoBar r.1

module _ (sys : System) (k3 : Bool) (kdelay : ℕ) (t : KeyTable) where
  script-Quiet :
      (p : Bytes) → OnOk Quiet (process_kindle_script k3 kdelay t p >>= λ r. ok (sent_all r))
  script-Quiet p =
      OnOk->>= (λ r. Unit {0}) Quiet (process_kindle_script k3 kdelay t p) _ (OnOk-always _)
        (λ r x. NoBar-sent r.1)

  run_script_file-Quiet : (o : Option Bytes) → OnOk Quiet (run_script_file sys k3 kdelay t o)
  run_script_file-Quiet none = tt
  run_script_file-Quiet (some p) = script-Quiet (c_string p)

  run_command-Quiet :
      (type : ActionType) (command : Bytes) → OnOk Quiet (run_command sys k3 kdelay t type command)
  unfolding run_command
  run_command-Quiet kindle_script command =
      OnOk->>= (λ b. Unit {0}) Quiet (strcpy max_path command) _ (OnOk-always _)
        (λ b x. run_script_file-Quiet (sys.script_file b))
  run_command-Quiet kindle_keys command =
      OnOk->>= (λ b. Unit {0}) Quiet (strcpy max_path (as_script command)) _ (OnOk-always _)
        (λ b x. script-Quiet b)
  run_command-Quiet shell_command command = tt
  run_command-Quiet sendkeys command =
      OnOk->>= (λ b. Unit {0}) Quiet (process_sendkeys_command k3 kdelay t command) _
        (OnOk-always _) (λ calls x. NoBar-sent calls)

  -- Whatever is executed: if execute_action returns, the status bar was shown once and afterwards
  -- hidden once, as the last thing that was done.
  pub execute_action-Bracketed :
      (found : Found) → OnOk (λ r. Bracketed r.1) (execute_action sys k3 kdelay t found)
  unfolding execute_action
  execute_action-Bracketed screenshot =
      let texts = announce (codes "[Screenshot]") ++ announce (outcome_text sys.screenshot_ok) in
      (take_screenshot ∷ [], texts, refl, tt, tt)
  execute_action-Bracketed (action pact) =
      OnOk->>= (λ b. Unit {0}) (λ r. Bracketed r.1)
        (strcpy max_path (codes "^[" ++ (pact.dispname ++ codes "]"))) _ (OnOk-always _)
        (λ tmpbuf x.
          OnOk->>= Quiet (λ r. Bracketed r.1) (run_command sys k3 kdelay t pact.type pact.command) _
            (run_command-Quiet pact.type pact.command)
            (λ r quiet. ([], announce tmpbuf ++ r.1, refl, tt, quiet)))
