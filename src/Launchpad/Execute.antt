-- ===== src/Launchpad/Execute.antt =====
-- src/launchpad.c: execute_action, as the number of events to skip and the things that it does.
use kindle_launchpad.Base.{
  ℕ, Bool, List, [], ◌∷◌, ◌++◌, Option, none, some, if◌then◌else◌, Bytes, codes, c_string, map,
  strcpy, Outcome, ok, ◌>>=◌,
}
pub mod Bracket
pub mod Keys
use kindle_launchpad.Ascii.Send.{Call}
use kindle_launchpad.Keys.Names.{KeyTable}
use kindle_launchpad.Launchpad.Action.{
  Action, ActionType, sendkeys, shell_command, kindle_keys, kindle_script, Found, action,
  screenshot, max_path,
}
use kindle_launchpad.Launchpad.Script.{process_kindle_script}
use kindle_launchpad.Launchpad.SendKeys.{process_sendkeys_command}

-- The calls of statusbar_show, statusbar_text, msdelay, statusbar_flash and statusbar_hide, of
-- do_screenshot and system(), and those of the senders.
pub data Deed : Type 0 where
  show_bar : Deed
  bar_text : Bytes → Deed
  pause : ℕ → Deed
  flash_bar : Deed
  hide_bar : Deed
  take_screenshot : Deed
  shell : Bytes → Deed
  sent : Call → Deed

-- What the system answers: the contents of a script, if it can be read, and whether a command of the
-- shell and a screenshot succeed.
pub record System : Type 0 where
  pub script_file : Bytes → Option Bytes
  pub shell_ok : Bytes → Bool
  pub screenshot_ok : Bool

-- `statusbar_text(…) ; msdelay(400) ; statusbar_flash(…, 1, 800, 1) ;`
abbrev pub announce : Bytes → List Deed
announce p = bar_text p ∷ pause 400 ∷ flash_bar ∷ []

abbrev pub outcome_text : Bool → Bytes
outcome_text success = if success then codes "Success!" else codes "Failure."

-- `sprintf(&tmpbuf[0], "send_string %s 'DEL'", pact->command)`
abbrev pub as_script : Bytes → Bytes
as_script command = codes "send_string " ++ (command ++ codes " 'DEL'")

abbrev pub sent_all : ℕ × List Call → ℕ × List Deed
sent_all (toskip, calls) = (toskip, map sent calls)

module _ (sys : System) (k3 : Bool) (kdelay : ℕ) (t : KeyTable) where
  abbrev pub run_script_file : Option Bytes → Outcome (ℕ × List Deed)
  run_script_file none = ok (0, [])
  run_script_file (some p) = process_kindle_script k3 kdelay t (c_string p) >>= λ r. ok (sent_all r)

  -- The branches of the `switch`.
  unfoldable pub run_command : ActionType → Bytes → Outcome (ℕ × List Deed)
  unfolding process_kindle_script process_sendkeys_command
  run_command kindle_script command =
      strcpy max_path command >>= λ tmpbuf. run_script_file (sys.script_file tmpbuf)
  run_command kindle_keys command = do
    tmpbuf ← strcpy max_path (as_script command)
    r ← process_kindle_script k3 kdelay t tmpbuf
    ok (sent_all r)
  run_command shell_command command =
      ok (0, shell command ∷ announce (outcome_text (sys.shell_ok command)))
  run_command sendkeys command =
      process_sendkeys_command k3 kdelay t command >>= λ calls. ok (0, map sent calls)

  unfoldable pub execute_action : Found → Outcome (ℕ × List Deed)
  unfolding run_command
  execute_action screenshot = ok (
    0,
    take_screenshot
        ∷ show_bar
        ∷ (announce (codes "[Screenshot]")
            ++ (announce (outcome_text sys.screenshot_ok) ++ hide_bar ∷ [])),
  )
  execute_action (action pact) = do
    tmpbuf ← strcpy max_path (codes "^[" ++ (pact.dispname ++ codes "]"))
    (toskip, deeds) ← run_command pact.type pact.command
    ok (toskip, show_bar ∷ (announce tmpbuf ++ (deeds ++ hide_bar ∷ [])))
