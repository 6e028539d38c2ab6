-- ===== src/Hotkey/State.antt =====
-- The static variables of src/main.c that the hotkey machine reads and writes, and what the
-- program does to its environment.
use kindle_launchpad.Base.{
  ℕ, ◌*◌, ◌/◌, ◌%◌, ℤ, pos, negsuc, minus_one, eqb_ℤ, Bool, true, false, not, List, [], ◌∷◌, ◌++◌,
  Option, ◌==◌, if◌then◌else◌,
}
use kindle_launchpad.Launchpad.Action.{Action, Found}

-- `struct input_event`, without its time
pub record InputEvent : Type 0 where
  pub type : ℕ
  pub code : ℕ
  pub value : ℤ

-- A call that leaves the program: `ioctl(fd, EVIOCGRAB, on)`, `setitimer(msecs)`,
-- `execute_action(pa)` and `send_key(code, SENDMODE_NORMAL)`.
pub data Effect : Type 0 where
  grab : ℤ → Bool → Effect
  set_timer : ℤ → Effect
  execute : Found → Effect
  send_key : ℕ → Effect

-- `it_sec` and `it_usec` are the time left on ITIMER_REAL, and `handled` says that SIGALRM goes to
-- alarm_handler. `trailer` is `none` for -1. `pactions` is the table that launchpad_init built.
pub record Hotkey : Type 0 where
  pub introducer : ℕ
  pub trailer : Option ℕ
  pub hot_interval : ℤ
  pub introducer_just_pressed : Bool
  pub hotkey_mode : Bool
  pub npressed : ℤ
  pub hot_sequence : List ℕ
  pub hot_sequence_length : ℕ
  pub skip_next_events : ℕ
  pub input_captured : Bool
  pub fd_kbd : ℤ
  pub fd_fw : ℤ
  pub fd_k3_vol : ℤ
  pub it_sec : ℕ
  pub it_usec : ℕ
  pub handled : Bool
  pub pactions : List Action
  pub log : List Effect

abbrev pub emit : Effect → Hotkey → Hotkey
emit e s = record s { log = s.log ++ e ∷ [] }

-- One block `if (fd != -1) ioctl(fd, EVIOCGRAB, on)`.
abbrev pub grab_open : ℤ → Bool → Hotkey → Hotkey
grab_open fd on s = if eqb_ℤ fd minus_one then s else emit (grab fd on) s

abbrev pub grab_all : Bool → Hotkey → Hotkey
grab_all on s = grab_open s.fd_k3_vol on (grab_open s.fd_fw on (grab_open s.fd_kbd on s))

unfoldable pub capture_input : Hotkey → Hotkey
capture_input s = record (grab_all true s) { input_captured = true }

unfoldable pub release_input : Hotkey → Hotkey
release_input s =
    if s.input_captured then record (grab_all false s) { input_captured = false } else s

-- `setitimer` refuses a negative time and keeps the timer as it is.
unfoldable pub engage_hotkey_timer : ℤ → Hotkey → Hotkey
engage_hotkey_timer (pos msecs) s = record (emit (set_timer (pos msecs)) s) {
  it_sec = msecs / 1000;
  it_usec = msecs % 1000 * 1000;
  handled = not (msecs == 0);
}
engage_hotkey_timer (negsuc n) s = record (emit (set_timer (negsuc n)) s) { handled = true }
