-- ===== src/Hotkey/Reach.antt =====
-- src/main.c: the life of the daemon as whole passes of the event loop and SIGALRM between them,
-- which comes when the interval timer has expired, or from another process. Interrupt has the alarms
-- that come inside a pass.
use kindle_launchpad.Base.{
  ℕ, ◌≡◌, refl, ℤ, pos, false, List, [], Option, Outcome, ok, fault, no_fuel, OnOk, OnOk-ok,
  replicate, arith,
}
use kindle_launchpad.Hotkey.Invariant.{process_input_event-IsValid, alarm_handler-IsValid}
use kindle_launchpad.Hotkey.Loop.{Loop, Select, idle, loop_pass}
use kindle_launchpad.Hotkey.Passes.{pass-keeps}
use kindle_launchpad.Hotkey.State.{InputEvent, Hotkey}
use kindle_launchpad.Hotkey.Step.{alarm_handler, process_input_event}
use kindle_launchpad.Hotkey.Valid.{IsValid}
use kindle_launchpad.Launchpad.Action.{Action, Found, max_seq}

-- When the time is up the kernel leaves no time on the timer, and sends the signal.
abbrev pub expire : Hotkey → Hotkey
expire s = record s { it_sec = 0; it_usec = 0 }

-- The assignments behind `again:`, with what launchpad_init and open_event_files leave.
unfoldable pub start : ℕ → Option ℕ → ℤ → ℤ → ℤ → ℤ → List Action → Hotkey
start introducer trailer hot_interval fd_kbd fd_fw fd_k3_vol pactions = record {
  introducer = introducer;
  trailer = trailer;
  hot_interval = hot_interval;
  introducer_just_pressed = false;
  hotkey_mode = false;
  npressed = pos 0;
  hot_sequence = replicate max_seq 0;
  hot_sequence_length = 0;
  skip_next_events = 0;
  input_captured = false;
  fd_kbd = fd_kbd;
  fd_fw = fd_fw;
  fd_k3_vol = fd_k3_vol;
  it_sec = 0;
  it_usec = 0;
  handled = false;
  pactions = pactions;
  log = [];
}

module _ (execute_action : Found → ℕ) where
  pub data Step : Loop → Loop → Type 0 where
    pass : (answered : Select) {l m : Loop} → loop_pass execute_action answered l ≡ ok m → Step l m
    alarm :
        (l : Loop) → Step l (record l { hotkey = alarm_handler execute_action (expire l.hotkey) })
    stray_alarm : (l : Loop) → Step l (record l { hotkey = alarm_handler execute_action l.hotkey })

  pub data Reach (l : Loop) : Loop → Type 0 where
    here : Reach l l
    next : {m n : Loop} → Reach l m → Step m n → Reach l n

  event-IsValid :
      (s : Hotkey) (pev : InputEvent)
      → IsValid s
      → OnOk IsValid (process_input_event execute_action s pev)
  event-IsValid s pev v = on_result (process_input_event execute_action s pev) refl
    where
      on_result :
          (m : Outcome Hotkey) → process_input_event execute_action s pev ≡ m → OnOk IsValid m
      on_result (ok t) e = process_input_event-IsValid execute_action s pev v e
      on_result fault e = tt
      on_result no_fuel e = tt

  idle-IsValid : (s : Hotkey) → IsValid s → IsValid (idle s)
  unfolding idle
  idle-IsValid s v = ground arith

  expire-IsValid : (s : Hotkey) → IsValid s → IsValid (expire s)
  expire-IsValid s v = ground arith

  Step-IsValid : {l m : Loop} → Step l m → IsValid l.hotkey → IsValid m.hotkey
  Step-IsValid (pass answered {l} e) v =
      OnOk-ok (λ (n : Loop). IsValid n.hotkey) _ e
        (pass-keeps execute_action IsValid event-IsValid idle-IsValid answered l v)
  Step-IsValid (alarm l) v =
      alarm_handler-IsValid execute_action (expire l.hotkey) (expire-IsValid l.hotkey v)
  Step-IsValid (stray_alarm l) v = alarm_handler-IsValid execute_action l.hotkey v

  -- For whole passes of the event loop and alarms that come between two passes, in any order, with
  -- whatever events, read failures and timeouts: while no write has left the array of collected
  -- codes, the machine keeps its whole invariant. The devices are captured exactly in hot mode, the
  -- timer runs only in hot mode and with its handler in place, at most MAXSEQ codes are collected,
  -- and none out of hot mode.
  pub Reach-IsValid : {l m : Loop} → IsValid l.hotkey → Reach l m → IsValid m.hotkey
  Reach-IsValid v here = v
  Reach-IsValid v (next r st) = Step-IsValid st (Reach-IsValid v r)

-- The state that main() starts and restarts from satisfies the invariant.
pub start-IsValid :
    (introducer : ℕ) (trailer : Option ℕ) (hot_interval fd_kbd fd_fw fd_k3_vol : ℤ)
    (pactions : List Action)
    → IsValid (start introducer trailer hot_interval fd_kbd fd_fw fd_k3_vol pactions)
unfolding start
start-IsValid i t h k f v a = ground arith
