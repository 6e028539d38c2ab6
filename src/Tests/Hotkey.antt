-- ===== src/Tests/Hotkey.antt =====
-- Tests of the hotkey machine of src/main.c.
use kindle_launchpad.Base.{
  Returns, replicate, ◌+ℤ◌, ◌-ℤ◌, ℕ, ◌≤◌, ◌≡◌, refl, ◌↔◌, pos, minus_one, true, false, List, [],
  ◌∷◌, ◌++◌, none, some, length, codes, Outcome, ok, fault, arith,
}
use kindle_launchpad.Hotkey.Ending.{alarm_runs, presses, never_ends}
use kindle_launchpad.Hotkey.Interrupt.{
  tested, interrupted_press, AsyncStep, AsyncReach, AsyncReach-IsSafe,
}
use kindle_launchpad.Hotkey.Invariant.{process_input_event-IsValid, alarm_handler-IsValid}
use kindle_launchpad.Hotkey.Log.{executed}
use kindle_launchpad.Hotkey.Loop.{
  got, failed, Loop, timeout, drain, num_bytes, read_into, loop_pass, is_volume_code,
}
use kindle_launchpad.Hotkey.Overflow.{process_input_event-fault_iff}
use kindle_launchpad.Hotkey.Reach.{start, start-IsValid, Step, here, next, Reach-IsValid, expire}
use kindle_launchpad.Hotkey.Reads.{feed, read_feeds}
use kindle_launchpad.Hotkey.Sequence.{Ended}
use kindle_launchpad.Hotkey.State.{InputEvent, Hotkey}
use kindle_launchpad.Hotkey.Step.{process_input_event, alarm_handler, ev_key, is_trailer}
use kindle_launchpad.Hotkey.Typing.{key_down, key_up, taps, run}
use kindle_launchpad.Hotkey.Valid.{IsSafe, IsValid}
use kindle_launchpad.Keys.Codes.{kpkey_shift, kpkey_enter, kpkey_f, kpkey_b, k3key_vplus}
use kindle_launchpad.Keys.Names.{get_key_substitute_code}
use kindle_launchpad.Launchpad.Action.{
  Action, Found, action, shell_command, find_sequence_action, max_seq,
}
use kindle_launchpad.Launchpad.Action.Laws.{Finds, find_sequence_action-Finds}

abbrev skip_none : Found → ℕ
skip_none _ = 0

abbrev fbreader : Action
fbreader = record {
  type = shell_command;
  len = 2;
  sequence = kpkey_f ∷ kpkey_b ∷ 0 ∷ 0 ∷ 0 ∷ 0 ∷ 0 ∷ 0 ∷ [];
  command = codes "/mnt/us/goqt.sh FBReader";
  dispname = codes "F B";
}

abbrev booted : Hotkey
booted = start kpkey_shift (some kpkey_enter) (pos 500) (pos 3) (pos 4) minus_one (fbreader ∷ [])

-- Shift, F, B, Enter runs the action of F B.
typed : List InputEvent
typed = taps (kpkey_shift ∷ kpkey_f ∷ kpkey_b ∷ []) ++ key_down kpkey_enter ∷ []

abbrev log_of : Outcome Hotkey → List Found
log_of (ok t) = executed t.log
log_of fault = []
log_of Outcome.no_fuel = []

fbreader_runs : log_of (run skip_none typed booted) ≡ action fbreader ∷ []
unfolding run process_input_event start typed find_sequence_action get_key_substitute_code ◌+ℤ◌ ◌-ℤ◌
fbreader_runs = refl

booted-IsValid : IsValid booted
booted-IsValid =
    start-IsValid kpkey_shift (some kpkey_enter) (pos 500) (pos 3) (pos 4) minus_one (fbreader ∷ [])

event_keeps_example : IsValid (record booted { npressed = pos 1; introducer_just_pressed = true })
unfolding process_input_event start ◌+ℤ◌
event_keeps_example =
    process_input_event-IsValid skip_none booted (key_down kpkey_shift) booted-IsValid refl

-- Hot mode, with F and B collected.
abbrev hot : Hotkey
hot = record {
  introducer = kpkey_shift;
  trailer = some kpkey_enter;
  hot_interval = pos 500;
  introducer_just_pressed = false;
  hotkey_mode = true;
  npressed = pos 0;
  hot_sequence = kpkey_f ∷ kpkey_b ∷ 0 ∷ 0 ∷ 0 ∷ 0 ∷ 0 ∷ 0 ∷ [];
  hot_sequence_length = 2;
  skip_next_events = 0;
  input_captured = true;
  fd_kbd = pos 3;
  fd_fw = pos 4;
  fd_k3_vol = minus_one;
  it_sec = 0;
  it_usec = 500000;
  handled = true;
  pactions = fbreader ∷ [];
  log = [];
}

hot-IsValid : IsValid hot
hot-IsValid = ground arith

alarm_keeps_example : IsValid (alarm_handler skip_none (expire hot))
alarm_keeps_example = alarm_handler-IsValid skip_none (expire hot) (ground arith)

alarm_runs_example :
    Ended
      (find_sequence_action (fbreader ∷ []) hot.hot_sequence 2)
      hot
      (alarm_handler skip_none (expire hot))
alarm_runs_example = alarm_runs skip_none hot refl (omega arith)

abbrev full : Hotkey
full = record hot { hot_sequence_length = 8 }

-- The ninth key.
ninth_key_faults : process_input_event skip_none full (key_down kpkey_b) ≡ fault
unfolding process_input_event
ninth_key_faults = refl

overflow_example : (process_input_event skip_none full (key_down kpkey_b) ≡ fault) ↔ (
    ◌≡◌ {A = ℕ} 1 ev_key
    × (pos 1 ≡ pos 1)
    × (full.hotkey_mode ≡ true)
    × (is_trailer full.trailer kpkey_b ≡ false)
    × (max_seq ≤ full.hot_sequence_length))
overflow_example = process_input_event-fault_iff skip_none full (key_down kpkey_b)

-- A configuration with no interval and no known trailer.
abbrev untimed : Hotkey
untimed = start kpkey_shift none (pos 0) (pos 3) (pos 4) minus_one (fbreader ∷ [])

abbrev outcome_state : Outcome Hotkey → Hotkey
outcome_state (ok t) = t
outcome_state fault = untimed
outcome_state Outcome.no_fuel = untimed

never_ends_example :
    Returns
      (λ t. (t.hotkey_mode ≡ true) × (t.input_captured ≡ true) × (t.it_sec ≡ 0) × (t.it_usec ≡ 0))
      (run skip_none (taps (kpkey_shift ∷ kpkey_f ∷ [])) untimed)
unfolding start presses
never_ends_example =
    never_ends skip_none untimed (taps (kpkey_f ∷ [])) refl refl refl refl (omega arith)

read_example :
    ((evs : List InputEvent)
      → length evs ≤ 2
      → drain skip_none is_volume_code
          (read_into (got evs) (key_down k3key_vplus ∷ key_up k3key_vplus ∷ []))
          (num_bytes (got evs))
          booted
        ≡ feed skip_none is_volume_code evs booted)
    × (drain skip_none is_volume_code
          (read_into failed (key_down k3key_vplus ∷ key_up k3key_vplus ∷ []))
          (num_bytes failed)
          booted
        ≡ feed skip_none is_volume_code (key_down k3key_vplus ∷ key_up k3key_vplus ∷ []) booted)
read_example =
    read_feeds skip_none is_volume_code (key_down k3key_vplus) (key_up k3key_vplus) booted

two_shifts_example :
    Finds
      (fbreader ∷ [])
      (kpkey_shift ∷ kpkey_shift ∷ [])
      2
      (find_sequence_action (fbreader ∷ []) (kpkey_shift ∷ kpkey_shift ∷ []) 2)
two_shifts_example = find_sequence_action-Finds (fbreader ∷ []) (kpkey_shift ∷ kpkey_shift ∷ []) 2

abbrev waiting : Loop
waiting = record {
  hotkey = hot;
  kbbuf = key_up kpkey_b ∷ key_up kpkey_b ∷ [];
  fwbuf = key_up kpkey_b ∷ key_up kpkey_b ∷ [];
  k3volbuf = key_up kpkey_b ∷ key_up kpkey_b ∷ [];
}

abbrev idled : Loop
idled = record waiting { hotkey = record hot { hot_sequence_length = 0 } }

one_timeout : Step skip_none waiting idled
unfolding loop_pass
one_timeout = Step.pass timeout refl

reach_example : IsValid idled.hotkey
reach_example = Reach-IsValid skip_none hot-IsValid (next here one_timeout)

-- The timer expires while a key is handled: hot mode has ended, and the code of the key is left.
abbrev typing : Hotkey
typing = record hot { hot_sequence = replicate max_seq 0; hot_sequence_length = 0 }

abbrev broken_off : Hotkey
broken_off = outcome_state (interrupted_press skip_none tested typing kpkey_f)

broken_off_lem : (broken_off.hotkey_mode ≡ false) × (broken_off.hot_sequence_length ≡ 1)
unfolding interrupted_press get_key_substitute_code
broken_off_lem = (refl, refl)

one_interruption :
    AsyncStep skip_none
      (record waiting { hotkey = typing })
      (record waiting { hotkey = broken_off })
unfolding interrupted_press get_key_substitute_code
one_interruption = AsyncStep.interrupted tested kpkey_f refl

async_example : IsSafe broken_off
async_example =
    AsyncReach-IsSafe skip_none (ground arith) (AsyncReach.next AsyncReach.here one_interruption)
