-- ===== src/Hotkey/Step.antt =====
-- src/main.c: process_input_event and alarm_handler. `execute_action` reaches the screen, the shell
-- and the key files; here it is a parameter that gives the number of events to skip.
use kindle_launchpad.Base.{
  ℕ, zero, suc, ◌+◌, pos, ◌+ℤ◌, ◌-ℤ◌, eqb_ℤ, Bool, true, false, not, ◌&&◌, ◌||◌, Option, none, some,
  ltb, ◌==◌, if◌then◌else◌, set, get_or, Outcome, ok, fault,
}
use kindle_launchpad.Hotkey.State.{
  InputEvent, Hotkey, execute, send_key, emit, capture_input, release_input, engage_hotkey_timer,
}
use kindle_launchpad.Keys.Names.{get_key_substitute_code}
use kindle_launchpad.Launchpad.Action.{Found, max_seq, find_sequence_action}

-- EV_KEY of linux/input.h
abbrev pub ev_key : ℕ
ev_key = 1

-- `for (i = 0; i < hot_sequence_length; i++) send_key(hot_sequence[i], SENDMODE_NORMAL)`, with the
-- rounds that are left and `i`.
unfoldable pub resend : ℕ → ℕ → Hotkey → Hotkey
resend zero i s = s
resend (suc n) i s = resend n (i + 1) (emit (send_key (get_or s.hot_sequence i 0)) s)

-- `pev->code == trailer`
abbrev pub is_trailer : Option ℕ → ℕ → Bool
is_trailer none code = false
is_trailer (some t) code = code == t

-- `engage_hotkey_timer(0); release_input();`
abbrev pub disarm : Hotkey → Hotkey
disarm s = release_input (engage_hotkey_timer (pos 0) s)

-- The same, and `hotkey_mode = 0`.
abbrev pub leave_hot : Hotkey → Hotkey
leave_hot s = record (disarm s) { hotkey_mode = false }

-- A key goes down out of hot mode.
unfoldable pub cold_press : Hotkey → ℕ → Hotkey
cold_press s code =
    if eqb_ℤ s.npressed (pos 1) && (code == s.introducer)
    then record s { introducer_just_pressed = true }
    else record s { introducer_just_pressed = false; hotkey_mode = false }

-- A key goes up.
unfoldable pub release : Hotkey → ℕ → Hotkey
unfolding capture_input engage_hotkey_timer
release s code =
    let t = record s { npressed = s.npressed -ℤ pos 1 } in
    if eqb_ℤ t.npressed (pos 0) && ((code == t.introducer) && t.introducer_just_pressed)
    then engage_hotkey_timer t.hot_interval
        (record (capture_input (record t { introducer_just_pressed = false })) {
          hotkey_mode = true;
        })
    else t

module _ (execute_action : Found → ℕ) where
  unfoldable pub run_found : Option Found → Hotkey → Hotkey
  unfolding resend
  run_found (some pa) s = record (emit (execute pa) s) { skip_next_events = execute_action pa }
  run_found none s = resend s.hot_sequence_length 0 s

  -- `if (hot_sequence_length > 0) { pa = find_sequence_action(…); hot_sequence_length = 0; … }`
  unfoldable pub finish_sequence : Hotkey → Hotkey
  unfolding run_found
  finish_sequence s =
      if ltb 0 s.hot_sequence_length
      then run_found (find_sequence_action s.pactions s.hot_sequence s.hot_sequence_length)
          (record s { hot_sequence_length = 0 })
      else s

  unfoldable pub alarm_handler : Hotkey → Hotkey
  unfolding finish_sequence release_input engage_hotkey_timer
  alarm_handler s =
      if not (s.it_sec == 0) || not (s.it_usec == 0)
      then s
      else if (disarm s).hotkey_mode
      then finish_sequence (leave_hot s)
      else disarm s

  -- A key goes down in hot mode. A write behind the end of the array is a fault.
  unfoldable pub hot_press : Hotkey → ℕ → Outcome Hotkey
  unfolding finish_sequence release_input engage_hotkey_timer
  hot_press s code =
      if is_trailer s.trailer code
      then ok (finish_sequence (leave_hot s))
      else if ltb s.hot_sequence_length max_seq
      then ok (record s {
        hot_sequence = set s.hot_sequence s.hot_sequence_length (get_key_substitute_code code);
        hot_sequence_length = s.hot_sequence_length + 1;
      })
      else fault

  unfoldable pub press : Hotkey → ℕ → Outcome Hotkey
  unfolding hot_press cold_press
  press s code =
      let t = record s { npressed = s.npressed +ℤ pos 1 } in
      if t.hotkey_mode then hot_press t code else ok (cold_press t code)

  -- Autorepeat events, and events that are not of keys, are ignored.
  unfoldable pub process_input_event : Hotkey → InputEvent → Outcome Hotkey
  unfolding press release
  process_input_event s pev =
      if pev.type == ev_key
      then if eqb_ℤ pev.value (pos 1)
        then press s pev.code
        else if eqb_ℤ pev.value (pos 0)
        then ok (release s pev.code)
        else ok s
      else ok s
