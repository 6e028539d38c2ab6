-- ===== src/Hotkey/Valid.antt =====
-- What holds of the hotkey machine between two events.
use kindle_launchpad.Base.{
  ltb, ◌+ℤ◌, if_rule, OnOk, eqb_ℤ, not, ◌||◌, ◌==◌, ℕ, zero, suc, ◌+◌, ◌≤◌, ◌≡◌, inl, inr, pos,
  true, false, Bool-cases, Option, none, some, length, length-set, arith,
}
use kindle_launchpad.Hotkey.State.{InputEvent, Hotkey, release_input, engage_hotkey_timer}
use kindle_launchpad.Hotkey.Step.{
  finish_sequence, alarm_handler, hot_press, cold_press, press, release, process_input_event,
  ev_key, is_trailer, disarm, leave_hot, run_found, resend,
}
use kindle_launchpad.Keys.Names.{get_key_substitute_code}
use kindle_launchpad.Launchpad.Action.{Found, max_seq, find_sequence_action}

-- The collected codes fit their array; the devices are captured exactly in hot mode; the timer runs
-- only in hot mode and with its handler in place; the introducer is noted only out of hot mode.
pub record IsSafe (s : Hotkey) : Type 0 where
  pub array : length s.hot_sequence ≡ max_seq
  pub bounded : s.hot_sequence_length ≤ max_seq
  pub captured : s.input_captured ≡ s.hotkey_mode
  pub armed_hot : (s.hotkey_mode ≡ false) → (s.it_sec ≡ 0) × (s.it_usec ≡ 0)
  pub armed_handled : (s.handled ≡ false) → (s.it_sec ≡ 0) × (s.it_usec ≡ 0)
  pub noted_cold : (s.hotkey_mode ≡ true) → s.introducer_just_pressed ≡ false

-- Besides, out of hot mode no codes are collected.
pub record IsValid (s : Hotkey) : Type 0 where
  pub safe : IsSafe s
  pub cold_empty : (s.hotkey_mode ≡ false) → s.hot_sequence_length ≡ 0

cold_press-IsSafe :
    (s : Hotkey) (code : ℕ) → s.hotkey_mode ≡ false → IsSafe s → IsSafe (cold_press s code)
unfolding cold_press
cold_press-IsSafe s code m v = ground arith

release-IsSafe : (s : Hotkey) (code : ℕ) → IsSafe s → IsSafe (release s code)
unfolding release
release-IsSafe s code v = ground arith

resend-IsSafe : (n i : ℕ) (s : Hotkey) → IsSafe s → IsSafe (resend n i s)
unfolding resend
resend-IsSafe zero i s v = v
resend-IsSafe (suc n) i s v = resend-IsSafe n (i + 1) _ (ground arith)

disarm-IsSafe : (s : Hotkey) → IsSafe s → IsSafe (leave_hot s)
unfolding release_input engage_hotkey_timer
disarm-IsSafe s v = ground arith

module _ (execute_action : Found → ℕ) where
  run_found-IsSafe :
      (pa : Option Found) (s : Hotkey) → IsSafe s → IsSafe (run_found execute_action pa s)
  unfolding run_found
  run_found-IsSafe none s v = resend-IsSafe s.hot_sequence_length 0 s v
  run_found-IsSafe (some pa) s v = ground arith

  finish_sequence-IsSafe : (s : Hotkey) → IsSafe s → IsSafe (finish_sequence execute_action s)
  unfolding finish_sequence
  finish_sequence-IsSafe s v = elim (Bool-cases (ltb 0 s.hot_sequence_length)) [
    | inl some_keys ↦ rw some_keys (
        run_found-IsSafe (find_sequence_action s.pactions s.hot_sequence s.hot_sequence_length)
          (record s { hot_sequence_length = 0 }) (ground arith))
    | inr no_keys ↦ rw no_keys v
  ]

  pub hot_press-IsSafe :
      (s : Hotkey) (code : ℕ) → IsSafe s → OnOk IsSafe (hot_press execute_action s code)
  unfolding hot_press
  hot_press-IsSafe s code v =
      if_rule (OnOk IsSafe) (is_trailer s.trailer code)
        (λ _. finish_sequence-IsSafe _ (disarm-IsSafe s v))
        (λ _.
          if_rule (OnOk IsSafe) (ltb s.hot_sequence_length max_seq)
            (λ room. ground (
              arith,
              length-set s.hot_sequence s.hot_sequence_length (get_key_substitute_code code),
            ))
            (λ _. tt))

  pub press-IsSafe : (s : Hotkey) (code : ℕ) → IsSafe s → OnOk IsSafe (press execute_action s code)
  unfolding press
  press-IsSafe s code v =
      let t = record s { npressed = s.npressed +ℤ pos 1 } in
      if_rule (OnOk IsSafe) s.hotkey_mode (λ hot. hot_press-IsSafe t code (ground arith))
        (λ cold. cold_press-IsSafe t code cold (ground arith))

  pub step-IsSafe :
      (s : Hotkey) (pev : InputEvent)
      → IsSafe s
      → OnOk IsSafe (process_input_event execute_action s pev)
  unfolding process_input_event
  step-IsSafe s pev v =
      if_rule (OnOk IsSafe) (pev.type == ev_key)
        (λ _.
          if_rule (OnOk IsSafe) (eqb_ℤ pev.value (pos 1)) (λ _. press-IsSafe s pev.code v)
            (λ _.
              if_rule (OnOk IsSafe) (eqb_ℤ pev.value (pos 0)) (λ _. release-IsSafe s pev.code v)
                (λ _. v)))
        (λ _. v)

  -- Alarm handler, first part of the invariant.
  pub alarm-IsSafe : (s : Hotkey) → IsSafe s → IsSafe (alarm_handler execute_action s)
  unfolding alarm_handler
  alarm-IsSafe s v =
      if_rule IsSafe (not (s.it_sec == 0) || not (s.it_usec == 0)) (λ _. v)
        (λ _.
          if_rule IsSafe (disarm s).hotkey_mode (λ _. finish_sequence-IsSafe _ (disarm-IsSafe s v))
            (λ cold. unfold release_input engage_hotkey_timer in ground arith))
