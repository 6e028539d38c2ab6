-- ===== src/Hotkey/Invariant.antt =====
-- The whole invariant of the hotkey machine: every event and every alarm keeps it.
use kindle_launchpad.Base.{
  ℕ, zero, suc, ◌+◌, ◌≡◌, refl, pos, ◌+ℤ◌, eqb_ℤ, true, false, not, ◌||◌, ltb, ◌==◌, if_rule,
  Option, none, some, ok, OnOk, OnOk-ok, arith,
}
use kindle_launchpad.Hotkey.State.{InputEvent, Hotkey, engage_hotkey_timer, release_input}
use kindle_launchpad.Hotkey.Step.{
  ev_key, finish_sequence, alarm_handler, hot_press, cold_press, press, release,
  process_input_event, is_trailer, disarm, leave_hot, run_found, resend,
}
use kindle_launchpad.Hotkey.Valid.{IsSafe, IsValid, step-IsSafe, alarm-IsSafe}
use kindle_launchpad.Launchpad.Action.{Found, max_seq}

-- No codes are collected out of hot mode.
abbrev IsEmptyCold : Hotkey → Type 0
IsEmptyCold s = (s.hotkey_mode ≡ false) → s.hot_sequence_length ≡ 0

resend-length : (n i : ℕ) (s : Hotkey) → (resend n i s).hot_sequence_length ≡ s.hot_sequence_length
unfolding resend
resend-length zero i s = refl
resend-length (suc n) i s = resend-length n (i + 1) _

cold_press-IsEmptyCold :
    (s : Hotkey) (code : ℕ)
    → s.hotkey_mode ≡ false
    → IsEmptyCold s
    → IsEmptyCold (cold_press s code)
unfolding cold_press
cold_press-IsEmptyCold s code m v = ground arith

release-IsEmptyCold : (s : Hotkey) (code : ℕ) → IsEmptyCold s → IsEmptyCold (release s code)
unfolding release
release-IsEmptyCold s code v = ground arith

module _ (execute_action : Found → ℕ) where
  run_found-length :
      (pa : Option Found) (s : Hotkey)
      → (run_found execute_action pa s).hot_sequence_length ≡ s.hot_sequence_length
  unfolding run_found
  run_found-length none s = resend-length s.hot_sequence_length 0 s
  run_found-length (some pa) s = refl

  -- Whatever was collected, nothing is left when a sequence has been finished.
  pub finish_sequence-length :
      (s : Hotkey) → (finish_sequence execute_action s).hot_sequence_length ≡ 0
  unfolding finish_sequence
  finish_sequence-length s =
      if_rule (λ (t : Hotkey). t.hot_sequence_length ≡ 0) (ltb 0 s.hot_sequence_length)
        (λ _. run_found-length _ (record s { hot_sequence_length = 0 })) (λ none_left. ground arith)

  hot_press-IsEmptyCold :
      (s : Hotkey) (code : ℕ)
      → s.hotkey_mode ≡ true
      → OnOk IsEmptyCold (hot_press execute_action s code)
  unfolding hot_press
  hot_press-IsEmptyCold s code m =
      if_rule (OnOk IsEmptyCold) (is_trailer s.trailer code)
        (λ _ _. finish_sequence-length (leave_hot s))
        (λ _.
          if_rule (OnOk IsEmptyCold) (ltb s.hot_sequence_length max_seq) (λ _ cold. cc) (λ _. tt))

  press-IsEmptyCold :
      (s : Hotkey) (code : ℕ) → IsEmptyCold s → OnOk IsEmptyCold (press execute_action s code)
  unfolding press
  press-IsEmptyCold s code v =
      let t = record s { npressed = s.npressed +ℤ pos 1 } in
      if_rule (OnOk IsEmptyCold) s.hotkey_mode (λ hot. hot_press-IsEmptyCold t code hot)
        (λ cold. cold_press-IsEmptyCold t code cold v)

  step-IsEmptyCold :
      (s : Hotkey) (pev : InputEvent)
      → IsEmptyCold s
      → OnOk IsEmptyCold (process_input_event execute_action s pev)
  unfolding process_input_event
  step-IsEmptyCold s pev v =
      if_rule (OnOk IsEmptyCold) (pev.type == ev_key)
        (λ _.
          if_rule (OnOk IsEmptyCold) (eqb_ℤ pev.value (pos 1)) (λ _. press-IsEmptyCold s pev.code v)
            (λ _.
              if_rule (OnOk IsEmptyCold) (eqb_ℤ pev.value (pos 0))
                (λ _. release-IsEmptyCold s pev.code v) (λ _. v)))
        (λ _. v)

  -- Every event that does not fault keeps the invariant.
  pub process_input_event-IsValid :
      (s : Hotkey) (pev : InputEvent) {t : Hotkey}
      → IsValid s
      → process_input_event execute_action s pev ≡ ok t
      → IsValid t
  process_input_event-IsValid s pev v e = record {
    safe = OnOk-ok IsSafe _ e (step-IsSafe execute_action s pev v.safe);
    cold_empty = OnOk-ok IsEmptyCold _ e (step-IsEmptyCold s pev v.cold_empty);
  }

  alarm-IsEmptyCold : (s : Hotkey) → IsEmptyCold s → IsEmptyCold (alarm_handler execute_action s)
  unfolding alarm_handler
  alarm-IsEmptyCold s v =
      if_rule IsEmptyCold (not (s.it_sec == 0) || not (s.it_usec == 0)) (λ _. v)
        (λ _.
          if_rule IsEmptyCold (disarm s).hotkey_mode (λ _ _. finish_sequence-length (leave_hot s))
            (λ cold. unfold release_input engage_hotkey_timer in ground arith))

  -- The alarm handler keeps the invariant, whether the timer has expired or not.
  pub alarm_handler-IsValid : (s : Hotkey) → IsValid s → IsValid (alarm_handler execute_action s)
  alarm_handler-IsValid s v = record {
    safe = alarm-IsSafe execute_action s v.safe;
    cold_empty = alarm-IsEmptyCold s v.cold_empty;
  }
