-- ===== src/Hotkey/Overflow.antt =====
-- Where the hotkey machine leaves its array, and how it can stay in hot mode.
use kindle_launchpad.Base.{
  ◌↔◌, ==_iff, eqb_ℤ, eqb_ℤ_iff, ℕ, ◌≤◌, ◌≡◌, refl, pos, ◌+ℤ◌, true, false, ltb, ◌==◌, if_rule,
  Outcome, ok, fault, arith,
}
use kindle_launchpad.Hotkey.State.{InputEvent, Hotkey}
use kindle_launchpad.Hotkey.Step.{ev_key, is_trailer, hot_press, press, process_input_event}
use kindle_launchpad.Launchpad.Action.{Found, max_seq}

-- The premises of an overflow, behind the test of the event.
abbrev Overflows : Hotkey → ℕ → Type 0
Overflows s code =
    (s.hotkey_mode ≡ true) × (is_trailer s.trailer code ≡ false) × (max_seq ≤ s.hot_sequence_length)

abbrev FaultsIff : Type 0 → Outcome Hotkey → Type 0
FaultsIff Q m = (m ≡ fault) ↔ Q

FaultsIff-ok : (Q : Type 0) (t : Hotkey) → ¬ Q → FaultsIff Q (ok t)
FaultsIff-ok Q t unmet = (λ e. cc, λ q. absurd (unmet q))

module _ (execute_action : Found → ℕ) where
  hot_press-FaultsIff :
      (s : Hotkey) (code : ℕ)
      → s.hotkey_mode ≡ true
      → FaultsIff (Overflows s code) (hot_press execute_action s code)
  unfolding hot_press
  hot_press-FaultsIff s code hot =
      if_rule (FaultsIff (Overflows s code)) (is_trailer s.trailer code)
        (λ last. FaultsIff-ok _ _ (λ q. cc q.1))
        (λ more.
          if_rule (FaultsIff (Overflows s code)) (ltb s.hot_sequence_length max_seq)
            (λ room. FaultsIff-ok _ _ (λ q. ground arith))
            (λ full. (λ e. (hot, more, ground arith), λ q. refl)))

  press-FaultsIff :
      (s : Hotkey) (code : ℕ) → FaultsIff (Overflows s code) (press execute_action s code)
  unfolding press
  press-FaultsIff s code =
      let t = record s { npressed = s.npressed +ℤ pos 1 } in
      if_rule (FaultsIff (Overflows s code)) s.hotkey_mode (λ hot. hot_press-FaultsIff t code hot)
        (λ cold. FaultsIff-ok _ _ (λ q. cc q.0))

  -- An event writes behind the end of the array of collected codes exactly if it is a key press in
  -- hot mode, other than of the trailer, that finds MAXSEQ codes collected; no other event faults.
  pub process_input_event-fault_iff :
      (s : Hotkey) (pev : InputEvent)
      → (process_input_event execute_action s pev ≡ fault) ↔ (
          (pev.type ≡ ev_key)
          × (pev.value ≡ pos 1)
          × (s.hotkey_mode ≡ true)
          × (is_trailer s.trailer pev.code ≡ false)
          × (max_seq ≤ s.hot_sequence_length))
  unfolding process_input_event
  process_input_event-fault_iff s pev =
      if_rule (FaultsIff _) (pev.type == ev_key)
        (λ key.
          if_rule (FaultsIff _) (eqb_ℤ pev.value (pos 1))
            (λ down.
              let p = press-FaultsIff s pev.code in
              (
                λ e. let q = p.0 e in ((==_iff _ _).0 key, (eqb_ℤ_iff _ _).0 down, q.0, q.1, q.2),
                λ q. p.1 (q.2, q.3, q.4),
              ))
            (λ not_down.
              if_rule (FaultsIff _) (eqb_ℤ pev.value (pos 0))
                (λ up. FaultsIff-ok _ _ (λ q. cc ((eqb_ℤ_iff pev.value (pos 1)).1 q.1)))
                (λ other. FaultsIff-ok _ _ (λ q. cc ((eqb_ℤ_iff pev.value (pos 1)).1 q.1)))))
        (λ other. FaultsIff-ok _ _ (λ q. cc ((==_iff pev.type ev_key).1 q.0)))
