-- ===== src/Hotkey/Ending.antt =====
-- How hot mode ends by the alarm, and how it can last for good.
use mathlib.Core.Path.{subst}
use mathlib.Core.Bool.{false≢true}
use kindle_launchpad.Base.{
  suc, ◌+◌, ◌≤◌, if◌then◌else◌, Returns, Returns->>=, Returns-map, minus_one, eqb_ℤ, ◌&&◌, ℕ, ◌<◌,
  ◌≡◌, refl, sym, ◌∙◌, ℤ, pos, ◌+ℤ◌, ◌-ℤ◌, true, false, ltb, ◌==◌, if_rule, List, [], ◌∷◌, none,
  arith,
}
use kindle_launchpad.Hotkey.State.{
  InputEvent, Hotkey, grab_open, capture_input, release_input, engage_hotkey_timer,
}
use kindle_launchpad.Hotkey.Step.{
  ev_key, is_trailer, disarm, hot_press, press, release, process_input_event, alarm_handler,
}
use kindle_launchpad.Hotkey.Typing.{run, enter, key_down, key_up}
use kindle_launchpad.Hotkey.Reach.{expire}
use kindle_launchpad.Hotkey.Frame.{engage-mode, capture-SameKeys}
use kindle_launchpad.Hotkey.Sequence.{Ended, leave_finish}
use kindle_launchpad.Launchpad.Action.{Found, max_seq, find_sequence_action}

grab_open-mode : (fd : ℤ) (s : Hotkey) → (grab_open fd false s).hotkey_mode ≡ s.hotkey_mode
grab_open-mode fd s =
    if_rule (λ (t : Hotkey). t.hotkey_mode ≡ s.hotkey_mode) (eqb_ℤ fd minus_one) (λ _. refl)
      (λ _. refl)

pub disarm-mode : (s : Hotkey) → (disarm s).hotkey_mode ≡ s.hotkey_mode
unfolding release_input
disarm-mode s =
    let t = engage_hotkey_timer (pos 0) s in
    let mode : t.hotkey_mode ≡ s.hotkey_mode = engage-mode (pos 0) s in
    if_rule (λ (u : Hotkey). u.hotkey_mode ≡ s.hotkey_mode) t.input_captured
      (λ _.
        grab_open-mode t.fd_k3_vol _ ∙ grab_open-mode t.fd_fw _ ∙ grab_open-mode t.fd_kbd t ∙ mode)
      (λ _. mode)

module _ (execute_action : Found → ℕ) where
  -- When the interval timer expires in hot mode with codes collected, the handler leaves hot mode,
  -- releases the devices, runs exactly the action found for the collected codes, or none if there is
  -- none, sends no key back, and leaves no codes.
  pub alarm_runs :
      (s : Hotkey)
      → s.hotkey_mode ≡ true
      → 0 < s.hot_sequence_length
      → Ended
          (find_sequence_action s.pactions s.hot_sequence s.hot_sequence_length)
          s
          (alarm_handler execute_action (expire s))
  unfolding alarm_handler
  alarm_runs s hot some_keys =
      let e = leave_finish execute_action (expire s) some_keys in
      if_rule (Ended (find_sequence_action s.pactions s.hot_sequence s.hot_sequence_length) s)
        (disarm (expire s)).hotkey_mode
        (λ _. record {
          cold = e.cold;
          released = e.released;
          empty = e.empty;
          ran = e.ran;
          sent_nothing = e.sent_nothing;
        })
        (λ off. absurd (false≢true (sym off ∙ disarm-mode (expire s) ∙ hot)))

-- Hot mode with the timer off and no trailer configured.
record IsStuck (s : Hotkey) : Type 0 where
  hot : s.hotkey_mode ≡ true
  quiet : s.introducer_just_pressed ≡ false
  no_trailer : s.trailer ≡ none
  captured : s.input_captured ≡ true
  off : (s.it_sec ≡ 0) × (s.it_usec ≡ 0)

-- Besides, there is room for `n` more codes.
abbrev Waits : ℕ → Hotkey → Type 0
Waits n s = IsStuck s × (s.hot_sequence_length + n ≤ max_seq)

release-Waits : (n : ℕ) (s : Hotkey) (code : ℕ) → Waits n s → Waits n (release s code)
unfolding release
release-Waits n s code (h, room) =
    let t = record s { npressed = s.npressed -ℤ pos 1 } in
    if_rule (Waits n)
      (eqb_ℤ t.npressed (pos 0) && ((code == t.introducer) && t.introducer_just_pressed))
      (λ noted. absurd (ground (arith, h.quiet))) (λ _. (ground arith, room))

-- The number of codes that an event can add.
unfoldable pub added : InputEvent → ℕ
added pev = if pev.type == ev_key && eqb_ℤ pev.value (pos 1) then 1 else 0

-- The number of keys that are pressed.
unfoldable pub presses : List InputEvent → ℕ
unfolding added
presses [] = 0
presses (pev ∷ evs) = added pev + presses evs

entered-IsStuck :
    (s : Hotkey)
    → s.introducer_just_pressed ≡ false
    → s.trailer ≡ none
    → IsStuck (engage_hotkey_timer (pos 0) (record (capture_input s) { hotkey_mode = true }))
unfolding engage_hotkey_timer
entered-IsStuck s quiet none_set =
    let same = capture-SameKeys s in
    record {
      hot = refl;
      quiet = same.same_noted ∙ quiet;
      no_trailer = same.same_trailer ∙ none_set;
      captured = unfold capture_input in refl;
      off = (refl, refl);
    }

module _ (execute_action : Found → ℕ) where
  hot_press-Waits :
      (n : ℕ) (s : Hotkey) (code : ℕ)
      → Waits (suc n) s
      → Returns (Waits n) (hot_press execute_action s code)
  unfolding hot_press
  hot_press-Waits n s code (h, room) =
      if_rule (Returns (Waits n)) (is_trailer s.trailer code)
        (λ last. absurd (ground (arith, h.no_trailer)))
        (λ _.
          if_rule (Returns (Waits n)) (ltb s.hot_sequence_length max_seq)
            (λ _. (ground arith, omega arith)) (λ full. absurd (ground arith)))

  press-Waits :
      (n : ℕ) (s : Hotkey) (code : ℕ)
      → Waits (suc n) s
      → Returns (Waits n) (press execute_action s code)
  unfolding press
  press-Waits n s code (h, room) =
      let t = record s { npressed = s.npressed +ℤ pos 1 } in
      if_rule (Returns (Waits n)) s.hotkey_mode (λ _. hot_press-Waits n t code (ground arith, room))
        (λ cold. absurd (false≢true (sym cold ∙ h.hot)))

  event-Waits :
      (n : ℕ) (s : Hotkey) (pev : InputEvent)
      → Waits (added pev + n) s
      → Returns (Waits n) (process_input_event execute_action s pev)
  unfolding process_input_event added
  event-Waits n s pev (h, room) =
      if_rule (Returns (Waits n)) (pev.type == ev_key)
        (λ key.
          if_rule (Returns (Waits n)) (eqb_ℤ pev.value (pos 1))
            (λ down. press-Waits n s pev.code (h, ground arith))
            (λ _.
              if_rule (Returns (Waits n)) (eqb_ℤ pev.value (pos 0))
                (λ _. release-Waits n s pev.code (h, omega (arith, room)))
                (λ _. (h, omega (arith, room)))))
        (λ _. (h, omega (arith, room)))

  run-Waits :
      (evs : List InputEvent) (s : Hotkey)
      → Waits (presses evs) s
      → Returns IsStuck (run execute_action evs s)
  unfolding run presses
  run-Waits [] s (h, room) = h
  run-Waits (pev ∷ evs) s h =
      Returns->>= (Waits (presses evs)) IsStuck (process_input_event execute_action s pev)
        (run execute_action evs) (event-Waits (presses evs) s pev h) (run-Waits evs)

  -- With HotInterval 0 and a trailer that is no known key, no input event ends hot mode. From out of
  -- hot mode with no key down, after the introducer and any further events, in which no more keys are
  -- pressed than the array of MAXSEQ codes has room for, the machine has come to a state in which hot
  -- mode is on, the devices are captured and the timer is off.
  pub never_ends :
      (s : Hotkey) (evs : List InputEvent)
      → s.hotkey_mode ≡ false
      → s.npressed ≡ pos 0
      → s.trailer ≡ none
      → s.hot_interval ≡ pos 0
      → s.hot_sequence_length + presses evs ≤ max_seq
      → Returns
          (λ t.
            (t.hotkey_mode ≡ true) × (t.input_captured ≡ true) × (t.it_sec ≡ 0) × (t.it_usec ≡ 0))
          (run execute_action (key_down s.introducer ∷ key_up s.introducer ∷ evs) s)
  unfolding engage_hotkey_timer
  never_ends s evs cold none_down none_set zero_interval room =
      let b = record s { npressed = pos 0; introducer_just_pressed = false } in
      let captured = record (capture_input b) { hotkey_mode = true } in
      let same = capture-SameKeys b in
      let waits : Waits (presses evs) (engage_hotkey_timer s.hot_interval captured) =
        subst (λ (m : ℤ). Waits (presses evs) (engage_hotkey_timer m captured)) (sym zero_interval)
          (entered-IsStuck b refl none_set, rw same.same_length room) in
      rw (enter execute_action evs s cold none_down) (
        Returns-map IsStuck _ (run execute_action evs (engage_hotkey_timer s.hot_interval captured))
          (run-Waits evs (engage_hotkey_timer s.hot_interval captured) waits)
          (λ t h. (h.hot, h.captured, h.off.0, h.off.1)))
