-- ===== src/Hotkey/Typing.antt =====
-- What typing does: the introducer starts hot mode, keys are collected, the trailer or the alarm ends
-- hot mode and runs the action of the collected keys.
use mathlib.Core.List.{append-nil, append_assoc}
use native.Mathlib.Numerals.{add-one}
use kindle_launchpad.Base.{
  eqb_ℤ, eqb_ℤ_iff, ◌&&◌, ℕ, ◌+◌, ◌≤◌, ◌<◌, ◌≡◌, refl, sym, ap, ◌∙◌, ℤ, pos, ◌+ℤ◌, ◌-ℤ◌, true,
  false, ◌==◌, if_true, if_false, lt→ltb, +ℤ_cancel, List, [], ◌∷◌, ◌++◌, map, Option, take, set,
  take-set_end, length-set, length, Outcome, ok, ◌>>=◌, arith,
}
use kindle_launchpad.Hotkey.State.{InputEvent, Hotkey, capture_input, engage_hotkey_timer}
use kindle_launchpad.Hotkey.Step.{ev_key, is_trailer, process_input_event}
use kindle_launchpad.Keys.Names.{get_key_substitute_code}
use kindle_launchpad.Launchpad.Action.{Found, max_seq}

abbrev pub key_down : ℕ → InputEvent
key_down c = record { type = ev_key; code = c; value = pos 1 }

abbrev pub key_up : ℕ → InputEvent
key_up c = record { type = ev_key; code = c; value = pos 0 }

-- Keys pressed and released one after the other.
abbrev pub taps : List ℕ → List InputEvent
taps [] = []
taps (k ∷ ks) = key_down k ∷ key_up k ∷ taps ks

-- No key of the list is the trailer.
abbrev pub NoTrailer : Option ℕ → List ℕ → Type 0
NoTrailer trailer [] = Unit
NoTrailer trailer (k ∷ ks) = (is_trailer trailer k ≡ false) × NoTrailer trailer ks

-- The state after `ks` have been collected in hot mode.
abbrev pub collected : Hotkey → List ℕ → Hotkey
collected s [] = s
collected s (k ∷ ks) =
    collected
      (record s {
        hot_sequence = set s.hot_sequence s.hot_sequence_length (get_key_substitute_code k);
        hot_sequence_length = s.hot_sequence_length + 1;
      })
      ks

one_more : pos 0 +ℤ pos 1 ≡ pos 1
unfolding ◌+ℤ◌
one_more = refl

one_less : pos 1 -ℤ pos 1 ≡ pos 0
unfolding ◌-ℤ◌
one_less = refl

module _ (execute_action : Found → ℕ) where
  unfoldable pub run : List InputEvent → Hotkey → Outcome Hotkey
  run [] s = ok s
  run (pev ∷ evs) s = process_input_event execute_action s pev >>= run evs

  down-hot :
      (k : ℕ) (s : Hotkey)
      → s.hotkey_mode ≡ true
      → is_trailer s.trailer k ≡ false
      → s.hot_sequence_length < max_seq
      → process_input_event execute_action s (key_down k)
        ≡ ok (record (collected s (k ∷ [])) { npressed = s.npressed +ℤ pos 1 })
  unfolding process_input_event
  down-hot k s hot more room = if_true _ _ hot ∙ if_false _ _ more ∙ if_true _ _ (lt→ltb _ _ room)

  up-quiet :
      (k : ℕ) (s : Hotkey)
      → s.introducer_just_pressed ≡ false
      → process_input_event execute_action s (key_up k)
        ≡ ok (record s { npressed = s.npressed -ℤ pos 1 })
  unfolding process_input_event
  up-quiet k s quiet =
      let t = record s { npressed = s.npressed -ℤ pos 1 } in
      let unmoved : (eqb_ℤ t.npressed (pos 0) && ((k == t.introducer) && t.introducer_just_pressed))
          ≡ false =
        ground arith in
      ap ok (if_false _ _ unmoved)

  one_tap :
      (k : ℕ) (evs : List InputEvent) (s : Hotkey)
      → s.hotkey_mode ≡ true
      → s.introducer_just_pressed ≡ false
      → is_trailer s.trailer k ≡ false
      → s.hot_sequence_length < max_seq
      → run (key_down k ∷ key_up k ∷ evs) s ≡ run evs (collected s (k ∷ []))
  unfolding run
  one_tap k evs s hot quiet more room =
      let t = record (collected s (k ∷ [])) { npressed = s.npressed +ℤ pos 1 } in
      ap (λ (m : Outcome Hotkey). m >>= run (key_up k ∷ evs)) (down-hot k s hot more room)
      ∙ ap (λ (m : Outcome Hotkey). m >>= run evs) (up-quiet k t quiet)
      ∙ ap (λ (n : ℤ). run evs (record t { npressed = n })) (+ℤ_cancel s.npressed (pos 1))

  -- In hot mode, as many keys as the array has room for are collected, and nothing else changes.
  pub all_taps :
      (ks : List ℕ) (evs : List InputEvent) (s : Hotkey)
      → s.hotkey_mode ≡ true
      → s.introducer_just_pressed ≡ false
      → NoTrailer s.trailer ks
      → s.hot_sequence_length + length ks ≤ max_seq
      → run (taps ks ++ evs) s ≡ run evs (collected s ks)
  all_taps [] evs s hot quiet more room = refl
  all_taps (k ∷ ks) evs s hot quiet (first, more) room =
      one_tap k (taps ks ++ evs) s hot quiet first (omega arith)
      ∙ all_taps ks evs (collected s (k ∷ [])) hot quiet more (omega arith)

  -- Going into hot mode, with no key down before.
  abbrev pub entered : Hotkey → Hotkey
  entered s =
      engage_hotkey_timer s.hot_interval
        (record (capture_input (record s { introducer_just_pressed = false })) {
          hotkey_mode = true;
        })

  down-cold :
      (s : Hotkey)
      → s.hotkey_mode ≡ false
      → s.npressed ≡ pos 0
      → process_input_event execute_action s (key_down s.introducer)
        ≡ ok (record s { npressed = pos 1; introducer_just_pressed = true })
  unfolding process_input_event
  down-cold s cold none_down =
      let one : s.npressed +ℤ pos 1 ≡ pos 1 = ap (λ (n : ℤ). n +ℤ pos 1) none_down ∙ one_more in
      let alone : (eqb_ℤ (s.npressed +ℤ pos 1) (pos 1) && (s.introducer == s.introducer)) ≡ true =
        ground (arith, (eqb_ℤ_iff (s.npressed +ℤ pos 1) (pos 1)).1 one) in
      if_false _ _ cold
      ∙ ap ok (if_true _ _ alone)
      ∙ ap (λ (n : ℤ). ok (record s { npressed = n; introducer_just_pressed = true })) one

  up-noted :
      (s : Hotkey)
      → s.npressed ≡ pos 1
      → s.introducer_just_pressed ≡ true
      → process_input_event execute_action s (key_up s.introducer)
        ≡ ok (entered (record s { npressed = pos 0 }))
  unfolding process_input_event
  up-noted s one noted =
      let none_down : s.npressed -ℤ pos 1 ≡ pos 0 = ap (λ (n : ℤ). n -ℤ pos 1) one ∙ one_less in
      let alone : (eqb_ℤ (s.npressed -ℤ pos 1) (pos 0)
            && ((s.introducer == s.introducer) && s.introducer_just_pressed))
          ≡ true =
        ground (arith, (eqb_ℤ_iff (s.npressed -ℤ pos 1) (pos 0)).1 none_down) in
      ap ok (if_true _ _ alone) ∙ ap (λ (n : ℤ). ok (entered (record s { npressed = n }))) none_down

  pub enter :
      (evs : List InputEvent) (s : Hotkey)
      → s.hotkey_mode ≡ false
      → s.npressed ≡ pos 0
      → run (key_down s.introducer ∷ key_up s.introducer ∷ evs) s
        ≡ run evs (entered (record s { npressed = pos 0 }))
  unfolding run
  enter evs s cold none_down =
      let t = record s { npressed = pos 1; introducer_just_pressed = true } in
      ap (λ (m : Outcome Hotkey). m >>= run (key_up s.introducer ∷ evs))
        (down-cold s cold none_down)
      ∙ ap (λ (m : Outcome Hotkey). m >>= run evs) (up-noted t refl refl)

-- The codes that are collected stand behind those that were there.
pub collected-take :
    (ks : List ℕ) (s : Hotkey)
    → length s.hot_sequence ≡ max_seq
    → s.hot_sequence_length + length ks ≤ max_seq
    → take (collected s ks).hot_sequence_length (collected s ks).hot_sequence
      ≡ take s.hot_sequence_length s.hot_sequence ++ map get_key_substitute_code ks
collected-take [] s full room = sym (append-nil _)
collected-take (k ∷ ks) s full room =
    let n = s.hot_sequence_length in
    let t = collected s (k ∷ []) in
    let one : take (n + 1) t.hot_sequence
        ≡ take n s.hot_sequence ++ get_key_substitute_code k ∷ [] =
      rw add-one (take-set_end s.hot_sequence n (get_key_substitute_code k) (omega arith)) in
    collected-take ks t (length-set s.hot_sequence n _ ∙ full) (omega arith)
    ∙ ap (λ (l : List ℕ). l ++ map get_key_substitute_code ks) one
    ∙ append_assoc (take n s.hot_sequence) _ _

-- All else is as before.
pub collected-rest :
    (ks : List ℕ) (s : Hotkey)
    → ((collected s ks).hot_sequence_length ≡ s.hot_sequence_length + length ks)
      × ((collected s ks).trailer ≡ s.trailer)
      × ((collected s ks).pactions ≡ s.pactions)
      × ((collected s ks).log ≡ s.log)
      × ((collected s ks).hotkey_mode ≡ s.hotkey_mode)
collected-rest [] s = (omega arith, refl, refl, refl, refl)
collected-rest (k ∷ ks) s =
    let (n, t, p, l, m) = collected-rest ks (collected s (k ∷ [])) in (omega arith, t, p, l, m)
