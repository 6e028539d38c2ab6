-- ===== src/Hotkey/Sequence.antt =====
-- From the introducer to the trailer: the keys typed in between run their action.
use mathlib.Core.List.{append-nil}
use kindle_launchpad.Base.{
  ℕ, ◌<◌, ◌≡◌, refl, sym, ap, ◌∙◌, pos, false, ltb, if_rule, List, [], ◌∷◌, ◌++◌, Option, none,
  some, arith,
}
use kindle_launchpad.Hotkey.State.{Hotkey, release_input, engage_hotkey_timer}
use kindle_launchpad.Hotkey.Step.{leave_hot, finish_sequence, run_found}
use kindle_launchpad.Hotkey.Log.{
  executed, sent_back, executed-append, sent_back-append, leave_hot-SameOutput,
}
use kindle_launchpad.Hotkey.Frame.{leave_hot-SameKeys}
use kindle_launchpad.Launchpad.Action.{Action, Found, find_sequence_action}

abbrev pub to_list {ℓ} : {A : Type ℓ} → Option A → List A
to_list none = []
to_list (some a) = a ∷ []

-- What finishing a sequence that found `r` does.
pub record Finished (r : Option Found) (s t : Hotkey) : Type 0 where
  pub runs : executed t.log ≡ executed s.log ++ to_list r
  pub sends_nothing : sent_back t.log ≡ sent_back s.log
  pub same_mode : t.hotkey_mode ≡ s.hotkey_mode
  pub same_capture : t.input_captured ≡ s.input_captured
  pub emptied : t.hot_sequence_length ≡ 0

-- Hot mode has ended on the result `r` of the search.
pub record Ended (r : Option Found) (s t : Hotkey) : Type 0 where
  pub cold : t.hotkey_mode ≡ false
  pub released : t.input_captured ≡ false
  pub empty : t.hot_sequence_length ≡ 0
  pub ran : executed t.log ≡ executed s.log ++ to_list r
  pub sent_nothing : sent_back t.log ≡ sent_back s.log

module _ (execute_action : Found → ℕ) where
  run_found-Finished :
      (r : Option Found) (s : Hotkey)
      → Finished r s (run_found execute_action r (record s { hot_sequence_length = 0 }))
  unfolding run_found
  run_found-Finished none s = record {
    runs = sym (append-nil _);
    sends_nothing = refl;
    same_mode = refl;
    same_capture = refl;
    emptied = refl;
  }
  run_found-Finished (some pa) s = record {
    runs = executed-append s.log _;
    sends_nothing = sent_back-append s.log _ ∙ append-nil _;
    same_mode = refl;
    same_capture = refl;
    emptied = refl;
  }

  pub finish_sequence-Finished :
      (s : Hotkey)
      → 0 < s.hot_sequence_length
      → Finished
          (find_sequence_action s.pactions s.hot_sequence s.hot_sequence_length)
          s
          (finish_sequence execute_action s)
  unfolding finish_sequence
  finish_sequence-Finished s h =
      if_rule (Finished (find_sequence_action s.pactions s.hot_sequence s.hot_sequence_length) s)
        (ltb 0 s.hot_sequence_length) (λ _. run_found-Finished _ s) (λ e. absurd (ground arith))

  -- Leaving hot mode releases the devices and forgets the timer.
  pub leave_hot-released : (s : Hotkey) → (leave_hot s).input_captured ≡ false
  unfolding release_input
  leave_hot-released s =
      if_rule (λ (t : Hotkey). t.input_captured ≡ false)
        (engage_hotkey_timer (pos 0) s).input_captured (λ _. refl) (λ e. e)

  -- Leaving hot mode with codes collected runs what they name.
  pub leave_finish :
      (s : Hotkey)
      → 0 < s.hot_sequence_length
      → Ended
          (find_sequence_action s.pactions s.hot_sequence s.hot_sequence_length)
          s
          (finish_sequence execute_action (leave_hot s))
  leave_finish s some_keys =
      let q = leave_hot s in
      let same = leave_hot-SameKeys s in
      let out = leave_hot-SameOutput s in
      let f = finish_sequence-Finished q (rw same.same_length some_keys) in
      let found : find_sequence_action q.pactions q.hot_sequence q.hot_sequence_length
          ≡ find_sequence_action s.pactions s.hot_sequence s.hot_sequence_length =
        rw (same.same_length, same.same_sequence, same.same_actions) in
      record {
        cold = f.same_mode;
        released = f.same_capture ∙ leave_hot-released s;
        empty = f.emptied;
        ran =
            f.runs
            ∙ ap
                (λ (l : List Found).
                  l
                  ++ to_list (find_sequence_action q.pactions q.hot_sequence q.hot_sequence_length))
                out.same_executed
            ∙ ap (λ (r : Option Found). executed s.log ++ to_list r) found;
        sent_nothing = f.sends_nothing ∙ out.same_sent;
      }
