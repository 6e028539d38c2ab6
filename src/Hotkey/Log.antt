-- ===== src/Hotkey/Log.antt =====
-- What the log of the hotkey machine says: the actions that were run, and the keys sent back.
use mathlib.Core.List.{append-nil}
use kindle_launchpad.Base.{
  minus_one, negsuc, eqb_ℤ, ℕ, ◌≡◌, refl, ap, ◌∙◌, ℤ, pos, Bool, true, false, if_rule, List, [],
  ◌∷◌, ◌++◌,
}
use kindle_launchpad.Hotkey.State.{
  Hotkey, grab_open, grab_all, Effect, grab, set_timer, execute, send_key, capture_input,
  release_input, engage_hotkey_timer,
}
use kindle_launchpad.Hotkey.Step.{leave_hot}
use kindle_launchpad.Launchpad.Action.{Found}

-- The actions that a log says were run, and the keys that were sent back.
abbrev pub executed : List Effect → List Found
executed [] = []
executed (execute pa ∷ l) = pa ∷ executed l
executed (grab _ _ ∷ l) = executed l
executed (set_timer _ ∷ l) = executed l
executed (send_key _ ∷ l) = executed l

abbrev pub sent_back : List Effect → List ℕ
sent_back [] = []
sent_back (send_key c ∷ l) = c ∷ sent_back l
sent_back (grab _ _ ∷ l) = sent_back l
sent_back (set_timer _ ∷ l) = sent_back l
sent_back (execute _ ∷ l) = sent_back l

-- After the same output to the log, as far as actions and keys go.
pub record SameOutput (s t : Hotkey) : Type 0 where
  pub same_executed : executed t.log ≡ executed s.log
  pub same_sent : sent_back t.log ≡ sent_back s.log

pub executed-append : (l m : List Effect) → executed (l ++ m) ≡ executed l ++ executed m
executed-append [] m = refl
executed-append (execute pa ∷ l) m = ap (λ (r : List Found). pa ∷ r) (executed-append l m)
executed-append (grab _ _ ∷ l) m = executed-append l m
executed-append (set_timer _ ∷ l) m = executed-append l m
executed-append (send_key _ ∷ l) m = executed-append l m

pub sent_back-append : (l m : List Effect) → sent_back (l ++ m) ≡ sent_back l ++ sent_back m
sent_back-append [] m = refl
sent_back-append (send_key c ∷ l) m = ap (λ (r : List ℕ). c ∷ r) (sent_back-append l m)
sent_back-append (grab _ _ ∷ l) m = sent_back-append l m
sent_back-append (set_timer _ ∷ l) m = sent_back-append l m
sent_back-append (execute _ ∷ l) m = sent_back-append l m

pub SameOutput-trans : {s t u : Hotkey} → SameOutput s t → SameOutput t u → SameOutput s u
SameOutput-trans a b = record {
  same_executed = b.same_executed ∙ a.same_executed;
  same_sent = b.same_sent ∙ a.same_sent;
}

grab_open-SameOutput : (fd : ℤ) (on : Bool) (s : Hotkey) → SameOutput s (grab_open fd on s)
grab_open-SameOutput fd on s =
    if_rule (SameOutput s) (eqb_ℤ fd minus_one)
      (λ _. record { same_executed = refl; same_sent = refl })
      (λ _. record {
        same_executed = executed-append s.log _ ∙ append-nil _;
        same_sent = sent_back-append s.log _ ∙ append-nil _;
      })

pub grab_all-SameOutput : (on : Bool) (s : Hotkey) → SameOutput s (grab_all on s)
grab_all-SameOutput on s =
    let a = grab_open s.fd_kbd on s in
    let b = grab_open s.fd_fw on a in
    SameOutput-trans (grab_open-SameOutput s.fd_kbd on s)
      (SameOutput-trans (grab_open-SameOutput s.fd_fw on a) (grab_open-SameOutput s.fd_k3_vol on b))

pub engage-SameOutput : (msecs : ℤ) (s : Hotkey) → SameOutput s (engage_hotkey_timer msecs s)
unfolding engage_hotkey_timer
engage-SameOutput (pos n) s = record {
  same_executed = executed-append s.log _ ∙ append-nil _;
  same_sent = sent_back-append s.log _ ∙ append-nil _;
}
engage-SameOutput (negsuc n) s = record {
  same_executed = executed-append s.log _ ∙ append-nil _;
  same_sent = sent_back-append s.log _ ∙ append-nil _;
}

-- Only the log matters.
SameOutput-log : {s t : Hotkey} (u : Hotkey) → SameOutput s t → u.log ≡ t.log → SameOutput s u
SameOutput-log u h e = record {
  same_executed = ap executed e ∙ h.same_executed;
  same_sent = ap sent_back e ∙ h.same_sent;
}

release_input-SameOutput : (s : Hotkey) → SameOutput s (release_input s)
unfolding release_input
release_input-SameOutput s =
    if_rule (SameOutput s) s.input_captured
      (λ _. SameOutput-log _ (grab_all-SameOutput false s) refl)
      (λ _. record { same_executed = refl; same_sent = refl })

pub capture_input-SameOutput : (s : Hotkey) → SameOutput s (capture_input s)
unfolding capture_input
capture_input-SameOutput s = SameOutput-log _ (grab_all-SameOutput true s) refl

pub leave_hot-SameOutput : (s : Hotkey) → SameOutput s (leave_hot s)
leave_hot-SameOutput s =
    SameOutput-log (leave_hot s)
      (SameOutput-trans (engage-SameOutput (pos 0) s)
        (release_input-SameOutput (engage_hotkey_timer (pos 0) s)))
      refl

pub entered-SameOutput :
    (msecs : ℤ) (s : Hotkey)
    → SameOutput s (engage_hotkey_timer msecs (record (capture_input s) { hotkey_mode = true }))
entered-SameOutput msecs s =
    let t = record (capture_input s) { hotkey_mode = true } in
    SameOutput-trans (SameOutput-log t (capture_input-SameOutput s) refl)
      (engage-SameOutput msecs t)
