-- ===== src/Hotkey/Frame.antt =====
-- What the capture of the devices and the timer leave alone.
use kindle_launchpad.Base.{
  minus_one, negsuc, eqb_ℤ, ◌≡◌, refl, ◌∙◌, ℤ, pos, Bool, true, false, if_rule,
}
use kindle_launchpad.Hotkey.State.{
  Hotkey, grab_open, grab_all, capture_input, release_input, engage_hotkey_timer,
}
use kindle_launchpad.Hotkey.Step.{leave_hot}

-- The collected keys and the configuration are the same.
pub record SameKeys (s t : Hotkey) : Type 0 where
  pub same_trailer : t.trailer ≡ s.trailer
  pub same_sequence : t.hot_sequence ≡ s.hot_sequence
  pub same_length : t.hot_sequence_length ≡ s.hot_sequence_length
  pub same_actions : t.pactions ≡ s.pactions
  pub same_noted : t.introducer_just_pressed ≡ s.introducer_just_pressed

SameKeys-refl : (s : Hotkey) → SameKeys s s
SameKeys-refl s = record {
  same_trailer = refl;
  same_sequence = refl;
  same_length = refl;
  same_actions = refl;
  same_noted = refl;
}

SameKeys-trans : {s t u : Hotkey} → SameKeys s t → SameKeys t u → SameKeys s u
SameKeys-trans a b = record {
  same_trailer = b.same_trailer ∙ a.same_trailer;
  same_sequence = b.same_sequence ∙ a.same_sequence;
  same_length = b.same_length ∙ a.same_length;
  same_actions = b.same_actions ∙ a.same_actions;
  same_noted = b.same_noted ∙ a.same_noted;
}

grab_open-SameKeys : (fd : ℤ) (on : Bool) (s : Hotkey) → SameKeys s (grab_open fd on s)
grab_open-SameKeys fd on s =
    if_rule (SameKeys s) (eqb_ℤ fd minus_one) (λ _. SameKeys-refl s)
      (λ _. record {
        same_trailer = refl;
        same_sequence = refl;
        same_length = refl;
        same_actions = refl;
        same_noted = refl;
      })

grab_all-SameKeys : (on : Bool) (s : Hotkey) → SameKeys s (grab_all on s)
grab_all-SameKeys on s =
    let a = grab_open s.fd_kbd on s in
    let b = grab_open s.fd_fw on a in
    SameKeys-trans (grab_open-SameKeys s.fd_kbd on s)
      (SameKeys-trans (grab_open-SameKeys s.fd_fw on a) (grab_open-SameKeys s.fd_k3_vol on b))

-- The capture flag and the mode are set beside these fields.
SameKeys-marked :
    {s t : Hotkey} (captured hot : Bool)
    → SameKeys s t
    → SameKeys s (record t { input_captured = captured; hotkey_mode = hot })
SameKeys-marked captured hot h = record {
  same_trailer = h.same_trailer;
  same_sequence = h.same_sequence;
  same_length = h.same_length;
  same_actions = h.same_actions;
  same_noted = h.same_noted;
}

engage-SameKeys : (msecs : ℤ) (s : Hotkey) → SameKeys s (engage_hotkey_timer msecs s)
unfolding engage_hotkey_timer
engage-SameKeys (pos n) s = record {
  same_trailer = refl;
  same_sequence = refl;
  same_length = refl;
  same_actions = refl;
  same_noted = refl;
}
engage-SameKeys (negsuc n) s = record {
  same_trailer = refl;
  same_sequence = refl;
  same_length = refl;
  same_actions = refl;
  same_noted = refl;
}

pub engage-mode :
    (msecs : ℤ) (s : Hotkey) → (engage_hotkey_timer msecs s).hotkey_mode ≡ s.hotkey_mode
unfolding engage_hotkey_timer
engage-mode (pos n) s = refl
engage-mode (negsuc n) s = refl

-- The devices are captured and hot mode is on.
pub capture-SameKeys : (s : Hotkey) → SameKeys s (record (capture_input s) { hotkey_mode = true })
unfolding capture_input
capture-SameKeys s = SameKeys-marked true true (grab_all-SameKeys true s)

release_input-SameKeys :
    (s : Hotkey) → SameKeys s (record (release_input s) { hotkey_mode = false })
unfolding release_input
release_input-SameKeys s =
    if_rule (λ (t : Hotkey). SameKeys s (record t { hotkey_mode = false })) s.input_captured
      (λ _. SameKeys-marked false false (grab_all-SameKeys false s))
      (λ _. SameKeys-marked s.input_captured false (SameKeys-refl s))

pub leave_hot-SameKeys : (s : Hotkey) → SameKeys s (leave_hot s)
leave_hot-SameKeys s =
    SameKeys-trans (engage-SameKeys (pos 0) s)
      (release_input-SameKeys (engage_hotkey_timer (pos 0) s))

pub engage-entered-SameKeys :
    (msecs : ℤ) (s : Hotkey)
    → SameKeys s (engage_hotkey_timer msecs (record (capture_input s) { hotkey_mode = true }))
engage-entered-SameKeys msecs s = SameKeys-trans (capture-SameKeys s) (engage-SameKeys msecs _)
