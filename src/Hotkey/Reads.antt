-- ===== src/Hotkey/Reads.antt =====
-- Which events of a device reach the machine, for each answer of read().
use kindle_launchpad.Base.{
  if◌then◌else◌, ◌>>=◌, ℕ, ◌≤◌, ◌≡◌, refl, ◌-ℤ◌, Bool, List, [], ◌∷◌, length, Outcome, ok, ◌>>=◌,
  arith,
}
use kindle_launchpad.Hotkey.State.{InputEvent, Hotkey}
use kindle_launchpad.Hotkey.Step.{process_input_event}
use kindle_launchpad.Hotkey.Loop.{got, failed, num_bytes, read_into, drain}
use kindle_launchpad.Launchpad.Action.{Found}

module _ (execute_action : Found → ℕ) where
  -- The events that a device may send, one after the other.
  unfoldable pub feed : (ℕ → Bool) → List InputEvent → Hotkey → Outcome Hotkey
  feed keep [] s = ok s
  feed keep (pev ∷ evs) s =
      (if keep pev.code then process_input_event execute_action s pev else ok s) >>= feed keep evs

  feed_got :
      (keep : ℕ → Bool) (evs : List InputEvent) (a b : InputEvent) (s : Hotkey)
      → length evs ≤ 2
      → drain execute_action keep (read_into (got evs) (a ∷ b ∷ [])) (num_bytes (got evs)) s
        ≡ feed keep evs s
  unfolding drain feed ◌-ℤ◌
  feed_got keep [] a b s h = refl
  feed_got keep (x ∷ []) a b s h = refl
  feed_got keep (x ∷ y ∷ []) a b s h = refl
  feed_got keep (x ∷ y ∷ z ∷ r) a b s h = absurd (omega arith)

  -- A read() of up to two events gives the machine exactly those of them that the device may send,
  -- in order. A read() that fails gives it the two events that the buffer held before, once more.
  pub read_feeds :
      (keep : ℕ → Bool) (a b : InputEvent) (s : Hotkey)
      → ((evs : List InputEvent)
          → length evs ≤ 2
          → drain execute_action keep (read_into (got evs) (a ∷ b ∷ [])) (num_bytes (got evs)) s
            ≡ feed keep evs s)
        × (drain execute_action keep (read_into failed (a ∷ b ∷ [])) (num_bytes failed) s
            ≡ feed keep (a ∷ b ∷ []) s)
  unfolding drain feed ◌-ℤ◌
  read_feeds keep a b s = (λ evs h. feed_got keep evs a b s h, refl)
