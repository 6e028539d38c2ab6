-- ===== src/Pixop/Clip.antt =====
-- src/pixop.c: what clipping leaves of a run.
use kindle_launchpad.Base.{ℕ, suc, ◌+◌, ◌-◌, ◌≤◌, ◌≡◌, ℤ, pos, negsuc, pos_part, ◌+ℤ◌, ◌-ℤ◌, arith}
use kindle_launchpad.Pixop.Draw.{clip_low, clip_high}

-- A run that is left ends in the pixmap, and what is cut off and left of it was there.
pub clip_high_bound :
    (size b : ℕ) (n : ℤ) {m : ℕ}
    → clip_high size b n ≡ pos (suc m)
    → (b + suc m ≤ size) × (suc m ≤ pos_part n)
unfolding ◌+ℤ◌ ◌-ℤ◌
clip_high_bound size b n e = (ground arith, ground arith)

pub clip_low_bound : (b n : ℤ) → pos_part (clip_low b n).2 ≤ pos_part n - (clip_low b n).1
unfolding ◌+ℤ◌
clip_low_bound (pos b) n = omega arith
clip_low_bound (negsuc b) n = ground arith
