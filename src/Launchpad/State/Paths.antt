-- ===== src/Launchpad/State/Paths.antt =====
-- The paths of [Settings] in src/launchpad.c.
use mathlib.Core.List.{append-nil}
use kindle_launchpad.Base.{
  ℕ, zero, suc, ◌-◌, ◌<◌, ◌≡◌, ◌≢◌, refl, ap, ◌∙◌, [], ◌∷◌, ◌++◌, ltb, lt→ltb, if◌then◌else◌,
  if_true, Bytes, c_string, length, take, drop, replicate, strncpy, arith,
}
use kindle_launchpad.Launchpad.Action.{max_path}
use kindle_launchpad.Launchpad.State.{path_array, copy_path}

abbrev pub HasNoZero : Bytes → Type 0
HasNoZero [] = Unit
HasNoZero (c ∷ cs) = (c ≢ 0) × HasNoZero cs

c_string-append : (v rest : Bytes) → HasNoZero v → c_string (v ++ rest) ≡ v ++ c_string rest
unfolding c_string
c_string-append [] rest h = refl
c_string-append (c ∷ v) rest (nz, h) = ground (arith, c_string-append v rest h)

c_string-replicate : (k : ℕ) → c_string (replicate k 0) ≡ []
unfolding c_string
c_string-replicate zero = refl
c_string-replicate (suc k) = refl

take-append : (v rest : Bytes) → take (length v) (v ++ rest) ≡ v
take-append [] rest = refl
take-append (c ∷ v) rest = ap (λ (l : Bytes). c ∷ l) (take-append v rest)

c_string-drop_zeros : (n k : ℕ) → c_string (drop n (replicate k 0)) ≡ []
unfolding c_string
c_string-drop_zeros zero k = c_string-replicate k
c_string-drop_zeros (suc n) zero = refl
c_string-drop_zeros (suc n) (suc k) = c_string-drop_zeros n k

-- What stays of an array of a string and zeros.
c_string-drop :
    (n k : ℕ) (old : Bytes) → HasNoZero old → c_string (drop n (old ++ replicate k 0)) ≡ drop n old
c_string-drop zero k old h =
    c_string-append old (replicate k 0) h
    ∙ ap (λ (l : Bytes). old ++ l) (c_string-replicate k)
    ∙ append-nil old
c_string-drop (suc n) k [] h = c_string-drop_zeros (suc n) k
c_string-drop (suc n) k (c ∷ old) (nz, h) = c_string-drop n k old h

-- A path of `v` that is set over a path `old`, both shorter than their array, reads as `v` with what
-- `old` had behind the length of `v`: it is only `v` if it is at least as long as `old`.
pub copy_path_lem :
    (old v : Bytes)
    → HasNoZero old
    → HasNoZero v
    → length v < max_path
    → c_string (copy_path (path_array old) v) ≡ v ++ drop (length v) old
copy_path_lem old v h g lt =
    let n : (if ltb (length v) max_path then length v else max_path - 1) ≡ length v =
      if_true _ _ (lt→ltb (length v) max_path lt) in
    ap (λ n. c_string (strncpy (path_array old) v n)) n
    ∙ ap (λ (l : Bytes). c_string (l ++ drop (length v) (path_array old)))
        (take-append v (replicate (length v) 0))
    ∙ c_string-append v (drop (length v) (path_array old)) g
    ∙ ap (λ (l : Bytes). v ++ l) (c_string-drop (length v) (max_path - length old) old h)
