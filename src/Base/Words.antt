-- ===== src/Base/Words.antt =====
-- The words of a byte string, described independently of strtok_r, which cuts them off one by one.
use mathlib.Core.Path.{◌≡◌, refl, sym, ap, ◌∙◌}
use mathlib.Core.Bool.{Bool, true, false}
use mathlib.Core.Option.{Option, none, some}
use mathlib.Core.List.{List, [], ◌∷◌, ◌++◌}
use Prim.Native.Nat.{ℕ}
use native.Mathlib.Omega.{arith}
use kindle_launchpad.Base.Tests.{if_rule, if◌then◌else◌}
use kindle_launchpad.Base.Text.{Bytes}
use kindle_launchpad.Base.Strings.{skip_separators, cut_token, token_of, strtok_r}

-- An empty word is left out.
abbrev pub add_word : Bytes → List Bytes → List Bytes
add_word [] ws = ws
add_word (c ∷ w) ws = (c ∷ w) ∷ ws

module _ (sep : ℕ → Bool) where
  -- The bytes in front of the first separator, and the words behind it.
  unfoldable pub pieces : Bytes → Bytes × List Bytes
  pieces [] = ([], [])
  pieces (c ∷ cs) =
      let rest = pieces cs in if sep c then ([], add_word rest.0 rest.1) else (c ∷ rest.0, rest.1)

  -- The maximal runs of bytes that are no separators.
  unfoldable pub words : Bytes → List Bytes
  unfolding pieces
  words s = add_word (pieces s).0 (pieces s).1

  pieces-cut_token :
      (s : Bytes)
      → ((pieces s).0 ≡ (cut_token sep s).0) × ((pieces s).1 ≡ words (cut_token sep s).1)
  unfolding words cut_token
  pieces-cut_token [] = (refl, refl)
  pieces-cut_token (c ∷ cs) = ground (arith, pieces-cut_token cs)

  words-skip_separators : (s : Bytes) → words (skip_separators sep s) ≡ words s
  unfolding words skip_separators
  words-skip_separators [] = refl
  words-skip_separators (c ∷ cs) = ground (arith, words-skip_separators cs)

  -- What a call of strtok_r says of the words of its argument.
  abbrev pub Cuts : Bytes → Option (Bytes × Bytes) → Type 0
  Cuts s none = words s ≡ []
  Cuts s (some (p, saveptr)) = words s ≡ p ∷ words saveptr

  abbrev Unseparated : Bytes → Type 0
  Unseparated [] = Unit
  Unseparated (c ∷ cs) = sep c ≡ false

  skip_separators-Unseparated : (s : Bytes) → Unseparated (skip_separators sep s)
  unfolding skip_separators
  skip_separators-Unseparated [] = tt
  skip_separators-Unseparated (c ∷ cs) =
      if_rule Unseparated (sep c) (λ e. skip_separators-Unseparated cs) (λ e. e)

  token_of-Cuts : (s : Bytes) → Unseparated s → Cuts s (token_of sep s)
  unfolding words cut_token
  token_of-Cuts [] h = refl
  token_of-Cuts (c ∷ cs) h = ground (arith, pieces-cut_token cs)

  Cuts-transport :
      (s t : Bytes) (r : Option (Bytes × Bytes)) → words s ≡ words t → Cuts s r → Cuts t r
  Cuts-transport s t none e h = sym e ∙ h
  Cuts-transport s t (some (p, saveptr)) e h = sym e ∙ h

  pub strtok_r-Cuts : (s : Bytes) → Cuts s (strtok_r sep s)
  unfolding strtok_r
  strtok_r-Cuts s =
      Cuts-transport (skip_separators sep s) s _ (words-skip_separators s)
        (token_of-Cuts (skip_separators sep s) (skip_separators-Unseparated s))

  add_word-append : (w : Bytes) (ws vs : List Bytes) → add_word w (ws ++ vs) ≡ add_word w ws ++ vs
  add_word-append [] ws vs = refl
  add_word-append (c ∷ w) ws vs = refl

  pieces-append :
      (a b : Bytes) (c : ℕ)
      → sep c ≡ true
      → ((pieces (a ++ c ∷ b)).0 ≡ (pieces a).0)
        × ((pieces (a ++ c ∷ b)).1 ≡ (pieces a).1 ++ words b)
  unfolding words
  pieces-append [] b c h = ground arith
  pieces-append (d ∷ a) b c h =
      let (first, others) = pieces-append a b c h in
      let joined : add_word (pieces (a ++ c ∷ b)).0 (pieces (a ++ c ∷ b)).1
          ≡ add_word (pieces a).0 (pieces a).1 ++ words b =
        ap (λ (w : Bytes). add_word w (pieces (a ++ c ∷ b)).1) first
        ∙ ap (add_word (pieces a).0) others
        ∙ add_word-append (pieces a).0 (pieces a).1 (words b) in
      ground (arith, first, others, joined)

  -- The words in front of a separator and those behind it.
  pub words-append : (a b : Bytes) (c : ℕ) → sep c ≡ true → words (a ++ c ∷ b) ≡ words a ++ words b
  unfolding words
  words-append a b c h =
      let (first, others) = pieces-append a b c h in
      ap (λ (w : Bytes). add_word w (pieces (a ++ c ∷ b)).1) first
      ∙ ap (add_word (pieces a).0) others
      ∙ add_word-append (pieces a).0 (pieces a).1 (words b)
