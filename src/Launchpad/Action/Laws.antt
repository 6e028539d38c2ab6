-- ===== src/Launchpad/Action/Laws.antt =====
-- find_sequence_action of src/launchpad.c finds the first action of a sequence, and the screenshot
-- only where no action has it.
use kindle_launchpad.Base.{
  if_false, if_true, ◌↔◌, ℕ, ◌≡◌, refl, ap, ◌∙◌, inl, inr, true, ◌&&◌, List, [], ◌∷◌, ◌++◌, Option,
  none, some, ◌==◌, if_rule, ==_iff, Bool-cases, same_bytes, same_bytes_iff, take, take-take, arith,
}
use kindle_launchpad.Launchpad.Action.{
  Action, Found, action, screenshot, has_sequence, first_with_sequence, triple_shift, if_not_found,
  find_sequence_action,
}

has_sequence-take :
    (pseq : List ℕ) (len : ℕ) (pa : Action)
    → has_sequence (take len pseq) len pa ≡ has_sequence pseq len pa
unfolding has_sequence
has_sequence-take pseq len pa = rw take-take

first_with_sequence-take :
    (pseq : List ℕ) (len : ℕ) (l : List Action)
    → first_with_sequence (take len pseq) len l ≡ first_with_sequence pseq len l
unfolding first_with_sequence
first_with_sequence-take pseq len [] = refl
first_with_sequence-take pseq len (pa ∷ l) =
    ground (arith, has_sequence-take pseq len pa, first_with_sequence-take pseq len l)

if_not_found-take :
    (pseq : List ℕ) (len : ℕ) (pa : Option Action)
    → if_not_found (take len pseq) len pa ≡ if_not_found pseq len pa
if_not_found-take pseq len (some pa) = refl
if_not_found-take pseq len none = elim (Bool-cases (len == 2)) [
  | inl two ↦ let e : len ≡ 2 = (==_iff len 2).0 two in rw (e, take-take)
  | inr other ↦ rw other
]

-- Only the first `len` codes of the array matter.
pub find_sequence_action-take :
    (l : List Action) (pseq : List ℕ) (len : ℕ)
    → find_sequence_action l (take len pseq) len ≡ find_sequence_action l pseq len
unfolding find_sequence_action
find_sequence_action-take l pseq len =
    ap (if_not_found (take len pseq) len) (first_with_sequence-take pseq len l)
    ∙ if_not_found-take pseq len (first_with_sequence pseq len l)

-- The action is for these keys: as many, and the same codes.
abbrev pub Carries : List ℕ → ℕ → Action → Type 0
Carries pseq len pa = (pa.len ≡ len) × (take len pseq ≡ take len pa.sequence)

abbrev pub NoneCarries : List ℕ → ℕ → List Action → Type 0
NoneCarries pseq len [] = Unit
NoneCarries pseq len (pa ∷ l) = (¬ Carries pseq len pa) × NoneCarries pseq len l

pub has_sequence_iff :
    (pseq : List ℕ) (len : ℕ) (pa : Action)
    → (has_sequence pseq len pa ≡ true) ↔ Carries pseq len pa
unfolding has_sequence
has_sequence_iff pseq len pa = ground (arith, same_bytes_iff (take len pseq) (take len pa.sequence))

-- `pa` is the first action of the table that carries the keys.
abbrev pub IsFirst : List ℕ → ℕ → List Action → Action → Type 0
IsFirst pseq len l pa =
    (before : List Action) × (after : List Action) × (l ≡ before ++ pa ∷ after)
    × NoneCarries pseq len before
    × Carries pseq len pa

abbrev Looked : List ℕ → ℕ → List Action → Option Action → Type 0
Looked pseq len l none = NoneCarries pseq len l
Looked pseq len l (some pa) = IsFirst pseq len l pa

Looked-cons :
    (pseq : List ℕ) (len : ℕ) (q : Action) (l : List Action) (r : Option Action)
    → ¬ Carries pseq len q
    → Looked pseq len l r
    → Looked pseq len (q ∷ l) r
Looked-cons pseq len q l none nc h = (nc, h)
Looked-cons pseq len q l (some pa) nc (before, after, split, none_before, carries) =
    (q ∷ before, after, ap (λ (t : List Action). q ∷ t) split, (nc, none_before), carries)

first_with_sequence-Looked :
    (pseq : List ℕ) (len : ℕ) (l : List Action) → Looked pseq len l (first_with_sequence pseq len l)
unfolding first_with_sequence
first_with_sequence-Looked pseq len [] = tt
first_with_sequence-Looked pseq len (pa ∷ l) =
    if_rule (Looked pseq len (pa ∷ l)) (has_sequence pseq len pa)
      (λ hit. ([], l, refl, tt, (has_sequence_iff pseq len pa).0 hit))
      (λ miss.
        Looked-cons pseq len pa l (first_with_sequence pseq len l)
          (λ c. cc ((has_sequence_iff pseq len pa).1 c)) (first_with_sequence-Looked pseq len l))

-- The two keys Shift and Shift, which follow the introducer Shift.
abbrev pub IsTripleShift : List ℕ → ℕ → Type 0
IsTripleShift pseq len = (len ≡ 2) × (triple_shift ≡ take 2 pseq)

-- What a result says of the table.
abbrev pub Finds : List Action → List ℕ → ℕ → Option Found → Type 0
Finds l pseq len (some (action pa)) = IsFirst pseq len l pa
Finds l pseq len (some screenshot) = NoneCarries pseq len l × IsTripleShift pseq len
Finds l pseq len none = NoneCarries pseq len l × (¬ IsTripleShift pseq len)

if_not_found-Finds :
    (l : List Action) (pseq : List ℕ) (len : ℕ) (r : Option Action)
    → Looked pseq len l r
    → Finds l pseq len (if_not_found pseq len r)
if_not_found-Finds l pseq len (some pa) h = h
if_not_found-Finds l pseq len none h =
    if_rule (Finds l pseq len) ((len == 2) && same_bytes triple_shift (take 2 pseq))
      (λ yes_shift. (h, ground (arith, same_bytes_iff triple_shift (take 2 pseq))))
      (λ no_shift. (h, λ t. ground (arith, same_bytes_iff triple_shift (take 2 pseq))))

-- Whatever the table and the keys: an action is found if and only if some action of the table is for
-- exactly these keys, and then it is the first such; the screenshot is found only if there is no such
-- action and the keys are Shift and Shift, and nothing is found in the remaining case.
pub find_sequence_action-Finds :
    (l : List Action) (pseq : List ℕ) (len : ℕ) → Finds l pseq len (find_sequence_action l pseq len)
unfolding find_sequence_action
find_sequence_action-Finds l pseq len =
    if_not_found-Finds l pseq len _ (first_with_sequence-Looked pseq len l)

first_with_sequence-append :
    (before after : List Action) (pa : Action) (pseq : List ℕ) (len : ℕ)
    → NoneCarries pseq len before
    → Carries pseq len pa
    → first_with_sequence pseq len (before ++ pa ∷ after) ≡ some pa
unfolding first_with_sequence
first_with_sequence-append [] after pa pseq len none_before c =
    if_true (some pa) (first_with_sequence pseq len after) ((has_sequence_iff pseq len pa).1 c)
first_with_sequence-append (q ∷ before) after pa pseq len (here, none_before) c =
    elim (Bool-cases (has_sequence pseq len q)) [
      | inl hit ↦ absurd (here ((has_sequence_iff pseq len q).0 hit))
      | inr miss ↦
          if_false (some q) (first_with_sequence pseq len (before ++ pa ∷ after)) miss
          ∙ first_with_sequence-append before after pa pseq len none_before c
    ]

-- The first action that carries the keys is found.
pub find_sequence_action-first :
    (before after : List Action) (pa : Action) (pseq : List ℕ) (len : ℕ)
    → NoneCarries pseq len before
    → Carries pseq len pa
    → find_sequence_action (before ++ pa ∷ after) pseq len ≡ some (action pa)
unfolding find_sequence_action
find_sequence_action-first before after pa pseq len none_before c =
    ap (if_not_found pseq len) (first_with_sequence-append before after pa pseq len none_before c)
