-- ===== src/IniFile/Tables.antt =====
-- src/inifile.c: what the rows of the two tables say of one another.
use kindle_launchpad.Base.{
  ℕ, zero, suc, ◌+◌, ◌≤◌, ◌<◌, ◌≡◌, refl, sym, ap, ◌∙◌, ◌⊎◌, inl, inr, false, List, [], ◌∷◌, ◌++◌,
  Option, none, some, ◌==◌, if◌then◌else◌, length, length-append, get_elem?, drop, arith,
}
use kindle_launchpad.IniFile.Parse.{Text, SectionRow, KeyRow, first_pair, count_pair, update_row}

-- The number of keys of a section.
unfoldable pub keys_of : ℕ → List KeyRow → ℕ
keys_of i [] = 0
keys_of i (k ∷ ks) = let rest = keys_of i ks in if k.psect == i then rest + 1 else rest

-- `ppairs` leaves out no key of the section.
abbrev pub Pairs : ℕ → List KeyRow → Option ℕ → Type 0
Pairs i keys none = keys_of i keys ≡ 0
Pairs i keys (some n) = (n ≤ length keys) × (keys_of i (drop n keys) ≡ keys_of i keys)

-- The row of a section counts its keys, and its `ppairs` leaves none of them out.
abbrev pub Counts : ℕ → List KeyRow → SectionRow → Type 0
Counts i keys r = (r.npairs ≡ keys_of i keys) × Pairs i keys r.ppairs

-- Every section counts its keys, and every key is in a section.
abbrev pub Consistent : List SectionRow → List KeyRow → Type 0
Consistent sections keys =
    ((i : ℕ) (r : SectionRow) → get_elem? sections i ≡ some r → Counts i keys r)
    × ((i : ℕ) → length sections ≤ i → keys_of i keys ≡ 0)

keys_of-append : (i : ℕ) (ks ls : List KeyRow) → keys_of i (ks ++ ls) ≡ keys_of i ks + keys_of i ls
unfolding keys_of
keys_of-append i [] ls = omega arith
keys_of-append i (k ∷ ks) ls = ground (arith, keys_of-append i ks ls)

drop-append : (n : ℕ) (ks ls : List KeyRow) → n ≤ length ks → drop n (ks ++ ls) ≡ drop n ks ++ ls
drop-append zero ks ls h = refl
drop-append (suc n) [] ls h = absurd (omega arith)
drop-append (suc n) (k ∷ ks) ls h = drop-append n ks ls (omega arith)

drop-all : (ks ls : List KeyRow) → drop (length ks) (ks ++ ls) ≡ ls
drop-all [] ls = refl
drop-all (k ∷ ks) ls = drop-all ks ls

keys_of-other :
    (i : ℕ) (ks : List KeyRow) (k : KeyRow)
    → (k.psect == i) ≡ false
    → keys_of i (ks ++ k ∷ []) ≡ keys_of i ks
unfolding keys_of
keys_of-other i ks k h = ground (arith, keys_of-append i ks (k ∷ []))

keys_of-own :
    (i : ℕ) (ks : List KeyRow) (k : KeyRow)
    → k.psect ≡ i
    → keys_of i (ks ++ k ∷ []) ≡ keys_of i ks + 1
unfolding keys_of
keys_of-own i ks k h = ground (arith, keys_of-append i ks (k ∷ []))

-- One more key of another section.
other_key :
    (i : ℕ) (keys : List KeyRow) (k : KeyRow) (r : SectionRow)
    → (k.psect == i) ≡ false
    → Counts i keys r
    → Counts i (keys ++ k ∷ []) r
other_key i keys k r h (count, pairs) =
    (count ∙ sym (keys_of-other i keys k h), other_pairs r.ppairs pairs)
  where
    other_pairs : (o : Option ℕ) → Pairs i keys o → Pairs i (keys ++ k ∷ []) o
    other_pairs none e = keys_of-other i keys k h ∙ e
    other_pairs (some n) (le, e) = (
      omega (arith, length-append keys (k ∷ [])),
      ap (keys_of i) (drop-append n keys (k ∷ []) le)
          ∙ keys_of-other i (drop n keys) k h
          ∙ e
          ∙ sym (keys_of-other i keys k h),
    )

-- One more key of the section, which is counted.
own_key :
    (i : ℕ) (keys : List KeyRow) (k : KeyRow) (r : SectionRow)
    → k.psect ≡ i
    → Counts i keys r
    → Counts i (keys ++ k ∷ []) (count_pair (length keys) r)
unfolding keys_of
own_key i keys k r h (count, pairs) =
    (omega (arith, count, keys_of-own i keys k h), own_pairs r.ppairs pairs)
  where
    own_pairs :
        (o : Option ℕ) → Pairs i keys o → Pairs i (keys ++ k ∷ []) (first_pair o (length keys))
    own_pairs none e = (
      omega (arith, length-append keys (k ∷ [])),
      ap (keys_of i) (drop-all keys (k ∷ []))
          ∙ omega (arith, keys_of-own i [] k h, keys_of-own i keys k h, e),
    )
    own_pairs (some n) (le, e) = (
      omega (arith, length-append keys (k ∷ [])),
      ap (keys_of i) (drop-append n keys (k ∷ []) le)
          ∙ (keys_of-own i (drop n keys) k h ∙ (ap (λ c. c + 1) e ∙ sym (keys_of-own i keys k h))),
    )

pub some_row : {q r : SectionRow} → some q ≡ some r → q ≡ r
some_row e = cc

get_elem?-snoc :
    (l : List SectionRow) (x : SectionRow) (i : ℕ) {r : SectionRow}
    → get_elem? (l ++ x ∷ []) i ≡ some r
    → (get_elem? l i ≡ some r) ⊎ ((i ≡ length l) × (r ≡ x))
get_elem?-snoc [] x zero e = inr (refl, some_row (sym e))
get_elem?-snoc [] x (suc i) e = inl e
get_elem?-snoc (y ∷ l) x zero e = inl e
get_elem?-snoc (y ∷ l) x (suc i) e = elim (get_elem?-snoc l x i e) [
  | inl h ↦ inl h
  | inr (h, s) ↦ inr (ap suc h, s)
]

get_elem?-update_row :
    (f : SectionRow → SectionRow) (l : List SectionRow) (j i : ℕ) {r : SectionRow}
    → get_elem? (update_row f l j) i ≡ some r
    → ((i ≡ j) × ((q : SectionRow) × (get_elem? l i ≡ some q) × (r ≡ f q)))
      ⊎ (((j == i) ≡ false) × (get_elem? l i ≡ some r))
unfolding update_row
get_elem?-update_row f [] j i e = cc
get_elem?-update_row f (x ∷ l) zero zero e = inl (refl, (x, refl, some_row (sym e)))
get_elem?-update_row f (x ∷ l) zero (suc i) e = inr (ground arith, e)
get_elem?-update_row f (x ∷ l) (suc j) zero e = inr (ground arith, e)
get_elem?-update_row f (x ∷ l) (suc j) (suc i) e = elim (get_elem?-update_row f l j i e) [
  | inl (s, h) ↦ inl (ap suc s, h)
  | inr (d, h) ↦ inr (ground arith, h)
]

-- A section with no key yet.
abbrev pub empty_row : Text → SectionRow
empty_row name = record { psname = name; ppairs = none; npairs = 0 }

pub snoc-Consistent :
    (name : Text) (sections : List SectionRow) (keys : List KeyRow)
    → Consistent sections keys
    → Consistent (sections ++ empty_row name ∷ []) keys
snoc-Consistent name sections keys (rows, all) = (
  λ i r e. elim (get_elem?-snoc sections (empty_row name) i e) [
    | inl h ↦ rows i r h
    | inr (last, same) ↦
        let none_yet = all i (omega (arith, last)) in rw same (sym none_yet, none_yet)
  ],
  λ i le. all i (omega (arith, length-append sections (empty_row name ∷ []))),
)

pub length-update_row :
    (f : SectionRow → SectionRow) (l : List SectionRow) (j : ℕ)
    → length (update_row f l j) ≡ length l
unfolding update_row
length-update_row f [] j = refl
length-update_row f (x ∷ l) zero = refl
length-update_row f (x ∷ l) (suc j) = omega (arith, length-update_row f l j)

pub add-Consistent :
    (sections : List SectionRow) (keys : List KeyRow) (k : KeyRow)
    → k.psect < length sections
    → Consistent sections keys
    → Consistent (update_row (count_pair (length keys)) sections k.psect) (keys ++ k ∷ [])
add-Consistent sections keys k lt (rows, all) = (
  λ i r e. elim (get_elem?-update_row (count_pair (length keys)) sections k.psect i e) [
    | inl (same, (q, old, new)) ↦ rw new (own_key i keys k q (sym same) (rows i q old))
    | inr (different, old) ↦ other_key i keys k r different (rows i r old)
  ],
  λ i le.
      let size = length-update_row (count_pair (length keys)) sections k.psect in
      keys_of-other i keys k (ground (arith, size)) ∙ all i (omega (arith, size)),
)
