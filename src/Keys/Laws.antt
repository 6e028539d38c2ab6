-- ===== src/Keys/Laws.antt =====
-- What the key tables guarantee: names and codes lead to one another, and the aliases settle.
use mathlib.Core.List.{append_assoc}
use kindle_launchpad.Base.{
  ℕ, zero, suc, ◌+◌, ◌≤◌, ◌≡◌, refl, sym, ap, ◌∙◌, inl, inr, Bool, true, false, ◌&&◌, Bytes, pos,
  same_bytes, same_bytes_iff, List, [], ◌∷◌, ◌++◌, Option, none, some, ltb, ltb→lt, ◌==◌, ==_iff,
  Bool-cases, checked_under, checked_under_at, arith, length, length-append, get_elem?,
  get_elem?-append_self, get_elem?-append_left, get_or, get_or-set, get_or-replicate, set,
  replicate,
}
use kindle_launchpad.Keys.Table.{InputKey, InputKeyAlias, default_input_keys, default_key_alias}
use kindle_launchpad.Keys.Names.{
  blank_key, fill_codes, get_default_input_keydefs, find_input_key_code, input_key_name,
  substitute_in, get_key_substitute_code,
}

-- All aliases are of codes below `n`.
aliases_under : ℕ → List InputKeyAlias → Bool
aliases_under n [] = true
aliases_under n (a ∷ l) = ltb a.input_key_code n && aliases_under n l

settles : ℕ → Bool
settles c = get_key_substitute_code (get_key_substitute_code c) == get_key_substitute_code c

-- Every entry of the code array names a row of the table that has that code.
abbrev pub IsConsistent : List InputKey → List (Option ℕ) → Type 0
IsConsistent keys codes =
    (c i : ℕ)
    → get_or codes c none ≡ some i
    → (k : InputKey) × (get_elem? keys i ≡ some k) × (k.input_key_code ≡ c)

set-IsConsistent :
    (all before after : List InputKey) (k : InputKey) (n : ℕ) (codes : List (Option ℕ))
    → all ≡ before ++ k ∷ after
    → n ≡ length before
    → IsConsistent all codes
    → IsConsistent all (set codes k.input_key_code (some n))
set-IsConsistent all before after k n codes split e h c i r =
    elim (get_or-set codes k.input_key_code c (some n) none) [
      | inl old ↦ h c i (sym old ∙ r)
      | inr (hit, new) ↦
          let same : i ≡ length before = cc in
          (k, rw (split, same) (get_elem?-append_self before k after), hit)
    ]

fill_codes-IsConsistent :
    (all before after : List InputKey) (n : ℕ) (codes : List (Option ℕ))
    → all ≡ before ++ after
    → n ≡ length before
    → IsConsistent all codes
    → IsConsistent all (fill_codes n after codes)
unfolding fill_codes
fill_codes-IsConsistent all before [] n codes split e h = h
fill_codes-IsConsistent all before (k ∷ ks) n codes split e h =
    fill_codes-IsConsistent all (before ++ k ∷ []) ks (n + 1) _
      (split ∙ sym (append_assoc before (k ∷ []) ks)) (omega (arith, length-append before (k ∷ [])))
      (set-IsConsistent all before ks k n codes split e h)

pub blank-IsConsistent : (n : ℕ) (all : List InputKey) → IsConsistent all (replicate n none)
blank-IsConsistent n all c i h = absurd (cc (get_or-replicate {A = Option ℕ} n c none))

-- After the default table is loaded, every entry of the code array that is not -1 is the index of
-- a row of the table with exactly that code.
pub get_default_input_keydefs-IsConsistent :
    IsConsistent get_default_input_keydefs.input_keys get_default_input_keydefs.input_key_codes
unfolding get_default_input_keydefs
get_default_input_keydefs-IsConsistent c i h =
    let (k, row, code) =
      fill_codes-IsConsistent default_input_keys [] default_input_keys 0 (replicate 256 none) refl
        refl (blank-IsConsistent 256 default_input_keys) c i h in
    (k, get_elem?-append_left default_input_keys (replicate 27 blank_key) i row, code)

-- A code that no alias names is left alone.
substitute_in-none :
    (l : List InputKeyAlias) (n c : ℕ) → aliases_under n l ≡ true → n ≤ c → substitute_in l c ≡ c
unfolding substitute_in aliases_under
substitute_in-none [] n c h le = refl
substitute_in-none (a ∷ l) n c h le = ground (arith, substitute_in-none l n c)

substitute_table : checked_under settles 256 ≡ true
unfolding checked_under settles get_key_substitute_code
substitute_table = refl

substitute_table_bound : aliases_under 256 default_key_alias ≡ true
unfolding aliases_under default_key_alias
substitute_table_bound = refl

-- Substituting a key code twice is substituting it once, whatever the code.
pub get_key_substitute_code-idempotent :
    (c : ℕ) → get_key_substitute_code (get_key_substitute_code c) ≡ get_key_substitute_code c
unfolding get_key_substitute_code
get_key_substitute_code-idempotent c = elim (Bool-cases (ltb c 256)) [
  | inl small ↦
      (==_iff _ _).0
        (unfold settles in checked_under_at settles 256 c (ltb→lt c 256 small) substitute_table)
  | inr large ↦
      let fixed : substitute_in default_key_alias c ≡ c =
        substitute_in-none default_key_alias 256 c substitute_table_bound (ground arith) in
      rw fixed fixed
]

same_code : Option ℕ → ℕ → Bool
same_code none c = false
same_code (some d) c = d == c

has_name : Option Bytes → Bytes → Bool
has_name none s = false
has_name (some t) s = same_bytes t s

same_code-eq : (o : Option ℕ) (c : ℕ) → same_code o c ≡ true → o ≡ some c
unfolding same_code
same_code-eq none c h = cc
same_code-eq (some d) c h = ground arith

has_name-eq : (o : Option Bytes) (s : Bytes) → has_name o s ≡ true → o ≡ some s
unfolding has_name
has_name-eq none s h = cc
has_name-eq (some t) s h = ap some ((same_bytes_iff t s).0 h)

resolves : InputKey → Bool
resolves k =
    same_code (find_input_key_code get_default_input_keydefs k.input_key_name) k.input_key_code
    && has_name (input_key_name get_default_input_keydefs (pos k.input_key_code)) k.input_key_name

all_resolve : List InputKey → Bool
all_resolve [] = true
all_resolve (k ∷ ks) = resolves k && all_resolve ks

all_resolve_sound :
    (ks : List InputKey) (i : ℕ) {k : InputKey}
    → all_resolve ks ≡ true
    → get_elem? ks i ≡ some k
    → resolves k ≡ true
unfolding all_resolve
all_resolve_sound [] i h e = cc
all_resolve_sound (x ∷ ks) zero h e = ground arith
all_resolve_sound (x ∷ ks) (suc i) h e = all_resolve_sound ks i (ground arith) e

default_input_keys_table : all_resolve default_input_keys ≡ true
unfolding all_resolve resolves same_code has_name default_input_keys find_input_key_code
    input_key_name get_default_input_keydefs same_bytes
default_input_keys_table = refl

-- For every row of the default table, looking its name up gives its code, and the name recorded
-- for its code is the name of the row.
pub default_input_keys_round_trip :
    (i : ℕ) {k : InputKey}
    → get_elem? default_input_keys i ≡ some k
    → (find_input_key_code get_default_input_keydefs k.input_key_name ≡ some k.input_key_code)
      × (input_key_name get_default_input_keydefs (pos k.input_key_code) ≡ some k.input_key_name)
unfolding resolves
default_input_keys_round_trip i {k} e =
    let h = all_resolve_sound default_input_keys i default_input_keys_table e in
    (same_code-eq _ _ (ground arith), has_name-eq _ _ (ground arith))
