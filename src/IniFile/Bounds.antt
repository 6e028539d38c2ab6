-- ===== src/IniFile/Bounds.antt =====
-- src/inifile.c: the scanning functions stay in the buffer when a byte that stops them stands ahead.
use kindle_launchpad.Base.{
  ℕ, zero, suc, ◌+◌, ◌-◌, ◌<◌, ◌≤◌, ◌≡◌, refl, ◌⊎◌, inl, inr, ℤ, pos, pos_part, sub_ℕ, ◌+ℤ◌, eqb_ℤ,
  minus_one, Bool, true, false, ◌||◌, [], ◌∷◌, leb, ltb, ◌==◌, ==_iff, if_rule, if◌then◌else◌,
  if_true, Bool-cases, Bytes, length, get_or, Outcome, ok, fault, no_fuel, OnSafe, OnSafe->>=,
  arith,
}
use kindle_launchpad.IniFile.Scan.{
  further, is_blank, is_line_end, is_name_end, skipws, skipline, section_name_from, count_char,
  parse_section_name, until, back, trim, parse_key_value, parse_key_name,
}

further-OnSafe :
    (P Q : ℕ → Type 0) (m : Outcome ℕ)
    → ((n : ℕ) → P n → Q (suc n))
    → OnSafe P m
    → OnSafe Q (further m)
further-OnSafe P Q m f h = OnSafe->>= P Q m _ h f

pub skipws-OnSafe :
    (xs : Bytes) (k : ℕ)
    → k < length xs
    → is_blank (get_or xs k 0) ≡ false
    → OnSafe (λ n. n ≤ k) (skipws xs)
unfolding skipws
skipws-OnSafe [] k lt h = absurd (omega arith)
skipws-OnSafe (c ∷ cs) zero lt h =
    if_rule (OnSafe (λ n. n ≤ 0)) (is_blank c) (λ e. absurd (ground arith)) (λ e. omega arith)
skipws-OnSafe (c ∷ cs) (suc k) lt h =
    if_rule (OnSafe (λ n. n ≤ suc k)) (is_blank c)
      (λ e.
        further-OnSafe (λ n. n ≤ k) (λ n. n ≤ suc k) (skipws cs) (λ n x. omega arith)
          (skipws-OnSafe cs k (omega arith) h))
      (λ e. omega arith)

-- Up to a zero byte, or over a newline.
abbrev pub LineEnd : ℕ → ℕ → ℕ → Type 0
LineEnd k c n = (n ≤ k) ⊎ ((n ≡ k + 1) × (c ≡ 10))

further_end : (k c n : ℕ) → LineEnd k c n → LineEnd (suc k) c (suc n)
further_end k c n (inl h) = inl (omega arith)
further_end k c n (inr (e, h)) = inr (omega arith, h)

pub skipline-OnSafe :
    (xs : Bytes) (k : ℕ)
    → k < length xs
    → (get_or xs k 0 ≡ 10) ⊎ (get_or xs k 0 ≡ 0)
    → OnSafe (LineEnd k (get_or xs k 0)) (skipline xs)
unfolding skipline
skipline-OnSafe [] k lt h = absurd (omega arith)
skipline-OnSafe (c ∷ cs) zero lt h =
    if_rule (OnSafe (LineEnd 0 c)) (c == b'\n') (λ e. inr (omega arith, (==_iff c 10).0 e))
      (λ e.
        if_rule (OnSafe (LineEnd 0 c)) (c == 0) (λ z. inl (omega arith))
          (λ z. absurd (ground arith)))
skipline-OnSafe (c ∷ cs) (suc k) lt h =
    let P = OnSafe (LineEnd (suc k) (get_or cs k 0)) in
    if_rule P (c == b'\n') (λ e. inl (omega arith))
      (λ e.
        if_rule P (c == 0) (λ z. inl (omega arith))
          (λ z.
            further-OnSafe (LineEnd k (get_or cs k 0)) (LineEnd (suc k) (get_or cs k 0))
              (skipline cs) (λ n x. further_end k (get_or cs k 0) n x)
              (skipline-OnSafe cs k (omega arith) h)))

sub_bound : (a b : ℕ) → pos_part (sub_ℕ a b) ≤ a
sub_bound a b = if_rule (λ z. pos_part z ≤ a) (leb b a) (λ e. omega arith) (λ e. omega arith)

count_char-pos_part : (len : ℤ) → pos_part (count_char len) ≤ pos_part len + 1
unfolding ◌+ℤ◌
count_char-pos_part len =
    if_rule (λ l. pos_part (l +ℤ pos 1) ≤ pos_part len + 1) (eqb_ℤ len minus_one) (λ e. omega arith)
      (λ e. sub_bound (pos_part len + 1) _)

weaken :
    (a b : ℕ) (m : Outcome ℤ)
    → a ≤ b
    → OnSafe (λ z. pos_part z ≤ a) m
    → OnSafe (λ z. pos_part z ≤ b) m
weaken a b (ok z) le h = omega arith
weaken a b no_fuel le h = tt
weaken a b fault le h = absurd h

pub section_name-OnSafe :
    (len : ℤ) (xs : Bytes) (k : ℕ)
    → k < length xs
    → get_or xs k 0 ≡ 10
    → OnSafe (λ z. pos_part z ≤ pos_part len + k) (section_name_from len xs)
unfolding section_name_from
section_name-OnSafe len [] k lt h = absurd (omega arith)
section_name-OnSafe len (c ∷ cs) zero lt h =
    let P : Outcome ℤ → Type 0 = OnSafe (λ z. pos_part z ≤ pos_part len + 0) in
    if_rule P (c == b']') (λ e. omega arith)
      (λ e. if_rule P (c == b'\n' || c == 0) (λ z. omega arith) (λ z. absurd (ground arith)))
section_name-OnSafe len (c ∷ cs) (suc k) lt h =
    let P : Outcome ℤ → Type 0 = OnSafe (λ z. pos_part z ≤ pos_part len + suc k) in
    if_rule P (c == b']') (λ e. omega arith)
      (λ e.
        if_rule P (c == b'\n' || c == 0) (λ z. omega arith)
          (λ z.
            if_rule P (c == b'\r')
              (λ r.
                weaken (pos_part len + k) (pos_part len + suc k) _ (omega arith)
                  (section_name-OnSafe len cs k (omega arith) h))
              (λ r.
                weaken (pos_part (count_char len) + k) (pos_part len + suc k) _
                  (let c = count_char-pos_part len in omega (arith, c))
                  (section_name-OnSafe (count_char len) cs k (omega arith) h))))

pub until-OnSafe :
    (stop : ℕ → Bool) (xs : Bytes) (k : ℕ)
    → k < length xs
    → stop (get_or xs k 0) ≡ true
    → OnSafe (λ n. n ≤ k) (until stop xs)
unfolding until
until-OnSafe stop [] k lt h = absurd (omega arith)
until-OnSafe stop (c ∷ cs) zero lt h =
    if_rule (OnSafe (λ n. n ≤ 0)) (stop c) (λ e. omega arith) (λ e. absurd (ground arith))
until-OnSafe stop (c ∷ cs) (suc k) lt h =
    if_rule (OnSafe (λ n. n ≤ suc k)) (stop c) (λ e. omega arith)
      (λ e.
        further-OnSafe (λ n. n ≤ k) (λ n. n ≤ suc k) (until stop cs) (λ n x. omega arith)
          (until-OnSafe stop cs k (omega arith) h))

back_bound : (p : Bytes) (q : ℕ) → back p q ≤ q
unfolding back
back_bound p zero = omega arith
back_bound p (suc q) =
    let rest = back_bound p q in
    if_rule (λ n. n ≤ suc q) (leb (get_or p (suc q) 0) b' ') (λ e. omega arith) (λ e. omega arith)

-- The trimmed length is at most one more than the place that it is trimmed from.
trim_bound : (p : Bytes) (q : ℕ) → trim p q ≤ q + 1
unfolding trim
trim_bound p q =
    let rest = back_bound p q in
    if_rule (λ n. n ≤ q + 1) (ltb b' ' (get_or p (back p q) 0)) (λ e. omega arith)
      (λ e. omega arith)

trim_bound_at :
    (p : Bytes) (q : ℕ)
    → (if ltb b' ' (get_or p (back p q) 0) then back p q + 1 else back p q) ≤ suc q
trim_bound_at p q =
    let rest = back_bound p q in
    if_rule (λ n. n ≤ suc q) (ltb b' ' (get_or p (back p q) 0)) (λ e. omega arith)
      (λ e. omega arith)

-- From a blank, it is at most the place.
trim_blank : (p : Bytes) (q : ℕ) → get_or p q 0 ≤ 32 → trim p q ≤ q
unfolding trim back
trim_blank p zero h =
    if_rule (λ n. n ≤ 0) (ltb b' ' (get_or p 0 0)) (λ e. absurd (ground arith)) (λ e. omega arith)
trim_blank p (suc q) h =
    let low : leb (get_or p (suc q) 0) b' ' ≡ true = ground arith in
    rw (if_true (back p q) (suc q) low) (trim_bound_at p q)

pub parse_section_name-OnSafe :
    (xs : Bytes) (k : ℕ)
    → k < length xs
    → get_or xs k 0 ≡ 10
    → OnSafe (λ z. pos_part z ≤ k) (parse_section_name xs)
unfolding parse_section_name
parse_section_name-OnSafe xs k lt h =
    weaken (pos_part minus_one + k) k _ (omega arith) (section_name-OnSafe minus_one xs k lt h)

trim_to : (xs : Bytes) (q k : ℕ) → q ≤ k → get_or xs k 0 ≡ 10 → trim xs q ≤ k
trim_to xs q k le h = elim (Bool-cases (q == k)) [
  | inl e ↦
      let same = (==_iff q k).0 e in
      let blank = trim_blank xs q (rw (same, h) (omega arith)) in omega arith
  | inr e ↦ let bound = trim_bound xs q in ground arith
]

pub parse_key_value-OnSafe :
    (xs : Bytes) (k : ℕ)
    → k < length xs
    → get_or xs k 0 ≡ 10
    → OnSafe (λ n. n ≤ k) (parse_key_value xs)
unfolding parse_key_value
parse_key_value-OnSafe xs k lt h =
    OnSafe->>= (λ q. q ≤ k) (λ n. n ≤ k) (until is_line_end xs) _
      (until-OnSafe is_line_end xs k lt (rw h refl))
      (λ q le. if_rule (λ n. n ≤ k) (ltb 0 q) (λ e. trim_to xs q k le h) (λ e. omega arith))

-- A name that is not empty ends at or before an equality sign.
abbrev pub NameEnd : Bytes → ℕ → ℕ → Type 0
NameEnd xs k n = (n ≡ 0) ⊎ ((q : ℕ) × (n ≤ q) × (q ≤ k) × (get_or xs q 0 ≡ b'='))

pub parse_key_name-OnSafe :
    (xs : Bytes) (k : ℕ)
    → k < length xs
    → get_or xs k 0 ≡ 10
    → OnSafe
        (λ n. (n ≡ 0) ⊎ ((q : ℕ) × (n ≤ q) × (q ≤ k) × (get_or xs q 0 ≡ b'=')))
        (parse_key_name xs)
unfolding parse_key_name
parse_key_name-OnSafe xs k lt h =
    OnSafe->>= (λ q. q ≤ k) (NameEnd xs k) (until is_name_end xs) _
      (until-OnSafe is_name_end xs k lt (rw h refl))
      (λ q le.
        if_rule (NameEnd xs k) (get_or xs q 0 == b'=')
          (λ e.
            if_rule (NameEnd xs k) (ltb 0 q)
              (λ z.
                let bound = trim_bound xs (q - 1) in inr (q, ground arith, le, (==_iff _ _).0 e))
              (λ z. inl refl))
          (λ e. inl refl))
