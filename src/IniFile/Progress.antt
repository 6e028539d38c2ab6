-- ===== src/IniFile/Progress.antt =====
-- src/inifile.c: every round of the parser goes ahead in the buffer or stands at a zero byte.
use mathlib.Core.Path.{subst}
use kindle_launchpad.Base.{
  ℕ, zero, suc, ◌+◌, ◌<◌, ◌≤◌, ◌≡◌, ◌≢◌, refl, ◌⊎◌, inl, inr, ℤ, pos, negsuc, Bool, not, ◌&&◌, ◌||◌,
  List, [], ◌∷◌, ltb, ◌==◌, ==_iff, if_rule, ap, sym, ok-injective, ◌∙◌, Option, none, some,
  if◌then◌else◌, Bytes, length, length-set, length-append, ◌++◌, drop, Outcome, ok, fault, no_fuel,
  ◌>>=◌, OnEnd, OnEnd->>=, arith,
}
use kindle_launchpad.IniFile.Scan.{
  deref, further, is_blank, skipws, skipline, section_name_from, count_char, parse_section_name,
  until, parse_key_value, parse_key_name,
}
use kindle_launchpad.IniFile.Parse.{
  Text, at, SectionRow, Parser, ahead, go, by_skipws, by_skipline, section_line, container, add_key,
  take_value, terminate, to_value, key_line, dispatch, step, parse_loop, parse_ini_file, initial,
}

-- At a zero byte.
abbrev pub AtZero : Bytes → Type 0
AtZero xs = deref xs ≡ ok 0

ends : (m : Outcome ℕ) → OnEnd (λ n. Unit) m → OnEnd (λ n. Unit) (further m)
ends (ok n) h = tt
ends fault h = tt
ends no_fuel h = absurd h

further-OnEnd :
    (R S : Type 0) (m : Outcome ℕ)
    → OnEnd (λ n. (0 < n) ⊎ R) m
    → OnEnd (λ n. (0 < n) ⊎ S) (further m)
further-OnEnd R S (ok n) h = inl (omega arith)
further-OnEnd R S fault h = tt
further-OnEnd R S no_fuel h = absurd h

skipws-OnEnd : (xs : Bytes) → OnEnd (λ n. Unit) (skipws xs)
unfolding skipws
skipws-OnEnd [] = tt
skipws-OnEnd (c ∷ cs) =
    if_rule (OnEnd (λ n. Unit)) (is_blank c) (λ e. ends (skipws cs) (skipws-OnEnd cs)) (λ e. tt)

skipline-OnEnd : (xs : Bytes) → OnEnd (λ n. (0 < n) ⊎ AtZero xs) (skipline xs)
unfolding skipline
skipline-OnEnd [] = tt
skipline-OnEnd (c ∷ cs) =
    if_rule (OnEnd _) (c == b'\n') (λ e. inl (omega arith))
      (λ e.
        if_rule (OnEnd _) (c == 0) (λ z. inr (ap ok ((==_iff c 0).0 z)))
          (λ z. further-OnEnd _ _ (skipline cs) (skipline-OnEnd cs)))

section_name-OnEnd : (len : ℤ) (xs : Bytes) → OnEnd (λ n. Unit) (section_name_from len xs)
unfolding section_name_from
section_name-OnEnd len [] = tt
section_name-OnEnd len (c ∷ cs) =
    if_rule (OnEnd (λ n. Unit)) (c == b']') (λ e. tt)
      (λ e.
        if_rule (OnEnd (λ n. Unit)) (c == b'\n' || c == 0) (λ e. tt)
          (λ e.
            if_rule (OnEnd (λ n. Unit)) (c == b'\r') (λ e. section_name-OnEnd len cs)
              (λ e. section_name-OnEnd (count_char len) cs)))

until-OnEnd : (stop : ℕ → Bool) (xs : Bytes) → OnEnd (λ n. Unit) (until stop xs)
unfolding until
until-OnEnd stop [] = tt
until-OnEnd stop (c ∷ cs) =
    if_rule (OnEnd (λ n. Unit)) (stop c) (λ e. tt) (λ e. ends (until stop cs) (until-OnEnd stop cs))

parse_section_name-OnEnd : (xs : Bytes) → OnEnd (λ n. Unit) (parse_section_name xs)
unfolding parse_section_name
parse_section_name-OnEnd xs = section_name-OnEnd _ xs

parse_key_value-OnEnd : (xs : Bytes) → OnEnd (λ n. Unit) (parse_key_value xs)
unfolding parse_key_value
parse_key_value-OnEnd xs =
    OnEnd->>= (λ q. Unit) (λ n. Unit) (until _ xs) _ (until-OnEnd _ xs) (λ q h. tt)

parse_key_name-OnEnd : (xs : Bytes) → OnEnd (λ n. Unit) (parse_key_name xs)
unfolding parse_key_name
parse_key_name-OnEnd xs =
    OnEnd->>= (λ q. Unit) (λ n. Unit) (until _ xs) _ (until-OnEnd _ xs) (λ q h. tt)

-- A buffer of the given length, and a pointer that is not before a place, or is behind it.
abbrev pub From : ℕ → ℕ → Parser → Type 0
From size k s = (length s.buf ≡ size) × (k ≤ s.p)

abbrev pub Behind : ℕ → ℕ → Parser → Type 0
Behind size k s = (length s.buf ≡ size) × ((k < s.p) ⊎ AtZero (ahead s))

by_skipws-OnEnd : (s : Parser) {size k : ℕ} → From size k s → OnEnd (From size k) (by_skipws s)
by_skipws-OnEnd s {size} {k} (e, le) =
    OnEnd->>= (λ n. Unit) (From size k) (skipws (ahead s)) _ (skipws-OnEnd (ahead s))
      (λ n h. (e, omega arith))

goes :
    (s : Parser) {size k : ℕ} (n : ℕ)
    → From size k s
    → (0 < n) ⊎ AtZero (ahead s)
    → Behind size k (go s n)
goes s zero (e, le) (inl lt) = absurd (omega arith)
goes s zero (e, le) (inr z) =
    (e, inr (let eq : s.p ≡ s.p + 0 = omega arith in subst (λ i. AtZero (drop i s.buf)) eq z))
goes s (suc n) (e, le) h = (e, inl (omega arith))

by_skipline-OnEnd :
    (s : Parser) {size k : ℕ} → From size k s → OnEnd (Behind size k) (by_skipline s)
by_skipline-OnEnd s {size} {k} from =
    OnEnd->>= _ (Behind size k) (skipline (ahead s)) _ (skipline-OnEnd (ahead s))
      (λ n h. goes s n from h)

terminate-OnEnd :
    (s : Parser) (i : ℕ) {size k : ℕ}
    → From size k s
    → OnEnd (λ t. From size k t × (t.p ≡ s.p)) (terminate s i)
unfolding terminate
terminate-OnEnd s i {size} {k} (e, le) =
    if_rule (OnEnd (λ t. From size k t × (t.p ≡ s.p))) (ltb i (length s.buf))
      (λ inner. ((length-set s.buf i 0 ∙ e, le), refl)) (λ outer. tt)

-- A pointer that went on is behind the place, whatever it stands at.
section_line-OnEnd :
    (s : Parser) (n : ℤ) {size k : ℕ} → From size k s → OnEnd (Behind size k) (section_line s n)
unfolding section_line
section_line-OnEnd s (negsuc n) from = by_skipline-OnEnd s from
section_line-OnEnd s (pos zero) from = by_skipline-OnEnd s from
section_line-OnEnd s (pos (suc n)) {size} {k} from =
    OnEnd->>= (λ t. From size k t × (t.p ≡ s.p)) (Behind size k) (terminate s (s.p + suc n)) _
      (terminate-OnEnd s (s.p + suc n) from)
      (λ t (kept, same). by_skipline-OnEnd _ (kept.0, omega (arith, kept)))

deref-OnEnd : (xs : Bytes) → OnEnd (λ c. Unit) (deref xs)
deref-OnEnd [] = tt
deref-OnEnd (c ∷ cs) = tt

to_value-OnEnd :
    (s : Parser) (n : ℕ) {size k : ℕ} → From size k s → OnEnd (From size (k + n + 1)) (to_value s n)
to_value-OnEnd s n {size} {k} (e, le) =
    OnEnd->>= (λ c. Unit) (From size (k + n + 1)) (deref (ahead (go s n))) _
      (deref-OnEnd (ahead (go s n)))
      (λ c h.
        OnEnd->>= (From size (k + n)) (From size (k + n + 1))
          (if not (c == b'=') then by_skipws (go s n) else ok (go s n)) _
          (if_rule (OnEnd (From size (k + n))) (not (c == b'='))
            (λ x. by_skipws-OnEnd (go s n) (e, omega arith)) (λ x. (e, omega arith)))
          (λ r from. by_skipws-OnEnd (go r 1) (from.0, omega arith)))

take_value-OnEnd :
    (s : Parser) (n : ℕ) {size k : ℕ}
    → From size k s
    → OnEnd (λ taken. From size k taken.0) (take_value s n)
unfolding take_value
take_value-OnEnd s zero from = from
take_value-OnEnd s (suc n) {size} {k} from =
    OnEnd->>= (λ t. From size k t × (t.p ≡ s.p)) (λ taken. From size k taken.0)
      (terminate s (s.p + suc n)) _ (terminate-OnEnd s (s.p + suc n) from)
      (λ t (kept, same). (kept.0, omega (arith, kept)))

container-OnEnd : (l : List SectionRow) (cur : Option ℕ) → OnEnd (λ c. Unit) (container l cur)
container-OnEnd [] cur = tt
container-OnEnd (r ∷ rs) none = tt
container-OnEnd (r ∷ rs) (some i) = tt

add_key-OnEnd :
    (name value : Text) (s : Parser) {size k : ℕ}
    → From size k s
    → OnEnd (From size k) (add_key name value s)
unfolding add_key
add_key-OnEnd name value s {size} {k} from =
    OnEnd->>= (λ c. Unit) (From size k) (container s.sections s.pcursect) _
      (container-OnEnd s.sections s.pcursect) (λ c h. from)

-- The part of key_line behind the name.
value-OnEnd :
    (name : Text) (t : Parser) {size k : ℕ}
    → From size (suc k) t
    → OnEnd (Behind size k) (
        parse_key_value (ahead t) >>= λ len.
        (take_value t len >>= λ taken.
        (add_key name taken.1 taken.0 >>= λ u.
        (deref (ahead u) >>= λ c. if c == b'\n' then by_skipline u else ok u))))
value-OnEnd name t {size} {k} from =
    OnEnd->>= (λ n. Unit) (Behind size k) (parse_key_value (ahead t)) _
      (parse_key_value-OnEnd (ahead t))
      (λ len h.
        OnEnd->>= (λ taken. From size (suc k) taken.0) (Behind size k) (take_value t len) _
          (take_value-OnEnd t len from)
          (λ taken behind.
            OnEnd->>= (From size (suc k)) (Behind size k) (add_key name taken.1 taken.0) _
              (add_key-OnEnd name taken.1 taken.0 behind) at_end))
  where
    at_end :
        (u : Parser)
        → From size (suc k) u
        → OnEnd
            (Behind size k)
            (deref (ahead u) >>= λ c. if c == b'\n' then by_skipline u else ok u)
    at_end u (e, le) =
        OnEnd->>= (λ c. Unit) (Behind size k) (deref (ahead u)) _ (deref-OnEnd (ahead u))
          (λ c x.
            if_rule (OnEnd (Behind size k)) (c == b'\n') (λ z. by_skipline-OnEnd u (e, omega arith))
              (λ z. (e, inl (omega arith))))

key_line-OnEnd :
    (s : Parser) (n : ℕ) {size k : ℕ} → From size k s → OnEnd (Behind size k) (key_line s n)
unfolding key_line
key_line-OnEnd s zero from = by_skipline-OnEnd s from
key_line-OnEnd s (suc n) {size} {k} from =
    OnEnd->>= (From size (k + suc n + 1)) (Behind size k) (to_value s (suc n)) _
      (to_value-OnEnd s (suc n) from)
      (λ r behind.
        OnEnd->>= (λ t. From size (k + suc n + 1) t × (t.p ≡ r.p)) (Behind size k)
          (terminate r (s.p + suc n)) _ (terminate-OnEnd r (s.p + suc n) behind)
          (λ t (kept, same). value-OnEnd (at s.p) t (kept.0, omega (arith, kept))))

dispatch-OnEnd :
    (c : ℕ) (s : Parser) {size k : ℕ} → From size k s → OnEnd (Behind size k) (dispatch c s)
unfolding dispatch
dispatch-OnEnd c s {size} {k} (e, le) =
    let P = OnEnd (Behind size k) in
    if_rule P (c == b'\n' || c == b'\r') (λ h. (e, inl (omega arith)))
      (λ h.
        if_rule P (c == b'[')
          (λ h.
            OnEnd->>= (λ n. Unit) (Behind size k) (parse_section_name (ahead (go s 1))) _
              (parse_section_name-OnEnd (ahead (go s 1)))
              (λ n x. section_line-OnEnd (go s 1) n (e, omega arith)))
          (λ h.
            if_rule P (c == b';' || c == b'#') (λ h. by_skipline-OnEnd s (e, le))
              (λ h.
                OnEnd->>= (λ n. Unit) (Behind size k) (parse_key_name (ahead s)) _
                  (parse_key_name-OnEnd (ahead s)) (λ n x. key_line-OnEnd s n (e, le)))))

step-OnEnd : (s : Parser) → OnEnd (Behind (length s.buf) s.p) (step s)
unfolding step
step-OnEnd s =
    OnEnd->>= (From (length s.buf) s.p) (Behind (length s.buf) s.p) (by_skipws s) _
      (by_skipws-OnEnd s (refl, omega arith))
      (λ t at.
        OnEnd->>= (λ c. Unit) (Behind (length s.buf) s.p) (deref (ahead t)) _
          (deref-OnEnd (ahead t)) (λ c h. dispatch-OnEnd c t at))

deref-bound : (xs : Bytes) (p : ℕ) {c : ℕ} → deref (drop p xs) ≡ ok c → p < length xs
deref-bound [] zero h = absurd (cc h)
deref-bound [] (suc p) h = absurd (cc h)
deref-bound (x ∷ xs) zero h = omega arith
deref-bound (x ∷ xs) (suc p) h = let rest = deref-bound xs p h in omega (arith, rest)

-- The test of the loop, with the rounds that follow.
abbrev more : ℕ → ℕ → Parser → ℕ → Outcome Parser
more fuel bufsize t c = if not (c == 0) && ltb t.p bufsize then parse_loop fuel bufsize t else ok t

-- The end of a round: `rest` is the loop from there.
goes_on :
    (fuel bufsize k : ℕ) (t : Parser)
    → (t.p < length t.buf → k < t.p → OnEnd (λ t. Unit) (parse_loop fuel bufsize t))
    → (k < t.p) ⊎ AtZero (ahead t)
    → (m : Outcome ℕ) → deref (ahead t) ≡ m
    → OnEnd (λ t. Unit) (m >>= more fuel bufsize t)
goes_on fuel bufsize k t rest behind fault e = tt
goes_on fuel bufsize k t rest behind no_fuel e = subst (OnEnd (λ c. Unit)) e (deref-OnEnd (ahead t))
goes_on fuel bufsize k t rest (inr z) (ok c) e =
    let zero_byte : c ≡ 0 = ok-injective (sym e ∙ z) in
    if_rule (OnEnd (λ t. Unit)) (not (c == 0) && ltb t.p bufsize) (λ h. absurd (ground arith))
      (λ h. tt)
goes_on fuel bufsize k t rest (inl lt) (ok c) e =
    if_rule (OnEnd (λ t. Unit)) (not (c == 0) && ltb t.p bufsize)
      (λ h. rest (deref-bound t.buf t.p e) lt) (λ h. tt)

-- The loop of the parser ends when its fuel covers the rest of the buffer.
pub parse_loop-OnEnd :
    (fuel bufsize : ℕ) (s : Parser)
    → s.p < length s.buf
    → length s.buf ≤ fuel + s.p
    → OnEnd (λ t. Unit) (parse_loop fuel bufsize s)
unfolding parse_loop
parse_loop-OnEnd zero bufsize s lt h = absurd (omega arith)
parse_loop-OnEnd (suc fuel) bufsize s lt h =
    OnEnd->>= (Behind (length s.buf) s.p) (λ t. Unit) (step s) _ (step-OnEnd s)
      (λ t (e, behind).
        goes_on fuel bufsize s.p t
          (λ bound ahead. parse_loop-OnEnd fuel bufsize t bound (omega arith)) behind
          (deref (ahead t)) refl)

pub parse_ini_file-ends : (text : Bytes) → OnEnd (λ t. Unit) (parse_ini_file text)
unfolding parse_ini_file
parse_ini_file-ends text =
    let e = length-append text (0 ∷ []) in
    parse_loop-OnEnd (length (text ++ 0 ∷ []) + 1) (length text) (initial (text ++ 0 ∷ []))
      (omega (arith, e)) (omega arith)

-- The parser comes to its end on every text, with one round of fuel for each byte of its buffer.
pub parse_ini_file-has_fuel : (text : Bytes) → parse_ini_file text ≢ no_fuel
parse_ini_file-has_fuel text e = subst (OnEnd (λ t. Unit)) e (parse_ini_file-ends text)
