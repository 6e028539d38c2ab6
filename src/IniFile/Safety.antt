-- ===== src/IniFile/Safety.antt =====
-- src/inifile.c: the parser stays in the buffer of a text whose last line is ended by a newline.
use mathlib.Core.List.{append_assoc}
use kindle_launchpad.Base.{
  ℕ, zero, suc, ◌+◌, ◌-◌, ◌<◌, ◌≤◌, ◌≡◌, refl, sym, ap, ◌∙◌, inl, inr, pos_part, true, not, ◌&&◌,
  ◌||◌, [], ◌∷◌, ◌++◌, ltb, ◌==◌, ==_iff, if_rule, Bool-cases, if◌then◌else◌, Bytes, length,
  length-append, get_or, set, ok, ◌>>=◌, OnSafe, OnSafe->>=, returns, get_or-append_self, arith,
}
use kindle_launchpad.IniFile.Scan.{
  deref, skipws, parse_section_name, parse_key_value, parse_key_name,
}
use kindle_launchpad.IniFile.Parse.{
  Text, at, Parser, ahead, go, by_skipws, by_skipline, section_line, container, add_key, take_value,
  terminate, to_value, key_line, dispatch, step, parse_loop, parse_ini_file, initial,
}
use kindle_launchpad.IniFile.Bounds.{
  NameEnd, skipws-OnSafe, parse_section_name-OnSafe, parse_key_value-OnSafe, parse_key_name-OnSafe,
}
use kindle_launchpad.IniFile.Progress.{parse_ini_file-ends}
use kindle_launchpad.IniFile.Inside.{
  Inside, Within, ahead-get_or, newline_ahead, bound_ahead, go-Inside, go-Within, set-Within,
  by_skipws-OnSafe, by_skipline-OnSafe, linked-Within, section_line-OnSafe, terminate-OnSafe,
  deref-ahead-OnSafe,
}

inner_lem :
    (k : ℕ) (s : Parser) (q : ℕ)
    → Inside k s
    → q ≤ k - s.p
    → get_or (ahead s) q 0 ≡ b'='
    → q < k - s.p
inner_lem k s q h lt eq = elim (Bool-cases (q == k - s.p)) [
  | inl e ↦
      let same = (==_iff q (k - s.p)).0 e in
      let nl = newline_ahead k s h in
      let clash : get_or (ahead s) q 0 ≡ 10 = rw same nl in absurd (omega (arith, clash, eq))
  | inr e ↦ ground arith
]

linked : (k : ℕ) (s : Parser) → Within k s → OnSafe (λ c. Unit) (container s.sections s.pcursect)
linked k s (inl ((size, z, l), le, nl)) = l
linked k s (inr ((size, z, l), h)) = l

set-Inside :
    (k : ℕ) (s : Parser) (i : ℕ)
    → Inside k s
    → i < s.p
    → Inside k (record s { buf = set s.buf i 0 })
set-Inside k s i (ends, before, nl) lt = elim (set-Within k s i s.p ends nl lt (omega arith)) [
  | inl h ↦ h
  | inr (e, far) ↦ absurd (omega arith)
]

value_start :
    (k : ℕ) (s : Parser) (m : ℕ)
    → Inside k s
    → m < s.p
    → OnSafe (λ r. Inside k r × (m < r.p)) (by_skipws s)
value_start k s m h lt =
    OnSafe->>= (λ n. n ≤ k - s.p) (λ r. Inside k r × (m < r.p)) (skipws (ahead s)) _
      (skipws-OnSafe (ahead s) (k - s.p) (bound_ahead k s h) (rw (newline_ahead k s h) refl))
      (λ n le. (go-Inside k s n h le, omega arith))

-- Past the blanks in front of an equality sign, and over it.
to_equality-OnSafe :
    (k : ℕ) (s : Parser) (q c : ℕ)
    → Inside k s
    → q ≤ k - s.p
    → get_or (ahead s) q 0 ≡ b'='
    → OnSafe (λ r. Inside k (go r 1) × (s.p ≤ r.p)) (if not (c == b'=') then by_skipws s else ok s)
to_equality-OnSafe k s q c h lt eq =
    let P = λ (r : Parser). Inside k (go r 1) × (s.p ≤ r.p) in
    let inner : q < k - s.p = inner_lem k s q h lt eq in
    if_rule (OnSafe P) (not (c == b'='))
      (λ e.
        OnSafe->>= (λ n. n ≤ q) P (skipws (ahead s)) _
          (skipws-OnSafe (ahead s) q (let bound = bound_ahead k s h in omega (arith, bound))
            (rw eq refl))
          (λ n le.
            (go-Inside k (go s n) 1 (go-Inside k s n h (omega arith)) (omega arith), omega arith)))
      (λ e. (go-Inside k s 1 h (omega arith), omega arith))

-- From a name with an equality sign behind it, the pointer goes to the value.
to_value-OnSafe :
    (k : ℕ) (s : Parser) (n q : ℕ)
    → Inside k s
    → n ≤ q
    → q ≤ k - s.p
    → get_or (ahead s) q 0 ≡ b'='
    → OnSafe (λ r. Inside k r × (s.p + n < r.p)) (to_value s n)
to_value-OnSafe k s n q h le lt eq =
    let P = λ (r : Parser). Inside k r × (s.p + n < r.p) in
    let g = go-Inside k s n h (omega arith) in
    let eq2 : get_or (ahead (go s n)) (q - n) 0 ≡ b'=' =
      ahead-get_or (go s n) (q - n) (s.p + q) (omega arith)
      ∙ sym (ahead-get_or s q (s.p + q) refl)
      ∙ eq in
    OnSafe->>= (λ c. c ≡ get_or (ahead (go s n)) 0 0) P (deref (ahead (go s n))) _
      (deref-ahead-OnSafe k (go s n) (inl g))
      (λ c e.
        OnSafe->>= (λ r. Inside k (go r 1) × (s.p + n ≤ r.p)) P
          (if not (c == b'=') then by_skipws (go s n) else ok (go s n)) _
          (to_equality-OnSafe k (go s n) (q - n) c g (omega arith) eq2)
          (λ r (at_eq, far). value_start k (go r 1) (s.p + n) at_eq (omega arith)))

add_key-OnSafe :
    (k : ℕ) (name value : Text) (s : Parser) → Within k s → OnSafe (Within k) (add_key name value s)
unfolding add_key
add_key-OnSafe k name value s h =
    OnSafe->>= (λ c. Unit) (Within k) (container s.sections s.pcursect) _ (linked k s h)
      (λ c x.
        linked-Within k s _
          (s.keys ++ (record { pkname = name; pkvalue = value; psect = c.1 }) ∷ []) c.1 h)

take_value-OnSafe :
    (k : ℕ) (s : Parser) (n : ℕ)
    → Inside k s
    → n ≤ k - s.p
    → OnSafe (λ taken. Within k taken.0) (take_value s n)
unfolding take_value
take_value-OnSafe k s zero h le = inl h
take_value-OnSafe k s (suc n) (ends, before, nl) le =
    let P = λ (t : Parser). Within k (record t { p = t.p + suc n + 1 }) in
    let size = ends.0 in
    OnSafe->>= P (λ taken. Within k taken.0) (terminate s (s.p + suc n)) _
      (terminate-OnSafe P s (s.p + suc n) (omega (arith, size))
        (set-Within k s (s.p + suc n) (s.p + suc n + 1) ends nl (omega arith) (omega arith)))
      (λ t w. w)

-- The part of key_line behind the name.
value-OnSafe :
    (k : ℕ) (name : Text) (t : Parser)
    → Inside k t
    → OnSafe (Within k) (
        parse_key_value (ahead t) >>= λ len.
        (take_value t len >>= λ taken.
        (add_key name taken.1 taken.0 >>= λ u.
        (deref (ahead u) >>= λ c. if c == b'\n' then by_skipline u else ok u))))
value-OnSafe k name t h =
    OnSafe->>= (λ n. n ≤ k - t.p) (Within k) (parse_key_value (ahead t)) _
      (parse_key_value-OnSafe (ahead t) (k - t.p) (bound_ahead k t h) (newline_ahead k t h))
      (λ len le.
        OnSafe->>= (λ taken. Within k taken.0) (Within k) (take_value t len) _
          (take_value-OnSafe k t len h le)
          (λ taken v.
            OnSafe->>= (Within k) (Within k) (add_key name taken.1 taken.0) _
              (add_key-OnSafe k name taken.1 taken.0 v)
              (λ u w.
                OnSafe->>= (λ c. c ≡ get_or (ahead u) 0 0) (Within k) (deref (ahead u)) _
                  (deref-ahead-OnSafe k u w)
                  (λ c x.
                    if_rule (OnSafe (Within k)) (c == b'\n') (λ z. by_skipline-OnSafe k u w)
                      (λ z. w)))))

key_line-OnSafe :
    (k : ℕ) (s : Parser) (n : ℕ)
    → Inside k s
    → NameEnd (ahead s) (k - s.p) n
    → OnSafe (Within k) (key_line s n)
unfolding key_line
key_line-OnSafe k s zero h end = by_skipline-OnSafe k s (inl h)
key_line-OnSafe k s (suc n) h (inl e) = absurd (omega arith)
key_line-OnSafe k s (suc n) h (inr (q, le, lt, eq)) =
    OnSafe->>= (λ r. Inside k r × (s.p + suc n < r.p)) (Within k) (to_value s (suc n)) _
      (to_value-OnSafe k s (suc n) q h le lt eq)
      (λ r (inside, far).
        let size = inside.0.0 in
        OnSafe->>= (Inside k) (Within k) (terminate r (s.p + suc n)) _
          (terminate-OnSafe (Inside k) r (s.p + suc n) (omega (arith, size, inside))
            (set-Inside k r (s.p + suc n) inside far))
          (λ t kept. value-OnSafe k (at s.p) t kept))

bracket_inner : (k : ℕ) (s : Parser) → Inside k s → get_or (ahead s) 0 0 ≡ b'[' → 1 ≤ k - s.p
bracket_inner k s h head = elim (Bool-cases (k - s.p == 0)) [
  | inl e ↦
      let same = (==_iff (k - s.p) 0).0 e in
      let nl = newline_ahead k s h in
      let clash : get_or (ahead s) 0 0 ≡ 10 = sym (ap (λ n. get_or (ahead s) n 0) same) ∙ nl in
      absurd (omega (arith, clash, head))
  | inr e ↦ ground arith
]

bracket-OnSafe :
    (k : ℕ) (s : Parser)
    → Inside k s
    → get_or (ahead s) 0 0 ≡ b'['
    → OnSafe (Within k) (parse_section_name (ahead (go s 1)) >>= section_line (go s 1))
bracket-OnSafe k s h head =
    let inner = go-Inside k s 1 h (bracket_inner k s h head) in
    OnSafe->>= (λ z. pos_part z ≤ k - (s.p + 1)) (Within k) (parse_section_name (ahead (go s 1))) _
      (parse_section_name-OnSafe (ahead (go s 1)) _ (bound_ahead k (go s 1) inner)
        (newline_ahead k (go s 1) inner))
      (λ n le. section_line-OnSafe k (go s 1) n inner le)

dispatch-OnSafe :
    (k : ℕ) (s : Parser)
    → Inside k s
    → (c : ℕ) → c ≡ get_or (ahead s) 0 0
    → OnSafe (Within k) (dispatch c s)
unfolding dispatch
dispatch-OnSafe k s h c head =
    let P = OnSafe (Within k) in
    if_rule P (c == b'\n' || c == b'\r') (λ e. go-Within k s 1 h (omega arith))
      (λ e.
        if_rule P (c == b'[') (λ b. bracket-OnSafe k s h (sym head ∙ (==_iff _ _).0 b))
          (λ b.
            if_rule P (c == b';' || c == b'#') (λ x. by_skipline-OnSafe k s (inl h))
              (λ x.
                OnSafe->>= (NameEnd (ahead s) (k - s.p)) (Within k) (parse_key_name (ahead s)) _
                  (parse_key_name-OnSafe (ahead s) (k - s.p) (bound_ahead k s h)
                    (newline_ahead k s h))
                  (λ n end. key_line-OnSafe k s n h end))))

step-OnSafe : (k : ℕ) (s : Parser) → Inside k s → OnSafe (Within k) (step s)
unfolding step
step-OnSafe k s h =
    OnSafe->>= (λ t. Inside k t × (s.p ≤ t.p)) (Within k) (by_skipws s) _ (by_skipws-OnSafe k s h)
      (λ t (inside, far).
        OnSafe->>= (λ c. c ≡ get_or (ahead t) 0 0) (Within k) (deref (ahead t)) _
          (deref-ahead-OnSafe k t (inl inside)) (λ c e. dispatch-OnSafe k t inside c e))

-- A round is made only in the text: at its end the loop stops.
not_at_end :
    (k bufsize : ℕ) (s : Parser) (c : ℕ)
    → Within k s
    → c ≡ get_or (ahead s) 0 0
    → (not (c == 0) && ltb s.p bufsize) ≡ true
    → Inside k s
not_at_end k bufsize s c (inl h) e more = h
not_at_end k bufsize s c (inr (ends, far)) e more =
    let z : get_or (ahead s) 0 0 ≡ 0 = ahead-get_or s 0 (k + 1) (omega (arith, far)) ∙ ends.1 in
    let zero_byte : c ≡ 0 = e ∙ z in absurd (ground arith)

pub parse_loop-OnSafe :
    (fuel bufsize k : ℕ) (s : Parser) → Inside k s → OnSafe (Within k) (parse_loop fuel bufsize s)
unfolding parse_loop
parse_loop-OnSafe zero bufsize k s h = tt
parse_loop-OnSafe (suc fuel) bufsize k s h =
    OnSafe->>= (Within k) (Within k) (step s) _ (step-OnSafe k s h) (λ t w.
      OnSafe->>= (λ c. c ≡ get_or (ahead t) 0 0) (Within k) (deref (ahead t)) _
        (deref-ahead-OnSafe k t w)
        (λ c e.
          if_rule (OnSafe (Within k)) (not (c == 0) && ltb t.p bufsize)
            (λ x. parse_loop-OnSafe fuel bufsize k t (not_at_end k bufsize t c w e x)) (λ x. w)))

initial-Inside : (lines : Bytes) → Inside (length lines) (initial ((lines ++ b'\n' ∷ []) ++ 0 ∷ []))
initial-Inside lines =
    let text = lines ++ b'\n' ∷ [] in
    let text_length = length-append lines (b'\n' ∷ []) in
    let buf_length = length-append text (0 ∷ []) in
    let end : length lines + 1 ≡ length text = omega (arith, text_length) in
    (
      (
        omega (arith, buf_length, text_length),
        ap (λ n. get_or (text ++ 0 ∷ []) n 0) end ∙ get_or-append_self text 0 [] 0,
        tt,
      ),
      omega arith,
      ap (λ l. get_or l (length lines) 0) (append_assoc lines (b'\n' ∷ []) (0 ∷ []))
          ∙ get_or-append_self lines b'\n' (0 ∷ []) 0,
    )

-- On every text whose last line is ended by a newline, the parser comes to its end without a read
-- or a write out of its buffer; then its pointer is in the text or at the zero byte behind it, the
-- buffer has kept its length and its zero byte, and a section is current if there is any.
pub parse_ini_file-returns :
    (lines : Bytes)
    → let text = lines ++ b'\n' ∷ [] in
      (s : Parser) × (parse_ini_file text ≡ ok s) × Within (length lines) s
unfolding parse_ini_file
parse_ini_file-returns lines =
    returns (Within (length lines)) (parse_ini_file (lines ++ b'\n' ∷ []))
      (parse_ini_file-ends (lines ++ b'\n' ∷ []))
      (parse_loop-OnSafe _ _ (length lines) (initial ((lines ++ b'\n' ∷ []) ++ 0 ∷ []))
        (initial-Inside lines))
