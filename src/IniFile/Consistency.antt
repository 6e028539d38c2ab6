-- ===== src/IniFile/Consistency.antt =====
-- src/inifile.c: the parser keeps its two tables consistent.
use kindle_launchpad.Base.{
  ◌>>=◌, ℕ, zero, suc, ◌+◌, ◌≤◌, ◌<◌, refl, ℤ, pos, negsuc, Bool, not, ◌&&◌, ◌||◌, List, [], ◌∷◌,
  ◌++◌, Option, none, some, leb, ltb, ◌==◌, if◌then◌else◌, if_rule, Bytes, same_name, length,
  length-append, ok, OnOk, OnOk->>=, OnOk-always, arith,
}
use kindle_launchpad.IniFile.Scan.{
  deref, skipws, skipline, parse_section_name, parse_key_value, parse_key_name,
}
use kindle_launchpad.IniFile.Parse.{
  Text, at, SectionRow, KeyRow, Parser, ahead, go, by_skipws, by_skipline, section_index,
  first_name, text_of, enter_section, section_line, container, count_pair, add_key, take_value,
  terminate, to_value, key_line, dispatch, step, parse_loop, parse_ini_file, initial,
}
use kindle_launchpad.IniFile.Tables.{
  Consistent, keys_of, empty_row, snoc-Consistent, add-Consistent, length-update_row,
}

-- The current section is a row of the table.
abbrev pub CurrentIn : List SectionRow → Option ℕ → Type 0
CurrentIn sections none = Unit
CurrentIn sections (some i) = i < length sections

abbrev pub Sound : Parser → Type 0
Sound s = Consistent s.sections s.keys × CurrentIn s.sections s.pcursect

by_skipws-Sound : (s : Parser) → Sound s → OnOk Sound (by_skipws s)
by_skipws-Sound s h = OnOk->>= (λ n. Unit) Sound (skipws (ahead s)) _ (OnOk-always _) (λ n x. h)

by_skipline-Sound : (s : Parser) → Sound s → OnOk Sound (by_skipline s)
by_skipline-Sound s h = OnOk->>= (λ n. Unit) Sound (skipline (ahead s)) _ (OnOk-always _) (λ n x. h)

section_index_bound : (n i : ℕ) (hit : Bool) → section_index n i hit ≤ n + i
unfolding section_index
section_index_bound zero i hit = omega arith
section_index_bound (suc n) i hit =
    if_rule (λ k. k ≤ suc n + i) hit (λ e. omega arith)
      (λ e. let rest = section_index_bound n (i + 1) hit in omega (arith, rest))

enter_section-Sound :
    (name : Text) (buf : Bytes) (sections : List SectionRow) (keys : List KeyRow)
    → Consistent sections keys
    → Consistent (enter_section name buf sections).0 keys
      × ((enter_section name buf sections).1 < length (enter_section name buf sections).0)
unfolding enter_section
enter_section-Sound name buf sections keys h =
    let n = length sections in
    let i = section_index n 0 (same_name (first_name buf sections) (text_of buf name)) in
    let bound = section_index_bound n 0 (same_name (first_name buf sections) (text_of buf name)) in
    if_rule (λ l. Consistent l keys × (i < length l)) (leb n i)
      (λ e. (
        snoc-Consistent name sections keys h,
        omega (arith, bound, length-append sections (empty_row name ∷ [])),
      ))
      (λ e. (h, ground arith))

terminate-Sound : (s : Parser) (i : ℕ) → Sound s → OnOk Sound (terminate s i)
unfolding terminate
terminate-Sound s i h = if_rule (OnOk Sound) (ltb i (length s.buf)) (λ inner. h) (λ outer. tt)

section_line-Sound : (s : Parser) (n : ℤ) → Sound s → OnOk Sound (section_line s n)
unfolding section_line
section_line-Sound s (negsuc n) h = by_skipline-Sound s h
section_line-Sound s (pos zero) h = by_skipline-Sound s h
section_line-Sound s (pos (suc n)) h =
    OnOk->>= Sound Sound (terminate s (s.p + suc n)) _ (terminate-Sound s (s.p + suc n) h)
      (λ t sound.
        let (sections, i) = enter_section (at t.p) t.buf t.sections in
        by_skipline-Sound (record t { p = t.p + suc n + 1; sections = sections; pcursect = some i })
          (enter_section-Sound (at t.p) t.buf t.sections t.keys sound.0))

container-Sound :
    (sections : List SectionRow) (keys : List KeyRow) (cur : Option ℕ)
    → Consistent sections keys
    → CurrentIn sections cur
    → OnOk (λ c. Consistent c.0 keys × (c.1 < length c.0)) (container sections cur)
container-Sound [] keys cur h le = (snoc-Consistent _ [] keys h, omega arith)
container-Sound (r ∷ rs) keys none h le = tt
container-Sound (r ∷ rs) keys (some i) h le = (h, le)

add_key-Sound : (name value : Text) (s : Parser) → Sound s → OnOk Sound (add_key name value s)
unfolding add_key
add_key-Sound name value s (h, le) =
    OnOk->>= (λ c. Consistent c.0 s.keys × (c.1 < length c.0)) Sound
      (container s.sections s.pcursect) _ (container-Sound s.sections s.keys s.pcursect h le)
      (λ c (consistent, lt).
        let size = length-update_row (count_pair (length s.keys)) c.0 c.1 in
        (
          add-Consistent c.0 s.keys (record { pkname = name; pkvalue = value; psect = c.1 }) lt
              consistent,
          omega (arith, size, lt),
        ))

to_value-Sound : (s : Parser) (n : ℕ) → Sound s → OnOk Sound (to_value s n)
to_value-Sound s n h =
    OnOk->>= (λ c. Unit) Sound (deref (ahead (go s n))) _ (OnOk-always _)
      (λ c x.
        OnOk->>= Sound Sound (if not (c == b'=') then by_skipws (go s n) else ok (go s n)) _
          (if_rule (OnOk Sound) (not (c == b'=')) (λ e. by_skipws-Sound (go s n) h) (λ e. h))
          (λ r sound. by_skipws-Sound (go r 1) sound))

take_value-Sound : (s : Parser) (n : ℕ) → Sound s → OnOk (λ taken. Sound taken.0) (take_value s n)
unfolding take_value
take_value-Sound s zero h = h
take_value-Sound s (suc n) h =
    OnOk->>= Sound (λ taken. Sound taken.0) (terminate s (s.p + suc n)) _
      (terminate-Sound s (s.p + suc n) h) (λ t sound. sound)

-- The part of key_line behind the name.
value-Sound :
    (name : Text) (t : Parser)
    → Sound t
    → OnOk Sound (
        parse_key_value (ahead t) >>= λ len.
        (take_value t len >>= λ taken.
        (add_key name taken.1 taken.0 >>= λ u.
        (deref (ahead u) >>= λ c. if c == b'\n' then by_skipline u else ok u))))
value-Sound name t h =
    OnOk->>= (λ n. Unit) Sound (parse_key_value (ahead t)) _ (OnOk-always _)
      (λ len x.
        OnOk->>= (λ taken. Sound taken.0) Sound (take_value t len) _ (take_value-Sound t len h)
          (λ taken sound.
            OnOk->>= Sound Sound (add_key name taken.1 taken.0) _
              (add_key-Sound name taken.1 taken.0 sound)
              (λ u made.
                OnOk->>= (λ c. Unit) Sound (deref (ahead u)) _ (OnOk-always _)
                  (λ c y.
                    if_rule (OnOk Sound) (c == b'\n') (λ e. by_skipline-Sound u made)
                      (λ e. made)))))

key_line-Sound : (s : Parser) (n : ℕ) → Sound s → OnOk Sound (key_line s n)
unfolding key_line
key_line-Sound s zero h = by_skipline-Sound s h
key_line-Sound s (suc n) h =
    OnOk->>= Sound Sound (to_value s (suc n)) _ (to_value-Sound s (suc n) h) (λ r sound.
      OnOk->>= Sound Sound (terminate r (s.p + suc n)) _ (terminate-Sound r (s.p + suc n) sound)
        (λ t kept. value-Sound (at s.p) t kept))

dispatch-Sound : (c : ℕ) (s : Parser) → Sound s → OnOk Sound (dispatch c s)
unfolding dispatch
dispatch-Sound c s h =
    if_rule (OnOk Sound) (c == b'\n' || c == b'\r') (λ e. h)
      (λ e.
        if_rule (OnOk Sound) (c == b'[')
          (λ b.
            OnOk->>= (λ n. Unit) Sound (parse_section_name (ahead (go s 1))) _ (OnOk-always _)
              (λ n x. section_line-Sound (go s 1) n h))
          (λ b.
            if_rule (OnOk Sound) (c == b';' || c == b'#') (λ x. by_skipline-Sound s h)
              (λ x.
                OnOk->>= (λ n. Unit) Sound (parse_key_name (ahead s)) _ (OnOk-always _)
                  (λ n y. key_line-Sound s n h))))

step-Sound : (s : Parser) → Sound s → OnOk Sound (step s)
unfolding step
step-Sound s h = OnOk->>= Sound Sound (by_skipws s) _ (by_skipws-Sound s h) (λ t sound.
    OnOk->>= (λ c. Unit) Sound (deref (ahead t)) _ (OnOk-always _)
      (λ c x. dispatch-Sound c t sound))

parse_loop-Sound :
    (fuel bufsize : ℕ) (s : Parser) → Sound s → OnOk Sound (parse_loop fuel bufsize s)
unfolding parse_loop
parse_loop-Sound zero bufsize s h = tt
parse_loop-Sound (suc fuel) bufsize s h =
    OnOk->>= Sound Sound (step s) _ (step-Sound s h) (λ t sound.
      OnOk->>= (λ c. Unit) Sound (deref (ahead t)) _ (OnOk-always _)
        (λ c x.
          if_rule (OnOk Sound) (not (c == 0) && ltb t.p bufsize)
            (λ e. parse_loop-Sound fuel bufsize t sound) (λ e. sound)))

-- When the parser returns, every section row counts the keys of its section, its `ppairs` leaves none
-- of them out, and every key belongs to a row of the table of sections.
pub parse_ini_file-Sound : (text : Bytes) → OnOk Sound (parse_ini_file text)
unfolding parse_ini_file keys_of
parse_ini_file-Sound text =
    parse_loop-Sound _ (length text) (initial (text ++ 0 ∷ []))
      ((λ i r e. absurd (cc e), λ i le. refl), tt)
