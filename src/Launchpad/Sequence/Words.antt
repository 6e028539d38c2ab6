-- ===== src/Launchpad/Sequence/Words.antt =====
-- parse_action_sequence of src/launchpad.c, and the words of the name that it reads.
use mathlib.Core.List.{append_assoc, append-nil}
use kindle_launchpad.Base.{
  if_rule, ℕ, zero, suc, ◌-◌, ◌≤◌, ◌<◌, ◌≡◌, refl, sym, ap, ◌∙◌, Option, none, some, ltb, lt→ltb,
  Bytes, List, [], ◌∷◌, ◌++◌, set, take, length, length-append, replicate, words, Cuts, strtok_r,
  strtok_r-Cuts, ok, arith,
}
use kindle_launchpad.Keys.Names.{KeyTable, find_input_key_code}
use kindle_launchpad.Launchpad.Action.{Action, max_seq, max_path}
use kindle_launchpad.Launchpad.Sequence.{
  is_space, add_code, sequence_loop, name_action, parse_action_sequence, cleared,
}

abbrev pub cons_code : Option ℕ → Option (List ℕ) → Option (List ℕ)
cons_code none cs = none
cons_code (some c) none = none
cons_code (some c) (some cs) = some (c ∷ cs)

-- The codes of all the words, if every word is the name of a key.
unfoldable pub codes_of : KeyTable → List Bytes → Option (List ℕ)
codes_of t [] = some []
codes_of t (w ∷ ws) = cons_code (find_input_key_code t w) (codes_of t ws)

-- An action whose array holds `n` codes, with zeros behind them.
abbrev pub Holds : List ℕ → ℕ → Action → Type 0
Holds done k pact = (pact.len ≡ length done) × (pact.sequence ≡ done ++ replicate k 0)

-- What the loop makes of the codes of the words: the codes behind those that are there, or length 0.
abbrev pub Reads : List ℕ → ℕ → Option (List ℕ) → Action → Type 0
Reads done k none pact = pact.len ≡ 0
Reads done k (some cs) pact = Holds (done ++ cs) (k - length cs) pact

set-replicate :
    (done : List ℕ) (k v : ℕ)
    → set (done ++ replicate (suc k) 0) (length done) v ≡ (done ++ v ∷ []) ++ replicate k 0
set-replicate [] k v = refl
set-replicate (d ∷ done) k v = ap (λ (l : List ℕ). d ∷ l) (set-replicate done k v)

add_code-Holds :
    (done : List ℕ) (k v : ℕ) (pact : Action)
    → Holds done (suc k) pact
    → Holds (done ++ v ∷ []) k (add_code pact v)
add_code-Holds done k v pact (len, seq) = (
  omega (arith, len, length-append done (v ∷ [])),
  ap (λ l. set l pact.len v) seq
      ∙ ap (λ n. set (done ++ replicate (suc k) 0) n v) len
      ∙ set-replicate done k v,
)

Reads-cons :
    (done : List ℕ) (k v : ℕ) (r : Option (List ℕ)) (pact : Action)
    → Reads (done ++ v ∷ []) k r pact
    → Reads done (suc k) (cons_code (some v) r) pact
Reads-cons done k v none pact h = h
Reads-cons done k v (some cs) pact (len, seq) =
    let e = append_assoc done (v ∷ []) cs in
    let m : k - length cs ≡ suc k - suc (length cs) = omega arith in
    (
      len ∙ ap length e,
      seq
          ∙ ap (λ l. l ++ replicate (k - length cs) 0) e
          ∙ ap (λ m. (done ++ v ∷ cs) ++ replicate m 0) m,
    )

-- The rest of the loop behind a call of strtok_r.
abbrev on_token : KeyTable → ℕ → Action → Option (Bytes × Bytes) → Action
on_token t n pact none = pact
on_token t n pact (some (p, saveptr)) = elim (find_input_key_code t p) [
  | none ↦ record pact { len = 0 }
  | some code ↦ sequence_loop t n saveptr (add_code pact code)
]

end_Reads :
    (done : List ℕ) (k : ℕ) (pact : Action) → Holds done k pact → Reads done k (some []) pact
end_Reads done k pact (len, seq) =
    let e = sym (append-nil done) in
    let m : k ≡ k - 0 = omega arith in
    (
      len ∙ ap length e,
      seq ∙ ap (λ l. l ++ replicate k 0) e ∙ ap (λ m. (done ++ []) ++ replicate m 0) m,
    )

on_code-Reads :
    (t : KeyTable) (n k : ℕ) (saveptr : Bytes) (done : List ℕ) (pact : Action)
    → Holds done (suc k) pact
    → ((v : ℕ)
        → Reads
            (done ++ v ∷ [])
            k
            (codes_of t (take n (words is_space saveptr)))
            (sequence_loop t n saveptr (add_code pact v)))
    → (o : Option ℕ)
    → Reads done (suc k) (cons_code o (codes_of t (take n (words is_space saveptr)))) (elim o [
      | none ↦ record pact { len = 0 }
      | some code ↦ sequence_loop t n saveptr (add_code pact code)
    ])
on_code-Reads t n k saveptr done pact h ih none = refl
on_code-Reads t n k saveptr done pact h ih (some v) = Reads-cons done k v _ _ (ih v)

on_token-Reads :
    (t : KeyTable) (n k : ℕ) (rest : Bytes) (done : List ℕ) (pact : Action)
    → Holds done (suc k) pact
    → ((v : ℕ) (saveptr : Bytes)
        → Reads
            (done ++ v ∷ [])
            k
            (codes_of t (take n (words is_space saveptr)))
            (sequence_loop t n saveptr (add_code pact v)))
    → (r : Option (Bytes × Bytes)) → Cuts is_space rest r
    → Reads done (suc k) (codes_of t (take (suc n) (words is_space rest))) (on_token t n pact r)
unfolding codes_of
on_token-Reads t n k rest done pact h ih none e = rw e (end_Reads done (suc k) pact h)
on_token-Reads t n k rest done pact h ih (some (p, saveptr)) e =
    rw e (on_code-Reads t n k saveptr done pact h (λ v. ih v saveptr) (find_input_key_code t p))

sequence_loop-Reads :
    (t : KeyTable) (n k : ℕ) (rest : Bytes) (done : List ℕ) (pact : Action)
    → n ≤ k
    → Holds done k pact
    → Reads done k (codes_of t (take n (words is_space rest))) (sequence_loop t n rest pact)
unfolding sequence_loop codes_of
sequence_loop-Reads t zero k rest done pact le h = end_Reads done k pact h
sequence_loop-Reads t (suc n) zero rest done pact le h = absurd (omega arith)
sequence_loop-Reads t (suc n) (suc k) rest done pact le h =
    on_token-Reads t n k rest done pact h
      (λ v saveptr.
        sequence_loop-Reads t n k saveptr (done ++ v ∷ []) (add_code pact v) (omega arith)
          (add_code-Holds done k v pact h))
      (strtok_r is_space rest) (strtok_r-Cuts is_space rest)

name_action-Reads :
    (pbuf : Bytes) (r : Option (List ℕ)) (pact : Action)
    → Reads [] max_seq r pact
    → Reads [] max_seq r (name_action pbuf pact)
name_action-Reads pbuf none pact h =
    if_rule (λ (a : Action). a.len ≡ 0) (ltb 0 pact.len) (λ e. h) (λ e. h)
name_action-Reads pbuf (some cs) pact h =
    if_rule (Holds cs (max_seq - length cs)) (ltb 0 pact.len) (λ e. h) (λ e. h)

-- A name of fewer than 256 bytes is read without a fault. If every one of its first eight words is the
-- name of a key, the action has as many keys as words were read, its array holds their codes in order
-- and zeros behind them; if one of these words names no key, its length is 0, so it is not kept. Words
-- behind the eighth are not looked at.
pub parse_action_sequence-Reads :
    (t : KeyTable) (pbuf : Bytes)
    → length pbuf < max_path
    → (pact : Action) × (parse_action_sequence t pbuf cleared ≡ ok pact)
      × Reads [] max_seq (codes_of t (take max_seq (words is_space pbuf))) pact
unfolding parse_action_sequence
parse_action_sequence-Reads t pbuf lt =
    let loop = sequence_loop t max_seq pbuf cleared in
    (
      name_action pbuf loop,
      rw (lt→ltb (length pbuf) max_path lt) refl,
      name_action-Reads pbuf _ loop
          (sequence_loop-Reads t max_seq max_seq pbuf [] cleared (omega arith) (refl, refl)),
    )
