-- ===== src/Launchpad/Load/Table.antt =====
-- The table of actions of src/launchpad.c.
use kindle_launchpad.Base.{
  ◌-◌, ℕ, suc, ◌≤◌, ◌<◌, ◌≡◌, refl, ap, ◌∙◌, inl, inr, false, List, [], ◌∷◌, ◌++◌, Option, none,
  some, ltb, ltb→lt, Bool-cases, Bytes, length, length-append, length-take, length-replicate, take,
  replicate, words, OnOk, arith,
}
use kindle_launchpad.Keys.Names.{KeyTable, find_input_key_code}
use kindle_launchpad.Launchpad.Action.{Action, max_seq, max_path}
use kindle_launchpad.Launchpad.Action.Laws.{Carries, NoneCarries, has_sequence_iff}
use kindle_launchpad.Launchpad.Sequence.{is_space, cleared, parse_action_sequence}
use kindle_launchpad.Launchpad.Sequence.Words.{
  cons_code, codes_of, Reads, parse_action_sequence-Reads,
}
use kindle_launchpad.Launchpad.Load.{is_defined}

-- Its keys are between one and eight, in an array of eight, and there is a command that fits in its
-- array with its terminator.
abbrev pub IsLoaded : Action → Type 0
IsLoaded pa =
    (1 ≤ pa.len)
    × (pa.len ≤ max_seq)
    × (length pa.sequence ≡ max_seq)
    × (1 ≤ length pa.command)
    × (length pa.command < max_path)

-- No action has the keys of one in front of it.
abbrev pub Behind : Action → List Action → Type 0
Behind pa [] = Unit
Behind pa (q ∷ l) = (¬ Carries q.sequence q.len pa) × Behind pa l

abbrev pub IsTable : List Action → Type 0
IsTable [] = Unit
IsTable (pa ∷ l) = IsLoaded pa × Behind pa l × IsTable l

pub NoneCarries-is_defined :
    (pnew : Action) (l : List Action)
    → is_defined pnew l ≡ false
    → NoneCarries pnew.sequence pnew.len l
unfolding is_defined
NoneCarries-is_defined pnew [] e = tt
NoneCarries-is_defined pnew (pa ∷ l) e = (
  λ c. let hit = (has_sequence_iff pnew.sequence pnew.len pa).1 c in ground arith,
  NoneCarries-is_defined pnew l (ground arith),
)

Behind-snoc :
    (pa pnew : Action) (l : List Action)
    → Behind pa l
    → ¬ Carries pnew.sequence pnew.len pa
    → Behind pa (l ++ pnew ∷ [])
Behind-snoc pa pnew [] h c = (c, tt)
Behind-snoc pa pnew (q ∷ l) (here, h) c = (here, Behind-snoc pa pnew l h c)

pub IsTable-snoc :
    (l : List Action) (pnew : Action)
    → IsTable l
    → IsLoaded pnew
    → NoneCarries pnew.sequence pnew.len l
    → IsTable (l ++ pnew ∷ [])
IsTable-snoc [] pnew h new c = (new, tt, tt)
IsTable-snoc (pa ∷ l) pnew (loaded, behind, h) new (here, c) =
    (loaded, Behind-snoc pa pnew l behind here, IsTable-snoc l pnew h new c)

pub NoneCarries-append :
    (before after : List Action) (pa : Action)
    → IsTable (before ++ pa ∷ after)
    → NoneCarries pa.sequence pa.len before
NoneCarries-append [] after pa h = tt
NoneCarries-append (q ∷ before) after pa (loaded, behind, h) =
    (first before behind, NoneCarries-append before after pa h)
  where
    first : (l : List Action) → Behind q (l ++ pa ∷ after) → ¬ Carries pa.sequence pa.len q
    first [] (here, x) = here
    first (y ∷ l) (x, rest) = first l rest

-- A word gives a code, if any.
CodeForEach : List Bytes → Option (List ℕ) → Type 0
CodeForEach ws none = Unit
CodeForEach ws (some cs) = length cs ≡ length ws

CodeForEach-cons :
    (w : Bytes) (ws : List Bytes) (o : Option ℕ) (r : Option (List ℕ))
    → CodeForEach ws r
    → CodeForEach (w ∷ ws) (cons_code o r)
unfolding CodeForEach
CodeForEach-cons w ws none r h = tt
CodeForEach-cons w ws (some c) none h = tt
CodeForEach-cons w ws (some c) (some cs) h = ap suc h

codes_of-CodeForEach : (t : KeyTable) (ws : List Bytes) → CodeForEach ws (codes_of t ws)
unfolding codes_of CodeForEach
codes_of-CodeForEach t [] = refl
codes_of-CodeForEach t (w ∷ ws) =
    CodeForEach-cons w ws (find_input_key_code t w) (codes_of t ws) (codes_of-CodeForEach t ws)

-- What holds of an action behind parse_action_sequence.
abbrev pub HasKeys : Action → Type 0
HasKeys pa = 1 ≤ pa.len → (pa.len ≤ max_seq) × (length pa.sequence ≡ max_seq)

HasKeys-Reads :
    (ws : List Bytes) (r : Option (List ℕ)) (pa : Action)
    → CodeForEach (take max_seq ws) r
    → Reads [] max_seq r pa
    → HasKeys pa
unfolding CodeForEach
HasKeys-Reads ws none pa c e some_key = absurd (omega (arith, e, some_key))
HasKeys-Reads ws (some cs) pa c (len, seq) some_key =
    let few = length-take max_seq ws in
    (
      omega (arith, len, c, few),
      ap length seq
          ∙ omega (
            arith,
            length-append cs (replicate (max_seq - length cs) 0),
            len,
            c,
            few,
            length-replicate {A = ℕ} (max_seq - length cs) 0,
          ),
    )

pub parse_action_sequence-HasKeys :
    (t : KeyTable) (pbuf : Bytes) → OnOk HasKeys (parse_action_sequence t pbuf cleared)
parse_action_sequence-HasKeys t pbuf = elim (Bool-cases (ltb (length pbuf) max_path)) [
  | inl fits ↦
      let ws = words is_space pbuf in
      let (pact, runs, reads) =
        parse_action_sequence-Reads t pbuf (ltb→lt (length pbuf) max_path fits) in
      rw runs (
        HasKeys-Reads ws (codes_of t (take max_seq ws)) pact
          (codes_of-CodeForEach t (take max_seq ws)) reads)
  | inr long ↦ unfold parse_action_sequence in rw long tt
]
