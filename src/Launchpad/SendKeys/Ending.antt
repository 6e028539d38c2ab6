-- ===== src/Launchpad/SendKeys/Ending.antt =====
-- The loops of process_sendkeys_command of src/launchpad.c.
use kindle_launchpad.Base.{
  ℕ, zero, suc, ◌-◌, ◌≤◌, ◌<◌, ◌≡◌, Bool, false, List, [], ◌∷◌, leb, lt→ltb, ◌==◌, if_rule, Bytes,
  length, Returns, Returns->>=, arith,
}
use kindle_launchpad.Ascii.Send.{Call}
use kindle_launchpad.Keys.Names.{KeyTable}
use kindle_launchpad.Launchpad.Action.{max_path}
use kindle_launchpad.Launchpad.SendKeys.{quoted, bare_word, sendkeys_loop, process_sendkeys_command}

abbrev pub Shorter : ℕ → Bytes × Bytes → Type 0
Shorter n r = length r.1 ≤ n

quoted-Returns : (s : Bytes) → Returns (Shorter (length s)) (quoted false s)
unfolding quoted
quoted-Returns [] = omega arith
quoted-Returns (c ∷ []) =
    let P = Returns (Shorter 1) in
    if_rule P (c == b'"') (λ e. omega arith)
      (λ e. if_rule P (c == b'\\') (λ e. omega arith) (λ e. omega arith))
quoted-Returns (c ∷ d ∷ q) =
    let P = Returns (Shorter (length (c ∷ d ∷ q))) in
    if_rule P (c == b'"') (λ e. omega arith)
      (λ e.
        if_rule P (c == b'\\')
          (λ e.
            Returns->>= (Shorter (length q)) (Shorter (length (c ∷ d ∷ q))) (quoted false q) _
              (quoted-Returns q) (λ r le. omega (arith, le)))
          (λ e.
            Returns->>= (Shorter (length (d ∷ q))) (Shorter (length (c ∷ d ∷ q)))
              (quoted false (d ∷ q)) _ (quoted-Returns (d ∷ q)) (λ r le. omega (arith, le))))

bare_word-Shorter : (s : Bytes) → Shorter (length s) (bare_word s)
unfolding bare_word
bare_word-Shorter [] = omega arith
bare_word-Shorter (c ∷ q) =
    if_rule (Shorter (length (c ∷ q))) (leb c b' ') (λ e. omega arith)
      (λ e. let le = bare_word-Shorter q in omega (arith, le))

-- A word that has a byte leaves fewer.
bare_word_rest : (c : ℕ) (q : Bytes) → leb c b' ' ≡ false → length (bare_word (c ∷ q)).1 ≤ length q
unfolding bare_word
bare_word_rest c q e = let le = bare_word-Shorter q in ground (arith, le)

module _ (k3 : Bool) (kdelay : ℕ) (t : KeyTable) where
  sendkeys_loop-Returns :
      (fuel : ℕ) (s : Bytes)
      → length s ≤ fuel
      → Returns (λ calls. Unit {0}) (sendkeys_loop k3 kdelay t fuel false s)
  unfolding sendkeys_loop
  sendkeys_loop-Returns fuel [] le = tt
  sendkeys_loop-Returns zero (c ∷ q) le = absurd (omega arith)
  sendkeys_loop-Returns (suc fuel) (c ∷ q) le =
      let P = Returns (λ (calls : List Call). Unit {0}) in
      if_rule P (leb c b' ') (λ e. sendkeys_loop-Returns fuel q (omega arith))
        (λ e.
          if_rule P (c == b'"')
            (λ m.
              Returns->>= (Shorter (length q)) (λ calls. Unit {0}) (quoted false q) _
                (quoted-Returns q)
                (λ r shorter.
                  let lt = shorter in
                  Returns->>= (λ calls. Unit {0}) (λ calls. Unit {0})
                    (sendkeys_loop k3 kdelay t fuel false r.1) _
                    (sendkeys_loop-Returns fuel r.1 (omega (arith, lt))) (λ calls x. tt)))
            (λ m.
              let lt = bare_word_rest c q e in
              Returns->>= (λ calls. Unit {0}) (λ calls. Unit {0})
                (sendkeys_loop k3 kdelay t fuel false (bare_word (c ∷ q)).1) _
                (sendkeys_loop-Returns fuel (bare_word (c ∷ q)).1 (omega (arith, lt)))
                (λ calls x. tt)))

  -- For every command of fewer than 255 bytes, which leaves the last byte of the buffer zero,
  -- process_sendkeys_command comes to its end without a read or a write out of its buffer: a round of
  -- fuel for each byte is enough.
  pub process_sendkeys_command-Returns :
      (p : Bytes)
      → length p < max_path - 1
      → Returns (λ calls. Unit {0}) (process_sendkeys_command k3 kdelay t p)
  unfolding process_sendkeys_command
  process_sendkeys_command-Returns p lt =
      let room : (length p == max_path - 1) ≡ false = ground arith in
      rw (lt→ltb (length p) max_path (omega arith), room)
        (sendkeys_loop-Returns (length p) p (omega arith))
