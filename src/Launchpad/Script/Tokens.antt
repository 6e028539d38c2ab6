-- ===== src/Launchpad/Script/Tokens.antt =====
-- process_kindle_script of src/launchpad.c, and the words of a script.
use kindle_launchpad.Base.{
  ℕ, zero, suc, ◌<◌, ◌≡◌, refl, ap, ◌∙◌, Bool, List, [], ◌∷◌, Option, none, some, lt→ltb, Bytes,
  length, take, drop, words, Cuts, strtok_r, strtok_r-Cuts, ok, fault, ◌>>=◌, if◌then◌else◌,
}
use kindle_launchpad.Keys.Names.{KeyTable}
use kindle_launchpad.Launchpad.Action.{max_path}
use kindle_launchpad.Launchpad.Script.{
  is_separator, max_tokens, collect_tokens, behind_first, but_last, send_tokens,
  process_kindle_script,
}

on_cut-words :
    (n : ℕ) (rest : Bytes)
    → ((s : Bytes) → collect_tokens n s ≡ take n (words is_separator s))
    → (r : Option (Bytes × Bytes)) → Cuts is_separator rest r
    → (elim r as (λ x. List Bytes) [
      | none ↦ []
      | some (ptok, saveptr) ↦ ptok ∷ collect_tokens n saveptr
    ])
      ≡ take (suc n) (words is_separator rest)
on_cut-words n rest ih none e = rw e refl
on_cut-words n rest ih (some (ptok, saveptr)) e =
    rw e (ap (λ (l : List Bytes). ptok ∷ l) (ih saveptr))

collect_tokens-words :
    (n : ℕ) (rest : Bytes) → collect_tokens n rest ≡ take n (words is_separator rest)
unfolding collect_tokens
collect_tokens-words zero rest = refl
collect_tokens-words (suc n) rest =
    on_cut-words n rest (collect_tokens-words n) (strtok_r is_separator rest)
      (strtok_r-Cuts is_separator rest)

behind_first-words :
    (p : Bytes) (r : Option (Bytes × Bytes))
    → Cuts is_separator p r
    → behind_first r ≡ take max_tokens (drop 1 (words is_separator p))
behind_first-words p none e = rw e refl
behind_first-words p (some (ptok, saveptr)) e = rw e (collect_tokens-words max_tokens saveptr)

-- A script of fewer than 256 bytes is read without a fault, and what is sent is the words of the
-- script, but the first one and the last of those that are left: of the words behind the first one
-- only 64 are read, so that at most 63 are sent.
pub process_kindle_script-words :
    (k3 : Bool) (kdelay : ℕ) (t : KeyTable) (p : Bytes)
    → length p < max_path
    → process_kindle_script k3 kdelay t p
      ≡ ok (send_tokens k3 kdelay t (but_last (take max_tokens (drop 1 (words is_separator p)))))
unfolding process_kindle_script
process_kindle_script-words k3 kdelay t p lt =
    ap
      (λ b. (if b then ok p else fault) >>= λ tmpbuf.
        ok (send_tokens k3 kdelay t (but_last (behind_first (strtok_r is_separator tmpbuf)))))
      (lt→ltb (length p) max_path lt)
    ∙ ap (λ (l : List Bytes). ok (send_tokens k3 kdelay t (but_last l)))
        (behind_first-words p (strtok_r is_separator p) (strtok_r-Cuts is_separator p))
