-- ===== src/Launchpad/Execute/Keys.antt =====
-- execute_action of src/launchpad.c, for actions that type keys.
use kindle_launchpad.Base.{
  ltb→lt, inr, inl, Bool-cases, false, ◌>>=◌, map, if◌then◌else◌, true, ◌-◌, take-length-append,
  take_all, words-append, ℕ, ◌+◌, ◌≤◌, ◌<◌, ◌≡◌, ◌↔◌, refl, ap, ◌∙◌, Bool, List, [], ◌∷◌, ◌++◌, ltb,
  lt→ltb, Bytes, codes, length, length-append, take, drop, words, Outcome, ok, fault, ◌>>=◌, arith,
}
use kindle_launchpad.Ascii.Send.{Call}
use kindle_launchpad.Launchpad.Action.{Action, action, kindle_keys, max_path}
use kindle_launchpad.Launchpad.Script.{
  is_separator, max_tokens, but_last, send_tokens, process_kindle_script,
}
use kindle_launchpad.Launchpad.Script.Tokens.{process_kindle_script-words}
use kindle_launchpad.Launchpad.Execute.{
  System, show_bar, hide_bar, sent, announce, as_script, sent_all, run_command, execute_action,
}
use kindle_launchpad.Keys.Names.{KeyTable}

length-as_script : (command : Bytes) → length (as_script command) ≡ length command + 18
length-as_script command = omega (arith, length-append command (codes " 'DEL'"))

words-as_script :
    (command : Bytes)
    → words is_separator (as_script command)
      ≡ codes "send_string" ∷ (words is_separator command ++ codes "'DEL'" ∷ [])
words-as_script command =
    let first : words is_separator (codes "send_string") ≡ codes "send_string" ∷ [] =
      unfold words in refl in
    let last : words is_separator (codes "'DEL'") ≡ codes "'DEL'" ∷ [] = unfold words in refl in
    words-append is_separator (codes "send_string") (command ++ codes " 'DEL'") b' ' refl
    ∙ ap (λ (l : List Bytes). l ++ words is_separator (command ++ codes " 'DEL'")) first
    ∙ ap (λ (l : List Bytes). codes "send_string" ∷ l)
        (words-append is_separator command (codes "'DEL'") b' ' refl
          ∙ ap (λ (l : List Bytes). words is_separator command ++ l) last)

but_last-snoc :
    (ws : List Bytes) (w : Bytes)
    → length ws < max_tokens
    → but_last (take max_tokens (ws ++ w ∷ [])) ≡ ws
but_last-snoc ws w lt =
    let size = length-append ws (w ∷ []) in
    let one_less : length (ws ++ w ∷ []) - 1 ≡ length ws = omega (arith, size) in
    ap but_last (take_all max_tokens (ws ++ w ∷ []) (omega (arith, size)))
    ∙ ap (λ n. take n (ws ++ w ∷ [])) one_less
    ∙ take-length-append ws (w ∷ [])

module _ (sys : System) (k3 : Bool) (kdelay : ℕ) (t : KeyTable) where
  run_keys :
      (command : Bytes)
      → length command < 238
      → length (words is_separator command) < max_tokens
      → run_command sys k3 kdelay t kindle_keys command
        ≡ ok (sent_all (send_tokens k3 kdelay t (words is_separator command)))
  unfolding run_command
  run_keys command lt few =
      let size = length-as_script command in
      let fits : ltb (length (as_script command)) max_path ≡ true =
        lt→ltb (length (as_script command)) max_path (omega (arith, size)) in
      let tokens : but_last (take max_tokens (drop 1 (words is_separator (as_script command))))
          ≡ words is_separator command =
        ap (λ (l : List Bytes). but_last (take max_tokens (drop 1 l))) (words-as_script command)
        ∙ but_last-snoc (words is_separator command) (codes "'DEL'") few in
      ap
        (λ b. (if b then ok (as_script command) else fault) >>= λ tmpbuf.
          process_kindle_script k3 kdelay t tmpbuf >>= λ r. ok (sent_all r))
        fits
      ∙ ap (λ (m : Outcome (ℕ × List Call)). m >>= λ r. ok (sent_all r))
          (process_kindle_script-words k3 kdelay t (as_script command) (omega (arith, size)))
      ∙ ap (λ (l : List Bytes). ok (sent_all (send_tokens k3 kdelay t l))) tokens

  -- When an action of the type # is executed whose command has fewer than 238 bytes and fewer than 64
  -- words, and whose name has fewer than 252 bytes, the words of the command are sent, all of them and
  -- nothing else, between the announcement of the name in the status bar and its hiding.
  pub execute_action-words :
      (pact : Action)
      → pact.type ≡ kindle_keys
      → length pact.dispname < 252
      → length pact.command < 238
      → length (words is_separator pact.command) < max_tokens
      → let (toskip, calls) = send_tokens k3 kdelay t (words is_separator pact.command) in
        execute_action sys k3 kdelay t (action pact)
        ≡ ok (
          toskip,
          show_bar
              ∷ (announce (codes "^[" ++ (pact.dispname ++ codes "]"))
                  ++ (map sent calls ++ hide_bar ∷ [])),
        )
  unfolding execute_action
  execute_action-words pact keys named lt few =
      let size = length-append pact.dispname (codes "]") in
      let fits : ltb (length (codes "^[" ++ (pact.dispname ++ codes "]"))) max_path ≡ true =
        lt→ltb _ max_path (omega (arith, size)) in
      rw (keys, fits, run_keys pact.command lt few) refl

  run_keys_fits :
      (command : Bytes)
      → length command < 238
      → (r : ℕ × List Call) × (run_command sys k3 kdelay t kindle_keys command ≡ ok (sent_all r))
  unfolding run_command
  run_keys_fits command lt =
      let size = length-as_script command in
      let ws = words is_separator (as_script command) in
      (
        send_tokens k3 kdelay t (but_last (take max_tokens (drop 1 ws))),
        ap
              (λ b. (if b then ok (as_script command) else fault) >>= λ tmpbuf.
                process_kindle_script k3 kdelay t tmpbuf >>= λ r. ok (sent_all r))
              (lt→ltb (length (as_script command)) max_path (omega (arith, size)))
            ∙ ap (λ (m : Outcome (ℕ × List Call)). m >>= λ r. ok (sent_all r))
                (process_kindle_script-words k3 kdelay t (as_script command) (omega (arith, size))),
      )

  run_keys_overflow :
      (command : Bytes)
      → 238 ≤ length command
      → run_command sys k3 kdelay t kindle_keys command ≡ fault
  unfolding run_command
  run_keys_overflow command le =
      let size = length-as_script command in
      let long : ltb (length (as_script command)) max_path ≡ false = ground (arith, size) in
      ap
        (λ b. (if b then ok (as_script command) else fault) >>= λ tmpbuf.
          process_kindle_script k3 kdelay t tmpbuf >>= λ r. ok (sent_all r))
        long

  -- When an action of the type # is executed whose name has fewer than 252 bytes, the buffer in which
  -- its script is put together overflows if and only if its command has at least 238 bytes, although a
  -- command may have up to 255.
  pub execute_action-fault_iff :
      (pact : Action)
      → pact.type ≡ kindle_keys
      → length pact.dispname < 252
      → (execute_action sys k3 kdelay t (action pact) ≡ fault) ↔ (238 ≤ length pact.command)
  unfolding execute_action
  execute_action-fault_iff pact keys named =
      let size = length-append pact.dispname (codes "]") in
      let fits : ltb (length (codes "^[" ++ (pact.dispname ++ codes "]"))) max_path ≡ true =
        lt→ltb _ max_path (omega (arith, size)) in
      elim (Bool-cases (ltb (length pact.command) 238)) [
        | inl short ↦
            let (r, runs) = run_keys_fits pact.command (ltb→lt _ 238 short) in
            (rw (keys, fits, runs) (λ e. cc e), λ le. ground arith)
        | inr long ↦
            (λ e. ground arith, λ le. rw (keys, fits, run_keys_overflow pact.command le) refl)
      ]
