-- ===== src/Launchpad/SendKeys.antt =====
-- src/launchpad.c: process_sendkeys_command, which types the names of keys and the strings of a
-- command. `k3` is the answer of is_this_kindle3 and `kdelay` that of key_delay_msec.
use kindle_launchpad.Base.{
  ℕ, zero, suc, ◌+◌, ◌-◌, Bool, List, [], ◌∷◌, ◌++◌, Option, none, some, leb, ◌==◌, if◌then◌else◌,
  Bytes, length, strcpy, Outcome, ok, fault, no_fuel, ◌>>=◌,
}
pub mod Ending
pub mod Items
use kindle_launchpad.Ascii.Row.{normal}
use kindle_launchpad.Ascii.Send.{Call, press, send_ascii_string}
use kindle_launchpad.Keys.Names.{KeyTable, find_input_key_code}
use kindle_launchpad.Launchpad.Action.{max_path}

abbrev cons_byte : ℕ → Bytes × Bytes → Bytes × Bytes
cons_byte c r = (c ∷ r.0, r.1)

-- A string behind its quotation mark: its bytes, and those behind the mark that ends it. A backslash
-- at the end of the command goes over its terminator; the byte behind that is zero, unless the command
-- fills the buffer, which is `full`.
unfoldable pub quoted : Bool → Bytes → Outcome (Bytes × Bytes)
quoted full [] = ok ([], [])
quoted full (c ∷ []) =
    if c == b'"'
    then ok ([], [])
    else if c == b'\\'
    then if full then fault else ok (c ∷ [], [])
    else ok (c ∷ [], [])
quoted full (c ∷ d ∷ q) =
    let escaped = quoted full q in
    let rest = quoted full (d ∷ q) in
    if c == b'"'
    then ok ([], d ∷ q)
    else if c == b'\\'
    then escaped >>= (λ r. ok (cons_byte c (cons_byte d r)))
    else rest >>= λ r. ok (cons_byte c r)

-- The bytes that are greater than a space, and those behind the byte that ends them.
unfoldable pub bare_word : Bytes → Bytes × Bytes
bare_word [] = ([], [])
bare_word (c ∷ q) = let rest = bare_word q in if leb c b' ' then ([], q) else cons_byte c rest

module _ (k3 : Bool) (kdelay : ℕ) (t : KeyTable) where
  abbrev pub send_word : Bytes → List Call
  send_word ptok = elim (find_input_key_code t ptok) [
    | some code ↦ press code normal ∷ []
    | none ↦ send_ascii_string k3 kdelay ptok
  ]

  -- `for (q = &tmpbuf[0]; q < plimit; ++q)`, on fuel.
  unfoldable pub sendkeys_loop : ℕ → Bool → Bytes → Outcome (List Call)
  unfolding quoted bare_word find_input_key_code send_ascii_string
  sendkeys_loop fuel full [] = ok []
  sendkeys_loop zero full (c ∷ q) = no_fuel
  sendkeys_loop (suc fuel) full (c ∷ q) =
      let skipped = sendkeys_loop fuel full q in
      let string = (do
        (ptok, rest) ← quoted full q
        calls ← sendkeys_loop fuel full rest
        ok (send_ascii_string k3 kdelay ptok ++ calls)) in
      let (ptok, rest) = bare_word (c ∷ q) in
      let word = (sendkeys_loop fuel full rest >>= λ calls. ok (send_word ptok ++ calls)) in
      if leb c b' ' then skipped else if c == b'"' then string else word

  unfoldable pub process_sendkeys_command : Bytes → Outcome (List Call)
  unfolding sendkeys_loop
  process_sendkeys_command p = do
    tmpbuf ← strcpy max_path p
    sendkeys_loop (length tmpbuf) (length tmpbuf == max_path - 1) tmpbuf
