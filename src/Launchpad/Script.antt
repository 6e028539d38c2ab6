-- ===== src/Launchpad/Script.antt =====
-- src/launchpad.c: process_kindle_script, which sends the tokens of a script. `k3` is the answer of
-- is_this_kindle3 and `kdelay` that of key_delay_msec.
use kindle_launchpad.Base.{
  ℕ, zero, suc, ◌+◌, ◌-◌, Bool, ◌&&◌, ◌||◌, List, [], ◌∷◌, ◌++◌, Option, none, some, leb, ◌==◌,
  if◌then◌else◌, Bytes, length, take, strcpy, strtok_r, Outcome, ok, ◌>>=◌,
}
pub mod Tokens
use kindle_launchpad.Ascii.Row.{normal, shift}
use kindle_launchpad.Ascii.Send.{
  Call, press, msdelay, send_kindle_input_key, send_kindle_ascii_string,
}
use kindle_launchpad.Keys.Names.{KeyTable, find_input_key_code}
use kindle_launchpad.Launchpad.Action.{max_path}
use kindle_launchpad.Launchpad.Command.{head_byte}

abbrev pub is_separator : ℕ → Bool
is_separator c = c == b' ' || (c == b'\t' || c == b'\n')

-- The size of `tokens`.
abbrev pub max_tokens : ℕ
max_tokens = 64

-- `while ((ptok = strtok_r(NULL, …)) != NULL)`, with the tokens that there is still room for
unfoldable pub collect_tokens : ℕ → Bytes → List Bytes
unfolding strtok_r
collect_tokens zero rest = []
collect_tokens (suc n) rest = elim (strtok_r is_separator rest) [
  | none ↦ []
  | some (ptok, saveptr) ↦ ptok ∷ collect_tokens n saveptr
]

-- The tokens behind the first one of the script.
abbrev pub behind_first : Option (Bytes × Bytes) → List Bytes
behind_first none = []
behind_first (some (ptok, saveptr)) = collect_tokens max_tokens saveptr

-- `if (ntokens > 0) --ntokens;`, and the string without its last byte.
abbrev pub but_last {ℓ} : {A : Type ℓ} → List A → List A
but_last xs = take (length xs - 1) xs

-- The calls made, and the number of events to skip.
abbrev pub add_calls : ℕ × List Call → ℕ × List Call → ℕ × List Call
add_calls a b = (a.0 + b.0, a.1 ++ b.1)

-- SENDMODE_SHIFT for a capital letter
abbrev pub key_mode : Bytes → ℕ
key_mode (c ∷ []) = if leb b'A' c && leb c b'Z' then shift else normal
key_mode _ = normal

module _ (k3 : Bool) (kdelay : ℕ) (t : KeyTable) where
  -- A token between apostrophes: the name of a key, or else its first character.
  abbrev pub apostrophe_token : Bytes → ℕ × List Call
  apostrophe_token ptok = elim (find_input_key_code t ptok) [
    | some code ↦ (0, press code (key_mode ptok) ∷ msdelay kdelay ∷ [])
    | none ↦ add_calls (send_kindle_input_key k3 kdelay (head_byte ptok)) (0, msdelay kdelay ∷ [])
  ]

  unfoldable pub send_token : Bytes → ℕ × List Call
  unfolding find_input_key_code send_kindle_input_key send_kindle_ascii_string
  send_token [] = (0, [])
  send_token (c ∷ ptok) =
      if c == 39
      then apostrophe_token (but_last ptok)
      else if c == b'"'
      then send_kindle_ascii_string k3 kdelay (but_last ptok)
      else send_kindle_ascii_string k3 kdelay (c ∷ ptok)

  unfoldable pub send_tokens : List Bytes → ℕ × List Call
  unfolding send_token
  send_tokens [] = (0, [])
  send_tokens (ptok ∷ ptoks) = add_calls (send_token ptok) (send_tokens ptoks)

  unfoldable pub process_kindle_script : Bytes → Outcome (ℕ × List Call)
  unfolding collect_tokens send_tokens strtok_r
  process_kindle_script p = do
    tmpbuf ← strcpy max_path p
    ok (send_tokens (but_last (behind_first (strtok_r is_separator tmpbuf))))
