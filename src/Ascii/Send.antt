-- ===== src/Ascii/Send.antt =====
-- src/main.c: send_key and the functions that send characters with it, as the calls that they make.
-- `k3` is the answer of is_this_kindle3 and `kdelay` that of key_delay_msec.
use kindle_launchpad.Base.{
  ℕ, zero, suc, ◌+◌, ◌%◌, ℤ, pos, negsuc, Bool, true, false, ◌||◌, List, [], ◌∷◌, ◌++◌, Option,
  none, some, leb, ◌==◌, if◌then◌else◌, Bytes, codes, same_name, get_or, take,
}
use kindle_launchpad.Keys.Codes.{
  k3key_fw_down, k3key_fw_left, k3key_fw_press, k3key_fw_right, k3key_fw_up, k3key_sym,
  kpkey_fw_down, kpkey_fw_left, kpkey_fw_press, kpkey_fw_right, kpkey_fw_up, kpkey_sym,
}
use kindle_launchpad.Keys.Names.{KeyTable, input_key_name}
use kindle_launchpad.Ascii.Row.{KindleSyms, normal}
use kindle_launchpad.Ascii.Lookup.{char_kindle_fw_sequence, char_keypad_code, char_send_mode}

-- A line that is written to the keypad file or to the five-way file: its word and its number.
pub data Written : Type 0 where
  keypad : Bytes → ℕ → Written
  fiveway : Bytes → ℕ → Written

-- `fd_prockeypad != -1` and `fd_procfiveway != -1`
pub record Ports : Type 0 where
  pub has_keypad : Bool
  pub has_fiveway : Bool

-- `sendmode[mode]`, within the guard; the first one otherwise
abbrev pub mode_name : ℕ → Bytes
mode_name mode =
    if leb mode 2
    then get_or (codes "send" ∷ codes "sendshift" ∷ codes "sendalt" ∷ []) mode []
    else codes "send"

-- `strncasecmp(pname, prefix, n) == 0`, for a prefix of `n` characters
abbrev pub same_start : ℕ → Bytes → Bytes → Bool
same_start n prefix pname = same_name (take n pname) prefix

abbrev pub is_fw_name : Option Bytes → Bool
is_fw_name none = false
is_fw_name (some pname) = same_start 3 (codes "FW_") pname || same_start 6 (codes "k3_FW_") pname

unfoldable pub send_key : KeyTable → Ports → ℕ → ℕ → List Written
unfolding input_key_name same_name
send_key t ports code mode =
    if is_fw_name (input_key_name t (pos code))
    then if ports.has_fiveway then fiveway (codes "send") code ∷ [] else []
    else if ports.has_keypad
    then keypad (mode_name mode) code ∷ []
    else []

-- What the senders do: `send_key(code, mode)` and `msdelay(msecs)`.
pub data Call : Type 0 where
  press : ℕ → ℕ → Call
  msdelay : ℕ → Call

-- The lines that a list of calls writes.
unfoldable pub written : KeyTable → Ports → List Call → List Written
unfolding send_key
written t ports [] = []
written t ports (press code mode ∷ cs) = send_key t ports code mode ++ written t ports cs
written t ports (msdelay n ∷ cs) = written t ports cs

unfoldable pub send_keys : List ℕ → List Call
send_keys [] = []
send_keys (p ∷ ps) = press p normal ∷ send_keys ps

-- One character of a string and its delay.
abbrev pub send_char : Bool → ℕ → ℕ → List Call → List Call
send_char k3 kdelay c rest =
    press (char_keypad_code k3 c) (char_send_mode k3 c) ∷ msdelay kdelay ∷ rest

unfoldable pub send_ascii_string : Bool → ℕ → Bytes → List Call
unfolding char_keypad_code char_send_mode
send_ascii_string k3 kdelay [] = []
send_ascii_string k3 kdelay (p ∷ []) = send_char k3 kdelay (p % 128) []
send_ascii_string k3 kdelay (p ∷ q ∷ ps) = elim (p % 128 == b'\\') [
  | true ↦ send_char k3 kdelay (q % 128) (send_ascii_string k3 kdelay ps)
  | false ↦ send_char k3 kdelay (p % 128) (send_ascii_string k3 kdelay (q ∷ ps))
]

-- The count of steps and the key for a direction: `back` for a negative number.
abbrev pub steps : ℤ → ℕ → ℕ → ℕ × ℕ
steps (negsuc n) back on = (suc n, back)
steps (pos n) back on = (n, on)

-- `for (; n > 0; --n) { send_key(code, SENDMODE_NORMAL) ; msdelay(kdelay) ; }`
unfoldable pub repeat_key : ℕ → ℕ × ℕ → List Call
repeat_key kdelay (zero, code) = []
repeat_key kdelay (suc n, code) = press code normal ∷ msdelay kdelay ∷ repeat_key kdelay (n, code)

abbrev pub popup_calls : Bool → ℕ → KindleSyms → ℕ × List Call
popup_calls k3 kdelay s =
    let horz =
      steps s.hsteps (if k3 then k3key_fw_left else kpkey_fw_left)
        (if k3 then k3key_fw_right else kpkey_fw_right) in
    let vert =
      steps s.vsteps (if k3 then k3key_fw_up else kpkey_fw_up)
        (if k3 then k3key_fw_down else kpkey_fw_down) in
    (
      horz.0 + vert.0 + 1,
      repeat_key kdelay (1, if k3 then k3key_sym else kpkey_sym)
          ++ (repeat_key kdelay horz
              ++ (repeat_key kdelay vert
                  ++ (repeat_key kdelay (1, if k3 then k3key_fw_press else kpkey_fw_press)
                      ++ (if k3 then repeat_key kdelay (1, k3key_sym) else [])))),
    )

abbrev pub key_calls : Bool → ℕ → ℕ → Option KindleSyms → ℕ × List Call
key_calls k3 kdelay c none = (0, press (char_keypad_code k3 c) (char_send_mode k3 c) ∷ [])
key_calls k3 kdelay c (some s) = popup_calls k3 kdelay s

-- The number of events to skip, and the calls.
unfoldable pub send_kindle_input_key : Bool → ℕ → ℕ → ℕ × List Call
unfolding char_kindle_fw_sequence char_keypad_code char_send_mode repeat_key
send_kindle_input_key k3 kdelay c =
    key_calls k3 kdelay (c % 128) (char_kindle_fw_sequence k3 (c % 128))

unfoldable pub send_kindle_ascii_string : Bool → ℕ → Bytes → ℕ × List Call
unfolding send_kindle_input_key
send_kindle_ascii_string k3 kdelay [] = (0, [])
send_kindle_ascii_string k3 kdelay (c ∷ cs) =
    let one = send_kindle_input_key k3 kdelay c in
    let rest = send_kindle_ascii_string k3 kdelay cs in
    (one.0 + rest.0, one.1 ++ msdelay kdelay ∷ rest.1)
