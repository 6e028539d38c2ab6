-- ===== src/Rce/Process.antt =====
-- src/rce.c: rce_start and rce_process. The messages that recvfrom() gives are an argument; each has
-- at least one byte and at most MAXLEN - 1. The socket and the thread are not modelled.
use kindle_launchpad.Base.{
  ℕ, ◌+◌, ◌-◌, Bool, true, false, not, ◌||◌, List, [], ◌∷◌, ◌++◌, Option, none, some, ltb, ◌==◌,
  if◌then◌else◌, Bytes, c_string, same_bytes, length, get_or, Outcome, ok, fault, ◌>>=◌,
}
use kindle_launchpad.Rce.Config.{Rce}

-- MAXLEN; the buffer has one byte more.
abbrev pub max_len : ℕ
max_len = 1024

-- `message[n] = …`
abbrev pub in_message : ℕ → Outcome (Unit {0})
in_message n = if ltb n (max_len + 1) then ok tt else fault

-- `autoenable != 0 || enable_string[0] != '\0'`
unfoldable pub rce_start : Rce → Bool
rce_start r = r.autoenable || not (get_or r.enable_string 0 0 == 0)

-- `strcmp(message, string) == 0`
abbrev pub is_string : Bytes → Bytes → Bool
is_string message string = same_bytes (c_string message) (c_string string)

-- The command that is given to system(): an `&` is put behind a message with none.
unfoldable pub background : Bytes → Outcome Bytes
unfolding c_string
background message =
    let n = length message in
    if not (get_or message (n - 1) 0 == b'&')
    then (in_message (n + 1) >>= λ u. ok (c_string (message ++ b'&' ∷ [])))
    else ok (c_string message)

-- `is_enabled` after a message, and the command that it makes run.
unfoldable pub on_message : Rce → Bool → Bytes → Outcome (Bool × Option Bytes)
unfolding background same_bytes c_string
on_message r true message =
    if is_string message r.disable_string
    then ok (false, none)
    else if not (is_string message r.enable_string)
    then (background message >>= λ command. ok (true, some command))
    else ok (true, none)
on_message r false message =
    if is_string message r.enable_string then ok (true, none) else ok (false, none)

abbrev pub cons_command : Option Bytes → List Bytes → List Bytes
cons_command none l = l
cons_command (some c) l = c ∷ l

-- The loop: `is_enabled` behind all messages, and the commands that were run.
unfoldable pub receive_all : Rce → Bool → List Bytes → Outcome (Bool × List Bytes)
unfolding on_message
receive_all r is_enabled [] = ok (is_enabled, [])
receive_all r is_enabled (message ∷ messages) = do
  u ← in_message (length message)
  (now, command) ← on_message r is_enabled message
  (last, commands) ← receive_all r now messages
  ok (last, cons_command command commands)

unfoldable pub rce_process : Rce → List Bytes → Outcome (Bool × List Bytes)
unfolding receive_all
rce_process r messages = receive_all r r.autoenable messages
