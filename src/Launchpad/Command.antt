-- ===== src/Launchpad/Command.antt =====
-- src/launchpad.c: parse_action_command, which reads the value of a key of the section [Actions].
use kindle_launchpad.Base.{
  ℕ, [], ◌∷◌, ◌++◌, ◌==◌, not, if◌then◌else◌, Bytes, strcpy, Outcome, ok, ◌>>=◌,
}
pub mod Types
use kindle_launchpad.Launchpad.Action.{
  Action, ActionType, sendkeys, shell_command, kindle_keys, kindle_script, max_path,
}

-- The type of an action, and the rest of its command.
abbrev pub command_type : Bytes → ActionType × Bytes
command_type [] = (sendkeys, [])
command_type (c ∷ p) =
    if c == b'!'
    then (shell_command, p)
    else if c == b'#'
    then (kindle_keys, p)
    else if c == b'@'
    then (kindle_script, p)
    else if c == b'\\'
    then (sendkeys, p)
    else (sendkeys, c ∷ p)

-- `*p`, where the end of the string is a zero byte.
abbrev pub head_byte : Bytes → ℕ
head_byte [] = 0
head_byte (c ∷ cs) = c

-- A script with a relative path stands in the directory of scripts.
abbrev pub in_script_dir : Bytes → ActionType → Bytes → Bytes
in_script_dir dir kindle_script p = if not (head_byte p == b'/') then dir ++ (b'/' ∷ p) else p
in_script_dir dir _ p = p

-- The action with its type and command; the length of the command is the result of the source.
unfoldable pub parse_action_command : Bytes → Bytes → Action → Outcome Action
parse_action_command script_dir pbuf pact =
    let (type, p) = command_type pbuf in
    strcpy max_path (in_script_dir script_dir type p) >>= λ command.
    ok (record pact { type = type; command = command })
