-- ===== src/Launchpad/Command/Types.antt =====
-- parse_action_command of src/launchpad.c: the types of actions, and the size of a command.
use kindle_launchpad.Base.{
  ℕ, ◌+◌, ◌≤◌, ◌<◌, ◌≡◌, ◌≢◌, ◌↔◌, refl, sym, ap, ◌∙◌, inl, inr, [], ◌∷◌, ltb, lt→ltb,
  if◌then◌else◌, Bool-cases, Bytes, length, length-append, strcpy, Outcome, ok, fault, ◌>>=◌, arith,
}
use kindle_launchpad.Launchpad.Action.{
  Action, ActionType, sendkeys, shell_command, kindle_keys, kindle_script, max_path,
}
use kindle_launchpad.Launchpad.Command.{
  command_type, head_byte, in_script_dir, parse_action_command,
}

-- How an action is written in a configuration file.
abbrev pub print_command : ActionType → Bytes → Bytes
print_command sendkeys p = b'\\' ∷ p
print_command shell_command p = b'!' ∷ p
print_command kindle_keys p = b'#' ∷ p
print_command kindle_script p = b'@' ∷ p

command_type-print_command :
    (type : ActionType) (p : Bytes) → command_type (print_command type p) ≡ (type, p)
command_type-print_command sendkeys p = refl
command_type-print_command shell_command p = refl
command_type-print_command kindle_keys p = refl
command_type-print_command kindle_script p = refl

-- Every action that is written with the mark of its type is read back with that type and with its
-- command, in front of which the directory of scripts stands if it is the relative path of a script;
-- its keys and its name are left alone. The command must fit in an array of 256 bytes.
pub parse_action_command-print_command :
    (dir p : Bytes) (type : ActionType) (pact : Action)
    → length (in_script_dir dir type p) < max_path
    → parse_action_command dir (print_command type p) pact
      ≡ ok (record pact { type = type; command = in_script_dir dir type p })
unfolding parse_action_command
parse_action_command-print_command dir p type pact lt =
    rw (command_type-print_command type p, lt→ltb (length (in_script_dir dir type p)) max_path lt)
      refl

-- A relative path of a script that is too long behind the directory of scripts.
abbrev pub IsTooLong : Bytes → ActionType × Bytes → Type 0
IsTooLong dir (type, p) =
    (type ≡ kindle_script) × (head_byte p ≢ b'/') × (max_path ≤ length dir + 1 + length p)

in_script_dir-IsTooLong :
    (dir : Bytes) (type : ActionType) (p : Bytes)
    → length p < max_path
    → (max_path ≤ length (in_script_dir dir type p)) ↔ IsTooLong dir (type, p)
in_script_dir-IsTooLong dir kindle_script p lt = ground (arith, length-append dir (b'/' ∷ p))
in_script_dir-IsTooLong dir sendkeys p lt = ground arith
in_script_dir-IsTooLong dir shell_command p lt = ground arith
in_script_dir-IsTooLong dir kindle_keys p lt = ground arith

shorter : (pbuf : Bytes) → length (command_type pbuf).1 ≤ length pbuf
shorter [] = omega arith
shorter (c ∷ p) = ground arith

strcpy_faults :
    (size : ℕ) (src : Bytes) (f : Bytes → Outcome Action)
    → ((t : Bytes) → f t ≢ fault)
    → ((strcpy size src >>= f) ≡ fault) ↔ (size ≤ length src)
strcpy_faults size src f runs = elim (Bool-cases (ltb (length src) size)) [
  | inl fits ↦ (
    λ e. absurd (runs src (sym (ap (λ b. (if b then ok src else fault) >>= f) fits) ∙ e)),
    λ le. ground arith,
  )
  | inr long ↦ (λ e. ground arith, λ le. ap (λ b. (if b then ok src else fault) >>= f) long)
]

-- For a value of fewer than 256 bytes, the command is written behind its array if and only if the value
-- is a script with a relative path that is too long behind the directory of scripts.
pub parse_action_command-IsTooLong :
    (dir pbuf : Bytes) (pact : Action)
    → length pbuf < max_path
    → (parse_action_command dir pbuf pact ≡ fault) ↔ IsTooLong dir (command_type pbuf)
unfolding parse_action_command
parse_action_command-IsTooLong dir pbuf pact lt =
    let (type, p) = command_type pbuf in
    let le = shorter pbuf in
    let copies =
      strcpy_faults max_path (in_script_dir dir type p)
        (λ c. ok (record pact { type = type; command = c })) (λ t e. cc e) in
    let long = in_script_dir-IsTooLong dir type p (omega (arith, le)) in
    (λ e. long.0 (copies.0 e), λ h. copies.1 (long.1 h))
