-- ===== src/Rce/Control.antt =====
-- The loop of rce_process in src/rce.c and the two messages that control it.
use mathlib.Core.List.{append_assoc, append-nil}
use kindle_launchpad.Base.{
  ◌+◌, ◌-◌, ◌<◌, ◌≡◌, ◌≢◌, refl, sym, ap, ◌∙◌, inl, inr, Bool, true, false, List, [], ◌∷◌, ◌++◌,
  Option, none, some, lt→ltb, ◌==◌, if◌then◌else◌, if_true, Bool-cases, Bytes, c_string,
  same_bytes_iff, length, get_or, ok, arith,
}
use kindle_launchpad.Rce.Config.{Rce}
use kindle_launchpad.Rce.Process.{
  max_len, in_message, is_string, background, on_message, cons_command, receive_all, rce_process,
}

-- What a message says of the enabling: `none` for every other message.
unfoldable pub control : Rce → Bytes → Option Bool
control r message =
    if is_string message r.enable_string
    then some true
    else if is_string message r.disable_string
    then some false
    else none

abbrev pub or_else {ℓ} : {A : Type ℓ} → Option A → Option A → Option A
or_else none o = o
or_else (some a) o = some a

-- The last such message of a history.
unfoldable pub last_control : Rce → List Bytes → Option Bool
last_control r [] = none
last_control r (m ∷ seen) = or_else (last_control r seen) (control r m)

abbrev pub switch : Option Bool → Bool → Bool
switch none now = now
switch (some b) now = b

abbrev pub enabled_after : Rce → List Bytes → Bool
enabled_after r seen = switch (last_control r seen) r.autoenable

-- A message as it is run in the background.
abbrev pub command_line : Bytes → Bytes
command_line m = c_string (if get_or m (length m - 1) 0 == b'&' then m else m ++ b'&' ∷ [])

abbrev pub run_if : Bool → Option Bool → Bytes → Option Bytes
run_if true none m = some (command_line m)
run_if _ _ m = none

-- What is run of the messages behind those that are `seen`.
unfoldable pub accepted : Rce → List Bytes → List Bytes → List Bytes
accepted r seen [] = []
accepted r seen (m ∷ ms) =
    cons_command (run_if (enabled_after r seen) (control r m) m) (accepted r (seen ++ m ∷ []) ms)

-- Every message fits in the buffer.
abbrev pub AllFit : List Bytes → Type 0
AllFit [] = Unit
AllFit (m ∷ ms) = (length m < max_len) × AllFit ms

-- The two strings differ.
abbrev pub IsDistinct : Rce → Type 0
IsDistinct r = c_string r.enable_string ≢ c_string r.disable_string

background_lem : (m : Bytes) → length m < max_len → background m ≡ ok (command_line m)
unfolding background
background_lem m lt = ground (arith, lt→ltb (length m + 1) (max_len + 1) (omega arith))

apart :
    (r : Rce) (m : Bytes)
    → IsDistinct r
    → is_string m r.enable_string ≡ true
    → is_string m r.disable_string ≡ false
apart r m d e = elim (Bool-cases (is_string m r.disable_string)) [
  | inl both ↦ absurd (d (sym ((same_bytes_iff _ _).0 e) ∙ (same_bytes_iff _ _).0 both))
  | inr other ↦ other
]

on_message_lem :
    (r : Rce) (now : Bool) (m : Bytes)
    → IsDistinct r
    → length m < max_len
    → on_message r now m ≡ ok (switch (control r m) now, run_if now (control r m) m)
unfolding on_message control
on_message_lem r true m d lt = ground (arith, apart r m d, background_lem m lt)
on_message_lem r false m d lt = ground (arith, apart r m d)

switch-or_else :
    (a b : Option Bool) (now : Bool) → switch (or_else a b) now ≡ switch a (switch b now)
switch-or_else none b now = refl
switch-or_else (some a) b now = refl

or_else_assoc : (a b c : Option Bool) → or_else (or_else a b) c ≡ or_else a (or_else b c)
or_else_assoc none b c = refl
or_else_assoc (some a) b c = refl

last_control-append :
    (r : Rce) (a b : List Bytes)
    → last_control r (a ++ b) ≡ or_else (last_control r b) (last_control r a)
unfolding last_control
last_control-append r [] b = elim (last_control r b) as (λ o. o ≡ or_else o none) [
  | none ↦ refl
  | some x ↦ refl
]
last_control-append r (m ∷ a) b =
    ap (λ o. or_else o (control r m)) (last_control-append r a b)
    ∙ or_else_assoc (last_control r b) (last_control r a) (control r m)

enabled_after-snoc :
    (r : Rce) (seen : List Bytes) (m : Bytes)
    → enabled_after r (seen ++ m ∷ []) ≡ switch (control r m) (enabled_after r seen)
unfolding last_control
enabled_after-snoc r seen m =
    ap (λ o. switch o r.autoenable) (last_control-append r seen (m ∷ []))
    ∙ switch-or_else (control r m) (last_control r seen) r.autoenable

in_message_lem : (m : Bytes) → length m < max_len → in_message (length m) ≡ ok tt
in_message_lem m lt = if_true _ _ (lt→ltb (length m) (max_len + 1) (omega arith))

receive_all_lem :
    (r : Rce) (seen ms : List Bytes)
    → IsDistinct r
    → AllFit ms
    → receive_all r (enabled_after r seen) ms
      ≡ ok (enabled_after r (seen ++ ms), accepted r seen ms)
unfolding receive_all accepted
receive_all_lem r seen [] d fit =
    ap (λ (l : List Bytes). ok (enabled_after r l, [])) (sym (append-nil seen))
receive_all_lem r seen (m ∷ ms) d (lt, fit) =
    let now = switch (control r m) (enabled_after r seen) in
    let rest : receive_all r now ms
        ≡ ok (enabled_after r (seen ++ m ∷ ms), accepted r (seen ++ m ∷ []) ms) =
      ap (λ b. receive_all r b ms) (sym (enabled_after-snoc r seen m))
      ∙ receive_all_lem r (seen ++ m ∷ []) ms d fit
      ∙ ap (λ (l : List Bytes). ok (enabled_after r l, accepted r (seen ++ m ∷ []) ms))
          (append_assoc seen (m ∷ []) ms) in
    rw (in_message_lem m lt, on_message_lem r (enabled_after r seen) m d lt, rest) refl

-- If the two strings differ and every message fits in the buffer, all messages are gone through
-- without a fault. Then whether remote commands are enabled is what the last message that is one of
-- the two strings says, or the setting if there was none; and the messages that were run are those
-- that are none of the two strings and came while it was so enabled, in order, each with an & behind
-- it unless it ends in one.
pub rce_process-accepted :
    (r : Rce) (messages : List Bytes)
    → IsDistinct r
    → AllFit messages
    → rce_process r messages ≡ ok (enabled_after r messages, accepted r [] messages)
unfolding rce_process last_control
rce_process-accepted r messages d fit = receive_all_lem r [] messages d fit
