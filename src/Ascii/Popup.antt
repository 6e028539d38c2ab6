-- ===== src/Ascii/Popup.antt =====
-- What typing through the symbols popup comes to: the popups that src/asciitab.c draws in its
-- comments, as a machine that the keys drive.

use kindle_launchpad.Base.{
  ℕ, ◌+◌, ◌-◌, ◌%◌, ◌≡◌, ◌≢◌, refl, ap, ◌∙◌, ◌⊎◌, Bool, true, false, List, [], ◌∷◌, ◌++◌, Option,
  none, some, not, ◌||◌, ◌==◌, if◌then◌else◌, Bytes, codes, get_or, get_elem?, checked_under,
  checked_under_at, arith,
}
use kindle_launchpad.Keys.Codes.{
  k3key_fw_down, k3key_fw_left, k3key_fw_press, k3key_fw_right, k3key_fw_up, k3key_sym,
  kpkey_fw_down, kpkey_fw_left, kpkey_fw_press, kpkey_fw_right, kpkey_fw_up, kpkey_sym,
}
use kindle_launchpad.Ascii.Row.{KindleSyms}
use kindle_launchpad.Ascii.Lookup.{char_kindle_fw_sequence}
use kindle_launchpad.Ascii.Send.{Call, press, msdelay, repeat_key, send_kindle_input_key, key_calls}

-- The popup: its rows of characters, and the keys that drive it.
pub record Popup : Type 0 where
  pub layout : List Bytes
  pub sym_key : ℕ
  pub left_key : ℕ
  pub right_key : ℕ
  pub up_key : ℕ
  pub down_key : ℕ
  pub press_key : ℕ

-- A symbol that is not in ASCII is a zero byte.
abbrev pub popup_of : Bool → Popup
popup_of true = record {
  layout =
      (codes ":<>\"?{}|`~" ++ 0 ∷ 0 ∷ [])
      ∷ (codes ";,.'/[]\\" ++ 0 ∷ 0 ∷ 0 ∷ 0 ∷ [])
      ∷ codes "!@#$%^&*()_+"
      ∷ codes "1234567890-="
      ∷ [];
  sym_key = k3key_sym;
  left_key = k3key_fw_left;
  right_key = k3key_fw_right;
  up_key = k3key_fw_up;
  down_key = k3key_fw_down;
  press_key = k3key_fw_press;
}
popup_of false = record {
  layout = codes "\"'@-+*^()<>" ∷ codes "?,!/=#|{}`~" ∷ codes "&:.;_%$[]\\" ∷ [];
  sym_key = kpkey_sym;
  left_key = kpkey_fw_left;
  right_key = kpkey_fw_right;
  up_key = kpkey_fw_up;
  down_key = kpkey_fw_down;
  press_key = kpkey_fw_press;
}

-- Where a key moves the cursor: column and row.
abbrev move : Popup → ℕ → ℕ × ℕ → ℕ × ℕ
move p code (x, y) =
    if code == p.left_key
    then (x - 1, y)
    else if code == p.right_key
    then (x + 1, y)
    else if code == p.up_key
    then (x, y - 1)
    else if code == p.down_key
    then (x, y + 1)
    else (x, y)

-- The character under the cursor.
abbrev under : Popup → ℕ × ℕ → Option ℕ
under p (x, y) = get_elem? (get_or p.layout y []) x

-- The character that an open popup types, from its cursor.
unfoldable pub types_at : Popup → ℕ × ℕ → List Call → Option ℕ
types_at p at [] = none
types_at p at (msdelay n ∷ cs) = types_at p at cs
types_at p at (press code mode ∷ cs) =
    let rest = types_at p (move p code at) cs in if code == p.press_key then under p at else rest

-- The popup opens with the cursor at the comma, in the second column of the second row.
unfoldable pub types : Popup → List Call → Option ℕ
unfolding types_at
types p [] = none
types p (msdelay n ∷ cs) = types p cs
types p (press code mode ∷ cs) = if code == p.sym_key then types_at p (1, 1) cs else none

typed_is : Option ℕ → ℕ → Bool
typed_is none c = false
typed_is (some d) c = d == c

typed_is-eq : (o : Option ℕ) (c : ℕ) → typed_is o c ≡ true → o ≡ some c
unfolding typed_is
typed_is-eq none c h = cc
typed_is-eq (some d) c h = ground arith

types_sequence : Bool → ℕ → ℕ → Option KindleSyms → Bool
types_sequence k3 kdelay c none = true
types_sequence k3 kdelay c (some s) =
    typed_is (types (popup_of k3) (key_calls k3 kdelay c (some s)).1) c

-- The Kindle DX row of DEL is an exception.
types_itself : Bool → ℕ → ℕ → Bool
types_itself k3 kdelay c =
    types_sequence k3 kdelay (if k3 || not (c == 127) then c else 92) (char_kindle_fw_sequence k3 c)

types_table : (k3 : Bool) (kdelay : ℕ) → checked_under (types_itself k3 kdelay) 128 ≡ true
unfolding checked_under types_itself types_sequence typed_is types char_kindle_fw_sequence
    repeat_key
types_table true kdelay = refl
types_table false kdelay = refl

itself :
    (k3 : Bool) (c : ℕ) → (k3 ≡ true) ⊎ (c ≢ 127) → (if k3 || not (c == 127) then c else 92) ≡ c
itself true c h = refl
itself false c h = ground arith

sequence-eq :
    (k3 : Bool) (kdelay c d : ℕ) (o : Option KindleSyms) {s : KindleSyms}
    → o ≡ some s
    → d ≡ c
    → types_sequence k3 kdelay d o ≡ true
    → types (popup_of k3) (key_calls k3 kdelay c o).1 ≡ some c
unfolding types_sequence
sequence-eq k3 kdelay c d none e same h = cc
sequence-eq k3 kdelay c d (some t) e same h = typed_is-eq _ d h ∙ ap some same

-- For every character that a device types through its symbols popup, except DEL on a Kindle DX,
-- the keys that send_kindle_input_key sends open the popup, move its cursor to that character of
-- the popup's drawing and select it.
pub popup_types :
    (k3 : Bool) (kdelay c : ℕ) {s : KindleSyms}
    → char_kindle_fw_sequence k3 (c % 128) ≡ some s
    → (k3 ≡ true) ⊎ (c % 128 ≢ 127)
    → types (popup_of k3) (send_kindle_input_key k3 kdelay c).1 ≡ some (c % 128)
unfolding send_kindle_input_key
popup_types k3 kdelay c {s} e exception =
    sequence-eq k3 kdelay (c % 128) _ _ e (itself k3 (c % 128) exception) (
      unfold types_itself in
      checked_under_at (types_itself k3 kdelay) 128 (c % 128) (omega arith) (types_table k3 kdelay))
