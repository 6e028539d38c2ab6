-- ===== src/Ascii/Case.antt =====
-- src/main.c and src/asciitab.c: what send_ascii_string makes of capital letters.
use kindle_launchpad.Base.{
  ℕ, ◌%◌, ◌≡◌, refl, ap, inl, inr, Bool, true, false, ◌&&◌, List, [], ◌∷◌, map, ltb, ltb→lt, leb,
  ◌==◌, ==_iff, Bool-cases, Bytes, to_lower, checked_under, checked_under_at, arith,
}
use kindle_launchpad.Ascii.Lookup.{char_keypad_code, char_send_mode}
use kindle_launchpad.Ascii.Send.{Call, send_char, send_ascii_string}

same_code : Bool → ℕ → Bool
same_code k3 c = char_keypad_code k3 (to_lower c % 128) == char_keypad_code k3 (c % 128)

same_code_table : (k3 : Bool) → checked_under (same_code k3) 128 ≡ true
unfolding checked_under same_code char_keypad_code
same_code_table true = refl
same_code_table false = refl

char_keypad_code-to_lower :
    (k3 : Bool) (c : ℕ) → char_keypad_code k3 (to_lower c % 128) ≡ char_keypad_code k3 (c % 128)
char_keypad_code-to_lower k3 c = elim (Bool-cases (ltb c 128)) [
  | inl small ↦ (==_iff _ _).0 (
      unfold same_code in
      checked_under_at (same_code k3) 128 c (ltb→lt c 128 small) (same_code_table k3))
  | inr large ↦
      let same : to_lower c ≡ c = ground arith in ap (λ d. char_keypad_code k3 (d % 128)) same
]

send_char-to_lower :
    (k3 : Bool) (kdelay c : ℕ) {l r : List Call}
    → l ≡ r
    → send_char k3 kdelay (to_lower c % 128) l ≡ send_char k3 kdelay (c % 128) r
unfolding char_send_mode char_keypad_code
send_char-to_lower k3 kdelay c e = rw (char_keypad_code-to_lower k3 c, e) refl

backslash-to_lower : (c : ℕ) → (to_lower c % 128 == b'\\') ≡ (c % 128 == b'\\')
backslash-to_lower c = elim (Bool-cases (leb b'A' c && leb c b'Z')) [
  | inl e ↦ ground arith
  | inr e ↦ ground arith
]

-- The same choice, of equal strings.
either {ℓ} :
    {A : Type ℓ} (b c : Bool) {x y z w : A}
    → b ≡ c
    → x ≡ z
    → y ≡ w
    → (elim b [ true ↦ x | false ↦ y ]) ≡ (elim c [ true ↦ z | false ↦ w ])
either true true same e f = e
either false false same e f = f
either true false same e f = cc
either false true same e f = cc

-- A string is sent with the same keys, in the same modes, as the string with small letters for the
-- capital ones: the case of a letter is lost.
pub send_ascii_string-to_lower :
    (k3 : Bool) (kdelay : ℕ) (s : Bytes)
    → send_ascii_string k3 kdelay (map to_lower s) ≡ send_ascii_string k3 kdelay s
unfolding send_ascii_string
send_ascii_string-to_lower k3 kdelay [] = refl
send_ascii_string-to_lower k3 kdelay (p ∷ []) = send_char-to_lower k3 kdelay p refl
send_ascii_string-to_lower k3 kdelay (p ∷ q ∷ ps) =
    either (to_lower p % 128 == b'\\') (p % 128 == b'\\') (backslash-to_lower p)
      (send_char-to_lower k3 kdelay q (send_ascii_string-to_lower k3 kdelay ps))
      (send_char-to_lower k3 kdelay p (send_ascii_string-to_lower k3 kdelay (q ∷ ps)))
