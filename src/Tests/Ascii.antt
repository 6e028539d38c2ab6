-- ===== src/Tests/Ascii.antt =====
-- Tests of the sending of characters.
use kindle_launchpad.Base.{
  ◌≡◌, refl, ◌∷◌, [], codes, some, pos, ◌%◌, true, false, inl, to_lower, map,
}
use kindle_launchpad.Keys.Names.{get_default_input_keydefs}
use kindle_launchpad.Ascii.Send.{Ports, keypad, written, send_kindle_input_key, send_ascii_string}
use kindle_launchpad.Ascii.Lookup.{char_kindle_fw_sequence}
use kindle_launchpad.Ascii.Case.{send_ascii_string-to_lower}
use kindle_launchpad.Ascii.Popup.{popup_of, types, popup_types}

abbrev ports : Ports
ports = record { has_keypad = true; has_fiveway = true }

-- The capital letter is sent as the small one, and the digit 1, whose code is 2, with Alt.
sends_capital :
    written get_default_input_keydefs ports (send_ascii_string true 100 (codes "A1"))
    ≡ keypad (codes "send") 30 ∷ keypad (codes "sendalt") 2 ∷ []
unfolding written send_ascii_string get_default_input_keydefs
sends_capital = refl

at_sign :
    char_kindle_fw_sequence true (b'@' % 128) ≡ some (record { hsteps = pos 0; vsteps = pos 1 })
unfolding char_kindle_fw_sequence
at_sign = refl

popup_example : types (popup_of true) (send_kindle_input_key true 100 b'@').1 ≡ some b'@'
popup_example = popup_types true 100 b'@' at_sign (inl refl)

case_example :
    send_ascii_string false 0 (map to_lower (codes "Hi\\ You"))
    ≡ send_ascii_string false 0 (codes "Hi\\ You")
case_example = send_ascii_string-to_lower false 0 (codes "Hi\\ You")
