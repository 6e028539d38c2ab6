-- ===== src/Ascii/Lookup.antt =====
-- src/asciitab.c: the lookups. `k3` is the answer of is_this_kindle3.
use kindle_launchpad.Base.{ℕ, ◌%◌, Bool, Option, none, some, if◌then◌else◌, get_elem?, get_or}
use kindle_launchpad.Ascii.Row.{KindleSyms, AsciiChar, normal}
use kindle_launchpad.Ascii.Kdxg.{kdxg_s, kdxg_asciitab}
use kindle_launchpad.Ascii.Kindle3.{k3_s, k3_asciitab}

-- No row; the index `asciichar & 0x7f` is always in the table.
abbrev pub no_row : AsciiChar
no_row = record { code = 0; sendmode = normal; kindle_fwork_sequence = none }

abbrev pub row_of : Bool → ℕ → AsciiChar
row_of k3 asciichar =
    if k3
    then get_or k3_asciitab (asciichar % 128) no_row
    else get_or kdxg_asciitab (asciichar % 128) no_row

abbrev pub popup_entry : Bool → Option ℕ → Option KindleSyms
popup_entry k3 none = none
popup_entry k3 (some i) = get_elem? (if k3 then k3_s else kdxg_s) i

unfoldable pub char_kindle_fw_sequence : Bool → ℕ → Option KindleSyms
unfolding k3_s kdxg_s k3_asciitab kdxg_asciitab
char_kindle_fw_sequence k3 asciichar = popup_entry k3 ((row_of k3 asciichar).kindle_fwork_sequence)

unfoldable pub char_keypad_code : Bool → ℕ → ℕ
unfolding k3_asciitab kdxg_asciitab
char_keypad_code k3 asciichar = (row_of k3 asciichar).code

-- The source gives the code here too.
unfoldable pub char_send_mode : Bool → ℕ → ℕ
unfolding k3_asciitab kdxg_asciitab
char_send_mode k3 asciichar = (row_of k3 asciichar).code
