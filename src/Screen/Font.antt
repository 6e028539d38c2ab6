-- ===== src/Screen/Font.antt =====
-- src/font.c: get_char_pixmap. The bytes of the font are an argument; those of include/fnt12x22.h are
-- 256 characters of 132 bytes.
use kindle_launchpad.Base.{ℕ, ◌+◌, ◌-◌, ◌*◌, ◌/◌, ◌%◌, ◌||◌, ltb, if◌then◌else◌, Bytes, drop}
use kindle_launchpad.Pixop.Surface.{Pixmap}

abbrev pub fnt_width : ℕ
fnt_width = 12

abbrev pub fnt_height : ℕ
fnt_height = 22

-- `nbytesperchar`, `code_first` and `code_last` of the font that the program starts with
abbrev pub nbytesperchar : ℕ
nbytesperchar = fnt_height * ((fnt_width + 1) * 4 / 8)

abbrev pub code_first : ℕ
code_first = 0

abbrev pub code_last : ℕ
code_last = 255

-- `code &= 0xff`, and the first code for one that the font has not.
abbrev pub in_font : ℕ → ℕ
in_font code = if ltb code code_first || ltb code_last code then code_first else code

-- The surface is the font from the character on.
unfoldable pub get_char_pixmap : Bytes → ℕ → Pixmap
get_char_pixmap font code = record {
  width = fnt_width;
  height = fnt_height;
  surf = drop ((in_font (code % 256) - code_first) * nbytesperchar) font;
}
