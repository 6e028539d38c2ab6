-- ===== src/Ascii/Row.antt =====
-- include/launchpad.h: the rows of the ASCII tables, and the codes of linux/input.h that they use.
use kindle_launchpad.Base.{ℕ, ℤ, Option}

-- `struct kindle_syms`
pub record KindleSyms : Type 0 where
  pub hsteps : ℤ
  pub vsteps : ℤ

-- `struct ascii_char`
pub record AsciiChar : Type 0 where
  pub code : ℕ
  pub sendmode : ℕ
  pub kindle_fwork_sequence : Option ℕ

-- SENDMODE_NORMAL and SENDMODE_SHIFT
abbrev pub normal : ℕ
normal = 0

abbrev pub shift : ℕ
shift = 1

-- KEY_ESC and the others of linux/input.h
abbrev pub key_esc : ℕ
key_esc = 1

abbrev pub key_minus : ℕ
key_minus = 12

abbrev pub key_equal : ℕ
key_equal = 13

abbrev pub key_backspace : ℕ
key_backspace = 14

abbrev pub key_tab : ℕ
key_tab = 15

abbrev pub key_leftbrace : ℕ
key_leftbrace = 26

abbrev pub key_rightbrace : ℕ
key_rightbrace = 27

abbrev pub key_semicolon : ℕ
key_semicolon = 39

abbrev pub key_apostrophe : ℕ
key_apostrophe = 40

abbrev pub key_grave : ℕ
key_grave = 41

abbrev pub key_backslash : ℕ
key_backslash = 43

abbrev pub key_comma : ℕ
key_comma = 51
