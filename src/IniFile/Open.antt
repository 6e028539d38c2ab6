-- ===== src/IniFile/Open.antt =====
-- src/inifile.c: inidb_open; and how its callers copy names and values into arrays of their own.
use kindle_launchpad.Base.{
  ℕ, Option, none, some, ltb, if◌then◌else◌, Bytes, strcpy, Outcome, ok, ◌>>=◌,
}
use kindle_launchpad.IniFile.Parse.{Database, create_db_structure}

-- The file as it is read, or `none` if it cannot be opened; then the failure of a file with no key.
unfoldable pub inidb_open : Option Bytes → Outcome (Option Database)
unfolding create_db_structure
inidb_open none = ok none
inidb_open (some text) = create_db_structure text

-- What an accessor copied into an array of `size` bytes, if its length is not 0.
abbrev pub into_buffer : ℕ → ℕ × Option Bytes → Outcome (Option Bytes)
into_buffer size (len, none) = ok none
into_buffer size (len, some v) = strcpy size v >>= λ t. ok (if ltb 0 len then some t else none)
