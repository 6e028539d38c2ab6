-- ===== src/Keys/Convert/RoundTrip.antt =====
-- The key codes that convert_key_code of src/keydefs.c reads.
use kindle_launchpad.Base.{
  ℕ, ◌+◌, ◌/◌, ◌%◌, ◌≤◌, ◌≡◌, refl, Bool, true, false, ◌&&◌, [], ◌∷◌, none, some, ltb, ◌==◌,
  if◌then◌else◌, checked_under, checked_under_at, arith, Bytes, ℤ, pos, negsuc,
}
use kindle_launchpad.Keys.Convert.{in_code_range, raw_key_code, convert_key_code}
use kindle_launchpad.Keys.Table.{max_code}

in_code_range-le : (v : ℤ) {c : ℕ} → in_code_range v ≡ some c → c ≤ max_code
in_code_range-le (pos n) h = ground arith
in_code_range-le (negsuc n) h = cc

-- A digit in base 16 or less.
digit : ℕ → ℕ
digit d = if ltb d 10 then b'0' + d else 87 + d

-- `printf("%d")`, `printf("0%03o")`, `printf("0x%02x")` of a code, and a character constant.
pub decimal : ℕ → Bytes
unfolding digit
decimal c =
    if ltb c 10
    then digit c ∷ []
    else if ltb c 100
    then digit (c / 10) ∷ digit (c % 10) ∷ []
    else digit (c / 100) ∷ digit (c / 10 % 10) ∷ digit (c % 10) ∷ []

pub octal : ℕ → Bytes
unfolding digit
octal c = b'0' ∷ digit (c / 64) ∷ digit (c / 8 % 8) ∷ digit (c % 8) ∷ []

pub hexadecimal : ℕ → Bytes
unfolding digit
hexadecimal c = b'0' ∷ b'x' ∷ digit (c / 16) ∷ digit (c % 16) ∷ []

pub constant : ℕ → Bytes
constant c = b'\'' ∷ c ∷ b'\'' ∷ []

reads : Bytes → ℕ → Bool
reads s c = elim (convert_key_code s) [ none ↦ false | some d ↦ d == c ]

reads-eq : (s : Bytes) (c : ℕ) → reads s c ≡ true → convert_key_code s ≡ some c
unfolding reads
reads-eq s c h = ground arith

reads_all : ℕ → Bool
unfolding reads
reads_all c =
    reads (decimal c) c && reads (octal c) c && reads (hexadecimal c) c && reads (constant c) c

reads_all_table : checked_under reads_all 256 ≡ true
unfolding checked_under reads_all decimal octal hexadecimal constant convert_key_code
reads_all_table = refl

convert_key_code-le : (s : Bytes) (d : ℕ) → convert_key_code s ≡ some d → d ≤ max_code
unfolding convert_key_code
convert_key_code-le s d e = in_code_range-le (raw_key_code s) e

-- Every key code is read back from its decimal, octal and hexadecimal spelling and from a
-- character constant, and whatever is read is a key code.
pub convert_key_code_round_trip :
    (c : ℕ)
    → c ≤ max_code
    → (convert_key_code (decimal c) ≡ some c)
      × (convert_key_code (octal c) ≡ some c)
      × (convert_key_code (hexadecimal c) ≡ some c)
      × (convert_key_code (constant c) ≡ some c)
      × ((s : Bytes) (d : ℕ) → convert_key_code s ≡ some d → d ≤ max_code)
unfolding reads_all
convert_key_code_round_trip c h =
    let t = checked_under_at reads_all 256 c (omega arith) reads_all_table in
    (
      reads-eq _ c (ground arith),
      reads-eq _ c (ground arith),
      reads-eq _ c (ground arith),
      reads-eq _ c (ground arith),
      convert_key_code-le,
    )
