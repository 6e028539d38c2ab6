-- ===== src/Keys/Convert.antt =====
-- src/keydefs.c: convert_key_code, with `atoi` and `sscanf("%x")` of the C library.
-- A number beyond `int` is clamped, as `strtol` does on a 32-bit device; the octal loop of the
-- source wraps, and so does its model.
pub mod RoundTrip
use kindle_launchpad.Base.{
  ℕ, ◌+◌, ◌-◌, ◌*◌, ◌%◌, ◌^◌, Bool, ◌&&◌, ◌||◌, [], ◌∷◌, Option, none, some, ltb, leb, ◌==◌,
  if◌then◌else◌, Bytes, to_lower, ℤ, pos, negsuc,
}
use kindle_launchpad.Keys.Table.{max_code}

abbrev pub is_digit : ℕ → Bool
is_digit c = leb b'0' c && leb c b'9'

-- `isspace` in the C locale
abbrev pub is_space : ℕ → Bool
is_space c = c == b' ' || leb 9 c && leb c 13

abbrev pub int_max : ℕ
int_max = 2147483647

-- The digits that `strtol` reads in base 10.
unfoldable pub read_decimal : ℕ → Bytes → ℕ
read_decimal acc [] = acc
read_decimal acc (c ∷ cs) =
    let rest = read_decimal (acc * 10 + (c - b'0')) cs in if is_digit c then rest else acc

clamp_up : ℕ → ℤ
clamp_up n = if ltb int_max n then pos int_max else pos n

-- -n, clamped
clamp_down : ℕ → ℤ
clamp_down n = if n == 0 then pos 0 else if ltb int_max n then negsuc int_max else negsuc (n - 1)

-- The sign, and the digits behind it.
signed_decimal : Bytes → ℤ
unfolding read_decimal clamp_up clamp_down
signed_decimal [] = pos 0
signed_decimal (c ∷ cs) =
    if c == b'-'
    then clamp_down (read_decimal 0 cs)
    else if c == b'+'
    then clamp_up (read_decimal 0 cs)
    else clamp_up (read_decimal 0 (c ∷ cs))

unfoldable pub atoi : Bytes → ℤ
unfolding signed_decimal
atoi [] = signed_decimal []
atoi (c ∷ cs) = let rest = atoi cs in if is_space c then rest else signed_decimal (c ∷ cs)

-- The value of a hexadecimal digit.
unfoldable pub hex_digit : ℕ → Option ℕ
hex_digit c =
    if is_digit c
    then some (c - b'0')
    else if leb b'a' (to_lower c) && leb (to_lower c) b'f'
    then some (to_lower c - 87)
    else none

unfoldable pub read_hex : ℕ → Bytes → ℕ
unfolding hex_digit
read_hex acc [] = acc
read_hex acc (c ∷ cs) = elim (hex_digit c) [ none ↦ acc | some d ↦ read_hex (acc * 16 + d) cs ]

-- An `unsigned` stored in an `int`; what is too large for it is -1, as `strtoul` returns it.
hex_as_int : ℕ → ℤ
hex_as_int n = if ltb int_max n then negsuc 0 else pos n

-- `sscanf(pbuf, "%x", &rc)` behind the "0x" of `pbuf`: with no digit nothing is stored, as the C standard has
-- it; there are libraries that store 0.
scan_hex : Bytes → ℤ → ℤ
unfolding hex_digit read_hex hex_as_int
scan_hex [] rc = rc
scan_hex (c ∷ cs) rc = elim (hex_digit c) [ none ↦ rc | some d ↦ hex_as_int (read_hex 0 (c ∷ cs)) ]

-- `for (rc = 0; '0' <= *p <= '7'; p++) rc = (rc << 3) + (*p - '0')`, on the 32 bits of `rc`
read_octal : ℕ → Bytes → ℕ
read_octal acc [] = acc
read_octal acc (c ∷ cs) =
    let rest = read_octal ((acc * 8 + (c - b'0')) % 2 ^ 32) cs in
    if leb b'0' c && leb c b'7' then rest else acc

-- 32 bits read as an `int`
abbrev as_int : ℕ → ℤ
as_int n = if ltb int_max n then negsuc (4294967295 - n) else pos n

-- The byte at the start of a string, with the terminator of an empty one.
abbrev first_byte : Bytes → ℕ
first_byte [] = 0
first_byte (c ∷ cs) = c

abbrev behind_zero : Bytes → Bytes → ℤ
behind_zero whole [] = as_int (read_octal 0 whole)
behind_zero whole (c ∷ cs) =
    if to_lower c == b'x' then scan_hex cs (negsuc 0) else as_int (read_octal 0 whole)

-- The `switch` on the first byte.
raw_key_code : Bytes → ℤ
unfolding read_octal scan_hex atoi
raw_key_code [] = atoi []
raw_key_code (c ∷ cs) =
    if c == b'\''
    then pos (first_byte cs)
    else if c == b'0'
    then behind_zero (c ∷ cs) cs
    else atoi (c ∷ cs)

abbrev in_code_range : ℤ → Option ℕ
in_code_range (pos n) = if ltb max_code n then none else some n
in_code_range (negsuc n) = none

-- `none` is the -1 of the source.
unfoldable pub convert_key_code : Bytes → Option ℕ
unfolding raw_key_code
convert_key_code pbuf = in_code_range (raw_key_code pbuf)
