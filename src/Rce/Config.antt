-- ===== src/Rce/Config.antt =====
-- src/rce.c: the settings of remote command entry.
use kindle_launchpad.Base.{
  ℕ, ◌+◌, ◌-◌, ◌*◌, ◌/◌, ◌%◌, ◌&&◌, ◌||◌, Bool, false, List, [], ◌∷◌, ltb, leb, ◌==◌, if◌then◌else◌,
  Bytes, codes, to_lower, same_name, same_bytes, drop, replicate, strncpy,
}
use kindle_launchpad.Keys.Convert.{is_digit, is_space, int_max, read_decimal, read_hex}

-- The two strings are arrays of 64 bytes; addresses and the port are in network order.
pub record Rce : Type 0 where
  pub autoenable : Bool
  pub enable_string : Bytes
  pub disable_string : Bytes
  pub iface_ip : ℕ
  pub mc_group : ℕ
  pub rce_port : ℕ

-- What the system answers: the addresses that `inet_addr` reads, and the interfaces with their
-- addresses (none if they cannot be listed).
pub record Network : Type 0 where
  pub inet_addr : Bytes → ℕ
  pub interfaces : List (Bytes × ℕ)

-- INADDR_ANY
abbrev pub inaddr_any : ℕ
inaddr_any = 0

-- `htons` on a little-endian device
abbrev pub htons : ℕ → ℕ
htons v = v % 256 * 256 + v / 256 % 256

abbrev pub string_size : ℕ
string_size = 64

-- The octal digits at the start of a string.
unfoldable pub read_octal_digits : ℕ → Bytes → ℕ
read_octal_digits acc [] = acc
read_octal_digits acc (c ∷ cs) =
    let rest = read_octal_digits (acc * 8 + (c - b'0')) cs in
    if leb b'0' c && leb c b'7' then rest else acc

-- The number behind "0x" or "0X", which is 0 with no digit.
abbrev pub read_hex_digits : Bytes → ℕ
read_hex_digits [] = 0
read_hex_digits (c ∷ cs) = read_hex 0 (c ∷ cs)

abbrev pub read_based : Bytes → ℕ
read_based (c ∷ d ∷ cs) =
    if c == b'0'
    then if to_lower d == b'x' then read_hex_digits cs else read_octal_digits 0 (d ∷ cs)
    else read_decimal 0 (c ∷ d ∷ cs)
read_based cs = read_decimal 0 cs

-- A positive number, clamped as `strtol` does it.
abbrev pub clamped : ℕ → ℕ
clamped n = if ltb int_max n then int_max else n

-- -n, clamped to -int_max - 1, on 16 bits
abbrev pub negated_16 : ℕ → ℕ
negated_16 n = (65536 - (if ltb int_max n then int_max + 1 else n) % 65536) % 65536

abbrev pub signed_16 : Bytes → ℕ
signed_16 [] = 0
signed_16 (c ∷ cs) =
    if c == b'-'
    then negated_16 (read_based cs)
    else if c == b'+'
    then clamped (read_based cs) % 65536
    else clamped (read_based (c ∷ cs)) % 65536

-- `(unsigned short int) strtol(p, NULL, 0)`
unfoldable pub strtol_16 : Bytes → ℕ
unfolding read_octal_digits read_hex read_decimal
strtol_16 [] = 0
strtol_16 (c ∷ cs) = let rest = strtol_16 cs in if is_space c then rest else signed_16 (c ∷ cs)

abbrev pub is_yes : Bytes → Bool
is_yes p = same_name p (codes "true") || (same_name p (codes "yes") || same_bytes p (codes "1"))

module _ (net : Network) where
  -- The loop over the interfaces.
  unfoldable pub iface_ipaddr_in : List (Bytes × ℕ) → Bytes → ℕ
  unfolding same_name
  iface_ipaddr_in [] p = inaddr_any
  iface_ipaddr_in ((name, ip) ∷ l) p = if same_name p name then ip else iface_ipaddr_in l p

  unfoldable pub get_iface_ipaddr : Bytes → ℕ
  unfolding iface_ipaddr_in
  get_iface_ipaddr p = iface_ipaddr_in net.interfaces p

  unfoldable pub get_ip_addr : Bytes → ℕ
  unfolding get_iface_ipaddr
  get_ip_addr [] = get_iface_ipaddr []
  get_ip_addr (c ∷ cs) = if is_digit c then net.inet_addr (c ∷ cs) else get_iface_ipaddr (c ∷ cs)

  abbrev pub set_rce_defaults : Rce → Rce
  set_rce_defaults r = record r {
    autoenable = false;
    enable_string = 0 ∷ drop 1 r.enable_string;
    disable_string = 0 ∷ drop 1 r.disable_string;
    iface_ip = inaddr_any;
    mc_group = net.inet_addr (codes "239.1.2.3");
    rce_port = htons 10000;
  }

  abbrev pub set_rce_interface : Bytes → Rce → Rce
  set_rce_interface p r = record r { iface_ip = get_ip_addr p }

  abbrev pub set_rce_mcgroup : Bytes → Rce → Rce
  set_rce_mcgroup p r = record r { mc_group = get_ip_addr p }

abbrev pub set_rce_autoenable : Bytes → Rce → Rce
set_rce_autoenable p r = record r { autoenable = is_yes p }

abbrev pub set_rce_enable_string : Bytes → Rce → Rce
set_rce_enable_string p r = record r { enable_string = strncpy r.enable_string p (string_size - 1) }

abbrev pub set_rce_disable_string : Bytes → Rce → Rce
set_rce_disable_string p r = record r {
  disable_string = strncpy r.disable_string p (string_size - 1);
}

abbrev pub set_rce_port : Bytes → Rce → Rce
set_rce_port p r = record r { rce_port = htons (strtol_16 p) }

-- The static variables before the first call.
abbrev pub blank_rce : Rce
blank_rce = record {
  autoenable = false;
  enable_string = replicate string_size 0;
  disable_string = replicate string_size 0;
  iface_ip = 0;
  mc_group = 0;
  rce_port = 0;
}
