-- ===== src/Keys/Table.antt =====
-- src/keydefs.c: the table of key names that is built in, and the aliases of the Kindle 3 codes.
use kindle_launchpad.Base.{ℕ, List, [], ◌∷◌, Bytes, codes}
use kindle_launchpad.Keys.Codes.{
  k3key_aa, k3key_back, k3key_fw_down, k3key_fw_press, k3key_fw_up, k3key_home, k3key_lpgbck,
  k3key_lpgfwd, k3key_pgfwd, k3key_sym, k3key_vminus, k3key_vplus, kpkey_0, kpkey_1, kpkey_2,
  kpkey_3, kpkey_4, kpkey_5, kpkey_6, kpkey_7, kpkey_8, kpkey_9, kpkey_a, kpkey_aa, kpkey_alt,
  kpkey_b, kpkey_back, kpkey_c, kpkey_d, kpkey_del, kpkey_dot, kpkey_e, kpkey_enter, kpkey_f,
  kpkey_fw_down, kpkey_fw_left, kpkey_fw_press, kpkey_fw_right, kpkey_fw_up, kpkey_g, kpkey_h,
  kpkey_home, kpkey_i, kpkey_j, kpkey_k, kpkey_l, kpkey_m, kpkey_menu, kpkey_n, kpkey_o, kpkey_p,
  kpkey_pgbck, kpkey_pgfwd, kpkey_q, kpkey_r, kpkey_s, kpkey_shift, kpkey_slash, kpkey_space,
  kpkey_sym, kpkey_t, kpkey_u, kpkey_v, kpkey_vminus, kpkey_vplus, kpkey_w, kpkey_x, kpkey_y,
  kpkey_z,
}

-- `struct input_key`
pub record InputKey : Type 0 where
  pub input_key_code : ℕ
  pub input_key_name : Bytes

-- `struct input_key_alias`
pub record InputKeyAlias : Type 0 where
  pub input_key_code : ℕ
  pub substitute_code : ℕ

-- MAXKEYS
abbrev pub max_keys : ℕ
max_keys = 96

-- MAXCODE
abbrev pub max_code : ℕ
max_code = 255

unfoldable pub default_input_keys : List InputKey
default_input_keys =
    record { input_key_code = kpkey_1; input_key_name = codes "1" }
    ∷ record { input_key_code = kpkey_2; input_key_name = codes "2" }
    ∷ record { input_key_code = kpkey_3; input_key_name = codes "3" }
    ∷ record { input_key_code = kpkey_4; input_key_name = codes "4" }
    ∷ record { input_key_code = kpkey_5; input_key_name = codes "5" }
    ∷ record { input_key_code = kpkey_6; input_key_name = codes "6" }
    ∷ record { input_key_code = kpkey_7; input_key_name = codes "7" }
    ∷ record { input_key_code = kpkey_8; input_key_name = codes "8" }
    ∷ record { input_key_code = kpkey_9; input_key_name = codes "9" }
    ∷ record { input_key_code = kpkey_0; input_key_name = codes "0" }
    ∷ record { input_key_code = kpkey_q; input_key_name = codes "Q" }
    ∷ record { input_key_code = kpkey_w; input_key_name = codes "W" }
    ∷ record { input_key_code = kpkey_e; input_key_name = codes "E" }
    ∷ record { input_key_code = kpkey_r; input_key_name = codes "R" }
    ∷ record { input_key_code = kpkey_t; input_key_name = codes "T" }
    ∷ record { input_key_code = kpkey_y; input_key_name = codes "Y" }
    ∷ record { input_key_code = kpkey_u; input_key_name = codes "U" }
    ∷ record { input_key_code = kpkey_i; input_key_name = codes "I" }
    ∷ record { input_key_code = kpkey_o; input_key_name = codes "O" }
    ∷ record { input_key_code = kpkey_p; input_key_name = codes "P" }
    ∷ record { input_key_code = kpkey_a; input_key_name = codes "A" }
    ∷ record { input_key_code = kpkey_s; input_key_name = codes "S" }
    ∷ record { input_key_code = kpkey_d; input_key_name = codes "D" }
    ∷ record { input_key_code = kpkey_f; input_key_name = codes "F" }
    ∷ record { input_key_code = kpkey_g; input_key_name = codes "G" }
    ∷ record { input_key_code = kpkey_h; input_key_name = codes "H" }
    ∷ record { input_key_code = kpkey_j; input_key_name = codes "J" }
    ∷ record { input_key_code = kpkey_k; input_key_name = codes "K" }
    ∷ record { input_key_code = kpkey_l; input_key_name = codes "L" }
    ∷ record { input_key_code = kpkey_del; input_key_name = codes "Del" }
    ∷ record { input_key_code = kpkey_z; input_key_name = codes "Z" }
    ∷ record { input_key_code = kpkey_x; input_key_name = codes "X" }
    ∷ record { input_key_code = kpkey_c; input_key_name = codes "C" }
    ∷ record { input_key_code = kpkey_v; input_key_name = codes "V" }
    ∷ record { input_key_code = kpkey_b; input_key_name = codes "B" }
    ∷ record { input_key_code = kpkey_n; input_key_name = codes "N" }
    ∷ record { input_key_code = kpkey_m; input_key_name = codes "M" }
    ∷ record { input_key_code = kpkey_dot; input_key_name = codes "Dot" }
    ∷ record { input_key_code = kpkey_slash; input_key_name = codes "Slash" }
    ∷ record { input_key_code = kpkey_enter; input_key_name = codes "Enter" }
    ∷ record { input_key_code = kpkey_shift; input_key_name = codes "Shift" }
    ∷ record { input_key_code = kpkey_alt; input_key_name = codes "Alt" }
    ∷ record { input_key_code = kpkey_space; input_key_name = codes "Space" }
    ∷ record { input_key_code = kpkey_aa; input_key_name = codes "aA" }
    ∷ record { input_key_code = kpkey_sym; input_key_name = codes "Sym" }
    ∷ record { input_key_code = kpkey_vplus; input_key_name = codes "VPlus" }
    ∷ record { input_key_code = kpkey_vminus; input_key_name = codes "VMinus" }
    ∷ record { input_key_code = kpkey_home; input_key_name = codes "Home" }
    ∷ record { input_key_code = kpkey_pgbck; input_key_name = codes "<" }
    ∷ record { input_key_code = kpkey_pgfwd; input_key_name = codes ">" }
    ∷ record { input_key_code = kpkey_menu; input_key_name = codes "Menu" }
    ∷ record { input_key_code = kpkey_back; input_key_name = codes "Back" }
    ∷ record { input_key_code = kpkey_fw_left; input_key_name = codes "FW_Left" }
    ∷ record { input_key_code = kpkey_fw_right; input_key_name = codes "FW_Right" }
    ∷ record { input_key_code = kpkey_fw_up; input_key_name = codes "FW_Up" }
    ∷ record { input_key_code = kpkey_fw_down; input_key_name = codes "FW_Down" }
    ∷ record { input_key_code = kpkey_fw_press; input_key_name = codes "FW_Press" }
    ∷ record { input_key_code = k3key_aa; input_key_name = codes "k3_aA" }
    ∷ record { input_key_code = k3key_sym; input_key_name = codes "k3_Sym" }
    ∷ record { input_key_code = k3key_home; input_key_name = codes "k3_Home" }
    ∷ record { input_key_code = k3key_back; input_key_name = codes "k3_Back" }
    ∷ record { input_key_code = k3key_pgfwd; input_key_name = codes "k3_>" }
    ∷ record { input_key_code = k3key_lpgbck; input_key_name = codes "lk3_<" }
    ∷ record { input_key_code = k3key_lpgfwd; input_key_name = codes "lk3_>" }
    ∷ record { input_key_code = k3key_vplus; input_key_name = codes "VPlus" }
    ∷ record { input_key_code = k3key_vminus; input_key_name = codes "VMinus" }
    ∷ record { input_key_code = k3key_fw_up; input_key_name = codes "k3_FW_Up" }
    ∷ record { input_key_code = k3key_fw_down; input_key_name = codes "k3_FW_Down" }
    ∷ record { input_key_code = k3key_fw_press; input_key_name = codes "k3_FW_Press" }
    ∷ []

unfoldable pub default_key_alias : List InputKeyAlias
default_key_alias =
    record { input_key_code = k3key_aa; substitute_code = kpkey_aa }
    ∷ record { input_key_code = k3key_sym; substitute_code = kpkey_sym }
    ∷ record { input_key_code = k3key_home; substitute_code = kpkey_home }
    ∷ record { input_key_code = k3key_back; substitute_code = kpkey_back }
    ∷ record { input_key_code = k3key_pgfwd; substitute_code = kpkey_pgfwd }
    ∷ record { input_key_code = k3key_lpgbck; substitute_code = kpkey_pgbck }
    ∷ record { input_key_code = k3key_lpgfwd; substitute_code = kpkey_pgfwd }
    ∷ record { input_key_code = k3key_vplus; substitute_code = kpkey_vplus }
    ∷ record { input_key_code = k3key_vminus; substitute_code = kpkey_vminus }
    ∷ record { input_key_code = k3key_fw_up; substitute_code = kpkey_fw_up }
    ∷ record { input_key_code = k3key_fw_down; substitute_code = kpkey_fw_down }
    ∷ record { input_key_code = k3key_fw_press; substitute_code = kpkey_fw_press }
    ∷ []
