-- ===== src/Ascii/Kindle3.antt =====
-- src/asciitab.c: the tables of the Kindle 3.
use kindle_launchpad.Base.{pos, negsuc, List, [], ◌∷◌, none, some}
use kindle_launchpad.Keys.Codes.{
  kpkey_0, kpkey_1, kpkey_2, kpkey_3, kpkey_4, kpkey_5, kpkey_6, kpkey_7, kpkey_8, kpkey_9, kpkey_a,
  kpkey_b, kpkey_c, kpkey_d, kpkey_del, kpkey_dot, kpkey_e, kpkey_enter, kpkey_f, kpkey_g, kpkey_h,
  kpkey_i, kpkey_j, kpkey_k, kpkey_l, kpkey_m, kpkey_n, kpkey_o, kpkey_p, kpkey_q, kpkey_r, kpkey_s,
  kpkey_slash, kpkey_space, kpkey_t, kpkey_u, kpkey_v, kpkey_w, kpkey_x, kpkey_y, kpkey_z,
}
use kindle_launchpad.Ascii.Row.{
  KindleSyms, AsciiChar, normal, shift, key_apostrophe, key_backslash, key_backspace, key_comma,
  key_equal, key_esc, key_grave, key_leftbrace, key_minus, key_rightbrace, key_semicolon, key_tab,
}

-- The way in the symbols popup to each of its characters.
unfoldable pub k3_s : List KindleSyms
k3_s =
    record { hsteps = negsuc 0; vsteps = negsuc 0 }
    ∷ record { hsteps = pos 0; vsteps = negsuc 0 }
    ∷ record { hsteps = pos 1; vsteps = negsuc 0 }
    ∷ record { hsteps = pos 2; vsteps = negsuc 0 }
    ∷ record { hsteps = pos 3; vsteps = negsuc 0 }
    ∷ record { hsteps = pos 4; vsteps = negsuc 0 }
    ∷ record { hsteps = pos 5; vsteps = negsuc 0 }
    ∷ record { hsteps = pos 6; vsteps = negsuc 0 }
    ∷ record { hsteps = pos 7; vsteps = negsuc 0 }
    ∷ record { hsteps = pos 8; vsteps = negsuc 0 }
    ∷ record { hsteps = pos 9; vsteps = negsuc 0 }
    ∷ record { hsteps = pos 10; vsteps = negsuc 0 }
    ∷ record { hsteps = negsuc 0; vsteps = pos 0 }
    ∷ record { hsteps = pos 0; vsteps = pos 0 }
    ∷ record { hsteps = pos 1; vsteps = pos 0 }
    ∷ record { hsteps = pos 2; vsteps = pos 0 }
    ∷ record { hsteps = pos 3; vsteps = pos 0 }
    ∷ record { hsteps = pos 4; vsteps = pos 0 }
    ∷ record { hsteps = pos 5; vsteps = pos 0 }
    ∷ record { hsteps = pos 6; vsteps = pos 0 }
    ∷ record { hsteps = pos 7; vsteps = pos 0 }
    ∷ record { hsteps = pos 8; vsteps = pos 0 }
    ∷ record { hsteps = pos 9; vsteps = pos 0 }
    ∷ record { hsteps = pos 10; vsteps = pos 0 }
    ∷ record { hsteps = negsuc 0; vsteps = pos 1 }
    ∷ record { hsteps = pos 0; vsteps = pos 1 }
    ∷ record { hsteps = pos 1; vsteps = pos 1 }
    ∷ record { hsteps = pos 2; vsteps = pos 1 }
    ∷ record { hsteps = pos 3; vsteps = pos 1 }
    ∷ record { hsteps = pos 4; vsteps = pos 1 }
    ∷ record { hsteps = pos 5; vsteps = pos 1 }
    ∷ record { hsteps = pos 6; vsteps = pos 1 }
    ∷ record { hsteps = pos 7; vsteps = pos 1 }
    ∷ record { hsteps = pos 8; vsteps = pos 1 }
    ∷ record { hsteps = pos 9; vsteps = pos 1 }
    ∷ record { hsteps = pos 10; vsteps = pos 1 }
    ∷ record { hsteps = negsuc 0; vsteps = pos 2 }
    ∷ record { hsteps = pos 0; vsteps = pos 2 }
    ∷ record { hsteps = pos 1; vsteps = pos 2 }
    ∷ record { hsteps = pos 2; vsteps = pos 2 }
    ∷ record { hsteps = pos 3; vsteps = pos 2 }
    ∷ record { hsteps = pos 4; vsteps = pos 2 }
    ∷ record { hsteps = pos 5; vsteps = pos 2 }
    ∷ record { hsteps = pos 6; vsteps = pos 2 }
    ∷ record { hsteps = pos 7; vsteps = pos 2 }
    ∷ record { hsteps = pos 8; vsteps = pos 2 }
    ∷ record { hsteps = pos 9; vsteps = pos 2 }
    ∷ record { hsteps = pos 10; vsteps = pos 2 }
    ∷ []

-- A pointer into `k3_s` is the index into it.
unfoldable pub k3_asciitab : List AsciiChar
k3_asciitab =
    record { code = kpkey_space; sendmode = normal; kindle_fwork_sequence = none }
    ∷ record { code = kpkey_space; sendmode = normal; kindle_fwork_sequence = none }
    ∷ record { code = kpkey_space; sendmode = normal; kindle_fwork_sequence = none }
    ∷ record { code = kpkey_space; sendmode = normal; kindle_fwork_sequence = none }
    ∷ record { code = kpkey_space; sendmode = normal; kindle_fwork_sequence = none }
    ∷ record { code = kpkey_space; sendmode = normal; kindle_fwork_sequence = none }
    ∷ record { code = kpkey_space; sendmode = normal; kindle_fwork_sequence = none }
    ∷ record { code = kpkey_space; sendmode = normal; kindle_fwork_sequence = none }
    ∷ record { code = key_backspace; sendmode = normal; kindle_fwork_sequence = none }
    ∷ record { code = key_tab; sendmode = normal; kindle_fwork_sequence = none }
    ∷ record { code = kpkey_space; sendmode = normal; kindle_fwork_sequence = none }
    ∷ record { code = kpkey_space; sendmode = normal; kindle_fwork_sequence = none }
    ∷ record { code = kpkey_space; sendmode = normal; kindle_fwork_sequence = none }
    ∷ record { code = kpkey_enter; sendmode = normal; kindle_fwork_sequence = none }
    ∷ record { code = kpkey_space; sendmode = normal; kindle_fwork_sequence = none }
    ∷ record { code = kpkey_space; sendmode = normal; kindle_fwork_sequence = none }
    ∷ record { code = kpkey_space; sendmode = normal; kindle_fwork_sequence = none }
    ∷ record { code = kpkey_space; sendmode = normal; kindle_fwork_sequence = none }
    ∷ record { code = kpkey_space; sendmode = normal; kindle_fwork_sequence = none }
    ∷ record { code = kpkey_space; sendmode = normal; kindle_fwork_sequence = none }
    ∷ record { code = kpkey_space; sendmode = normal; kindle_fwork_sequence = none }
    ∷ record { code = kpkey_space; sendmode = normal; kindle_fwork_sequence = none }
    ∷ record { code = kpkey_space; sendmode = normal; kindle_fwork_sequence = none }
    ∷ record { code = kpkey_space; sendmode = normal; kindle_fwork_sequence = none }
    ∷ record { code = kpkey_space; sendmode = normal; kindle_fwork_sequence = none }
    ∷ record { code = kpkey_space; sendmode = normal; kindle_fwork_sequence = none }
    ∷ record { code = kpkey_space; sendmode = normal; kindle_fwork_sequence = none }
    ∷ record { code = key_esc; sendmode = normal; kindle_fwork_sequence = none }
    ∷ record { code = kpkey_space; sendmode = normal; kindle_fwork_sequence = none }
    ∷ record { code = kpkey_space; sendmode = normal; kindle_fwork_sequence = none }
    ∷ record { code = kpkey_space; sendmode = normal; kindle_fwork_sequence = none }
    ∷ record { code = kpkey_space; sendmode = normal; kindle_fwork_sequence = none }
    ∷ record { code = kpkey_space; sendmode = normal; kindle_fwork_sequence = none }
    ∷ record { code = kpkey_1; sendmode = shift; kindle_fwork_sequence = some 24 }
    ∷ record { code = key_apostrophe; sendmode = shift; kindle_fwork_sequence = some 3 }
    ∷ record { code = kpkey_3; sendmode = shift; kindle_fwork_sequence = some 26 }
    ∷ record { code = kpkey_4; sendmode = shift; kindle_fwork_sequence = some 27 }
    ∷ record { code = kpkey_5; sendmode = shift; kindle_fwork_sequence = some 28 }
    ∷ record { code = kpkey_7; sendmode = shift; kindle_fwork_sequence = some 30 }
    ∷ record { code = key_apostrophe; sendmode = normal; kindle_fwork_sequence = some 15 }
    ∷ record { code = kpkey_9; sendmode = shift; kindle_fwork_sequence = some 32 }
    ∷ record { code = kpkey_0; sendmode = shift; kindle_fwork_sequence = some 33 }
    ∷ record { code = kpkey_8; sendmode = shift; kindle_fwork_sequence = some 31 }
    ∷ record { code = key_equal; sendmode = shift; kindle_fwork_sequence = some 35 }
    ∷ record { code = key_comma; sendmode = normal; kindle_fwork_sequence = some 13 }
    ∷ record { code = key_minus; sendmode = normal; kindle_fwork_sequence = some 46 }
    ∷ record { code = kpkey_dot; sendmode = normal; kindle_fwork_sequence = some 14 }
    ∷ record { code = kpkey_slash; sendmode = normal; kindle_fwork_sequence = some 16 }
    ∷ record { code = kpkey_0; sendmode = normal; kindle_fwork_sequence = some 45 }
    ∷ record { code = kpkey_1; sendmode = normal; kindle_fwork_sequence = some 36 }
    ∷ record { code = kpkey_2; sendmode = normal; kindle_fwork_sequence = some 37 }
    ∷ record { code = kpkey_3; sendmode = normal; kindle_fwork_sequence = some 38 }
    ∷ record { code = kpkey_4; sendmode = normal; kindle_fwork_sequence = some 39 }
    ∷ record { code = kpkey_5; sendmode = normal; kindle_fwork_sequence = some 40 }
    ∷ record { code = kpkey_6; sendmode = normal; kindle_fwork_sequence = some 41 }
    ∷ record { code = kpkey_7; sendmode = normal; kindle_fwork_sequence = some 42 }
    ∷ record { code = kpkey_8; sendmode = normal; kindle_fwork_sequence = some 43 }
    ∷ record { code = kpkey_9; sendmode = normal; kindle_fwork_sequence = some 44 }
    ∷ record { code = key_semicolon; sendmode = shift; kindle_fwork_sequence = some 0 }
    ∷ record { code = key_semicolon; sendmode = normal; kindle_fwork_sequence = some 12 }
    ∷ record { code = key_comma; sendmode = shift; kindle_fwork_sequence = some 1 }
    ∷ record { code = key_equal; sendmode = normal; kindle_fwork_sequence = some 47 }
    ∷ record { code = kpkey_dot; sendmode = shift; kindle_fwork_sequence = some 2 }
    ∷ record { code = kpkey_slash; sendmode = shift; kindle_fwork_sequence = some 4 }
    ∷ record { code = kpkey_2; sendmode = shift; kindle_fwork_sequence = some 25 }
    ∷ record { code = kpkey_a; sendmode = shift; kindle_fwork_sequence = none }
    ∷ record { code = kpkey_b; sendmode = shift; kindle_fwork_sequence = none }
    ∷ record { code = kpkey_c; sendmode = shift; kindle_fwork_sequence = none }
    ∷ record { code = kpkey_d; sendmode = shift; kindle_fwork_sequence = none }
    ∷ record { code = kpkey_e; sendmode = shift; kindle_fwork_sequence = none }
    ∷ record { code = kpkey_f; sendmode = shift; kindle_fwork_sequence = none }
    ∷ record { code = kpkey_g; sendmode = shift; kindle_fwork_sequence = none }
    ∷ record { code = kpkey_h; sendmode = shift; kindle_fwork_sequence = none }
    ∷ record { code = kpkey_i; sendmode = shift; kindle_fwork_sequence = none }
    ∷ record { code = kpkey_j; sendmode = shift; kindle_fwork_sequence = none }
    ∷ record { code = kpkey_k; sendmode = shift; kindle_fwork_sequence = none }
    ∷ record { code = kpkey_l; sendmode = shift; kindle_fwork_sequence = none }
    ∷ record { code = kpkey_m; sendmode = shift; kindle_fwork_sequence = none }
    ∷ record { code = kpkey_n; sendmode = shift; kindle_fwork_sequence = none }
    ∷ record { code = kpkey_o; sendmode = shift; kindle_fwork_sequence = none }
    ∷ record { code = kpkey_p; sendmode = shift; kindle_fwork_sequence = none }
    ∷ record { code = kpkey_q; sendmode = shift; kindle_fwork_sequence = none }
    ∷ record { code = kpkey_r; sendmode = shift; kindle_fwork_sequence = none }
    ∷ record { code = kpkey_s; sendmode = shift; kindle_fwork_sequence = none }
    ∷ record { code = kpkey_t; sendmode = shift; kindle_fwork_sequence = none }
    ∷ record { code = kpkey_u; sendmode = shift; kindle_fwork_sequence = none }
    ∷ record { code = kpkey_v; sendmode = shift; kindle_fwork_sequence = none }
    ∷ record { code = kpkey_w; sendmode = shift; kindle_fwork_sequence = none }
    ∷ record { code = kpkey_x; sendmode = shift; kindle_fwork_sequence = none }
    ∷ record { code = kpkey_y; sendmode = shift; kindle_fwork_sequence = none }
    ∷ record { code = kpkey_z; sendmode = shift; kindle_fwork_sequence = none }
    ∷ record { code = key_leftbrace; sendmode = normal; kindle_fwork_sequence = some 17 }
    ∷ record { code = key_backslash; sendmode = normal; kindle_fwork_sequence = some 19 }
    ∷ record { code = key_rightbrace; sendmode = normal; kindle_fwork_sequence = some 18 }
    ∷ record { code = kpkey_6; sendmode = shift; kindle_fwork_sequence = some 29 }
    ∷ record { code = key_minus; sendmode = shift; kindle_fwork_sequence = some 34 }
    ∷ record { code = key_grave; sendmode = normal; kindle_fwork_sequence = some 8 }
    ∷ record { code = kpkey_a; sendmode = normal; kindle_fwork_sequence = none }
    ∷ record { code = kpkey_b; sendmode = normal; kindle_fwork_sequence = none }
    ∷ record { code = kpkey_c; sendmode = normal; kindle_fwork_sequence = none }
    ∷ record { code = kpkey_d; sendmode = normal; kindle_fwork_sequence = none }
    ∷ record { code = kpkey_e; sendmode = normal; kindle_fwork_sequence = none }
    ∷ record { code = kpkey_f; sendmode = normal; kindle_fwork_sequence = none }
    ∷ record { code = kpkey_g; sendmode = normal; kindle_fwork_sequence = none }
    ∷ record { code = kpkey_h; sendmode = normal; kindle_fwork_sequence = none }
    ∷ record { code = kpkey_i; sendmode = normal; kindle_fwork_sequence = none }
    ∷ record { code = kpkey_j; sendmode = normal; kindle_fwork_sequence = none }
    ∷ record { code = kpkey_k; sendmode = normal; kindle_fwork_sequence = none }
    ∷ record { code = kpkey_l; sendmode = normal; kindle_fwork_sequence = none }
    ∷ record { code = kpkey_m; sendmode = normal; kindle_fwork_sequence = none }
    ∷ record { code = kpkey_n; sendmode = normal; kindle_fwork_sequence = none }
    ∷ record { code = kpkey_o; sendmode = normal; kindle_fwork_sequence = none }
    ∷ record { code = kpkey_p; sendmode = normal; kindle_fwork_sequence = none }
    ∷ record { code = kpkey_q; sendmode = normal; kindle_fwork_sequence = none }
    ∷ record { code = kpkey_r; sendmode = normal; kindle_fwork_sequence = none }
    ∷ record { code = kpkey_s; sendmode = normal; kindle_fwork_sequence = none }
    ∷ record { code = kpkey_t; sendmode = normal; kindle_fwork_sequence = none }
    ∷ record { code = kpkey_u; sendmode = normal; kindle_fwork_sequence = none }
    ∷ record { code = kpkey_v; sendmode = normal; kindle_fwork_sequence = none }
    ∷ record { code = kpkey_w; sendmode = normal; kindle_fwork_sequence = none }
    ∷ record { code = kpkey_x; sendmode = normal; kindle_fwork_sequence = none }
    ∷ record { code = kpkey_y; sendmode = normal; kindle_fwork_sequence = none }
    ∷ record { code = kpkey_z; sendmode = normal; kindle_fwork_sequence = none }
    ∷ record { code = key_leftbrace; sendmode = shift; kindle_fwork_sequence = some 5 }
    ∷ record { code = key_backslash; sendmode = shift; kindle_fwork_sequence = some 7 }
    ∷ record { code = key_rightbrace; sendmode = shift; kindle_fwork_sequence = some 6 }
    ∷ record { code = key_grave; sendmode = shift; kindle_fwork_sequence = some 9 }
    ∷ record { code = kpkey_del; sendmode = normal; kindle_fwork_sequence = none }
    ∷ []
