-- ===== src/Keys/Codes.antt =====
-- include/keydefs.h: the codes of the keypad and of the fiveway of the Kindle DX Graphite, and the
-- codes that differ on the Kindle 3.
use Prim.Native.Nat.{ℕ}

abbrev pub kpkey_1 : ℕ
kpkey_1 = 2

abbrev pub kpkey_2 : ℕ
kpkey_2 = 3

abbrev pub kpkey_3 : ℕ
kpkey_3 = 4

abbrev pub kpkey_4 : ℕ
kpkey_4 = 5

abbrev pub kpkey_5 : ℕ
kpkey_5 = 6

abbrev pub kpkey_6 : ℕ
kpkey_6 = 7

abbrev pub kpkey_7 : ℕ
kpkey_7 = 8

abbrev pub kpkey_8 : ℕ
kpkey_8 = 9

abbrev pub kpkey_9 : ℕ
kpkey_9 = 10

abbrev pub kpkey_0 : ℕ
kpkey_0 = 11

abbrev pub kpkey_q : ℕ
kpkey_q = 16

abbrev pub kpkey_w : ℕ
kpkey_w = 17

abbrev pub kpkey_e : ℕ
kpkey_e = 18

abbrev pub kpkey_r : ℕ
kpkey_r = 19

abbrev pub kpkey_t : ℕ
kpkey_t = 20

abbrev pub kpkey_y : ℕ
kpkey_y = 21

abbrev pub kpkey_u : ℕ
kpkey_u = 22

abbrev pub kpkey_i : ℕ
kpkey_i = 23

abbrev pub kpkey_o : ℕ
kpkey_o = 24

abbrev pub kpkey_p : ℕ
kpkey_p = 25

abbrev pub kpkey_a : ℕ
kpkey_a = 30

abbrev pub kpkey_s : ℕ
kpkey_s = 31

abbrev pub kpkey_d : ℕ
kpkey_d = 32

abbrev pub kpkey_f : ℕ
kpkey_f = 33

abbrev pub kpkey_g : ℕ
kpkey_g = 34

abbrev pub kpkey_h : ℕ
kpkey_h = 35

abbrev pub kpkey_j : ℕ
kpkey_j = 36

abbrev pub kpkey_k : ℕ
kpkey_k = 37

abbrev pub kpkey_l : ℕ
kpkey_l = 38

abbrev pub kpkey_del : ℕ
kpkey_del = 14

abbrev pub kpkey_z : ℕ
kpkey_z = 44

abbrev pub kpkey_x : ℕ
kpkey_x = 45

abbrev pub kpkey_c : ℕ
kpkey_c = 46

abbrev pub kpkey_v : ℕ
kpkey_v = 47

abbrev pub kpkey_b : ℕ
kpkey_b = 48

abbrev pub kpkey_n : ℕ
kpkey_n = 49

abbrev pub kpkey_m : ℕ
kpkey_m = 50

abbrev pub kpkey_dot : ℕ
kpkey_dot = 52

abbrev pub kpkey_slash : ℕ
kpkey_slash = 53

abbrev pub kpkey_enter : ℕ
kpkey_enter = 28

abbrev pub kpkey_shift : ℕ
kpkey_shift = 42

abbrev pub kpkey_alt : ℕ
kpkey_alt = 56

abbrev pub kpkey_space : ℕ
kpkey_space = 57

abbrev pub kpkey_aa : ℕ
kpkey_aa = 90

abbrev pub kpkey_sym : ℕ
kpkey_sym = 94

abbrev pub kpkey_vplus : ℕ
kpkey_vplus = 115

abbrev pub kpkey_vminus : ℕ
kpkey_vminus = 114

abbrev pub kpkey_home : ℕ
kpkey_home = 98

abbrev pub kpkey_pgbck : ℕ
kpkey_pgbck = 109

abbrev pub kpkey_pgfwd : ℕ
kpkey_pgfwd = 124

abbrev pub kpkey_menu : ℕ
kpkey_menu = 139

abbrev pub kpkey_back : ℕ
kpkey_back = 91

abbrev pub kpkey_fw_left : ℕ
kpkey_fw_left = 105

abbrev pub kpkey_fw_right : ℕ
kpkey_fw_right = 106

abbrev pub kpkey_fw_up : ℕ
kpkey_fw_up = 122

abbrev pub kpkey_fw_down : ℕ
kpkey_fw_down = 123

abbrev pub kpkey_fw_press : ℕ
kpkey_fw_press = 92

abbrev pub k3key_aa : ℕ
k3key_aa = 190

abbrev pub k3key_sym : ℕ
k3key_sym = 126

abbrev pub k3key_home : ℕ
k3key_home = 102

abbrev pub k3key_back : ℕ
k3key_back = 158

abbrev pub k3key_pgfwd : ℕ
k3key_pgfwd = 191

abbrev pub k3key_lpgbck : ℕ
k3key_lpgbck = 193

abbrev pub k3key_lpgfwd : ℕ
k3key_lpgfwd = 104

abbrev pub k3key_vplus : ℕ
k3key_vplus = 115

abbrev pub k3key_vminus : ℕ
k3key_vminus = 114

abbrev pub k3key_fw_up : ℕ
k3key_fw_up = 103

abbrev pub k3key_fw_down : ℕ
k3key_fw_down = 108

abbrev pub k3key_fw_press : ℕ
k3key_fw_press = 194

abbrev pub k3key_fw_left : ℕ
k3key_fw_left = kpkey_fw_left

abbrev pub k3key_fw_right : ℕ
k3key_fw_right = kpkey_fw_right
