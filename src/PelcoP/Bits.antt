-- ===== src/PelcoP/Bits.antt =====
-- The constants of src/pelco_p.c: sizes, the bit positions of `enum pelco_p_bit_t`, and the codes of
-- `enum extended_t` and `enum ex_aux_t` that the code uses.
use mn_protozoa.Base.{ℕ, ◌^◌}

abbrev pub stx : ℕ
stx = 0xa0

abbrev pub etx : ℕ
etx = 0xaf

abbrev pub size_msg : ℕ
size_msg = 8

abbrev pub turbo_speed : ℕ
turbo_speed = 2 ^ 6

abbrev pub max_address : ℕ
max_address = 254

abbrev pub preset_menu_open : ℕ
preset_menu_open = 95

-- `PT_DEADZONE` of src/ccreader.h
abbrev pub pt_deadzone : ℕ
pt_deadzone = 1

abbrev pub bit_focus_far : ℕ
bit_focus_far = 16

abbrev pub bit_focus_near : ℕ
bit_focus_near = 17

abbrev pub bit_iris_open : ℕ
bit_iris_open = 18

abbrev pub bit_iris_close : ℕ
bit_iris_close = 19

abbrev pub bit_camera_on_off : ℕ
bit_camera_on_off = 20

abbrev pub bit_auto_pan : ℕ
bit_auto_pan = 21

abbrev pub bit_camera_on : ℕ
bit_camera_on = 22

abbrev pub bit_extended : ℕ
bit_extended = 24

abbrev pub bit_pan_right : ℕ
bit_pan_right = 25

abbrev pub bit_pan_left : ℕ
bit_pan_left = 26

abbrev pub bit_tilt_up : ℕ
bit_tilt_up = 27

abbrev pub bit_tilt_down : ℕ
bit_tilt_down = 28

abbrev pub bit_zoom_in : ℕ
bit_zoom_in = 29

abbrev pub bit_zoom_out : ℕ
bit_zoom_out = 30

abbrev pub ex_store : ℕ
ex_store = 1

abbrev pub ex_clear : ℕ
ex_clear = 2

abbrev pub ex_recall : ℕ
ex_recall = 3

abbrev pub ex_aux_set : ℕ
ex_aux_set = 4

abbrev pub ex_aux_clear : ℕ
ex_aux_clear = 5

abbrev pub ex_aux_wiper : ℕ
ex_aux_wiper = 1
