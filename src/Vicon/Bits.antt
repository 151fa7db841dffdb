-- ===== src/Vicon/Bits.antt =====
-- The constants of src/vicon.c: sizes, and the bit positions of `enum vicon_bit_t` that the code uses.
use mn_protozoa.Base.{ℕ}

abbrev pub flag : ℕ
flag = 0x80

abbrev pub size_status : ℕ
size_status = 2

abbrev pub size_command : ℕ
size_command = 6

abbrev pub size_extended : ℕ
size_extended = 10

abbrev pub max_address : ℕ
max_address = 255

abbrev pub preset_menu_open : ℕ
preset_menu_open = 94

abbrev pub bit_command : ℕ
bit_command = 12

abbrev pub bit_ack_alarm : ℕ
bit_ack_alarm = 13

abbrev pub bit_extended : ℕ
bit_extended = 14

abbrev pub bit_auto_iris : ℕ
bit_auto_iris = 17

abbrev pub bit_auto_pan : ℕ
bit_auto_pan = 18

abbrev pub bit_tilt_down : ℕ
bit_tilt_down = 19

abbrev pub bit_tilt_up : ℕ
bit_tilt_up = 20

abbrev pub bit_pan_right : ℕ
bit_pan_right = 21

abbrev pub bit_pan_left : ℕ
bit_pan_left = 22

abbrev pub bit_lens_speed : ℕ
bit_lens_speed = 24

abbrev pub bit_iris_close : ℕ
bit_iris_close = 25

abbrev pub bit_iris_open : ℕ
bit_iris_open = 26

abbrev pub bit_focus_near : ℕ
bit_focus_near = 27

abbrev pub bit_focus_far : ℕ
bit_focus_far = 28

abbrev pub bit_zoom_in : ℕ
bit_zoom_in = 29

abbrev pub bit_zoom_out : ℕ
bit_zoom_out = 30

abbrev pub bit_aux_6 : ℕ
bit_aux_6 = 33

abbrev pub bit_recall : ℕ
bit_recall = 45

abbrev pub bit_store : ℕ
bit_store = 46

abbrev pub bit_ex_store : ℕ
bit_ex_store = 48

abbrev pub bit_ex_status : ℕ
bit_ex_status = 49

abbrev pub bit_ex_request : ℕ
bit_ex_request = 52
