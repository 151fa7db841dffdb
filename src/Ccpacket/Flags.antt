-- ===== src/Ccpacket/Flags.antt =====
-- `enum cc_flags` and `SPEED_MAX` of src/ccpacket.h: one bit for each command, a mask for each group.
use mn_protozoa.Base.{ℕ, ◌-◌, ◌^◌, bit_or}

abbrev pub cc_pan_left : ℕ
cc_pan_left = 2 ^ 0

abbrev pub cc_pan_right : ℕ
cc_pan_right = 2 ^ 1

abbrev pub cc_pan_auto : ℕ
cc_pan_auto = 2 ^ 2

abbrev pub cc_pan_manual : ℕ
cc_pan_manual = 2 ^ 3

abbrev pub cc_pan : ℕ
cc_pan = bit_or (bit_or (bit_or cc_pan_left cc_pan_right) cc_pan_auto) cc_pan_manual

abbrev pub cc_tilt_up : ℕ
cc_tilt_up = 2 ^ 4

abbrev pub cc_tilt_down : ℕ
cc_tilt_down = 2 ^ 5

abbrev pub cc_tilt : ℕ
cc_tilt = bit_or cc_tilt_up cc_tilt_down

abbrev pub cc_preset_recall : ℕ
cc_preset_recall = 2 ^ 6

abbrev pub cc_preset_store : ℕ
cc_preset_store = 2 ^ 7

abbrev pub cc_preset_clear : ℕ
cc_preset_clear = 2 ^ 8

abbrev pub cc_preset : ℕ
cc_preset = bit_or (bit_or cc_preset_recall cc_preset_store) cc_preset_clear

abbrev pub cc_menu_open : ℕ
cc_menu_open = 2 ^ 9

abbrev pub cc_menu_enter : ℕ
cc_menu_enter = 2 ^ 10

abbrev pub cc_menu_cancel : ℕ
cc_menu_cancel = 2 ^ 11

abbrev pub cc_menu : ℕ
cc_menu = bit_or (bit_or cc_menu_open cc_menu_enter) cc_menu_cancel

abbrev pub cc_camera_on : ℕ
cc_camera_on = 2 ^ 12

abbrev pub cc_camera_off : ℕ
cc_camera_off = 2 ^ 13

abbrev pub cc_camera : ℕ
cc_camera = bit_or cc_camera_on cc_camera_off

abbrev pub cc_ack_alarm : ℕ
cc_ack_alarm = 2 ^ 14

abbrev pub cc_ack : ℕ
cc_ack = cc_ack_alarm

abbrev pub cc_zoom_in : ℕ
cc_zoom_in = 2 ^ 15

abbrev pub cc_zoom_out : ℕ
cc_zoom_out = 2 ^ 16

abbrev pub cc_zoom : ℕ
cc_zoom = bit_or cc_zoom_in cc_zoom_out

abbrev pub cc_focus_near : ℕ
cc_focus_near = 2 ^ 17

abbrev pub cc_focus_far : ℕ
cc_focus_far = 2 ^ 18

abbrev pub cc_focus_auto : ℕ
cc_focus_auto = 2 ^ 19

abbrev pub cc_focus : ℕ
cc_focus = bit_or (bit_or cc_focus_near cc_focus_far) cc_focus_auto

abbrev pub cc_iris_close : ℕ
cc_iris_close = 2 ^ 20

abbrev pub cc_iris_open : ℕ
cc_iris_open = 2 ^ 21

abbrev pub cc_iris_auto : ℕ
cc_iris_auto = 2 ^ 22

abbrev pub cc_iris : ℕ
cc_iris = bit_or (bit_or cc_iris_close cc_iris_open) cc_iris_auto

abbrev pub cc_lens_speed : ℕ
cc_lens_speed = 2 ^ 23

abbrev pub cc_lens : ℕ
cc_lens = cc_lens_speed

abbrev pub cc_wiper_on : ℕ
cc_wiper_on = 2 ^ 24

abbrev pub cc_wiper_off : ℕ
cc_wiper_off = 2 ^ 25

abbrev pub cc_wiper : ℕ
cc_wiper = bit_or cc_wiper_on cc_wiper_off

abbrev pub speed_max : ℕ
speed_max = 2 ^ 11 - 1

-- `~m` on the 32 bits of the enumeration.
abbrev pub complement : ℕ → ℕ
complement m = 2 ^ 32 - 1 - m
