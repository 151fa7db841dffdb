-- ===== src/Manchester/Codes.antt =====
-- The constants of src/manchester.c: its flag and sizes, the table of speeds, and the values of
-- its four enumerations.
use mn_protozoa.Base.{ℕ, ◌*◌, ◌^◌, List, [], ◌∷◌}
use mn_protozoa.Ccpacket.Flags.{speed_max}

abbrev pub flag : ℕ
flag = 0x80

abbrev pub pt_command : ℕ
pt_command = 0x02

abbrev pub size_msg : ℕ
size_msg = 3

abbrev pub speed_full : ℕ
speed_full = 7

abbrev pub max_address : ℕ
max_address = 1024

-- `SPEED`
abbrev pub speeds : List ℕ
speeds =
    1 * 2 ^ 8
    ∷ 2 * 2 ^ 8
    ∷ 3 * 2 ^ 8
    ∷ 4 * 2 ^ 8
    ∷ 5 * 2 ^ 8
    ∷ 6 * 2 ^ 8
    ∷ 7 * 2 ^ 8
    ∷ speed_max
    ∷ []

-- `enum pt_command_t`
abbrev pub tilt_down : ℕ
tilt_down = 0

abbrev pub tilt_up : ℕ
tilt_up = 1

abbrev pub pan_left : ℕ
pan_left = 2

abbrev pub pan_right : ℕ
pan_right = 3

-- `enum ex_function_t`
abbrev pub ex_lens : ℕ
ex_lens = 0

abbrev pub ex_aux : ℕ
ex_aux = 1

abbrev pub ex_recall : ℕ
ex_recall = 2

abbrev pub ex_store : ℕ
ex_store = 3

-- `enum xl_lens_t`
abbrev pub xl_tilt_down : ℕ
xl_tilt_down = 0

abbrev pub xl_iris_open : ℕ
xl_iris_open = 1

abbrev pub xl_focus_far : ℕ
xl_focus_far = 2

abbrev pub xl_zoom_in : ℕ
xl_zoom_in = 3

abbrev pub xl_iris_close : ℕ
xl_iris_close = 4

abbrev pub xl_focus_near : ℕ
xl_focus_near = 5

abbrev pub xl_zoom_out : ℕ
xl_zoom_out = 6

abbrev pub xl_pan_left : ℕ
xl_pan_left = 7

-- `enum ex_aux_t`, but for the functions that the code leaves out
abbrev pub ex_aux_full_up : ℕ
ex_aux_full_up = 0

abbrev pub ex_aux_full_right : ℕ
ex_aux_full_right = 1

abbrev pub ex_aux_1 : ℕ
ex_aux_1 = 2

abbrev pub ex_aux_4 : ℕ
ex_aux_4 = 3

abbrev pub ex_aux_6 : ℕ
ex_aux_6 = 7
