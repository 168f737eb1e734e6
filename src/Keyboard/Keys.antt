-- ===== src/Keyboard/Keys.antt =====
-- The names of the keys, include/kernel/dev/keyboard.h: the numbers above KEY_FLAG_EXT are the keys that
-- stand for no character.
use bitch.Base.{ℕ, ◌+◌}

abbrev pub key_flag_ext : ℕ
key_flag_ext = 0x80

abbrev pub key_flag_break : ℕ
key_flag_break = 0x100

abbrev pub key_tab_input : ℕ
key_tab_input = 0x9

abbrev pub key_enter_input : ℕ
key_enter_input = 0xa

abbrev pub key_backspace_input : ℕ
key_backspace_input = 0x8

abbrev pub key_esc : ℕ
key_esc = 0x01 + key_flag_ext

abbrev pub key_tab : ℕ
key_tab = 0x02 + key_flag_ext

abbrev pub key_enter : ℕ
key_enter = 0x03 + key_flag_ext

abbrev pub key_backspace : ℕ
key_backspace = 0x04 + key_flag_ext

abbrev pub key_gui_l : ℕ
key_gui_l = 0x05 + key_flag_ext

abbrev pub key_gui_r : ℕ
key_gui_r = 0x06 + key_flag_ext

abbrev pub key_apps : ℕ
key_apps = 0x07 + key_flag_ext

abbrev pub key_shift_l : ℕ
key_shift_l = 0x08 + key_flag_ext

abbrev pub key_shift_r : ℕ
key_shift_r = 0x09 + key_flag_ext

abbrev pub key_ctrl_l : ℕ
key_ctrl_l = 0x0a + key_flag_ext

abbrev pub key_ctrl_r : ℕ
key_ctrl_r = 0x0b + key_flag_ext

abbrev pub key_alt_l : ℕ
key_alt_l = 0x0c + key_flag_ext

abbrev pub key_alt_r : ℕ
key_alt_r = 0x0d + key_flag_ext

abbrev pub key_caps_lock : ℕ
key_caps_lock = 0x0e + key_flag_ext

abbrev pub key_num_lock : ℕ
key_num_lock = 0x0f + key_flag_ext

abbrev pub key_scroll_lock : ℕ
key_scroll_lock = 0x10 + key_flag_ext

abbrev pub key_f1 : ℕ
key_f1 = 0x11 + key_flag_ext

abbrev pub key_f2 : ℕ
key_f2 = 0x12 + key_flag_ext

abbrev pub key_f3 : ℕ
key_f3 = 0x13 + key_flag_ext

abbrev pub key_f4 : ℕ
key_f4 = 0x14 + key_flag_ext

abbrev pub key_f5 : ℕ
key_f5 = 0x15 + key_flag_ext

abbrev pub key_f6 : ℕ
key_f6 = 0x16 + key_flag_ext

abbrev pub key_f7 : ℕ
key_f7 = 0x17 + key_flag_ext

abbrev pub key_f8 : ℕ
key_f8 = 0x18 + key_flag_ext

abbrev pub key_f9 : ℕ
key_f9 = 0x19 + key_flag_ext

abbrev pub key_f10 : ℕ
key_f10 = 0x1a + key_flag_ext

abbrev pub key_f11 : ℕ
key_f11 = 0x1b + key_flag_ext

abbrev pub key_f12 : ℕ
key_f12 = 0x1c + key_flag_ext

abbrev pub key_insert : ℕ
key_insert = 0x1f + key_flag_ext

abbrev pub key_delete : ℕ
key_delete = 0x20 + key_flag_ext

abbrev pub key_home : ℕ
key_home = 0x21 + key_flag_ext

abbrev pub key_end : ℕ
key_end = 0x22 + key_flag_ext

abbrev pub key_pageup : ℕ
key_pageup = 0x23 + key_flag_ext

abbrev pub key_pagedown : ℕ
key_pagedown = 0x24 + key_flag_ext

abbrev pub key_up : ℕ
key_up = 0x25 + key_flag_ext

abbrev pub key_down : ℕ
key_down = 0x26 + key_flag_ext

abbrev pub key_left : ℕ
key_left = 0x27 + key_flag_ext

abbrev pub key_right : ℕ
key_right = 0x28 + key_flag_ext

abbrev pub key_pad_slash : ℕ
key_pad_slash = 0x2c + key_flag_ext

abbrev pub key_pad_minus : ℕ
key_pad_minus = 0x2e + key_flag_ext

abbrev pub key_pad_plus : ℕ
key_pad_plus = 0x2f + key_flag_ext

abbrev pub key_pad_enter : ℕ
key_pad_enter = 0x30 + key_flag_ext

abbrev pub key_pad_dot : ℕ
key_pad_dot = 0x31 + key_flag_ext

abbrev pub key_pad_0 : ℕ
key_pad_0 = 0x32 + key_flag_ext

abbrev pub key_pad_1 : ℕ
key_pad_1 = 0x33 + key_flag_ext

abbrev pub key_pad_2 : ℕ
key_pad_2 = 0x34 + key_flag_ext

abbrev pub key_pad_3 : ℕ
key_pad_3 = 0x35 + key_flag_ext

abbrev pub key_pad_4 : ℕ
key_pad_4 = 0x36 + key_flag_ext

abbrev pub key_pad_5 : ℕ
key_pad_5 = 0x37 + key_flag_ext

abbrev pub key_pad_6 : ℕ
key_pad_6 = 0x38 + key_flag_ext

abbrev pub key_pad_7 : ℕ
key_pad_7 = 0x39 + key_flag_ext

abbrev pub key_pad_8 : ℕ
key_pad_8 = 0x3a + key_flag_ext

abbrev pub key_pad_9 : ℕ
key_pad_9 = 0x3b + key_flag_ext

abbrev pub key_pad_up : ℕ
key_pad_up = key_pad_8

abbrev pub key_pad_down : ℕ
key_pad_down = key_pad_2

abbrev pub key_pad_left : ℕ
key_pad_left = key_pad_4

abbrev pub key_pad_right : ℕ
key_pad_right = key_pad_6

abbrev pub key_pad_home : ℕ
key_pad_home = key_pad_7

abbrev pub key_pad_end : ℕ
key_pad_end = key_pad_1

abbrev pub key_pad_pageup : ℕ
key_pad_pageup = key_pad_9

abbrev pub key_pad_pagedown : ℕ
key_pad_pagedown = key_pad_3

abbrev pub key_pad_ins : ℕ
key_pad_ins = key_pad_0

abbrev pub key_pad_mid : ℕ
key_pad_mid = key_pad_5
