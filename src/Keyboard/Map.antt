-- ===== src/Keyboard/Map.antt =====
-- The table of kernel/dev/keyboard.c: what each key gives alone, with a shift key and behind the code 0xe0.
use bitch.Base.{ℕ, List, [], ◌∷◌}
use bitch.Keyboard.Keys.{
  key_alt_l, key_alt_r, key_apps, key_backspace, key_caps_lock, key_ctrl_l, key_ctrl_r, key_delete,
  key_down, key_end, key_enter, key_esc, key_f1, key_f10, key_f11, key_f12, key_f2, key_f3, key_f4,
  key_f5, key_f6, key_f7, key_f8, key_f9, key_gui_l, key_gui_r, key_home, key_insert, key_left,
  key_num_lock, key_pad_dot, key_pad_down, key_pad_end, key_pad_enter, key_pad_home, key_pad_ins,
  key_pad_left, key_pad_mid, key_pad_minus, key_pad_pagedown, key_pad_pageup, key_pad_plus,
  key_pad_right, key_pad_slash, key_pad_up, key_pagedown, key_pageup, key_right, key_scroll_lock,
  key_shift_l, key_shift_r, key_tab, key_up,
}

-- Each row of the table in the order of the source; the characters by their codes.
abbrev pub keyboard_map : List (ℕ × ℕ × ℕ)
keyboard_map =
    (0, 0, 0)
    ∷ (key_esc, key_esc, 0)
    ∷ (0x31, 0x21, 0)
    ∷ (0x32, 0x40, 0)
    ∷ (0x33, 0x23, 0)
    ∷ (0x34, 0x24, 0)
    ∷ (0x35, 0x25, 0)
    ∷ (0x36, 0x5e, 0)
    ∷ (0x37, 0x26, 0)
    ∷ (0x38, 0x2a, 0)
    ∷ (0x39, 0x28, 0)
    ∷ (0x30, 0x29, 0)
    ∷ (0x2d, 0x5f, 0)
    ∷ (0x3d, 0x2b, 0)
    ∷ (key_backspace, key_backspace, 0)
    ∷ (key_tab, key_tab, 0)
    ∷ (0x71, 0x51, 0)
    ∷ (0x77, 0x57, 0)
    ∷ (0x65, 0x45, 0)
    ∷ (0x72, 0x52, 0)
    ∷ (0x74, 0x54, 0)
    ∷ (0x79, 0x59, 0)
    ∷ (0x75, 0x55, 0)
    ∷ (0x69, 0x49, 0)
    ∷ (0x6f, 0x4f, 0)
    ∷ (0x70, 0x50, 0)
    ∷ (0x5b, 0x7b, 0)
    ∷ (0x5d, 0x7d, 0)
    ∷ (key_enter, key_enter, key_pad_enter)
    ∷ (key_ctrl_l, key_ctrl_l, key_ctrl_r)
    ∷ (0x61, 0x41, 0)
    ∷ (0x73, 0x53, 0)
    ∷ (0x64, 0x44, 0)
    ∷ (0x66, 0x46, 0)
    ∷ (0x67, 0x47, 0)
    ∷ (0x68, 0x48, 0)
    ∷ (0x6a, 0x4a, 0)
    ∷ (0x6b, 0x4b, 0)
    ∷ (0x6c, 0x4c, 0)
    ∷ (0x3b, 0x3a, 0)
    ∷ (0x27, 0x22, 0)
    ∷ (0x60, 0x7e, 0)
    ∷ (key_shift_l, key_shift_l, 0)
    ∷ (0x5c, 0x7c, 0)
    ∷ (0x7a, 0x5a, 0)
    ∷ (0x78, 0x58, 0)
    ∷ (0x63, 0x43, 0)
    ∷ (0x76, 0x56, 0)
    ∷ (0x62, 0x42, 0)
    ∷ (0x6e, 0x4e, 0)
    ∷ (0x6d, 0x4d, 0)
    ∷ (0x2c, 0x3c, 0)
    ∷ (0x2e, 0x3e, 0)
    ∷ (0x2f, 0x3f, key_pad_slash)
    ∷ (key_shift_r, key_shift_r, 0)
    ∷ (0x2a, 0x2a, 0)
    ∷ (key_alt_l, key_alt_l, key_alt_r)
    ∷ (0x20, 0x20, 0)
    ∷ (key_caps_lock, key_caps_lock, 0)
    ∷ (key_f1, key_f1, 0)
    ∷ (key_f2, key_f2, 0)
    ∷ (key_f3, key_f3, 0)
    ∷ (key_f4, key_f4, 0)
    ∷ (key_f5, key_f5, 0)
    ∷ (key_f6, key_f6, 0)
    ∷ (key_f7, key_f7, 0)
    ∷ (key_f8, key_f8, 0)
    ∷ (key_f9, key_f9, 0)
    ∷ (key_f10, key_f10, 0)
    ∷ (key_num_lock, key_num_lock, 0)
    ∷ (key_scroll_lock, key_scroll_lock, 0)
    ∷ (key_pad_home, 0x37, key_home)
    ∷ (key_pad_up, 0x38, key_up)
    ∷ (key_pad_pageup, 0x39, key_pageup)
    ∷ (key_pad_minus, 0x2d, 0)
    ∷ (key_pad_left, 0x34, key_left)
    ∷ (key_pad_mid, 0x35, 0)
    ∷ (key_pad_right, 0x36, key_right)
    ∷ (key_pad_plus, 0x2b, 0)
    ∷ (key_pad_end, 0x31, key_end)
    ∷ (key_pad_down, 0x32, key_down)
    ∷ (key_pad_pagedown, 0x33, key_pagedown)
    ∷ (key_pad_ins, 0x30, key_insert)
    ∷ (key_pad_dot, 0x2e, key_delete)
    ∷ (0, 0, 0)
    ∷ (0, 0, 0)
    ∷ (0, 0, 0)
    ∷ (key_f11, key_f11, 0)
    ∷ (key_f12, key_f12, 0)
    ∷ (0, 0, 0)
    ∷ (0, 0, 0)
    ∷ (0, 0, key_gui_l)
    ∷ (0, 0, key_gui_r)
    ∷ (0, 0, key_apps)
    ∷ (0, 0, 0)
    ∷ (0, 0, 0)
    ∷ (0, 0, 0)
    ∷ (0, 0, 0)
    ∷ (0, 0, 0)
    ∷ (0, 0, 0)
    ∷ (0, 0, 0)
    ∷ (0, 0, 0)
    ∷ (0, 0, 0)
    ∷ (0, 0, 0)
    ∷ (0, 0, 0)
    ∷ (0, 0, 0)
    ∷ (0, 0, 0)
    ∷ (0, 0, 0)
    ∷ (0, 0, 0)
    ∷ (0, 0, 0)
    ∷ (0, 0, 0)
    ∷ (0, 0, 0)
    ∷ (0, 0, 0)
    ∷ (0, 0, 0)
    ∷ (0, 0, 0)
    ∷ (0, 0, 0)
    ∷ (0, 0, 0)
    ∷ (0, 0, 0)
    ∷ (0, 0, 0)
    ∷ (0, 0, 0)
    ∷ (0, 0, 0)
    ∷ (0, 0, 0)
    ∷ (0, 0, 0)
    ∷ (0, 0, 0)
    ∷ (0, 0, 0)
    ∷ (0, 0, 0)
    ∷ (0, 0, 0)
    ∷ (0, 0, 0)
    ∷ []
