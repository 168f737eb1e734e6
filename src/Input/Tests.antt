-- ===== src/Input/Tests.antt =====
-- The letter A and the enter key, typed for a program that waits for two bytes.
use bitch.Base.{ℕ, ◌≡◌, refl, arith, List, [], ◌∷◌, some, false}
use bitch.Console.{Console, console_write}
use bitch.Keyboard.{
  Keyboard, keyboard_handler, key_up, deliver, key_down, typed_key, input_char, has_flag,
  press_flags, key_at, echo, release_flags,
}
use bitch.Keyboard.Typed.{typed_line, typed, next_flags, handle_all}
use bitch.Input.{Input, key_get}
use bitch.Input.Line.{IsWaiting, line_byte}
use bitch.Input.Typing.{keyboard_handler-us_line}
use bitch.Keyboard.Layout.{AllUs}

abbrev two_bytes : Input
two_bytes = record { key_c = 0x1000; key_len = 2; key_lock = 0x2000; memory = λ _. 1 }

abbrev screen : Console
screen = record {
  cells = λ _. record { char = 0; color = 7 };
  attribute = 7;
  columns = 80;
  lines = 25;
  xpos = 0;
  ypos = 0;
  cursor_h = 0;
  cursor_l = 0;
}

abbrev listening : Keyboard Input
listening = record {
  key_callback = some key_get;
  key_flags = 0;
  input_mode = 2;
  console = screen;
  caller = two_bytes;
}

-- The left shift key down, the A down and up, shift up, and the enter key down and up.
abbrev codes : List ℕ
codes = 0x2a ∷ 0x1e ∷ 0x9e ∷ 0xaa ∷ 0x1c ∷ 0x9c ∷ []

abbrev zeros : ℕ → ℕ
zeros _ = 0

codes_give : typed_line zeros 0 codes ≡ 0x41 ∷ 0x0a ∷ []
unfolding typed_line typed typed_key input_char has_flag next_flags press_flags key_at release_flags
codes_give = refl

opens_lock : (handle_all zeros listening codes).caller.memory 0x2000 ≡ 0
unfolding handle_all keyboard_handler key_up deliver key_down typed_key input_char has_flag
    press_flags key_at echo release_flags key_get
opens_lock = refl

two_bytes-IsWaiting : IsWaiting two_bytes
two_bytes-IsWaiting = record {
  buf = omega arith;
  end = omega arith;
  lock = omega arith;
  apart = refl;
}

codes-AllUs : AllUs codes
codes-AllUs =
    ((
      omega arith,
      refl,
      (
        omega arith,
        refl,
        (omega arith, refl, (omega arith, refl, (omega arith, refl, (omega arith, refl, tt)))),
      ),
    ))

keyboard_handler-us_line_example :
    ((handle_all zeros listening codes).console ≡ console_write screen (0x41 ∷ 0x0a ∷ []))
    × ((q : ℕ)
        → (handle_all zeros listening codes).caller.memory q
          ≡ line_byte two_bytes (0x41 ∷ 0x0a ∷ []) q)
keyboard_handler-us_line_example =
    keyboard_handler-us_line zeros listening false false codes (refl, refl) refl two_bytes-IsWaiting
      codes-AllUs
