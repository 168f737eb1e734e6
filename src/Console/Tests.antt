-- ===== src/Console/Tests.antt =====
-- The theorems on the console at a blank screen.
use bitch.Base.{refl, [], ◌∷◌, arith}
use bitch.Console.{Console, console_write}
use bitch.Console.Put.{IsOnScreen}
use bitch.Console.Write.{Written, console_write_lem}

-- A screen of letters, with the position at its last cell.
abbrev full : Console
full = record {
  cells = λ q. record { char = 0x41; color = 7 };
  attribute = 7;
  columns = 80;
  lines = 25;
  xpos = 79;
  ypos = 24;
  cursor_h = 0;
  cursor_l = 0;
}

abbrev top : Console
top = record full { xpos = 3; ypos = 0 }

top-IsOnScreen : IsOnScreen top
top-IsOnScreen = record { columns = refl; lines = refl; xpos = omega arith; ypos = omega arith }

console_write_lem_example : Written top (0x68 ∷ 0x69 ∷ []) (console_write top (0x68 ∷ 0x69 ∷ []))
console_write_lem_example =
    console_write_lem (0x68 ∷ 0x69 ∷ []) top top-IsOnScreen
      (omega arith, omega arith, (omega arith, omega arith, tt)) (omega arith)
