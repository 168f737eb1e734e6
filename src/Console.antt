-- ===== src/Console.antt =====
-- The console, kernel/dev/console.c, on the text screen of driver/cga.c. A cell of the screen is the
-- two bytes at `CGA_MEM_ATTR + 2 * i`, which the code writes one by one or as a 16-bit word.
pub mod Scroll
pub mod Put
pub mod Write
mod Tests
use bitch.Base.{
  ℕ, zero, suc, ◌+◌, ◌-◌, ◌*◌, ◌/◌, ◌%◌, ◌^◌, Bool, true, false, List, [], ◌∷◌, leb, ltb, ◌==◌,
  ◌&&◌, if◌then◌else◌, add32, sub32, mul32, update,
}

pub record Cell : Type 0 where
  pub char : ℕ
  pub color : ℕ

-- The screen's memory, and the `attribute` of driver/cga.c; the position of kernel/dev/console.c with
-- its `columns` and `lines`; and the two cursor registers of the display.
pub record Console : Type 0 where
  pub cells : ℕ → Cell
  pub attribute : ℕ
  pub columns : ℕ
  pub lines : ℕ
  pub xpos : ℕ
  pub ypos : ℕ
  pub cursor_h : ℕ
  pub cursor_l : ℕ

-- CGA_COLUMNS, CGA_LINES, CGA_ATTRIBUTE
abbrev pub cga_columns : ℕ
cga_columns = 80

abbrev pub cga_lines : ℕ
cga_lines = 25

abbrev pub cga_attribute : ℕ
cga_attribute = 7

abbrev pub get_screen_columns : ℕ
get_screen_columns = cga_columns

abbrev pub get_screen_lines : ℕ
get_screen_lines = cga_lines

unfoldable pub screen_wirte : Console → (c x y : ℕ) → Console
unfolding update
screen_wirte s c x y = record s {
  cells =
      update s.cells ((x + y * cga_columns) % 2 ^ 31)
        (record { char = c % 0x100; color = s.attribute % 0x100 });
}

-- `attribute << 8 & 0xff00`
abbrev pub blank : Console → Cell
blank s = record { char = 0; color = s.attribute % 0x100 }

-- The loop that moves the lines up, from `i` on, with `left` rounds to go.
unfoldable pub move_cells : Console → (line i left : ℕ) → Console
unfolding update
move_cells s line i zero = s
move_cells s line i (suc left) =
    move_cells (record s { cells = update s.cells i (s.cells (i + line * 80)) }) line (i + 1) left

-- The loop that clears the cells from `i` on.
unfoldable pub clear_cells : Console → (i left : ℕ) → Console
unfolding update
clear_cells s i zero = s
clear_cells s i (suc left) =
    clear_cells (record s { cells = update s.cells i (blank s) }) (i + 1) left

unfoldable pub screen_scroll : Console → (line : ℕ) → Console
screen_scroll s line =
    let moved : ℕ = mul32 cga_columns (sub32 cga_lines line) in
    clear_cells (move_cells s line 0 moved) moved (cga_columns * cga_lines - moved)

unfoldable pub screen_clear : Console → Console
screen_clear s = clear_cells s 0 (cga_columns * cga_lines)

abbrev pub set_video_color : Console → ℕ → Console
set_video_color s color = record s { attribute = color % 0x100 }

unfoldable pub set_cursor : Console → (x y : ℕ) → Console
set_cursor s x y =
    let location : ℕ = (y * cga_columns + x) % 2 ^ 16 in
    record s { cursor_h = location / 0x100; cursor_l = location % 0x100 }

unfoldable pub init_cga : Console → Console
init_cga s = set_cursor (screen_clear (record s { attribute = cga_attribute })) 0 0

-- TAB_SIZE
abbrev pub tab_size : ℕ
tab_size = 8

-- `\b` and `\t`
unfoldable pub put_back : Console → Console
unfolding screen_wirte
put_back s =
    let back : ℕ = if s.xpos == 0 then s.xpos else s.xpos - 1 in
    screen_wirte (record s { xpos = back }) 0 back s.ypos

unfoldable pub put_tab : Console → Console
put_tab s =
    let tab : ℕ = add32 s.xpos tab_size / tab_size * tab_size in
    record s { xpos = if leb s.columns tab then sub32 s.columns 1 else tab }

-- What a character does before the position is checked. `char` is signed, so that a byte from 0x80 on
-- is less than 0x20.
unfoldable pub put_at : Console → ℕ → Console
unfolding screen_wirte put_back put_tab
put_at s c =
    if c == 0x08
    then put_back s
    else if c == 0x09
    then put_tab s
    else if c == 0x0d
    then record s { xpos = 0 }
    else if c == 0x0a
    then record s { xpos = 0; ypos = add32 s.ypos 1 }
    else if leb 0x20 c && ltb c 0x80
    then record (screen_wirte s c s.xpos s.ypos) { xpos = add32 s.xpos 1 }
    else s

unfoldable pub wrap_line : Console → Console
wrap_line s = if leb s.columns s.xpos then record s { xpos = 0; ypos = add32 s.ypos 1 } else s

unfoldable pub wrap_screen : Console → Console
unfolding screen_scroll
wrap_screen s =
    if leb s.lines s.ypos then record (screen_scroll s 1) { ypos = sub32 s.lines 1 } else s

unfoldable pub console_putchar : Console → ℕ → Console
console_putchar s c =
    let t : Console = wrap_screen (wrap_line (put_at s c)) in set_cursor t t.xpos t.ypos

-- The characters up to the first 0.
unfoldable pub console_write : Console → List ℕ → Console
console_write s [] = s
console_write s (c ∷ cs) = if c == 0 then s else console_write (console_putchar s c) cs

unfoldable pub console_puts : Console → List ℕ → Console
console_puts s cs = console_putchar (console_write s cs) 0x0a

unfoldable pub console_clear : Console → Console
unfolding screen_wirte
console_clear s =
    screen_wirte (set_cursor (record (screen_clear s) { xpos = 0; ypos = 0 }) 0 0) 0 0 0

unfoldable pub console_init : Console → Console
console_init s = record (init_cga s) {
  columns = get_screen_columns;
  lines = get_screen_lines;
  xpos = 0;
  ypos = 0;
}
