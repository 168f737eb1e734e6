-- ===== src/Console/Put.antt =====
-- `console_putchar` of kernel/dev/console.c: the position stays on the screen, and a printed
-- character lands where the cursor was.
use bitch.Base.{
  ℕ, ◌+◌, ◌-◌, ◌*◌, ◌≤◌, ◌<◌, ◌%◌, ◌^◌, ◌≡◌, refl, ◌⊎◌, inl, inr, true, false, leb, ltb, ◌==◌,
  if◌then◌else◌, arith, update, sub32, add32, dec_lt,
}
use bitch.Console.{
  Cell, Console, blank, screen_scroll, screen_wirte, put_back, put_tab, put_at, wrap_line,
  wrap_screen, console_putchar, set_cursor, console_init, init_cga, screen_clear, cga_attribute,
  cga_columns, cga_lines,
}
use bitch.Console.Scroll.{clear_cells_lem, screen_scroll_lem, screen_scroll-SameFields}

-- The position lies on a screen of the display's size.
pub record IsOnScreen (s : Console) : Type 0 where
  pub columns : s.columns ≡ cga_columns
  pub lines : s.lines ≡ cga_lines
  pub xpos : s.xpos < cga_columns
  pub ypos : s.ypos < cga_lines

-- The position as a cell of the screen.
abbrev pub place : Console → ℕ
place s = s.ypos * cga_columns + s.xpos

-- The position of `s` before the checks of `console_putchar`.
record IsNear (s t : Console) : Type 0 where
  columns : t.columns ≡ cga_columns
  lines : t.lines ≡ cga_lines
  xpos : t.xpos ≤ cga_columns
  ypos : t.ypos ≤ s.ypos + 1
  full : (t.xpos ≡ cga_columns) → t.ypos ≡ s.ypos

put_at-IsNear : (s : Console) (c : ℕ) → IsOnScreen s → IsNear s (put_at s c)
unfolding put_at put_back put_tab screen_wirte
put_at-IsNear s c v = record {
  columns = ground (arith, v.columns);
  lines = ground (arith, v.lines);
  xpos = ground (arith, v.columns, v.xpos);
  ypos = ground (arith, v.ypos);
  full = ground (arith, v.columns, v.xpos, v.ypos);
}

-- The position once the line has been checked.
record IsWrapped (t : Console) : Type 0 where
  columns : t.columns ≡ cga_columns
  lines : t.lines ≡ cga_lines
  xpos : t.xpos < cga_columns
  ypos : t.ypos ≤ cga_lines

wrap_line-IsWrapped : (s t : Console) → IsOnScreen s → IsNear s t → IsWrapped (wrap_line t)
unfolding wrap_line
wrap_line-IsWrapped s t v n = record {
  columns = ground (arith, n.columns);
  lines = ground (arith, n.lines);
  xpos = ground (arith, n.columns, n.xpos);
  ypos = ground (arith, n.columns, n.xpos, n.ypos, n.full, v.ypos);
}

wrap_screen-IsOnScreen : (t : Console) → IsWrapped t → IsOnScreen (wrap_screen t)
unfolding wrap_screen
wrap_screen-IsOnScreen t w =
    let same = screen_scroll-SameFields t 1 in
    record {
      columns = ground (arith, w.columns, same.columns);
      lines = ground (arith, w.lines, same.lines);
      xpos = ground (arith, w.xpos, same.xpos);
      ypos = ground (arith, w.lines, w.ypos);
    }

-- From a position on the screen, `console_putchar` of any character leads to a position on the
-- screen, and the display's cursor is at that position.
pub console_putchar-IsOnScreen :
    (s : Console) (c : ℕ)
    → IsOnScreen s
    → IsOnScreen (console_putchar s c)
      × ((console_putchar s c).cursor_h * 0x100 + (console_putchar s c).cursor_l
          ≡ place (console_putchar s c))
unfolding console_putchar set_cursor
console_putchar-IsOnScreen s c v =
    let t : Console = wrap_screen (wrap_line (put_at s c)) in
    let w =
      wrap_screen-IsOnScreen (wrap_line (put_at s c))
        (wrap_line-IsWrapped s (put_at s c) v (put_at-IsNear s c v)) in
    (
      record { columns = w.columns; lines = w.lines; xpos = w.xpos; ypos = w.ypos },
      omega (arith, w.xpos, w.ypos),
    )

-- The screen of `s` with `c` printed at its position.
abbrev pub printed : Console → ℕ → ℕ → Cell
printed s c q =
    if q == place s then record { char = c % 0x100; color = s.attribute % 0x100 } else s.cells q

-- What printing `c` leads to: the next cell, or the start of the last line of a screen that has moved
-- up by a line.
abbrev pub PutNext : Console → ℕ → Console → Type 0
PutNext s c t = (place t ≡ place s + 1) × ((q : ℕ) → t.cells q ≡ printed s c q)

abbrev PutScrolled : Console → ℕ → Console → Type 0
PutScrolled s c t =
    (place s + 1 ≡ cga_columns * cga_lines)
    × (place t + cga_columns ≡ cga_columns * cga_lines)
    × ((q : ℕ)
        → q < cga_columns * cga_lines
        → t.cells q ≡ (
            if ltb q (cga_columns * (cga_lines - 1))
            then printed s c (q + cga_columns)
            else blank s))

module _ (s : Console) (c : ℕ) (v : IsOnScreen s) (low : 0x20 ≤ c) (high : c < 0x80) where
  put_prints :
      ((put_at s c).xpos ≡ s.xpos + 1)
      × ((put_at s c).ypos ≡ s.ypos)
      × ((put_at s c).columns ≡ cga_columns)
      × ((put_at s c).lines ≡ cga_lines)
      × ((put_at s c).attribute ≡ s.attribute)
      × ((q : ℕ) → (put_at s c).cells q ≡ printed s c q)
  unfolding put_at screen_wirte update
  put_prints = (
    ground (arith, v.xpos),
    ground arith,
    ground (arith, v.columns),
    ground (arith, v.lines),
    ground arith,
    λ q.
        let at : (s.xpos + s.ypos * cga_columns) % 2 ^ 31 ≡ place s =
          omega (arith, v.xpos, v.ypos) in
        rw at (ground arith),
  )

  -- The position that the checks lead to.
  abbrev put : Console
  put = put_at s c

  stay : s.xpos + 1 < cga_columns → wrap_screen (wrap_line put) ≡ put
  unfolding wrap_line wrap_screen
  stay inside =
      let (x, y, columns, lines, _, _) = put_prints in
      let line : leb put.columns put.xpos ≡ false = ground (arith, x, columns) in
      let screen : leb put.lines put.ypos ≡ false = ground (arith, y, lines, v.ypos) in
      rw (line, screen) refl

  abbrev next_line : Console
  next_line = record put { xpos = 0; ypos = add32 put.ypos 1 }

  at_end : cga_columns ≤ s.xpos + 1 → wrap_line put ≡ next_line
  unfolding wrap_line
  at_end over =
      let (x, y, columns, lines, _, _) = put_prints in
      let full : leb put.columns put.xpos ≡ true = ground (arith, x, columns, over) in rw full refl

  more_lines : s.ypos + 1 < cga_lines → wrap_screen next_line ≡ next_line
  unfolding wrap_screen
  more_lines inside =
      let (_, y, _, lines, _, _) = put_prints in
      let screen : leb next_line.lines next_line.ypos ≡ false = ground (arith, y, lines, inside) in
      rw screen refl

  no_line :
      cga_lines ≤ s.ypos + 1
      → wrap_screen next_line ≡ record (screen_scroll next_line 1) { ypos = cga_lines - 1 }
  unfolding wrap_screen
  no_line over =
      let (_, y, _, lines, _, _) = put_prints in
      let screen : leb next_line.lines next_line.ypos ≡ true =
        ground (arith, y, lines, over, v.ypos) in
      let last : sub32 put.lines 1 ≡ cga_lines - 1 = omega (arith, lines) in rw (screen, last) refl

  scrolled_cell :
      (q : ℕ)
      → q < cga_columns * cga_lines
      → (screen_scroll next_line 1).cells q
        ≡ (if ltb q (cga_columns * (cga_lines - 1)) then printed s c (q + cga_columns) else blank s)
  scrolled_cell q h =
      let (_, _, _, _, attribute, prints) = put_prints in
      ground (
        arith,
        attribute,
        prints (q + cga_columns),
        screen_scroll_lem next_line 1 q (omega arith) (omega arith),
      )

  -- From a position on the screen, `console_putchar` prints a character from 0x20 up to 0x7f at the
  -- position and moves to the next cell; at the last cell of the screen it prints, moves every line up
  -- by one, clears the last line and moves to its start.
  pub console_putchar_lem :
      PutNext s c (console_putchar s c) ⊎ PutScrolled s c (console_putchar s c)
  unfolding console_putchar set_cursor
  console_putchar_lem = elim (dec_lt (s.xpos + 1) cga_columns) [
    | yes inside ↦
        let (x, y, _, _, _, prints) = put_prints in
        rw (stay inside) (inl (omega (arith, x, y), prints))
    | no over ↦
        let (x, y, _, _, _, prints) = put_prints in
        rw (at_end (omega (arith, over))) (elim (dec_lt (s.ypos + 1) cga_lines) [
          | yes inside ↦
              rw (more_lines inside) (inl (omega (arith, x, y, over, inside, v.xpos), prints))
          | no below ↦
              let same = screen_scroll-SameFields next_line 1 in
              rw (no_line (omega (arith, below))) (
                inr (
                  omega (arith, over, below, v.xpos, v.ypos),
                  omega (arith, same.xpos),
                  scrolled_cell,
                ))
        ])
  ]

-- `console_init` leaves a blank screen with the position and the display's cursor at its first cell.
console_init_lem :
    (s : Console)
    → let t = console_init s in
      IsOnScreen t
      × (place t ≡ 0)
      × (t.cursor_h * 0x100 + t.cursor_l ≡ 0)
      × ((q : ℕ)
          → q < cga_columns * cga_lines
          → t.cells q ≡ record { char = 0; color = cga_attribute })
unfolding console_init init_cga screen_clear set_cursor
console_init_lem s =
    let black : Console = record s { attribute = cga_attribute } in
    (
      record { columns = refl; lines = refl; xpos = omega arith; ypos = omega arith },
      refl,
      refl,
      λ q h. ground (arith, clear_cells_lem (cga_columns * cga_lines) black 0 q),
    )
