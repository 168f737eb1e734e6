-- ===== src/Console/Scroll.antt =====
-- `screen_scroll` and `screen_clear` of driver/cga.c.
use bitch.Base.{
  ℕ, zero, suc, ◌+◌, ◌-◌, ◌*◌, ◌≤◌, ◌<◌, ◌≡◌, refl, ◌∙◌, leb, ltb, ◌&&◌, if◌then◌else◌, arith,
  update, sub32, mul32,
}
use bitch.Console.{Console, blank, move_cells, clear_cells, screen_scroll, cga_columns, cga_lines}

-- The state but for its cells.
pub record SameFields (s t : Console) : Type 0 where
  pub attribute : t.attribute ≡ s.attribute
  pub columns : t.columns ≡ s.columns
  pub lines : t.lines ≡ s.lines
  pub xpos : t.xpos ≡ s.xpos
  pub ypos : t.ypos ≡ s.ypos

pub clear_cells_lem :
    (left : ℕ) (s : Console) (i q : ℕ)
    → (clear_cells s i left).cells q ≡ (if leb i q && ltb q (i + left) then blank s else s.cells q)
unfolding clear_cells update
clear_cells_lem zero s i q = ground arith
clear_cells_lem (suc left) s i q =
    ground (arith, clear_cells_lem left (record s { cells = update s.cells i (blank s) }) (i + 1) q)

pub clear_cells-SameFields : (left : ℕ) (s : Console) (i : ℕ) → SameFields s (clear_cells s i left)
unfolding clear_cells
clear_cells-SameFields zero s i = record {
  attribute = refl;
  columns = refl;
  lines = refl;
  xpos = refl;
  ypos = refl;
}
clear_cells-SameFields (suc left) s i =
    let rest =
      clear_cells-SameFields left (record s { cells = update s.cells i (blank s) }) (i + 1) in
    record {
      attribute = rest.attribute;
      columns = rest.columns;
      lines = rest.lines;
      xpos = rest.xpos;
      ypos = rest.ypos;
    }

move_cells_lem :
    (left : ℕ) (s : Console) (line i q : ℕ)
    → 0 < line
    → (move_cells s line i left).cells q
      ≡ (if leb i q && ltb q (i + left) then s.cells (q + line * 80) else s.cells q)
unfolding move_cells update
move_cells_lem zero s line i q pos = ground arith
move_cells_lem (suc left) s line i q pos = ground (
  arith,
  move_cells_lem left (record s { cells = update s.cells i (s.cells (i + line * 80)) }) line (i + 1)
      q pos,
)

move_cells-SameFields :
    (left : ℕ) (s : Console) (line i : ℕ) → SameFields s (move_cells s line i left)
unfolding move_cells
move_cells-SameFields zero s line i = record {
  attribute = refl;
  columns = refl;
  lines = refl;
  xpos = refl;
  ypos = refl;
}
move_cells-SameFields (suc left) s line i =
    let rest =
      move_cells-SameFields left (record s { cells = update s.cells i (s.cells (i + line * 80)) })
        line (i + 1) in
    record {
      attribute = rest.attribute;
      columns = rest.columns;
      lines = rest.lines;
      xpos = rest.xpos;
      ypos = rest.ypos;
    }

-- Scrolling by a positive number of lines, at most the screen's: every cell of the screen then holds
-- what was that many lines below it, the cells at the bottom are blank, and no other cell changes.
pub screen_scroll_lem :
    (s : Console) (line q : ℕ)
    → 0 < line
    → line ≤ cga_lines
    → (screen_scroll s line).cells q ≡ (
        if ltb q (cga_columns * (cga_lines - line))
        then s.cells (q + line * cga_columns)
        else if ltb q (cga_columns * cga_lines)
        then blank s
        else s.cells q)
unfolding screen_scroll
screen_scroll_lem s line q pos most =
    let moved : ℕ = mul32 cga_columns (sub32 cga_lines line) in
    let is : moved ≡ cga_columns * (cga_lines - line) = omega arith in
    let rest = move_cells-SameFields moved s line 0 in
    ground (
      arith,
      is,
      rest.attribute,
      clear_cells_lem (cga_columns * cga_lines - moved) (move_cells s line 0 moved) moved q,
      move_cells_lem moved s line 0 q pos,
    )

pub screen_scroll-SameFields : (s : Console) (line : ℕ) → SameFields s (screen_scroll s line)
unfolding screen_scroll
screen_scroll-SameFields s line =
    let moved : ℕ = mul32 cga_columns (sub32 cga_lines line) in
    let up = move_cells-SameFields moved s line 0 in
    let down =
      clear_cells-SameFields (cga_columns * cga_lines - moved) (move_cells s line 0 moved) moved in
    record {
      attribute = down.attribute ∙ up.attribute;
      columns = down.columns ∙ up.columns;
      lines = down.lines ∙ up.lines;
      xpos = down.xpos ∙ up.xpos;
      ypos = down.ypos ∙ up.ypos;
    }
