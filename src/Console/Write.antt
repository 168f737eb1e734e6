-- ===== src/Console/Write.antt =====
-- `console_write` of kernel/dev/console.c.
use bitch.Base.{
  ℕ, ◌+◌, ◌-◌, ◌*◌, ◌≤◌, ◌<◌, ◌≡◌, ◌∙◌, ap, inl, inr, leb, ltb, ◌==◌, ◌&&◌, if◌then◌else◌, arith,
  List, [], ◌∷◌, length, get_or, get_or-cons, ne→==,
}
use bitch.Console.{Console, console_putchar, console_write, cga_columns, cga_lines}
use bitch.Console.Put.{IsOnScreen, place, PutNext, console_putchar_lem, console_putchar-IsOnScreen}

-- Only characters from 0x20 up to 0x7f.
abbrev pub Printable : List ℕ → Type 0
Printable [] = Unit
Printable (c ∷ cs) = (0x20 ≤ c) × (c < 0x80) × Printable cs

-- The screen after `cs` has been written.
pub record Written (s : Console) (cs : List ℕ) (t : Console) : Type 0 where
  pub on_screen : IsOnScreen t
  pub end : place t ≡ place s + length cs
  pub chars :
      (q : ℕ)
      → (t.cells q).char ≡ (
          if leb (place s) q && ltb q (place s + length cs)
          then get_or cs (q - place s) 0
          else (s.cells q).char)

Written-cons :
    (s t u : Console) (c : ℕ) (cs : List ℕ)
    → c < 0x80
    → PutNext s c t
    → Written t cs u
    → Written s (c ∷ cs) u
Written-cons s t u c cs low (at, cells) w = record {
  on_screen = w.on_screen;
  end = omega (arith, at, w.end);
  chars = λ q.
      let here : (t.cells q).char ≡ (if q == place s then c else (s.cells q).char) =
        ap (λ k. k.char) (cells q) ∙ ground (arith, low) in
      let shift : q - place s - 1 ≡ q - (place s + 1) = omega arith in
      let later = rw at at (w.chars q) in
      ground (arith, later, here, shift, get_or-cons c cs (q - place s) 0);
}

-- Written from a position on the screen, characters from 0x20 up to 0x7f that end before the last cell
-- of the screen stand in the cells from that position on, in their order; every other cell keeps its
-- character, and the position is behind them.
pub console_write_lem :
    (cs : List ℕ) (s : Console)
    → IsOnScreen s
    → Printable cs
    → place s + length cs < cga_columns * cga_lines
    → Written s cs (console_write s cs)
unfolding console_write
console_write_lem [] s v all room = record {
  on_screen = v;
  end = omega arith;
  chars = λ q. ground arith;
}
console_write_lem (c ∷ cs) s v (low, high, all) room =
    let on : IsOnScreen (console_putchar s c) = (console_putchar-IsOnScreen s c v).0 in
    rw (ne→== c 0 (λ e. absurd (omega (arith, e, low))))
      (elim (console_putchar_lem s c v low high) [
        | inl next ↦
            Written-cons s (console_putchar s c) (console_write (console_putchar s c) cs) c cs high
              next (console_write_lem cs (console_putchar s c) on all (omega (arith, next.0, room)))
        | inr (full, _, _) ↦ absurd (omega (arith, full, room))
      ])
