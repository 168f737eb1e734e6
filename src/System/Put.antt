-- ===== src/System/Put.antt =====
-- A program's call that prints.
use bitch.Base.{
  ℕ, zero, suc, ◌+◌, ◌*◌, ◌<◌, ◌≡◌, ◌⊎◌, refl, ◌∙◌, ap, inl, inr, arith, true, false, Option, some,
  List, [], ◌∷◌, ◌==◌, Bool-cases, ==→eq, ne→==, length,
}
use bitch.Umm.{umm_mmap_kmm, umm_ummap_kmm}
use bitch.Console.{Console, console_write, console_putchar, cga_columns, cga_lines}
use bitch.Console.Put.{IsOnScreen, place}
use bitch.Console.Write.{Printable, Written, console_write_lem}
use bitch.Interrupt.{IntrRegs}
use bitch.System.{
  System, umm_of, with_umm, bytes_of, console_of, with_console, current_pde, put_chars, sys_put,
  syscall_handler, sys_put_number, give,
}

-- The bytes at `c` from index `i` on.
abbrev pub chars_at : (bytes : ℕ → ℕ) (c i left : ℕ) → List ℕ
chars_at bytes c i zero = []
chars_at bytes c i (suc left) = bytes (c + i) ∷ chars_at bytes c (i + 1) left

length-chars_at : (bytes : ℕ → ℕ) (c i left : ℕ) → length (chars_at bytes c i left) ≡ left
length-chars_at bytes c i zero = refl
length-chars_at bytes c i (suc left) = ap suc (length-chars_at bytes c (i + 1) left)

put_chars_lem :
    (s : System) (c i left : ℕ)
    → Printable (chars_at (bytes_of s) c i left)
    → put_chars s c i left
      ≡ with_console s (console_write (console_of s) (chars_at (bytes_of s) c i left))
unfolding put_chars console_write
put_chars_lem s c i zero printable = refl
put_chars_lem s c i (suc left) (low, high, rest) =
    let char : ℕ = bytes_of s (c + i) in
    rw (ne→== char 0 (λ e. omega (arith, e, low)))
      (put_chars_lem (with_console s (console_putchar (console_of s) char)) c (i + 1) left rest)

-- A call that prints nothing, as `umm_mmap_kmm` gives NULL.
abbrev pub PutRefused :
    (s : System) (regs : IntrRegs) (r : Option (Option IntrRegs × System)) → Type 0
PutRefused s regs r =
    let m = umm_mmap_kmm (umm_of s) regs.ebx regs.ecx (current_pde s) in
    (m.0 ≡ 0) × (r ≡ some (some (record regs { eax = 0 }), with_umm s m.1))

-- A call that prints: the characters are on the screen, `umm_ummap_kmm` has been called, and nothing else but the
-- result has changed.
abbrev pub PutDone : (s : System) (regs : IntrRegs) (r : Option (Option IntrRegs × System)) → Type 0
PutDone s regs r =
    let m = umm_mmap_kmm (umm_of s) regs.ebx regs.ecx (current_pde s) in
    (screen : Console) × Written (console_of s) (chars_at (bytes_of s) m.0 0 regs.ecx) screen
    × (r
        ≡ some (
          some (record regs { eax = regs.ecx }),
          with_umm (with_console s screen) (umm_ummap_kmm m.1 m.0 regs.ecx),
        ))

sys_put_lem :
    (s : System) (c len : ℕ)
    → let m = umm_mmap_kmm (umm_of s) c len (current_pde s) in
      (m.0 == 0) ≡ false
      → Printable (chars_at (bytes_of s) m.0 0 len)
      → sys_put c len s ≡ (
        len,
        with_umm
            (with_console s (console_write (console_of s) (chars_at (bytes_of s) m.0 0 len)))
            (umm_ummap_kmm m.1 m.0 len),
      )
unfolding sys_put
sys_put_lem s c len mapped printable =
    let m = umm_mmap_kmm (umm_of s) c len (current_pde s) in
    rw (mapped, put_chars_lem (with_umm s m.1) m.0 0 len printable) refl

sys_put-refused :
    (s : System) (c len : ℕ)
    → let m = umm_mmap_kmm (umm_of s) c len (current_pde s) in
      (m.0 == 0) ≡ true → sys_put c len s ≡ (0, with_umm s m.1)
unfolding sys_put
sys_put-refused s c len refused = rw refused refl

-- The handler's choice by the number in `eax`.
syscall_handler-number :
    (kernel_pde entry exit : ℕ) (free full : System → System) (lock fuel : ℕ) (regs : IntrRegs)
    (s : System)
    → regs.eax ≡ sys_put_number
    → syscall_handler kernel_pde entry exit free full lock fuel regs s
      ≡ some (give regs (sys_put regs.ebx regs.ecx s))
unfolding syscall_handler
syscall_handler-number kernel_pde entry exit free full lock fuel regs s number =
    let exit_not : (regs.eax == 0) ≡ false = ground (arith, number) in
    let exec_not : (regs.eax == 1) ≡ false = ground (arith, number) in
    let get_not : (regs.eax == 2) ≡ false = ground (arith, number) in
    let put_it : (regs.eax == 3) ≡ true = ground (arith, number) in
    rw (exit_not, exec_not, get_not, put_it) refl

-- From a position on the screen, let the bytes at the kernel address that `umm_mmap_kmm` gives for the call of
-- `sys_put` be characters from 0x20 up to 0x7f that end before the last cell of the screen. Then the call either
-- returns 0, when `umm_mmap_kmm` gives NULL, with the screen as it was, or returns the number of the characters,
-- with these on the screen from the position on, and with `umm_ummap_kmm` called on the address. The other
-- registers and the rest of the system stay as they were.
pub syscall_handler-put :
    (kernel_pde entry exit : ℕ) (free full : System → System) (lock fuel : ℕ) (regs : IntrRegs)
    (s : System)
    → regs.eax ≡ sys_put_number
    → IsOnScreen (console_of s)
    → let m = umm_mmap_kmm (umm_of s) regs.ebx regs.ecx (current_pde s) in
      Printable (chars_at (bytes_of s) m.0 0 regs.ecx)
      → place (console_of s) + regs.ecx < cga_columns * cga_lines
      → PutRefused s regs (syscall_handler kernel_pde entry exit free full lock fuel regs s)
        ⊎ PutDone s regs (syscall_handler kernel_pde entry exit free full lock fuel regs s)
unfolding syscall_handler
syscall_handler-put kernel_pde entry exit free full lock fuel regs s number on_screen printable
      room =
    let m = umm_mmap_kmm (umm_of s) regs.ebx regs.ecx (current_pde s) in
    let put = syscall_handler-number kernel_pde entry exit free full lock fuel regs s number in
    elim (Bool-cases (m.0 == 0)) [
      | inl e ↦ inl (
        ==→eq m.0 0 e,
        put ∙ ap (λ r. some (give regs r)) (sys_put-refused s regs.ebx regs.ecx e),
      )
      | inr e ↦ inr (
        console_write (console_of s) (chars_at (bytes_of s) m.0 0 regs.ecx),
        console_write_lem (chars_at (bytes_of s) m.0 0 regs.ecx) (console_of s) on_screen printable
            (omega (arith, room, length-chars_at (bytes_of s) m.0 0 regs.ecx)),
        put ∙ ap (λ r. some (give regs r)) (sys_put_lem s regs.ebx regs.ecx e printable),
      )
    ]
