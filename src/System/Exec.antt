-- ===== src/System/Exec.antt =====
-- The start of a program by `exec`.
use bitch.Base.{
  ℕ, ◌+◌, ◌-◌, ◌^◌, ◌<◌, ◌≤◌, ◌≡◌, ◌≢◌, ◌⊎◌, refl, ◌∙◌, ap, inl, inr, arith, true, false, Option,
  none, some, leb, ◌==◌, Bool-cases, ==→eq, add32,
}
use bitch.Umm.{Umm, umm_alloc_pde, umm_free}
use bitch.Heap.{kmalloc, kfree}
use bitch.Process.{Sched, process_create}
use bitch.Strings.{strlen, strcpy}
use bitch.Strings.Copy.{IsString, strlen_lem, strcpy_lem}
use bitch.Elf.{at_address, store_at, FileRead, Loader, returned, entered, elf_exec}
use bitch.System.{
  System, umm_of, with_umm, heap_of, with_heap, bytes_of, with_bytes, current_pde, start_exec,
  exec_in, exec,
}

-- What `elf_exec` works on, and the system after it, with the path freed; `entered` is the entry of the program
-- that runs, and `none` when no format fits. `elf_exec` itself frees the path before it enters the program, and
-- a_out_exec does nothing.
abbrev loader_of : System → Loader
loader_of s = record { umm = umm_of s; memory = bytes_of s }

unfoldable leave_loader : System → (path : ℕ) → Loader → System
leave_loader s path l =
    let t : System = with_bytes (with_umm s l.umm) l.memory in with_heap t (kfree (heap_of t) path)

unfoldable binfmt_exec :
    FileRead → (local program : ℕ → ℕ) → (path : ℕ) → System → Option ℕ × System
unfolding leave_loader
binfmt_exec file_read local program path s =
    elim (elf_exec file_read local program (current_pde s) (loader_of s)) [
      | returned l ↦ (none, leave_loader s path l)
      | entered entry l ↦ (some entry, leave_loader s path l)
    ]

-- The copy of the path of `n` characters at `path` lies at `p`, and the other bytes of memory are as they were.
abbrev pub CopiedTo : (before after : ℕ → ℕ) (path p n : ℕ) → Type 0
CopiedTo before after path p n =
    ((j : ℕ) → j ≤ n → after (p + j) ≡ before (path + j))
    × ((a : ℕ) → (a < p) ⊎ (p + n < a) → after a ≡ before a)

-- The bytes of memory after a copy of the string to `p`.
store_at-outside :
    (memory copy : ℕ → ℕ) (p n a : ℕ)
    → ((j : ℕ) → n < j → copy j ≡ memory (p + j))
    → (a < p) ⊎ (p + n < a)
    → store_at memory copy p a ≡ memory a
store_at-outside memory copy p n a kept (inl low) =
    (let e : leb p a ≡ false = ground (arith, low) in rw e refl)
store_at-outside memory copy p n a kept (inr high) =
    let e : leb p a ≡ true = ground (arith, high) in
    rw e (kept (a - p) (omega (arith, high)) ∙ ap memory (omega (arith, high)))

store_at-CopiedTo :
    (memory copy : ℕ → ℕ) (path p n : ℕ)
    → ((j : ℕ) → j ≤ n → copy j ≡ memory (path + j))
    → ((j : ℕ) → n < j → copy j ≡ memory (p + j))
    → CopiedTo memory (store_at memory copy p) path p n
store_at-CopiedTo memory copy path p n copied kept = (
  λ j few.
      (let at : leb p (p + j) ≡ true = ground arith in
        let index : p + j - p ≡ j = omega arith in rw (at, index) (copied j few)),
  λ a out. store_at-outside memory copy p n a kept out,
)

-- The end of `exec` with the result `made` of `process_create`: a failure gives the page directory back, and a
-- success keeps what `process_create` has made.
abbrev pub Starts : (made : ℕ × Sched) (pde : ℕ) → System → ℕ × System → Type 0
Starts made pde s r =
    let t : System = record s { sched = made.1 } in
    ((made.0 ≡ 0) × (r ≡ (0, with_umm t (umm_free (umm_of t) pde))))
    ⊎ ((made.0 ≢ 0) × (r ≡ (made.0, t)))

-- What `exec` leads to when the directory is there: no memory for the copy, or a call of `process_create` with the
-- address of a copy of the path.
abbrev pub Ran : (entry exit pde path n : ℕ) → System → ℕ × System → Type 0
Ran entry exit pde path n t r =
    let m = kmalloc (heap_of t) (n + 1) in
    let u : System = with_heap t m.1 in
    ((m.0 ≡ 0) × (r ≡ (0, u)))
    ⊎ ((m.0 ≢ 0)
        × (bytes : ℕ → ℕ) × CopiedTo (bytes_of t) bytes path m.0 n
        × Starts (process_create u.sched entry m.0 exit pde) pde (with_bytes u bytes) r)

-- What `exec` leads to with the result `pde` of `umm_alloc_pde`.
abbrev pub Executed : (pde : ℕ × Umm) (entry exit path n : ℕ) → System → ℕ × System → Type 0
Executed pde entry exit path n s r =
    ((pde.0 ≡ 0) × (r ≡ (0, with_umm s pde.1)))
    ⊎ ((pde.0 ≢ 0) × Ran entry exit pde.0 path n (with_umm s pde.1) r)

module _ (kernel_pde entry exit : ℕ) where
  start_exec-Starts :
      (pde p : ℕ) (s : System)
      → Starts
          (process_create s.sched entry p exit pde)
          pde
          s
          (start_exec kernel_pde entry exit pde p s)
  unfolding start_exec
  start_exec-Starts pde p s = elim (Bool-cases ((process_create s.sched entry p exit pde).0 == 0)) [
    | inl e ↦ inl (==→eq ((process_create s.sched entry p exit pde).0) 0 e, rw e refl)
    | inr e ↦ inr (λ z. ground (arith, e, z), rw e refl)
  ]

  exec_in-copy :
      (fuel pde path n size : ℕ) (t : System) (copy : ℕ → ℕ)
      → strlen fuel (at_address (bytes_of t) path) 0 ≡ some n
      → add32 n 1 ≡ size
      → ((kmalloc (heap_of t) size).0 == 0) ≡ false
      → strcpy fuel
          (at_address (bytes_of t) (kmalloc (heap_of t) size).0)
          (at_address (bytes_of t) path)
          0
        ≡ some copy
      → let m = kmalloc (heap_of t) size in
        exec_in kernel_pde entry exit fuel pde path t
        ≡ some (
            start_exec kernel_pde entry exit pde m.0
              (with_bytes (with_heap t m.1) (store_at (bytes_of t) copy m.0)))
  unfolding exec_in
  exec_in-copy fuel pde path n size t copy len this got returns = rw (len, this, got, returns) refl

  exec_in_lem :
      (fuel pde path n : ℕ) (t : System)
      → IsString (at_address (bytes_of t) path) n
      → n < fuel
      → n + 1 < 2 ^ 32
      → (r : ℕ × System) × (exec_in kernel_pde entry exit fuel pde path t ≡ some r)
        × Ran entry exit pde path n t r
  unfolding exec_in
  exec_in_lem fuel pde path n t string enough small =
      let m = kmalloc (heap_of t) (n + 1) in
      let u : System = with_heap t m.1 in
      let size : add32 n 1 ≡ n + 1 = omega (arith, small) in
      let len =
        strlen_lem (at_address (bytes_of t) path) n fuel 0 string (omega arith)
          (omega (arith, enough)) in
      elim (Bool-cases (m.0 == 0)) [
        | inl e ↦ ((0, u), rw (len, size, e) refl, inl (==→eq m.0 0 e, refl))
        | inr e ↦
            (let (copy, returns, copied, kept) =
                strcpy_lem (at_address (bytes_of t) m.0) (at_address (bytes_of t) path) n fuel 0
                  string (omega arith) (omega (arith, enough)) in
              let bytes : ℕ → ℕ = store_at (bytes_of t) copy m.0 in
              let v : System = with_bytes u bytes in
              (
                start_exec kernel_pde entry exit pde m.0 v,
                exec_in-copy fuel pde path n (n + 1) t copy len size e returns,
                inr (
                  λ z. ground (arith, e, z),
                  bytes,
                  store_at-CopiedTo (bytes_of t) copy path m.0 n
                      (λ j few. copied j (omega arith) few) (λ j far. kept j (inr far)),
                  start_exec-Starts pde m.0 v,
                ),
              ))
      ]

  -- Let the path be a string of `n` characters, less than 2^32 - 1, with more fuel than characters. `exec` returns;
  -- the result is 0 in the state that `umm_alloc_pde` leaves when there is no page directory for the program, and 0
  -- in the state that `kmalloc` leaves, with the directory not given back, when there is no memory for the path.
  -- Otherwise `process_create` is called with the entry, the new directory and the address of a copy of the path, with
  -- the other bytes of memory as they were: `exec` returns the pid in the state with the new process, or 0 in the
  -- state that `process_create` leaves, with the directory given back.
  pub exec_lem :
      (fuel path n : ℕ) (s : System)
      → IsString (at_address (bytes_of s) path) n
      → n < fuel
      → n + 1 < 2 ^ 32
      → let pde = umm_alloc_pde (umm_of s) kernel_pde in
        (r : ℕ × System) × (exec kernel_pde entry exit fuel path s ≡ some r)
        × Executed pde entry exit path n s r
  unfolding exec
  exec_lem fuel path n s string enough small =
      let pde = umm_alloc_pde (umm_of s) kernel_pde in
      elim (Bool-cases (pde.0 == 0)) [
        | inl e ↦ ((0, with_umm s pde.1), rw e refl, inl (==→eq pde.0 0 e, refl))
        | inr e ↦
            (let (r, returns, ran) =
                exec_in_lem fuel pde.0 path n (with_umm s pde.1) string enough small in
              (r, rw e returns, inr (λ z. ground (arith, e, z), ran)))
      ]
