-- ===== src/System/Search.antt =====
-- The start of the first program: `exec_init` of kernel/process/exec.c, and kernel/dev/file.c, whose disk it
-- sets.
use bitch.Base.{
  ℕ, zero, suc, ◌+◌, ◌<◌, ◌^◌, ◌≡◌, refl, ◌∙◌, ap, arith, Bool, true, false, Option, none, some,
  List, [], ◌∷◌, length, if◌then◌else◌, ne→==,
}
use bitch.Ata.{Ata, Drive, Buffer}
use bitch.Fat.Dir.{◌>>=◌}
use bitch.Fat.Lookup.{File}
use bitch.Disk.{Disk, Disks, get_disk_id, get_disk_id_loop, disk_readdir, disk_fread, disk_fwrite}
use bitch.Disk.Find.{Chain}
use bitch.Elf.{at_address}
use bitch.Interrupt.{Interrupts, reg_user_isr_handler}
use bitch.Strings.Copy.{IsString}
use bitch.Umm.{umm_alloc_pde}
use bitch.System.Exec.{Executed, exec_lem}
use bitch.System.{System, umm_of, bytes_of, user_isr_handler, exec}

-- `disk_id` is the static variable of kernel/dev/file.c.
abbrev pub set_disk : (id : ℕ) → ℕ
set_disk id = id

unfoldable file_write : Disks → (disk_id : ℕ) → Buffer → Option ℕ × Buffer
file_write d disk_id buf = disk_fwrite d disk_id buf

module _ (ata : Ata) (drives : ℕ → Drive) (fuel : ℕ) where
  unfoldable file_readdir :
      Disks → (disk_id : ℕ) → (stack : Buffer) → File → (path : ℕ → ℕ) → (n : ℕ) → Option File
  file_readdir d disk_id stack file path n =
      disk_readdir ata drives fuel d disk_id stack file path n

  unfoldable file_read :
      Disks
      → (disk_id : ℕ) → (stack : Buffer) → (path : ℕ → ℕ) → Buffer
      → (count offect : ℕ) → Option (Option ℕ × Buffer)
  file_read d disk_id stack path buf count offect =
      disk_fread ata drives fuel d disk_id stack path buf count offect

  -- The loop of `exec_init` from `i` on, on fuel of its own; `path` is "init", and `null` what stands at address 0.
  unfoldable pub exec_init_loop :
      (rounds : ℕ) → Disks → (stack null : Buffer) → (path : ℕ → ℕ) → (i : ℕ) → Option (Option ℕ)
  exec_init_loop zero d stack null path i = none
  exec_init_loop (suc rounds) d stack null path i =
      let rest = exec_init_loop rounds d stack null path (i + 1) in
      elim (get_disk_id d i) [
        | none ↦ some none
        | some id ↦ disk_fread ata drives fuel d id stack path null 0 0 >>= λ r. elim r.0 [
          | none ↦ rest
          | some count ↦ some (some id)
        ]
      ]

  -- `kernel_pde`, `entry` and `exit` are as in `exec`, and `init_exec` is the address of the name.
  module _ (kernel_pde entry exit init_exec : ℕ) where
    -- What follows the search: the disk of the files, and the system with its handlers.
    unfoldable pub start_init :
        (disk_id : ℕ) → Interrupts System → Option ℕ → Option (ℕ × Interrupts System)
    start_init disk_id t none = some (disk_id, t)
    start_init disk_id t (some id) = exec kernel_pde entry exit fuel init_exec t.caller >>= λ r.
        some (set_disk id, record t { caller = r.1 })

    unfoldable pub exec_init :
        (rounds : ℕ)
        → Disks
        → (stack null : Buffer) → (disk_id : ℕ) → Interrupts System
        → Option (ℕ × Interrupts System)
    exec_init rounds d stack null disk_id t =
        let ready : Interrupts System =
          reg_user_isr_handler t (some (user_isr_handler kernel_pde)) in
        exec_init_loop rounds d stack null (at_address (bytes_of t.caller) init_exec) 0
        >>= start_init disk_id ready

-- The numbers of the disks at `nodes`, and the first of them with a property.
abbrev pub ids_of : (ℕ → Disk) → List ℕ → List ℕ
ids_of disk_at [] = []
ids_of disk_at (x ∷ xs) = (disk_at x).id ∷ ids_of disk_at xs

abbrev pub first_with : (ℕ → Bool) → List ℕ → Option ℕ
first_with has [] = none
first_with has (id ∷ ids) = if has id then some id else first_with has ids

abbrev element : List ℕ → ℕ → Option ℕ
element [] n = none
element (x ∷ xs) zero = some x
element (x ∷ xs) (suc n) = element xs n

-- The n-th number of the list.
get_disk_id_loop-Chain :
    (disk_at : ℕ → Disk) (nodes : List ℕ) (low top p n : ℕ)
    → Chain disk_at low top p nodes
    → get_disk_id_loop disk_at p n ≡ element (ids_of disk_at nodes) n
unfolding Chain get_disk_id_loop
get_disk_id_loop-Chain disk_at [] low top p zero chain = rw chain.0 refl
get_disk_id_loop-Chain disk_at [] low top p (suc n) chain = rw chain.0 refl
get_disk_id_loop-Chain disk_at (x ∷ xs) low top p zero chain =
    rw (chain.0, ne→== x 0 (λ z. omega (arith, z, chain.1))) refl
get_disk_id_loop-Chain disk_at (x ∷ xs) low top p (suc n) chain =
    rw (chain.0, ne→== x 0 (λ z. omega (arith, z, chain.1)))
      (get_disk_id_loop-Chain disk_at xs (suc (disk_at x).id) top (disk_at x).next n chain.3)

-- A read of `path` on the disk `id` returns, and `has` says whether it finds the file.
abbrev pub Answers :
    (ata : Ata) (drives : ℕ → Drive) (fuel : ℕ) (d : Disks) (stack null : Buffer) (path : ℕ → ℕ)
    (id : ℕ)
    → Bool
    → Type 0
Answers ata drives fuel d stack null path id true =
    (count : ℕ) × (buf : Buffer) × (disk_fread ata drives fuel d id stack path null 0 0
      ≡ some (some count, buf))
Answers ata drives fuel d stack null path id false =
    (buf : Buffer) × (disk_fread ata drives fuel d id stack path null 0 0 ≡ some (none, buf))

module _ (ata : Ata) (drives : ℕ → Drive) (fuel : ℕ) (d : Disks) (stack null : Buffer)
    (path : ℕ → ℕ) (has : ℕ → Bool) where
  abbrev pub Answered : List ℕ → Type 0
  Answered [] = Unit
  Answered (id ∷ ids) = Answers ata drives fuel d stack null path id (has id) × Answered ids

  abbrev round : ℕ → Option ℕ → Option (Option ℕ) → Option (Option ℕ)
  round i none rest = some none
  round i (some id) rest = disk_fread ata drives fuel d id stack path null 0 0 >>= λ r. elim r.0 [
    | none ↦ rest
    | some count ↦ some (some id)
  ]

  exec_init_loop-suc :
      (rounds i : ℕ) (id : Option ℕ)
      → get_disk_id d i ≡ id
      → exec_init_loop ata drives fuel (suc rounds) d stack null path i
        ≡ round i id (exec_init_loop ata drives fuel rounds d stack null path (i + 1))
  unfolding exec_init_loop
  exec_init_loop-suc rounds i none e = rw (exec_init_loop, e) refl
  exec_init_loop-suc rounds i (some id) e = rw (exec_init_loop, e) refl

  round-Answers :
      (i id : ℕ) (rest : Option (Option ℕ)) (b : Bool)
      → Answers ata drives fuel d stack null path id b
      → round i (some id) rest ≡ (if b then some (some id) else rest)
  round-Answers i id rest true (count, buf, e) = rw e refl
  round-Answers i id rest false (buf, e) = rw e refl

  choose :
      (b : Bool) (id : ℕ) (others : Option ℕ) (rest : Option (Option ℕ))
      → rest ≡ some others
      → (if b then some (some id) else rest) ≡ some (if b then some id else others)
  choose true id others rest e = refl
  choose false id others rest e = e

  exec_init_loop_lem :
      (rounds i : ℕ) (ids : List ℕ)
      → ((j : ℕ) → get_disk_id d (i + j) ≡ element ids j)
      → Answered ids
      → length ids < rounds
      → exec_init_loop ata drives fuel rounds d stack null path i ≡ some (first_with has ids)
  exec_init_loop_lem zero i ids at answers enough = absurd (omega (arith, enough))
  exec_init_loop_lem (suc rounds) i [] at answers enough =
      exec_init_loop-suc rounds i none (ap (get_disk_id d) (omega arith) ∙ at 0)
  exec_init_loop_lem (suc rounds) i (id ∷ ids) at answers enough =
      let rest =
        exec_init_loop_lem rounds (i + 1) ids (λ j. ap (get_disk_id d) (omega arith) ∙ at (suc j))
          answers.1 (omega (arith, enough)) in
      exec_init_loop-suc rounds i (some id) (ap (get_disk_id d) (omega arith) ∙ at 0)
      ∙ round-Answers i id (exec_init_loop ata drives fuel rounds d stack null path (i + 1))
          (has id) answers.0
      ∙ choose (has id) id (first_with has ids) _ rest

length-ids_of : (disk_at : ℕ → Disk) (nodes : List ℕ) → length (ids_of disk_at nodes) ≡ length nodes
length-ids_of disk_at [] = refl
length-ids_of disk_at (x ∷ xs) = ap suc (length-ids_of disk_at xs)

-- The outcome of `exec_init` once the search has found nothing, with the handler registered; and the outcome once it
-- has found the disk `id`: the files' disk is this one, and the system is the one that `exec` leaves.
abbrev pub Begun :
    (kernel_pde entry exit init_exec n disk_id : ℕ) (ready : Interrupts System)
    → Option ℕ
    → Option (ℕ × Interrupts System)
    → Type 0
Begun kernel_pde entry exit init_exec n disk_id ready none result = result ≡ some (disk_id, ready)
Begun kernel_pde entry exit init_exec n disk_id ready (some id) result =
    (r : ℕ × System) × (result ≡ some (id, record ready { caller = r.1 }))
    × Executed (umm_alloc_pde (umm_of ready.caller) kernel_pde) entry exit init_exec n ready.caller
        r

start_init-Begun :
    (ata : Ata) (drives : ℕ → Drive) (fuel kernel_pde entry exit init_exec n disk_id : ℕ)
    (ready : Interrupts System) (found : Option ℕ)
    → IsString (at_address (bytes_of ready.caller) init_exec) n
    → n < fuel
    → n + 1 < 2 ^ 32
    → Begun kernel_pde entry exit init_exec n disk_id ready found
        (start_init ata drives fuel kernel_pde entry exit init_exec disk_id ready found)
unfolding start_init
start_init-Begun ata drives fuel kernel_pde entry exit init_exec n disk_id ready none string enough
      small =
    refl
start_init-Begun ata drives fuel kernel_pde entry exit init_exec n disk_id ready (some id) string
      enough small =
    let (r, returns, executed) =
      exec_lem kernel_pde entry exit fuel init_exec n ready.caller string enough small in
    (r, rw returns refl, executed)

-- Over a list of disks with rising numbers, let a read of the program's name return on each disk, and let the name
-- be a string of `n` characters, less than the fuel and than 2^32 - 1. With more rounds than there are disks
-- `exec_init` returns, with the handler for programs registered. If no disk has the program, nothing else has
-- changed; otherwise the first disk that has it has become the files' disk, and `exec` has run on the name: it has
-- called `process_create` with the address of a copy of it, or there was no memory for that.
pub exec_init_lem :
    (ata : Ata) (drives : ℕ → Drive) (fuel kernel_pde entry exit init_exec n rounds : ℕ) (d : Disks)
    (stack null : Buffer) (disk_id : ℕ) (t : Interrupts System) (nodes : List ℕ) (has : ℕ → Bool)
    → Chain d.disk_at 0 d.new_id d.header nodes
    → Answered ata drives fuel d stack null
        (at_address (bytes_of t.caller) init_exec)
        has
        (ids_of d.disk_at nodes)
    → length nodes < rounds
    → IsString (at_address (bytes_of t.caller) init_exec) n
    → n < fuel
    → n + 1 < 2 ^ 32
    → Begun kernel_pde entry exit init_exec n disk_id
        (reg_user_isr_handler t (some (user_isr_handler kernel_pde)))
        (first_with has (ids_of d.disk_at nodes))
        (exec_init ata drives fuel kernel_pde entry exit init_exec rounds d stack null disk_id t)
unfolding exec_init get_disk_id
exec_init_lem ata drives fuel kernel_pde entry exit init_exec n rounds d stack null disk_id t nodes
      has chain answers enough string more small =
    let path : ℕ → ℕ = at_address (bytes_of t.caller) init_exec in
    let ready : Interrupts System = reg_user_isr_handler t (some (user_isr_handler kernel_pde)) in
    let found =
      exec_init_loop_lem ata drives fuel d stack null path has rounds 0 (ids_of d.disk_at nodes)
        (λ j.
          ap (get_disk_id_loop d.disk_at d.header) (omega arith)
          ∙ get_disk_id_loop-Chain d.disk_at nodes 0 d.new_id d.header j chain)
        answers (omega (arith, enough, length-ids_of d.disk_at nodes)) in
    rw found (
      start_init-Begun ata drives fuel kernel_pde entry exit init_exec n disk_id ready
        (first_with has (ids_of d.disk_at nodes)) string more small)
