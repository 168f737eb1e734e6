-- ===== src/Partition/Tests.antt =====
-- A table with one entry, on the disk of Disk/Tests, and a new disk without a drive behind it.
use bitch.Base.{
  Bool-cases, inl, inr, ℕ, ◌+◌, ◌^◌, ◌≡◌, Bool, true, arith, refl, false, Option, none, some, ◌==◌,
  if◌then◌else◌,
}
use bitch.Ata.{Ata, Buffer}
use bitch.Ata.Identify.{identified, SameBits}
use bitch.Partition.Drives.{init_status, init_status_lem}
use bitch.Disk.{Disks, get_disk, get_disk_loop, disk_mmap, link_part}
use bitch.Disk.Tests.{ata, drives, empty, unset, one_disk}
use bitch.Partition.{mbr_loop}

-- An entry of the type 6 from sector 5 on, of 10 sectors; the other three are empty.
abbrev table : Buffer
table b = if b == 4 then 6 else if b == 8 then 5 else if b == 12 then 10 else 0

abbrev place : Disks → ℕ
place _ = 0x200

abbrev behind_table : Option (ℕ × Disks)
behind_table =
    mbr_loop ata drives empty unset false place empty (λ _ _. none) table 0 0 4 0 one_disk

abbrev outcome : Option (ℕ × Disks) → ℕ × ℕ × ℕ
outcome none = (0, 0, 0)
outcome (some r) = (r.0, r.1.new_id, r.1.pos)

one_part : outcome behind_table ≡ (1, 2, 0x200)
unfolding mbr_loop disk_mmap get_disk get_disk_loop link_part
one_part = refl

-- The first drive has 2 ^ 32 + 5 sectors and 48-bit addresses, the second 7 sectors and 28-bit ones; there is
-- no other.
abbrev words : (long : Bool) → ℕ → ℕ
words long i =
    if i == 0
    then 0x40
    else if i == 49
    then 0x300
    else if i == 60
    then 7
    else if i == 83
    then if long then 0x600 else 0
    else if i == 100
    then 5
    else if i == 102
    then 1
    else 0

abbrev answers : ℕ → Option (ℕ → ℕ)
answers n = if n == 0 then some (words true) else if n == 1 then some (words false) else none

answers-SameBits : (m : ℕ) → SameBits (answers m)
answers-SameBits m = elim (Bool-cases (m == 0)) [
  | inl first ↦ rw first (refl, refl)
  | inr later ↦ elim (Bool-cases (m == 1)) [
    | inl second ↦ rw (later, second) (refl, refl)
    | inr none_there ↦ rw (later, none_there) tt
  ]
]

abbrev after_start : Ata
after_start = (init_status answers drives empty unset false place empty 3 ata one_disk).0

init_status_lem_example :
    (after_start.state 0 ≡ (identified (answers 0)).0)
    × (after_start.ata_sectors 0 ≡ (identified (answers 0)).1)
init_status_lem_example =
    init_status_lem answers drives empty unset false place empty 3 ata one_disk 0 (omega arith)
      answers-SameBits

sectors_found : (after_start.ata_sectors 0 ≡ 2 ^ 32 + 5) × (after_start.ata_sectors 1 ≡ 7)
sectors_found = (
  init_status_lem_example.1,
  (init_status_lem answers drives empty unset false place empty 3 ata one_disk 1 (omega arith)
      answers-SameBits).1,
)
