-- ===== src/Partition/Drives.antt =====
-- The start of driver/ata.c: every drive that identifies itself becomes a disk.
use bitch.Base.{
  ℕ, zero, suc, ◌+◌, ◌<◌, ◌≡◌, ◌≢◌, ◌∙◌, ap, arith, Bool, Option, some, ◌==◌, if◌then◌else◌, update,
  Bool-cases, ltb, ltb→lt, ltb→le, ◌≤◌, inl, inr,
}
use bitch.Ata.{Ata, nodisk, Drive, Buffer}
use bitch.Ata.Identify.{identify, identified, SameBits, identify_lem}
use bitch.Fat.{Fat}
use bitch.Fat.Dir.{◌>>=◌}
use bitch.Disk.{Disks, disk_ata}
use bitch.Partition.{disk_create}

-- The mode and the sectors of drive `n` in `ata_state` and in `ata_sectors`; `answer` is what the drive sends,
-- or `none` if its status has no DRDY.
unfoldable init_drive : Ata → (n : ℕ) → (answer : Option (ℕ → ℕ)) → Ata
unfolding update
init_drive ata n answer =
    let r = identify answer in
    record { state = update ata.state n r.0; ata_sectors = update ata.ata_sectors n r.1 }

-- The drives' answers; the rest is what `disk_create` takes.
module _ (answers : ℕ → Option (ℕ → ℕ)) (drives : ℕ → Drive) (boot : Buffer) (fat : Fat)
    (full : Bool) (kmalloc : Disks → ℕ) (local : Buffer) where
  -- The end of a round: a drive with sectors becomes a disk.
  unfoldable add_drive : (fuel : ℕ) → Ata → (n : ℕ) → Option Disks → Option Disks
  unfolding disk_create
  add_drive fuel ata n disks =
      if ata.ata_sectors n == 0
      then disks
      else (disks >>= λ d.
          disk_create ata drives boot fat full kmalloc local fuel disk_ata n (ata.ata_sectors n) d
          >>= λ r. some r.1)

  -- The loop of `init_status` from drive `n` on. The disks are `none` when the fuel for the nested tables has
  -- not been enough.
  unfoldable status_loop : (fuel n left : ℕ) → Ata × Option Disks → Ata × Option Disks
  unfolding init_drive
  status_loop fuel n zero s = s
  status_loop fuel n (suc left) s =
      let ata : Ata = init_drive s.0 n (answers n) in
      status_loop fuel (n + 1) left (ata, add_drive fuel ata n s.1)

  pub init_status : (fuel : ℕ) → Ata → Disks → Ata × Option Disks
  unfolding status_loop
  init_status fuel ata d = status_loop fuel 0 4 (record ata { state = λ n. nodisk }, some d)

  -- A drive has the mode and the sectors of its answer.
  Known : Ata → ℕ → Type 0
  Known ata n =
      (ata.state n ≡ (identified (answers n)).0) × (ata.ata_sectors n ≡ (identified (answers n)).1)

  init_drive-Known :
      (ata : Ata) (n k : ℕ) → n ≡ k → SameBits (answers n) → Known (init_drive ata n (answers n)) k
  unfolding Known init_drive update
  init_drive-Known ata n k same bits =
      let r = identify_lem (answers n) bits ∙ ap (λ m. identified (answers m)) same in
      let mode = ap (λ q. q.0) r in
      let sectors = ap (λ q. q.1) r in (ground (arith, mode, same), ground (arith, sectors, same))

  init_drive-other :
      (ata : Ata) (n k : ℕ) → k ≢ n → Known ata k → Known (init_drive ata n (answers n)) k
  unfolding Known init_drive update
  init_drive-other ata n k other known = (ground (arith, known.0), ground (arith, known.1))

  status_loop-Known :
      (fuel n left : ℕ) (s : Ata × Option Disks)
      → ((m : ℕ) → SameBits (answers m))
      → ((k : ℕ) → k < n → Known s.0 k)
      → (k : ℕ) → k < n + left
      → Known (status_loop fuel n left s).0 k
  unfolding status_loop
  status_loop-Known fuel n zero s bits known k below = known k (omega (arith, below))
  status_loop-Known fuel n (suc left) s bits known k below =
      let ata : Ata = init_drive s.0 n (answers n) in
      status_loop-Known fuel (n + 1) left (ata, add_drive fuel ata n s.1) bits
        (λ j low. elim (Bool-cases (ltb j n)) [
          | inl p ↦
              (let before : j < n = ltb→lt j n p in
                init_drive-other s.0 n j (λ same. omega (arith, same, before)) (known j before))
          | inr p ↦
              (let last : n ≤ j = ltb→le j n p in
                init_drive-Known s.0 n j (omega (arith, low, last)) (bits n))
        ])
        k (omega (arith, below))

  -- After `init_status` each of the four drives has the mode and the number of sectors that its words stand for:
  -- for 48-bit addresses, by bit 10 of word 83, the four words from 100 on, for 28-bit ones, by bit 9 of
  -- word 49, the two words from 60 on, and none without either. The condition is that the words have the same
  -- in the bits below these, which the driver tests.
  pub init_status_lem :
      (fuel : ℕ) (ata : Ata) (d : Disks) (n : ℕ)
      → n < 4
      → ((m : ℕ) → SameBits (answers m))
      → let t : Ata = (init_status fuel ata d).0 in
        (t.state n ≡ (identified (answers n)).0) × (t.ata_sectors n ≡ (identified (answers n)).1)
  unfolding init_status Known
  init_status_lem fuel ata d n four bits =
      status_loop-Known fuel 0 4 (record ata { state = λ n. nodisk }, some d) bits
        (λ k none_yet. absurd (omega (arith, none_yet))) n (omega (arith, four))
