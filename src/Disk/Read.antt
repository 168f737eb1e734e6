-- ===== src/Disk/Read.antt =====
-- Reading from a partition that `disk_mmap` has made.
use bitch.Base.{
  ℕ, ◌+◌, ◌-◌, ◌*◌, ◌^◌, ◌<◌, ◌≤◌, ◌≡◌, ◌≢◌, ◌⊎◌, refl, ap, ◌∙◌, arith, Bool, Option, some, List,
  [], ◌∷◌, ◌++◌, ltb, if◌then◌else◌, ne→==, add64, mul64, Served,
}
use bitch.Ata.{Ata, Drive, Buffer, lba28, lba48, ata_sector_size}
use bitch.Ata.Read.{IsDrive, InRange, ata_read_lem}
use bitch.Fat.{Fat}
use bitch.Disk.{
  Disk, Disks, DiskDevType, disk_ata, limited, get_disk, disk_read, part_of, disk_mmap,
}
use bitch.Disk.Find.{Within, IsList, Chain-id, get_disk_lem}
use bitch.Disk.Map.{with_fs, disk_mmap-with_fs, mapped-new, mapped-IsList, get_disk-mapped}

-- The part of a request that lies before the disk's end.
abbrev pub inside : (sector_count count offect : ℕ) → ℕ
inside sector_count count offect =
    if ltb (sector_count * 0x200) (count + offect) then sector_count * 0x200 - offect else count

pub limited_lem :
    (disk : Disk) (count offect : ℕ)
    → disk.sector_count < 2 ^ 48
    → count < 2 ^ 32
    → offect ≤ disk.sector_count * 0x200
    → limited disk count offect ≡ inside disk.sector_count count offect
limited_lem disk count offect few fits below =
    let whole : mul64 disk.sector_count ata_sector_size ≡ disk.sector_count * 0x200 = omega arith in
    let sum : add64 count offect ≡ count + offect = omega arith in rw (whole, sum) (ground arith)

pub only_ata : (type : DiskDevType) → type ≡ disk_ata
only_ata disk_ata = refl

-- A disk that `get_disk` finds, read at its own offset.
pub disk_read_lem :
    (ata : Ata) (drives : ℕ → Drive) (image : ℕ → ℕ) (d : Disks) (id p : ℕ) (disk : Disk)
    (buf : Buffer) (count offect : ℕ)
    → get_disk d id ≡ p
    → 0 < p
    → d.disk_at p ≡ disk
    → disk.sector_count < 2 ^ 48
    → disk.start_sector < 2 ^ 48
    → count < 2 ^ 32
    → offect ≤ disk.sector_count * 0x200
    → IsDrive (drives disk.dev_id) disk.dev_id image
    → (ata.state disk.dev_id ≡ lba28) ⊎ (ata.state disk.dev_id ≡ lba48)
    → let start : ℕ = disk.start_sector * 0x200 in
      let n : ℕ = inside disk.sector_count count offect in
      InRange ata disk.dev_id n (start + offect)
      → Served (λ b. image (start + b)) buf n offect (disk_read ata drives d id buf count offect)
unfolding disk_read
disk_read_lem ata drives image d id p disk buf count offect found some_p same few low fits below
      drive mode range =
    let start : ℕ = disk.start_sector * 0x200 in
    let n : ℕ = inside disk.sector_count count offect in
    let place : add64 (mul64 disk.start_sector ata_sector_size) offect ≡ start + offect =
      omega (arith, few, low, below) in
    let served =
      ata_read_lem ata (drives disk.dev_id) disk.dev_id image drive buf n (start + offect) range
        mode in
    let cut : limited disk count offect ≡ n = limited_lem disk count offect few fits below in
    rw
      (
        found,
        ne→== p 0 (λ e. omega (arith, e, some_p)),
        same,
        only_ata disk.dev_type,
        found,
        same,
        cut,
        place,
      )
      (served.0, λ q. served.1 q ∙ ap (λ b. if ltb q n then image b else buf q) (omega arith))

-- The state behind `disk_mmap`: the disk's number has been returned, its structure is in the list, and a
-- request to read of it is served by what lies from the partition's start on.
abbrev pub ReadsPart :
    (ata : Ata) (drives : ℕ → Drive) (image : ℕ → ℕ) (d : Disks) (nodes : List ℕ)
    (at start_sector sector_count : ℕ) (buf : Buffer) (count offect : ℕ) (r : Option ℕ × Disks)
    → Type 0
ReadsPart ata drives image d nodes at start_sector sector_count buf count offect r =
    (r.0 ≡ some d.new_id)
    × IsList r.1 (nodes ++ at ∷ [])
    × Served (λ b. image (start_sector * 0x200 + b)) buf (inside sector_count count offect) offect
        (disk_read ata drives r.1 d.new_id buf count offect)

-- Let the disk at `p` be in a list of disks, and a partition of it be asked for that ends with it or before.
-- Then `disk_mmap` returns the next number, and the list has one more disk, with the memory that `kmalloc`
-- gave, which is none of the others and not NULL. A request to read `count` bytes of this new number, at an
-- offset up to the partition's end, is served in full by the drive's bytes from the partition's first sector
-- on, limited to those before the partition's end; no other byte of the buffer changes. The conditions are
-- that the numbers and the sectors do not overflow, that the drive, of at most 2^28
-- sectors in the 28-bit mode or 2^48 in the 48-bit mode, delivers the sectors that it is asked for when it is
-- the one that is selected on its bus, and that the limited request is one that `ata_read` serves.
pub disk_mmap-disk_read :
    (ata : Ata) (drives : ℕ → Drive) (image : ℕ → ℕ) (boot : Buffer) (fat : Fat) (full : Bool)
    (d : Disks) (nodes : List ℕ) (at p start_sector sector_count : ℕ) (buf : Buffer)
    (count offect : ℕ)
    → IsList d nodes
    → d.new_id + 1 < 2 ^ 32
    → Within p nodes
    → 0 < at
    → ((x : ℕ) → Within x nodes → x ≢ at)
    → start_sector + sector_count ≤ (d.disk_at p).sector_count
    → (d.disk_at p).start_sector + (d.disk_at p).sector_count < 2 ^ 48
    → count < 2 ^ 32
    → offect ≤ sector_count * 0x200
    → IsDrive (drives (d.disk_at p).dev_id) (d.disk_at p).dev_id image
    → (ata.state (d.disk_at p).dev_id ≡ lba28) ⊎ (ata.state (d.disk_at p).dev_id ≡ lba48)
    → let first : ℕ = (d.disk_at p).start_sector + start_sector in
      InRange ata (d.disk_at p).dev_id (inside sector_count count offect) (first * 0x200 + offect)
      → ReadsPart ata drives image d nodes at first sector_count buf count offect
          (disk_mmap ata drives boot fat full d at (d.disk_at p).id start_sector sector_count)
disk_mmap-disk_read ata drives image boot fat full d nodes at p start_sector sector_count buf count
      offect list room here some_at fresh fit low fits below drive mode range =
    let disk : Disk = part_of d at p start_sector sector_count in
    let found : get_disk d (d.disk_at p).id ≡ p = get_disk_lem d nodes p list here in
    let some_p : 0 < p = (Chain-id d.disk_at nodes 0 d.new_id d.header p list.chain here).2 in
    let (fs, e) =
      disk_mmap-with_fs ata drives boot fat full d at (d.disk_at p).id p start_sector sector_count
        found some_p some_at fit (omega (arith, low)) in
    let t : Disks = with_fs d at p start_sector sector_count fs in
    let first : disk.start_sector ≡ (d.disk_at p).start_sector + start_sector =
      omega (arith, low, fit) in
    rw e (
      refl,
      mapped-IsList d nodes list at p start_sector sector_count fs some_at fresh room,
      rw (← first) (
          disk_read_lem ata drives image t d.new_id at (record disk { fs = fs }) buf count offect
            (get_disk-mapped d nodes list at p start_sector sector_count fs some_at fresh room)
            some_at (mapped-new d nodes list at p start_sector sector_count fs some_at fresh room)
            (omega (arith, low, fit)) (omega (arith, low, fit)) fits below drive mode
            (rw first range)),
    )
