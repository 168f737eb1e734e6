-- ===== src/Disk/Write.antt =====
-- Writing to a disk or to a partition, `disk_write` of kernel/dev/disk.c.
use bitch.Base.{
  ℕ, ◌+◌, ◌-◌, ◌*◌, ◌^◌, ◌<◌, ◌≤◌, ◌≡◌, ◌⊎◌, inl, inr, refl, ◌∙◌, arith, true, none, List, ltb,
  ◌==◌, if◌then◌else◌, ne→==, add64, mul64, Served,
}
use bitch.Ata.{Ata, Drive, Buffer, Writes, lba28, lba48, ata_sector_size}
use bitch.Ata.Read.{IsDrive, InRange}
use bitch.Ata.Write.{Edges, Sent, Accepts, unsent, ata_write}
use bitch.Ata.Write.Contents.{overlay}
use bitch.Ata.Write.Stored.{Stored, ata_write_lem}
use bitch.Disk.{Disk, Disks, disk_ata, limited, get_disk, disk_read}
use bitch.Disk.Find.{Within, IsList, Chain-id, get_disk_lem}
use bitch.Disk.Read.{inside, limited_lem, only_ata, disk_read_lem}

-- `accepts` says which commands each drive takes.
module _ (ata : Ata) (drives : ℕ → Drive) (accepts : ℕ → Accepts) where
  unfoldable pub disk_write : Disks → Edges → (id : ℕ) → Buffer → (count offect : ℕ) → Sent
  disk_write d e id buf count offect =
      let p : ℕ = get_disk d id in
      let disk : Disk = d.disk_at p in
      if p == 0 then unsent none e else elim disk.dev_type [
        | disk_ata ↦
            ata_write ata (drives disk.dev_id) (accepts disk.dev_id) disk.dev_id e buf
              (limited disk count offect) (add64 (mul64 disk.start_sector ata_sector_size) offect)
      ]

-- Contents that differ between `start` and `end` only.
pub Confined : (start end : ℕ) (before after : ℕ → ℕ) → Type 0
Confined start end before after = (b : ℕ) → (b < start) ⊎ (end ≤ b) → after b ≡ before b

inside_small :
    (sector_count count offect : ℕ)
    → offect ≤ sector_count * 0x200
    → offect + inside sector_count count offect ≤ sector_count * 0x200
inside_small sector_count count offect below = ground (arith, below)

overlay-Confined :
    (image : ℕ → ℕ) (buf : Buffer) (start sector_count count offect : ℕ)
    → offect ≤ sector_count * 0x200
    → Confined start
        (start + sector_count * 0x200)
        image
        (overlay image buf (inside sector_count count offect) (start + offect))
unfolding Confined
overlay-Confined image buf start sector_count count offect below b (inl low) = ground (arith, low)
overlay-Confined image buf start sector_count count offect below b (inr high) =
    ground (arith, high, inside_small sector_count count offect below)

overlay_read :
    (image : ℕ → ℕ) (buf other : Buffer) (n start offect q : ℕ)
    → (if ltb q n then overlay image buf n (start + offect) (start + (offect + q)) else other q)
      ≡ (if ltb q n then buf (offect + q - offect) else other q)
overlay_read image buf other n start offect q =
    let index : start + (offect + q) - (start + offect) ≡ q = omega arith in
    let same : offect + q - offect ≡ q = omega arith in ground (arith, index, same)

disk_write_lem :
    (ata : Ata) (drives : ℕ → Drive) (accepts : ℕ → Accepts) (image : ℕ → ℕ) (e : Edges) (d : Disks)
    (id p : ℕ) (buf : Buffer) (count offect : ℕ)
    → get_disk d id ≡ p
    → 0 < p
    → (d.disk_at p).sector_count < 2 ^ 48
    → (d.disk_at p).start_sector < 2 ^ 48
    → count < 2 ^ 32
    → offect ≤ (d.disk_at p).sector_count * 0x200
    → (ata.state (d.disk_at p).dev_id ≡ lba28) ⊎ (ata.state (d.disk_at p).dev_id ≡ lba48)
    → IsDrive (drives (d.disk_at p).dev_id) (d.disk_at p).dev_id image
    → ((ws : Writes) → accepts (d.disk_at p).dev_id ws ≡ true)
    → let disk : Disk = d.disk_at p in
      let n : ℕ = inside disk.sector_count count offect in
      InRange ata disk.dev_id n (disk.start_sector * 0x200 + offect)
      → Stored image buf disk.dev_id n
          (disk.start_sector * 0x200 + offect)
          (disk_write ata drives accepts d e id buf count offect)
unfolding disk_write
disk_write_lem ata drives accepts image e d id p buf count offect found some_p few low fits below
      mode drive takes range =
    let disk : Disk = d.disk_at p in
    let place : add64 (mul64 disk.start_sector ata_sector_size) offect
        ≡ disk.start_sector * 0x200 + offect =
      omega (arith, few, low, below) in
    let cut = limited_lem disk count offect few fits below in
    rw (found, ne→== p 0 (λ z. omega (arith, z, some_p)), only_ata disk.dev_type, found, cut, place)
      (ata_write_lem ata (drives disk.dev_id) disk.dev_id image drive mode buf
        (inside disk.sector_count count offect) (disk.start_sector * 0x200 + offect) range
        (accepts disk.dev_id) takes e)

-- Let the disk at `p` be in a list of disks, with a drive in either mode, of at most 2^28 sectors in the 28-bit
-- one or 2^48 in the 48-bit one, that reads the sectors that it is asked for when it is the one that is selected
-- on its bus and takes every command, and let the numbers not overflow. Then `disk_write` of `count` bytes at an
-- offset up to the disk's end, limited to those before the end, and a request that `ata_write` serves, asks
-- the drive to replace the sectors that these bytes lie in, and sends their old contents with the bytes in
-- their place. The new contents differ from the old ones inside the disk's own sectors only. With a drive
-- that has the new contents, `disk_read` of the same bytes returns their number and fills the buffer with
-- what was written.
pub disk_read-disk_write :
    (ata : Ata) (drives written : ℕ → Drive) (accepts : ℕ → Accepts) (image : ℕ → ℕ) (e : Edges)
    (d : Disks) (nodes : List ℕ) (p : ℕ) (buf other : Buffer) (count offect : ℕ)
    → IsList d nodes
    → Within p nodes
    → (d.disk_at p).sector_count < 2 ^ 48
    → (d.disk_at p).start_sector < 2 ^ 48
    → count < 2 ^ 32
    → offect ≤ (d.disk_at p).sector_count * 0x200
    → (ata.state (d.disk_at p).dev_id ≡ lba28) ⊎ (ata.state (d.disk_at p).dev_id ≡ lba48)
    → IsDrive (drives (d.disk_at p).dev_id) (d.disk_at p).dev_id image
    → ((ws : Writes) → accepts (d.disk_at p).dev_id ws ≡ true)
    → let disk : Disk = d.disk_at p in
      let start : ℕ = disk.start_sector * 0x200 in
      let n : ℕ = inside disk.sector_count count offect in
      let new : ℕ → ℕ = overlay image buf n (start + offect) in
      InRange ata disk.dev_id n (start + offect)
      → IsDrive (written disk.dev_id) disk.dev_id new
      → Stored image buf disk.dev_id n
          (start + offect)
          (disk_write ata drives accepts d e disk.id buf count offect)
        × Confined start (start + disk.sector_count * 0x200) image new
        × Served
            (λ b. buf (b - offect))
            other
            n
            offect
            (disk_read ata written d disk.id other count offect)
disk_read-disk_write ata drives written accepts image e d nodes p buf other count offect list here
      few low fits below mode drive takes range after =
    let disk : Disk = d.disk_at p in
    let found : get_disk d disk.id ≡ p = get_disk_lem d nodes p list here in
    let some_p : 0 < p = (Chain-id d.disk_at nodes 0 d.new_id d.header p list.chain here).2 in
    let start : ℕ = disk.start_sector * 0x200 in
    let n : ℕ = inside disk.sector_count count offect in
    let new : ℕ → ℕ = overlay image buf n (start + offect) in
    let read =
      disk_read_lem ata written new d disk.id p disk other count offect found some_p refl few low
        fits below after mode range in
    (
      disk_write_lem ata drives accepts image e d disk.id p buf count offect found some_p few low
          fits below mode drive takes range,
      overlay-Confined image buf start disk.sector_count count offect below,
      (read.0, λ q. read.1 q ∙ overlay_read image buf other n start offect q),
    )
