-- ===== src/Disk/Remove.antt =====
-- Taking disks and partitions out of the list, `free_disk`, `disk_remove` and `disk_remove_part` of
-- kernel/dev/disk.c. `fs_free` does nothing, and a read of a structure behind its `kfree` gives anything.
pub mod Links
pub mod Free
pub mod Kept
pub mod Parts
mod Tests
use bitch.Base.{
  ℕ, zero, suc, Bool, not, ◌&&◌, Option, none, some, ◌==◌, if◌then◌else◌, sub32, update,
}
use bitch.Fat.Dir.{◌>>=◌}
use bitch.Disk.{Disk, Disks, get_disk}

-- `free_disk` on the side of the structure in front, on that of the structure behind, and in the number of
-- the partitions.
unfoldable pub unlink_last : Disks → ℕ → Disks
unfolding update
unlink_last d p =
    let disk : Disk = d.disk_at p in
    if disk.last == 0 then record d { header = disk.next } else record d {
      disk_at = update d.disk_at disk.last (record (d.disk_at disk.last) { next = disk.next });
    }

unfoldable pub unlink_next : Disks → ℕ → Disks
unfolding update
unlink_next d p =
    let disk : Disk = d.disk_at p in
    if disk.next == 0 then record d { pos = disk.last } else record d {
      disk_at = update d.disk_at disk.next (record (d.disk_at disk.next) { last = disk.last });
    }

unfoldable pub uncount_part : Disks → ℕ → Disks
unfolding update
uncount_part d p =
    let pdisk : ℕ = (d.disk_at p).pdisk in
    let fewer : ℕ = sub32 (d.disk_at pdisk).part_count 1 in
    if pdisk == 0 then d else record d {
      disk_at = update d.disk_at pdisk (record (d.disk_at pdisk) { part_count = fewer });
    }

unfoldable pub unlink_disk : Disks → ℕ → Disks
unlink_disk d p = uncount_part (unlink_next (unlink_last d p) p) p

-- `junk` is what a read of the structure gives after `kfree`.
unfoldable pub free_disk : (junk : Disk) → Disks → ℕ → Disks
unfolding update
free_disk junk d p =
    let t : Disks = unlink_disk d p in
    if p == 0 then d else record t { disk_at = update t.disk_at p junk }

-- The test of `disk_remove_part`.
unfoldable pub is_part : Disks → (disk id : ℕ) → Bool
is_part d disk id =
    let pdisk : ℕ = (d.disk_at disk).pdisk in not (pdisk == 0) && ((d.disk_at pdisk).id == id)

-- The loop of `disk_remove_part` from `disk` on, with its call of itself, on fuel.
unfoldable pub remove_part_loop : (junk : Disk) → ℕ → Disks → (id disk : ℕ) → Option Disks
remove_part_loop junk zero d id disk = none
remove_part_loop junk (suc fuel) d id disk =
    let parted : Option Disks = remove_part_loop junk fuel d (d.disk_at disk).id d.header >>= λ t.
    some (free_disk junk t disk) in
    let freed : Option Disks = if is_part d disk id then parted else some d in
    let rest : Option Disks =
      freed >>= λ t. remove_part_loop junk fuel t id (t.disk_at disk).next in
    if disk == 0 then some d else rest

unfoldable pub disk_remove_part : (junk : Disk) → ℕ → Disks → (id : ℕ) → Option Disks
unfolding remove_part_loop
disk_remove_part junk fuel d id = remove_part_loop junk fuel d id d.header

unfoldable pub disk_remove : (junk : Disk) → ℕ → Disks → (id : ℕ) → Option Disks
disk_remove junk fuel d id =
    let p : ℕ = get_disk d id in
    if p == 0 then some d else (disk_remove_part junk fuel d id >>= λ t. some (free_disk junk t p))
