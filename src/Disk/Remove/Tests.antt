-- ===== src/Disk/Remove/Tests.antt =====
-- Two disks with a partition each.
use bitch.Base.{ℕ, ◌≡◌, refl, arith, some, [], ◌∷◌, ◌++◌, ◌==◌, if◌then◌else◌}
use bitch.Fs.{fs_raw}
use bitch.Disk.{Disk, Disks, disk_ata}
use bitch.Disk.Find.{Within}
use bitch.Disk.Remove.{disk_remove, is_part}
use bitch.Disk.Remove.Links.{Linked, Rising}
use bitch.Disk.Remove.Free.{IsDisks}
use bitch.Disk.Remove.Parts.{Others, Found, disk_remove_lem}

abbrev disk : (id pdisk parts last next : ℕ) → Disk
disk id pdisk parts last next = record {
  id = id;
  dev_type = disk_ata;
  dev_id = 0;
  start_sector = id;
  sector_count = 10;
  fs = fs_raw;
  part_id = 0;
  part_count = parts;
  pdisk = pdisk;
  last = last;
  next = next;
}

-- The disk 0 at 0x100 has the partition 2 at 0x300, and the disk 1 at 0x200 the partition 3 at 0x400.
abbrev four_disks : Disks
four_disks = record {
  new_id = 4;
  header = 0x100;
  pos = 0x400;
  disk_at = λ a.
      if a == 0x100
      then disk 0 0 1 0 0x200
      else if a == 0x200
      then disk 1 0 1 0x100 0x300
      else if a == 0x300
      then disk 2 0x100 0 0x200 0x400
      else disk 3 0x200 0 0x300 0;
}

four_disks-IsDisks : IsDisks four_disks (0x100 ∷ 0x200 ∷ 0x300 ∷ 0x400 ∷ [])
unfolding Linked Rising
four_disks-IsDisks = record {
  rising = omega arith;
  linked = (refl, refl, (refl, refl, (refl, refl, (refl, refl, omega arith))));
  first = refl;
  end = refl;
}

-- What is read at a structure that has been given back.
abbrev junk : Disk
junk = disk 9 0x500 7 0x600 0x700

disk_remove_lem_example :
    (t : Disks) × (disk_remove junk 5 four_disks 2 ≡ some t)
    × IsDisks t ((0x100 ∷ 0x200 ∷ []) ++ 0x400 ∷ [])
    × Others four_disks 0x300 t
    × Found t ((0x100 ∷ 0x200 ∷ []) ++ 0x400 ∷ [])
unfolding is_part Within
disk_remove_lem_example =
    disk_remove_lem junk four_disks 5 (0x100 ∷ 0x200 ∷ []) 0x300 (0x400 ∷ []) four_disks-IsDisks
      (λ y in_y. ground arith) (omega arith)
