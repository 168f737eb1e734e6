-- ===== src/Disk/Tests.antt =====
-- A disk of 99 sectors, with a partition of ten sectors from the fifth on.
use bitch.Base.{
  ℕ, ◌+◌, ◌≡◌, ◌≢◌, inl, inr, refl, arith, ◌-◌, ◌*◌, Served, true, false, some, [], ◌∷◌,
}
use bitch.Ata.{Ata, Drive, lba28}
use bitch.Ata.Write.{Edges, Accepts}
use bitch.Ata.Write.Contents.{overlay}
use bitch.Ata.Write.Stored.{Stored}
use bitch.Ata.Read.{IsDrive}
use bitch.Disk.Write.{disk_write, Confined, disk_read-disk_write}
use bitch.Ata.Tests.{drive, drive_of, drive_of-IsDrive, image, drive-IsDrive}
use bitch.Fat.{Fat, Buffer, fat16}
use bitch.Fs.{fs_raw}
use bitch.Disk.{
  Disk, Disks, disk_ata, disk_mmap, disk_read, get_disk, get_disk_loop, get_disk_id,
  get_disk_id_loop,
}
use bitch.Disk.Find.{Chain, Within, IsList}
use bitch.Disk.Read.{ReadsPart, disk_mmap-disk_read}

abbrev pub ata : Ata
ata = record { state = λ n. lba28; ata_sectors = λ n. 100 }

abbrev pub drives : ℕ → Drive
drives _ = drive

abbrev pub empty : Buffer
empty _ = 0

abbrev pub unset : Fat
unset = record {
  disk_id = 0;
  fat_type = fat16;
  sector_size = 0;
  cluster_size = 0;
  start_cluster = 0;
  fat_sector = 0;
  root_dir_cluster = 0;
  root_dir_sector = 0;
  root_dir_count = 0;
}

abbrev whole : Disk
whole = record {
  id = 0;
  dev_type = disk_ata;
  dev_id = 0;
  start_sector = 0;
  sector_count = 99;
  fs = fs_raw;
  part_id = 0;
  part_count = 0;
  pdisk = 0;
  last = 0;
  next = 0;
}

abbrev pub one_disk : Disks
one_disk = record { new_id = 1; header = 0x100; pos = 0x100; disk_at = λ _. whole }

one_found : get_disk one_disk 0 ≡ 0x100
unfolding get_disk get_disk_loop
one_found = refl

first_id : get_disk_id one_disk 0 ≡ some 0
unfolding get_disk_id get_disk_id_loop
first_id = refl

one_disk-IsList : IsList one_disk (0x100 ∷ [])
unfolding Chain Within
one_disk-IsList = record {
  chain = (refl, omega arith, omega arith, (refl, omega arith));
  has_pos = inl refl;
  end = refl;
}

not_there : (x : ℕ) → Within x (0x100 ∷ []) → x ≢ 0x200
unfolding Within
not_there x (inl here) e = omega (arith, here, e)
not_there x (inr there) e = omega (arith, there)

disk_mmap-disk_read_example :
    ReadsPart ata drives image one_disk
      (0x100 ∷ [])
      0x200
      (0 + 5)
      10
      empty
      700
      5000
      (disk_mmap ata drives empty unset false one_disk 0x200 0 5 10)
unfolding Within
disk_mmap-disk_read_example =
    disk_mmap-disk_read ata drives image empty unset false one_disk (0x100 ∷ []) 0x200 0x100 5 10
      empty 700 5000 one_disk-IsList (omega arith) (inl refl) (omega arith) not_there (omega arith)
      (omega arith) (omega arith) (omega arith) drive-IsDrive (inl refl)
      (record {
        drive = omega arith;
        sectors = omega arith;
        short = λ e. omega arith;
        pos = omega arith;
        below = omega arith;
        few = omega arith;
      })

abbrev unused : Edges
unused = record { buf_1 = λ j. 0; buf_2 = λ j. 0 }

abbrev ready : ℕ → Accepts
ready n ws = true

abbrev stars : Buffer
stars j = 0x2a

-- The contents of the drive with 300 stars from byte 700 on.
abbrev starred : ℕ → ℕ
starred = overlay image stars 300 700

starred_drives : ℕ → Drive
starred_drives _ = drive_of starred

starred-IsDrive : IsDrive (starred_drives 0) 0 starred
unfolding starred_drives
starred-IsDrive = drive_of-IsDrive starred (λ b. ground arith)

disk_read-disk_write_example :
    Stored image stars 0 300 700 (disk_write ata drives ready one_disk unused 0 stars 300 700)
    × Confined 0 (99 * 0x200) image starred
    × Served
        (λ b. stars (b - 700))
        empty
        300
        700
        (disk_read ata starred_drives one_disk 0 empty 300 700)
unfolding Within
disk_read-disk_write_example =
    disk_read-disk_write ata drives starred_drives ready image unused one_disk (0x100 ∷ []) 0x100
      stars empty 300 700 one_disk-IsList (inl refl) (omega arith) (omega arith) (omega arith)
      (omega arith) (inl refl) drive-IsDrive (λ ws. refl)
      (record {
        drive = omega arith;
        sectors = omega arith;
        short = λ e. omega arith;
        pos = omega arith;
        below = omega arith;
        few = omega arith;
      })
      starred-IsDrive
