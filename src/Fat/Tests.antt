-- ===== src/Fat/Tests.antt =====
-- The theorems on the FAT file system at a small FAT16 volume, whose clusters 2 and 3 are a file, and at a
-- directory of three entries that holds the file "ab".
use bitch.Base.{ℕ, ◌+◌, ◌*◌, ◌≡◌, inl, refl, some, [], ◌∷◌, ltb, ◌==◌, ◌||◌, if◌then◌else◌, arith}
use bitch.Fat.{Fat, fat16, Buffer, Reader, next_cluster, dir_cluster, read_cluster}
use bitch.Fat.Chain.{Links, dir_cluster_lem}
use bitch.Fat.Read.{Serves, OnDisk, file_byte, cluster_start, read_cluster_lem}

abbrev image : ℕ → ℕ
image b = if b == 516 then 3 else if b == 517 then 0 else if b == 518 || b == 519 then 0xff else b

abbrev reader : Reader
reader id buf count offect = (some count, λ q. if ltb q count then image (offect + q) else buf q)

abbrev volume : Fat
volume = record {
  disk_id = 0;
  fat_type = fat16;
  sector_size = 512;
  cluster_size = 512;
  start_cluster = 1024;
  fat_sector = 1;
  root_dir_cluster = 0;
  root_dir_sector = 2;
  root_dir_count = 16;
}

reader-Serves : Serves reader 0 image 4096
reader-Serves buf count offect fits inside = (refl, λ q. refl)

two_clusters : Links reader volume 2 (3 ∷ [])
unfolding next_cluster
two_clusters = (refl, (λ e. absurd (omega (arith, e))), refl)

on_disk : OnDisk volume 4096 (2 ∷ 3 ∷ [])
on_disk = (
  omega arith,
  omega arith,
  omega arith,
  omega arith,
  (omega arith, omega arith, omega arith, omega arith, tt),
)

dir_cluster_lem_example : dir_cluster 2 reader volume 2 ≡ some 2
dir_cluster_lem_example =
    dir_cluster_lem (3 ∷ []) 2 reader volume 2 (omega arith) two_clusters (omega arith)

abbrev empty : Buffer
empty j = 0

read_cluster_lem_example :
    (b : Buffer) × (read_cluster 2 reader volume empty 2 600 (0 * 512 + 0) ≡ some (some 600, b))
    × ((q : ℕ)
        → b q ≡ (
            if ltb q 600
            then file_byte image (cluster_start volume) 512 (2 ∷ 3 ∷ []) (0 * 512 + 0 + q)
            else empty q))
read_cluster_lem_example =
    read_cluster_lem reader volume image 4096 reader-Serves (omega arith) (omega arith) (3 ∷ []) 2 2
      0 0 600 empty (omega arith) two_clusters on_disk (omega arith) (omega arith) (omega arith)
      (omega arith) (inl refl) (omega arith)

-- The long name "ab" in one part, and the entry of its file.
abbrev directory : ℕ → Buffer
directory n j =
    if n == 1
    then (if j == 0
        then 0x41
        else if j == 1
        then 0x61
        else if j == 3
        then 0x62
        else if j == 11
        then 0x0f
        else 0)
    else 0x20

abbrev ab : ℕ → ℕ
ab k = if k == 0 then 0x61 else 0x62
