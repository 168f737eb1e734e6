-- ===== src/Fat.antt =====
-- The FAT file system, kernel/fs/fat.c: the volume, its cluster chains and the reading of a file's bytes.
-- Directories are in the child Dir, paths and the calls from outside in the child Lookup.
pub mod Chain
pub mod Dir
pub mod Find
pub mod Lookup
pub mod Misplaced
pub mod Read
mod Tests
use bitch.Base.{
  ℕ, zero, suc, ◌+◌, ◌-◌, ◌*◌, ◌/◌, ◌%◌, ◌^◌, Bool, true, false, Option, none, some, ltb, ◌==◌,
  ◌||◌, if◌then◌else◌, sub32, mul32, add64, sub64, mul64,
}

-- The anonymous enum of `fat_type`, and `_fat_t`.
pub data FatType : Type 0 where
  fat16 fat32 : FatType

pub record Fat : Type 0 where
  pub disk_id : ℕ
  pub fat_type : FatType
  pub sector_size : ℕ
  pub cluster_size : ℕ
  pub start_cluster : ℕ
  pub fat_sector : ℕ
  pub root_dir_cluster : ℕ
  pub root_dir_sector : ℕ
  pub root_dir_count : ℕ

-- A buffer, by the index of its bytes.
abbrev pub Buffer : Type 0
Buffer = ℕ → ℕ

-- `disk_read` of kernel/dev/disk.c: the disk, the buffer, the count and the offset on the disk; -1 is
-- `none`.
abbrev pub Reader : Type 0
Reader = ℕ → Buffer → (count offect : ℕ) → Option ℕ × Buffer

-- Little-endian fields of a buffer.
abbrev pub word16 : Buffer → ℕ → ℕ
word16 b i = b i + b (i + 1) * 0x100

abbrev pub word32 : Buffer → ℕ → ℕ
word32 b i = word16 b i + word16 b (i + 2) * 0x1_0000

abbrev zeros : Buffer
zeros i = 0

-- The offset of the table's entry of a cluster.
unfoldable pub table_offect : Fat → (cluster width : ℕ) → ℕ
table_offect fat cluster width = add64 (mul64 fat.fat_sector fat.sector_size) (mul32 cluster width)

-- `next` is 0 before the read, which leaves what it does not reach.
abbrev pub in_chain : (next last : ℕ) → ℕ
in_chain next last = if ltb next 2 || ltb last next then 0 else next

unfoldable pub next_cluster : Reader → Fat → (cluster : ℕ) → ℕ
unfolding table_offect
next_cluster read fat cluster = elim fat.fat_type [
  | fat16 ↦ in_chain (word32 (read fat.disk_id zeros 2 (table_offect fat cluster 2)).1 0) 0xffef
  | fat32 ↦ in_chain (word32 (read fat.disk_id zeros 4 (table_offect fat cluster 4)).1 0) 0xfffffef
]

-- The loop of `dir_cluster`, on fuel; `none` means that the fuel ran out.
unfoldable pub count_clusters : ℕ → Reader → Fat → (cluster n : ℕ) → Option ℕ
count_clusters zero read fat cluster n = none
count_clusters (suc fuel) read fat cluster n =
    let next : ℕ = next_cluster read fat cluster in
    let rest = count_clusters fuel read fat next ((n + 1) % 2 ^ 32) in
    if next == 0 then some n else rest

unfoldable pub dir_cluster : ℕ → Reader → Fat → (cluster : ℕ) → Option ℕ
unfolding count_clusters
dir_cluster fuel read fat cluster = count_clusters fuel read fat cluster 1

-- `disk_read` into a buffer from its index `at` on.
unfoldable pub read_at : Reader → (id : ℕ) → Buffer → (at count offect : ℕ) → Option ℕ × Buffer
read_at read id buf at count offect =
    let r = read id (λ j. buf (at + j)) count offect in
    (r.0, λ j. if ltb j at then buf j else r.1 (j - at))

-- Where a byte of a cluster lies on the disk.
unfoldable pub cluster_offect : Fat → (cluster offect : ℕ) → ℕ
cluster_offect fat cluster offect =
    add64 (add64 fat.start_cluster (mul32 (sub32 cluster 2) fat.cluster_size)) offect

-- The variables of `read_cluster`.
pub record Progress : Type 0 where
  pub buf : Buffer
  pub n : ℕ
  pub count : ℕ
  pub offect : ℕ
  pub buf_offect : ℕ

-- The part of a round that reads to the end of the cluster: `offect` is 0 already when `buf_offect`
-- is raised. `none` is the return of -1.
unfoldable pub read_rest : Reader → Fat → (cluster : ℕ) → Progress → Option ℕ × Progress
unfolding read_at cluster_offect
read_rest read fat cluster p =
    let size : ℕ = sub64 fat.cluster_size p.offect in
    let r =
      read_at read fat.disk_id p.buf p.buf_offect (size % 2 ^ 32)
        (cluster_offect fat cluster p.offect) in
    (
      r.0,
      record {
        buf = r.1;
        n = elim r.0 [ none ↦ p.n | some i ↦ (p.n + i) % 2 ^ 32 ];
        count = sub64 p.count size % 2 ^ 32;
        offect = 0;
        buf_offect = add64 p.buf_offect (sub64 fat.cluster_size 0);
      },
    )

-- The part that reads all that is left.
unfoldable pub read_last : Reader → Fat → (cluster : ℕ) → Progress → Option ℕ × Buffer
unfolding read_at cluster_offect
read_last read fat cluster p =
    let r =
      read_at read fat.disk_id p.buf p.buf_offect p.count (cluster_offect fat cluster p.offect) in
    (elim r.0 [ none ↦ none | some i ↦ some ((p.n + i) % 2 ^ 32) ], r.1)

-- The loop of `read_cluster`, on fuel: the outer `none` means that the fuel ran out.
unfoldable pub cluster_loop :
    ℕ → Reader → Fat → (cluster : ℕ) → Progress → Option (Option ℕ × Buffer)
cluster_loop zero read fat cluster p = none
cluster_loop (suc fuel) read fat cluster p =
    let next : ℕ = next_cluster read fat cluster in
    let skipped : Progress = record p { offect = sub64 p.offect fat.cluster_size } in
    let go_skipped = cluster_loop fuel read fat next skipped in
    let after_skip = if next == 0 then some (some p.n, p.buf) else go_skipped in
    let (i, q) = read_rest read fat cluster p in
    let go_on = cluster_loop fuel read fat next q in
    let after_rest = if next == 0 then some (some q.n, q.buf) else go_on in
    if ltb p.offect fat.cluster_size
    then if ltb fat.cluster_size (add64 p.offect p.count)
      then elim i [ none ↦ some (none, q.buf) | some _ ↦ after_rest ]
      else some (read_last read fat cluster p)
    else after_skip

unfoldable pub read_cluster :
    ℕ → Reader → Fat → Buffer → (cluster count offect : ℕ) → Option (Option ℕ × Buffer)
unfolding cluster_loop
read_cluster fuel read fat buf cluster count offect =
    cluster_loop fuel read fat cluster
      (record { buf = buf; n = 0; count = count; offect = offect; buf_offect = 0 })
