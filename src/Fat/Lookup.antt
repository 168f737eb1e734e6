-- ===== src/Fat/Lookup.antt =====
-- The rest of kernel/fs/fat.c: listing a directory, paths, and the calls from outside.
use bitch.Base.{
  ℕ, zero, suc, ◌+◌, ◌-◌, ◌*◌, ◌/◌, ◌%◌, ◌^◌, Bool, true, false, Option, none, some, leb, ltb, ◌==◌,
  ◌&&◌, ◌||◌, not, if◌then◌else◌, sub32, mul32, add32, add64, sub64, mul64, update, List, [], ◌∷◌,
  get_or,
}
use bitch.Fat.{Fat, fat16, fat32, Buffer, Reader, word16, word32, read_cluster}
use bitch.Fat.Dir.{
  ◌>>=◌, attr_dir, attr_archive, flag_del, order, attribute, reserved, file_size, is_last,
  part_number, is_part, is_file, no_dir, Entries, behind, lfn_cpy, read_dir_entry,
  read_root_dir_entry, dir_entries, root_entries, entry_cluster, get_root_file, get_file,
}
use bitch.Strings.{memcmp, strchr, strlen}

-- `_file_type_t` and `_file_t`
pub data FileType : Type 0 where
  file_reg file_dir : FileType

pub record File : Type 0 where
  pub name : ℕ → ℕ
  pub name_len : ℕ
  pub type : FileType

-- The inner loop of `read_root_dir` and `read_dir` from `i` on: whether it comes to its end, and the
-- file's name. `at` is `n + lfn_count`.
unfoldable pub copy_parts : Entries → (at i : ℕ) → File → Option (Bool × File)
unfolding lfn_cpy
copy_parts entry at zero file = some (true, file)
copy_parts entry at (suc i) file = entry (sub32 at (suc i)) >>= λ e.
    let part : ℕ × (ℕ → ℕ) = lfn_cpy file.name e (mul32 (sub32 (part_number e) 1) 13) in
    let rest = copy_parts entry at i (record file { name = part.1 }) in
    if is_part e && not (is_last e) then rest else some (false, file)

-- The type of a file by the high bits of its attribute; only the root directory lists those with none.
unfoldable pub type_of : (root : Bool) → Buffer → Option FileType
type_of root e =
    let kind : ℕ = attribute e / 0x10 % 0x10 * 0x10 in
    if kind == attr_dir
    then some file_dir
    else if kind == attr_archive
    then some file_reg
    else if root && kind == 0
    then some file_reg
    else none

-- The outer loop of both, at `n`, on fuel.
unfoldable pub list_loop :
    ℕ → Entries → (root : Bool) → (dir_count n offect : ℕ) → File → Option File
unfolding copy_parts type_of lfn_cpy
list_loop zero entry root dir_count n offect file = none
list_loop (suc fuel) entry root dir_count n offect file =
    let go = λ (m o : ℕ) (f : File). list_loop fuel entry root dir_count m o f in
    let finish = λ (e : Buffer) (f : File).
      elim (if is_file e then type_of root e else none) as (λ _. Option File) [
        | some t ↦ some (record f { type = t })
        | none ↦ go (n + 1) 0 f
      ] in
    let take = λ (e : Buffer).
      let lfn_count : ℕ = part_number e in
      let at : ℕ = mul32 (sub32 lfn_count 1) 13 in
      let part : ℕ × (ℕ → ℕ) = lfn_cpy file.name e at in
      let named : File = record file { name = part.1; name_len = add32 at part.0 } in
      copy_parts entry (add32 n lfn_count) (sub32 lfn_count 1) named >>= λ r.
      if r.0 then (entry (add32 n lfn_count) >>= λ f. finish f r.1) else go (n + 1) 0 r.1 in
    if ltb n dir_count
    then (entry n >>= λ e.
        if is_part e && is_last e
        then (if offect == 0 then take e else go (n + part_number e + 1) (offect - 1) file)
        else go (n + 1) offect file)
    else some (record file { name_len = 0 })

-- `file` is the contents of the local variable before it is set.
unfoldable pub read_root_dir :
    ℕ → Reader → Fat → (stack : Buffer) → File → (offect : ℕ) → Option File
unfolding list_loop root_entries read_root_dir_entry
read_root_dir fuel read fat stack file offect = root_entries fuel read fat >>= λ count.
    list_loop (count + 1) (read_root_dir_entry fuel read fat stack) true count 0 offect file

unfoldable pub read_dir :
    ℕ → Reader → Fat → (stack : Buffer) → File → (dir : Buffer) → (offect : ℕ) → Option File
unfolding list_loop dir_entries read_dir_entry entry_cluster
read_dir fuel read fat stack file dir offect =
    if no_dir dir
    then some (record file { name_len = 0 })
    else (dir_entries fuel read fat (entry_cluster fat dir) >>= λ count.
        list_loop (count + 1) (read_dir_entry fuel read fat stack (entry_cluster fat dir)) false
          count 0 offect file)

-- The inner `none` is the return of -1.
unfoldable pub read_file :
    ℕ → Reader → Fat → (file buf : Buffer) → (count offect : ℕ) → Option (Option ℕ × Buffer)
unfolding entry_cluster
read_file fuel read fat file buf count offect =
    let left : ℕ = sub64 (file_size file) offect % 2 ^ 32 in
    let served : ℕ = if ltb (file_size file) (add64 offect count) then left else count in
    if (order file == flag_del) || not (attribute file / attr_archive % 2 == 1)
    then some (none, buf)
    else if leb (file_size file) offect
    then some (some 0, buf)
    else read_cluster fuel read fat buf (entry_cluster fat file) served offect

-- '/'
abbrev pub slash : ℕ
slash = 0x2f

-- One name of a path, from the root directory while `file` is the mark for it.
unfoldable pub look_up :
    ℕ → Reader → Fat → (stack file : Buffer) → (name : ℕ → ℕ) → (len : ℕ) → Option Buffer
unfolding get_root_file get_file
look_up fuel read fat stack file name len =
    if reserved file == slash
    then get_root_file fuel read fat stack name len
    else get_file fuel read fat stack file name len

-- The loop of `get_path` from the index `at` of the path on.
unfoldable pub path_loop :
    ℕ → Reader → Fat → (stack file : Buffer) → (path : ℕ → ℕ) → (at : ℕ) → Option Buffer
unfolding look_up
path_loop zero read fat stack file path at = none
path_loop (suc fuel) read fat stack file path at =
    let go = λ (f : Buffer) (k : ℕ). path_loop fuel read fat stack f path k in
    strchr fuel path slash at >>= λ found. elim found [
      | none ↦ strlen fuel path at >>= λ end.
          if end == at
          then some file
          else look_up fuel read fat stack file (behind path at) (end - at)
      | some k ↦
          if k == at
          then go file (at + 1)
          else (look_up fuel read fat stack file (behind path at) (k - at) >>= λ f.
              if order f == flag_del then some f else go f (k + 1))
    ]

unfoldable pub get_path : ℕ → Reader → Fat → (stack : Buffer) → (path : ℕ → ℕ) → Option Buffer
unfolding path_loop update
get_path fuel read fat stack path = path_loop fuel read fat stack (update stack 12 slash) path 0

unfoldable pub fat_readdir :
    ℕ → Reader → Fat → (stack : Buffer) → File → (path : ℕ → ℕ) → (n : ℕ) → Option File
unfolding get_path read_root_dir read_dir
fat_readdir fuel read fat stack file path n = get_path fuel read fat stack path >>= λ dir.
    if reserved dir == slash
    then read_root_dir fuel read fat stack file n
    else read_dir fuel read fat stack file dir n

unfoldable pub fat_read :
    ℕ
    → Reader
    → Fat
    → (stack : Buffer) → (path : ℕ → ℕ) → (buf : Buffer) → (count offect : ℕ)
    → Option (Option ℕ × Buffer)
unfolding get_path read_file
fat_read fuel read fat stack path buf count offect = get_path fuel read fat stack path >>= λ file.
    if reserved file == slash
    then some (none, buf)
    else read_file fuel read fat file buf count offect

-- `fat_write` always returns -1.
abbrev pub fat_write : (buf : Buffer) → Option ℕ × Buffer
fat_write buf = (none, buf)

-- "FAT16   " and "FAT32   "
abbrev fat16_name : List ℕ
fat16_name = 0x46 ∷ 0x41 ∷ 0x54 ∷ 0x31 ∷ 0x36 ∷ 0x20 ∷ 0x20 ∷ 0x20 ∷ []

abbrev fat32_name : List ℕ
fat32_name = 0x46 ∷ 0x41 ∷ 0x54 ∷ 0x33 ∷ 0x32 ∷ 0x20 ∷ 0x20 ∷ 0x20 ∷ []

-- The bytes of the header at which the fields of `_fat_header_t` stand.
abbrev sector_size_of : Buffer → ℕ
sector_size_of h = word16 h 8

abbrev cluster_sectors_of : Buffer → ℕ
cluster_sectors_of h = h 10

abbrev reserved_sectors_of : Buffer → ℕ
reserved_sectors_of h = word16 h 11

abbrev table_count_of : Buffer → ℕ
table_count_of h = h 13

abbrev root_dir_count_of : Buffer → ℕ
root_dir_count_of h = word16 h 14

-- The fields that `fat_init` sets in either case.
abbrev common_fields : Fat → Buffer → Fat
common_fields fat h = record fat {
  sector_size = sector_size_of h;
  cluster_size = cluster_sectors_of h * sector_size_of h;
  fat_sector = reserved_sectors_of h;
  root_dir_count = root_dir_count_of h;
}

-- `_fat_t` by the header of a FAT16 volume, and by that of a FAT32 volume.
unfoldable pub fat16_of : Fat → Buffer → Fat
fat16_of fat h =
    let root : ℕ = reserved_sectors_of h + word16 h 19 * table_count_of h in
    record fat {
      fat_type = fat16;
      root_dir_sector = root;
      start_cluster = add64 (mul64 root (sector_size_of h)) (mul32 (root_dir_count_of h) 32);
    }

unfoldable pub fat32_of : Fat → Buffer → Fat
fat32_of fat h =
    let tables : ℕ = add32 (reserved_sectors_of h) (mul32 (word32 h 33) (table_count_of h)) in
    let root : ℕ = word32 h 41 in
    record fat {
      fat_type = fat32;
      start_cluster = mul32 tables (sector_size_of h);
      root_dir_sector = add32 tables (mul32 (sub32 root 2) (cluster_sectors_of h));
      root_dir_cluster = root;
    }

-- `header` and `fat` are the contents of the local variables before they are set; if the read fails,
-- they are used as they are. `none` is the return of NULL; `full` says whether `kmalloc` returns NULL.
unfoldable pub fat_init : Reader → (id : ℕ) → (header : Buffer) → Fat → (full : Bool) → Option Fat
unfolding fat16_of fat32_of memcmp
fat_init read id header fat full =
    let r = read id header 87 3 in
    let own : Fat = record fat { disk_id = id } in
    let made = λ (f : Fat). if full then none else some (common_fields f r.1) in
    elim r.0 [
      | none ↦ made own
      | some _ ↦
          if memcmp (behind r.1 51) (λ j. get_or fat16_name j 0) 8 == 0
          then made (fat16_of own r.1)
          else if memcmp (behind r.1 79) (λ j. get_or fat32_name j 0) 8 == 0
          then made (fat32_of own r.1)
          else none
    ]
