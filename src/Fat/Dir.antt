-- ===== src/Fat/Dir.antt =====
-- The directories of kernel/fs/fat.c. An entry is its 32 bytes, read either as a file's entry or as a
-- part of a long name. What a failed read leaves in an entry, which is a local variable, is `stack`.
use bitch.Base.{
  ℕ, zero, suc, ◌+◌, ◌-◌, ◌*◌, ◌/◌, ◌%◌, ◌^◌, Bool, true, false, Option, none, some, ltb, ◌==◌,
  ◌&&◌, ◌||◌, not, if◌then◌else◌, mul32, add64, mul64, update,
}
use bitch.Fat.{Fat, fat16, fat32, Buffer, Reader, word16, word32, dir_cluster, read_cluster}

-- The chain of fallible steps: `none` means that the fuel ran out.
infixl 5 ◌>>=◌
abbrev pub ◌>>=◌ {ℓ κ} : {A : Type ℓ} {B : Type κ} → Option A → (A → Option B) → Option B
none >>= f = none
some a >>= f = f a

-- ATTR_DIR, ATTR_ARCHIVE, ATTR_LFN, FLAG_DEL
abbrev pub attr_dir : ℕ
attr_dir = 0x10

abbrev pub attr_archive : ℕ
attr_archive = 0x20

abbrev pub attr_lfn : ℕ
attr_lfn = 0x0f

abbrev pub flag_del : ℕ
flag_del = 0xe5

-- The fields `order` (or `dos_name[0]`), `attribute` and `reserved`, and the numbers of
-- `_fat_std_dir_t`.
abbrev pub order : Buffer → ℕ
order e = e 0

abbrev pub attribute : Buffer → ℕ
attribute e = e 11

abbrev pub reserved : Buffer → ℕ
reserved e = e 12

abbrev pub first_cluster_high : Buffer → ℕ
first_cluster_high e = word16 e 20

abbrev pub first_cluster_low : Buffer → ℕ
first_cluster_low e = word16 e 26

abbrev pub file_size : Buffer → ℕ
file_size e = word32 e 28

-- `order & FLAG_LAST` and `order & 0x3f`
abbrev pub is_last : Buffer → Bool
is_last e = order e / 0x40 % 2 == 1

abbrev pub part_number : Buffer → ℕ
part_number e = order e % 0x40

-- A part of a long name that is not deleted.
abbrev pub is_part : Buffer → Bool
is_part e = not (order e == flag_del) && attribute e == attr_lfn

-- An entry of a file that is not deleted.
abbrev pub is_file : Buffer → Bool
is_file e = not (order e == flag_del) && not (attribute e == attr_lfn)

unfoldable pub read_dir_entry :
    ℕ → Reader → Fat → (stack : Buffer) → (cluster n : ℕ) → Option Buffer
read_dir_entry fuel read fat stack cluster n = do
  r ← read_cluster fuel read fat stack cluster 32 (mul32 n 32)
  some (r.1)

unfoldable pub read_root_dir_entry : ℕ → Reader → Fat → (stack : Buffer) → (n : ℕ) → Option Buffer
unfolding read_dir_entry
read_root_dir_entry fuel read fat stack n = elim fat.fat_type [
  | fat16 ↦
      some
        (read fat.disk_id stack 32
          (add64 (mul64 fat.root_dir_sector fat.sector_size) (mul32 n 32))).1
  | fat32 ↦ read_dir_entry fuel read fat stack (fat.root_dir_cluster % 2 ^ 32) n
]

-- The loop of `lfn_checksum` with `left` bytes to go, from `i` on.
unfoldable pub checksum_loop : Buffer → (sum i left : ℕ) → ℕ
checksum_loop p sum i zero = sum
checksum_loop p sum i (suc left) =
    checksum_loop p (((if sum % 2 == 1 then 0x80 else 0) + sum / 2 + p i) % 0x100) (i + 1) left

unfoldable pub lfn_checksum : Buffer → ℕ
unfolding checksum_loop
lfn_checksum p = checksum_loop p 0 0 11

unfoldable pub lfn_char : Buffer → ℕ → ℕ
lfn_char lfn n =
    if ltb n 5
    then word16 lfn (1 + 2 * n)
    else if ltb n 11
    then word16 lfn (14 + 2 * (n - 5))
    else if ltb n 13
    then word16 lfn (28 + 2 * (n - 11))
    else 0

-- A `char`, which is signed, against a 16-bit character.
abbrev pub same_char : (c w : ℕ) → Bool
same_char c w = ltb c 0x80 && c == w

-- The loop of `lfn_cmp` from `n` on: whether it finds a difference.
unfoldable pub differ_from : (name : ℕ → ℕ) → Buffer → (n left : ℕ) → Bool
differ_from name lfn n zero = false
differ_from name lfn n (suc left) =
    if same_char (name n) (lfn_char lfn n) then differ_from name lfn (n + 1) left else true

unfoldable pub lfn_cmp : (name : ℕ → ℕ) → Buffer → (len : ℕ) → ℕ
unfolding differ_from
lfn_cmp name lfn len = if differ_from name lfn 0 len then 1 else lfn_char lfn len

-- The loop of `lfn_cpy` from `n` on; the name's bytes are those of `_file_t`, from `at` on.
unfoldable pub copy_part : (name : ℕ → ℕ) → Buffer → (at n left : ℕ) → ℕ × (ℕ → ℕ)
unfolding update
copy_part name lfn at n zero = (n, name)
copy_part name lfn at n (suc left) =
    let c : ℕ = lfn_char lfn n % 0x100 in
    let rest = copy_part (update name (at + n) c) lfn at (n + 1) left in
    if c == 0 then (n, update name (at + n) 0) else rest

unfoldable pub lfn_cpy : (name : ℕ → ℕ) → Buffer → (at : ℕ) → ℕ × (ℕ → ℕ)
unfolding copy_part
lfn_cpy name lfn at = copy_part name lfn at 0 13

-- How the entries of a directory are read.
abbrev pub Entries : Type 0
Entries = ℕ → Option Buffer

-- `name + k`
abbrev pub behind : (ℕ → ℕ) → ℕ → ℕ → ℕ
behind name k j = name (k + j)

-- The test of an entry for the last part of a name of `lfn_count` parts, and for its part `i`.
abbrev pub is_last_of : (name : ℕ → ℕ) → (lfn_count last_len : ℕ) → Buffer → Bool
is_last_of name lfn_count last_len e =
    is_part e
    && is_last e
    && part_number e == lfn_count
    && lfn_cmp (behind name ((lfn_count - 1) * 13)) e last_len == 0

abbrev pub is_part_of : (name : ℕ → ℕ) → (i : ℕ) → Buffer → Bool
is_part_of name i e =
    is_part e
    && not (is_last e)
    && part_number e == i
    && lfn_cmp (behind name ((i - 1) * 13)) e 13 == 0

-- The inner loop of `get_root_file` and `get_file` from `i` on: the final `i`, and the entry that was
-- read last. `at` is `n + lfn_count`.
unfoldable pub check_parts :
    Entries → (name : ℕ → ℕ) → (at i : ℕ) → (last : Buffer) → Option (ℕ × Buffer)
check_parts entry name at zero last = some (0, last)
check_parts entry name at (suc i) last = entry (at - suc i) >>= λ e.
    let rest = check_parts entry name at i e in
    if is_part_of name (suc i) e then rest else some (suc i, e)

-- The outer loop of both, at `n`, on fuel; `last` is the entry that was read last. At the end that
-- entry is marked as deleted.
unfoldable pub search_name :
    ℕ
    → Entries
    → (name : ℕ → ℕ) → (lfn_count last_len dir_count n : ℕ) → (last : Buffer) → Option Buffer
unfolding update
search_name zero entry name lfn_count last_len dir_count n last = none
search_name (suc fuel) entry name lfn_count last_len dir_count n last =
    let go = λ (m : ℕ) (e : Buffer). search_name fuel entry name lfn_count last_len dir_count m e in
    let behind_parts =
      λ (e : Buffer). entry (n + lfn_count) >>= λ f. if is_file f then some f else go (n + 1) f in
    let matched = λ (e : Buffer). check_parts entry name (n + lfn_count) (lfn_count - 1) e >>= λ r.
    if r.0 == 0 then behind_parts r.1 else go (n + (lfn_count - r.0 - 1) + 1) r.1 in
    if ltb n dir_count
    then (entry n >>= λ e. if is_last_of name lfn_count last_len e then matched e else go (n + 1) e)
    else some (update last 0 flag_del)

-- `lfn_count` and `last_len` of a name.
abbrev pub part_count : ℕ → ℕ
part_count len = (len + 12) / 13

abbrev pub last_part : ℕ → ℕ
last_part len = if len % 13 == 0 then 13 else len % 13

-- The root directory of a FAT32 volume has as many entries as its clusters hold.
unfoldable pub dir_entries : ℕ → Reader → Fat → (cluster : ℕ) → Option ℕ
unfolding dir_cluster
dir_entries fuel read fat cluster =
    dir_cluster fuel read fat cluster >>= λ n. some (mul32 fat.cluster_size n / 32)

unfoldable pub root_entries : ℕ → Reader → Fat → Option ℕ
unfolding dir_entries
root_entries fuel read fat = elim fat.fat_type [
  | fat16 ↦ some fat.root_dir_count
  | fat32 ↦ dir_entries fuel read fat (fat.root_dir_cluster % 2 ^ 32)
]

unfoldable pub get_root_file :
    ℕ → Reader → Fat → (stack : Buffer) → (name : ℕ → ℕ) → (len : ℕ) → Option Buffer
unfolding search_name root_entries read_root_dir_entry
get_root_file fuel read fat stack name len = root_entries fuel read fat >>= λ count.
    search_name (count + 1) (read_root_dir_entry fuel read fat stack) name (part_count len)
      (last_part len) count 0 stack

-- The first cluster of an entry.
unfoldable pub entry_cluster : Fat → Buffer → ℕ
entry_cluster fat e = elim fat.fat_type [
  | fat16 ↦ first_cluster_low e
  | fat32 ↦ first_cluster_low e + first_cluster_high e % 0x1_0000 * 0x1_0000
]

-- Whether an entry is no directory.
abbrev pub no_dir : Buffer → Bool
no_dir e = (order e == flag_del) || not (attribute e / attr_dir % 2 == 1)

unfoldable pub get_file :
    ℕ → Reader → Fat → (stack dir : Buffer) → (name : ℕ → ℕ) → (len : ℕ) → Option Buffer
unfolding search_name dir_entries read_dir_entry entry_cluster update
get_file fuel read fat stack dir name len =
    if no_dir dir
    then some (update stack 0 flag_del)
    else (dir_entries fuel read fat (entry_cluster fat dir) >>= λ count.
        search_name (count + 1) (read_dir_entry fuel read fat stack (entry_cluster fat dir)) name
          (part_count len) (last_part len) count 0 stack)
