-- ===== src/Fs.antt =====
-- The file system layer, kernel/fs/fs.c: the calls go to the file system that the volume holds.
use bitch.Base.{ℕ, Bool, Option, none, some}
use bitch.Fat.{Fat, Buffer, Reader}
use bitch.Fat.Lookup.{File, fat_readdir, fat_read, fat_write, fat_init}

-- `_fs_t`: its type FS_RAW or FS_FAT, the latter with the volume that `info` points to.
pub data Fs : Type 0 where
  fs_raw : Fs
  fs_fat : Fat → Fs

-- `file` is the content of the local variable before it is set.
unfoldable pub fs_readdir :
    ℕ → Reader → Fs → (stack : Buffer) → (file : File) → (path : ℕ → ℕ) → (n : ℕ) → Option File
fs_readdir fuel read fs stack file path n = elim fs [
  | fs_raw ↦ some (record file { name_len = 0 })
  | fs_fat fat ↦ fat_readdir fuel read fat stack file path n
]

unfoldable pub fs_read :
    ℕ
    → Reader
    → Fs
    → (stack : Buffer) → (path : ℕ → ℕ) → (buf : Buffer) → (count offect : ℕ)
    → Option (Option ℕ × Buffer)
fs_read fuel read fs stack path buf count offect = elim fs [
  | fs_raw ↦ some (none, buf)
  | fs_fat fat ↦ fat_read fuel read fat stack path buf count offect
]

unfoldable pub fs_write : Fs → (buf : Buffer) → Option ℕ × Buffer
fs_write fs buf = elim fs [ fs_raw ↦ (none, buf) | fs_fat fat ↦ fat_write buf ]

unfoldable pub disk_fs_init : Reader → (id : ℕ) → (header : Buffer) → Fat → (full : Bool) → Fs
disk_fs_init read id header fat full = elim (fat_init read id header fat full) [
  | none ↦ fs_raw
  | some f ↦ fs_fat f
]
