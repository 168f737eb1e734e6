-- ===== src/Ata.antt =====
-- The disk driver, driver/ata.c: how a request for bytes becomes a command on sectors, and how the
-- words that the drive delivers become bytes. The drive itself is a parameter: what it answers to the
-- bytes written to its ports. The waits for its interrupts are left out.
pub mod Command
pub mod Read
pub mod Identify
pub mod Bounds
pub mod Write
pub mod Tests
use bitch.Base.{
  ℕ, zero, suc, ◌+◌, ◌-◌, ◌*◌, ◌/◌, ◌%◌, ◌^◌, Bool, true, false, Option, none, some, List, [], ◌∷◌,
  ◌++◌, leb, ltb, ◌==◌, ◌&&◌, if◌then◌else◌, add64, sub64, update,
}

-- `_ata_state_t`
pub data AtaState : Type 0 where
  nodisk chs lba28 lba48 : AtaState

-- `ata_state`, as the state of each drive, and `ata_sectors`.
pub record Ata : Type 0 where
  pub state : ℕ → AtaState
  pub ata_sectors : ℕ → ℕ

-- The fields of `_ata_io_t` that reading and writing use.
pub record AtaIo : Type 0 where
  pub data_io : ℕ
  pub sector_count_io : ℕ
  pub lba_low_io : ℕ
  pub lba_mid_io : ℕ
  pub lba_high_io : ℕ
  pub device_io : ℕ
  pub status_io : ℕ
  pub command_io : ℕ
  pub device_reg : ℕ
  pub state : AtaState

-- ATA_SECTOR_SIZE
abbrev pub ata_sector_size : ℕ
ata_sector_size = 0x200

-- COM_READ_SECTORS, COM_READ_SECTORS_EXT
abbrev pub com_read_sectors : ℕ
com_read_sectors = 0x20

abbrev pub com_read_sectors_ext : ℕ
com_read_sectors_ext = 0x24

-- The ports of the first and of the second bus; `ata_io_lock` without the lock.
unfoldable pub ata_io_lock : Ata → ℕ → AtaIo
ata_io_lock s n =
    let base : ℕ = if ltb n 2 then 0x1f0 else 0x170 in
    record {
      data_io = base;
      sector_count_io = base + 2;
      lba_low_io = base + 3;
      lba_mid_io = base + 4;
      lba_high_io = base + 5;
      device_io = base + 6;
      status_io = base + 7;
      command_io = base + 7;
      device_reg = if n % 2 == 0 then 0xa0 else 0xb0;
      state = s.state n;
    }

-- The bytes that `outb_p` writes, each with its port, in their order.
abbrev pub Writes : Type 0
Writes = List (ℕ × ℕ)

-- `& 0x0f` and `|` with DEV_REG_L and `device_reg`: the bits are disjoint but for those that both
-- constants have.
unfoldable pub ata_lba28_attr : AtaIo → (count offect : ℕ) → Writes
ata_lba28_attr io count offect =
    (io.sector_count_io, count % 0x100)
    ∷ (io.lba_low_io, offect % 0x100)
    ∷ (io.lba_mid_io, offect / 0x100 % 0x100)
    ∷ (io.lba_high_io, offect / 0x1_0000 % 0x100)
    ∷ (io.device_io, offect / 0x100_0000 % 0x10 + (if io.device_reg == 0xa0 then 0xe0 else 0xf0))
    ∷ []

unfoldable pub ata_read_lba28 : AtaIo → (count offect : ℕ) → Writes
unfolding ata_lba28_attr
ata_read_lba28 io count offect =
    ata_lba28_attr io count offect ++ (io.command_io, com_read_sectors) ∷ []

unfoldable pub ata_lba48_attr : AtaIo → (count offect : ℕ) → Writes
ata_lba48_attr io count offect =
    (io.sector_count_io, count / 0x100 % 0x100)
    ∷ (io.lba_low_io, offect / 0x100_0000 % 0x100)
    ∷ (io.lba_mid_io, offect / 0x1_0000_0000 % 0x100)
    ∷ (io.lba_high_io, offect / 0x100_0000_0000 % 0x100)
    ∷ (io.sector_count_io, count % 0x100)
    ∷ (io.lba_low_io, offect % 0x100)
    ∷ (io.lba_mid_io, offect / 0x100 % 0x100)
    ∷ (io.lba_high_io, offect / 0x1_0000 % 0x100)
    ∷ (io.device_io, (if io.device_reg == 0xa0 then 0xe0 else 0xf0))
    ∷ []

unfoldable pub ata_read_lba48 : AtaIo → (count offect : ℕ) → Writes
unfolding ata_lba48_attr
ata_read_lba48 io count offect =
    ata_lba48_attr io count offect ++ (io.command_io, com_read_sectors_ext) ∷ []

-- A buffer, by the index of its bytes.
abbrev pub Buffer : Type 0
Buffer = ℕ → ℕ

-- One of the two conditional stores of `ata_read_data`, of the byte that stands at `at` in the sectors.
unfoldable pub store_byte : Buffer → (count offect at value : ℕ) → Buffer
unfolding update
store_byte buf count offect at value =
    if leb offect at && ltb (at - offect) count then update buf (at - offect) value else buf

-- The inner loop of `ata_read_data` at word `i` of sector `n`. `words` are the words that `inw` reads
-- one after the other.
unfoldable pub read_words : (ℕ → ℕ) → Buffer → (count offect n i left : ℕ) → Buffer
unfolding store_byte
read_words words buf count offect n i zero = buf
read_words words buf count offect n i (suc left) =
    let word : ℕ = words (n * 0x100 + i) in
    let at : ℕ = n * ata_sector_size + i * 2 in
    let low : Buffer = store_byte buf count offect at (word % 0x100) in
    read_words words (store_byte low count offect (at + 1) (word / 0x100 % 0x100)) count offect n
      (i + 1) left

-- The outer loop at sector `n`.
unfoldable pub read_sectors : (ℕ → ℕ) → Buffer → (count offect n left : ℕ) → Buffer
unfolding read_words
read_sectors words buf count offect n zero = buf
read_sectors words buf count offect n (suc left) =
    read_sectors words (read_words words buf count offect n 0 (ata_sector_size / 2)) count offect
      (n + 1) left

unfoldable pub ata_read_data : (ℕ → ℕ) → Buffer → (sector_count count offect : ℕ) → Buffer
unfolding read_sectors
ata_read_data words buf sector_count count offect =
    read_sectors words buf count offect 0 sector_count

-- What the drive does on a command: the words that it delivers, or `none` for an error.
abbrev pub Drive : Type 0
Drive = Writes → Option (ℕ → ℕ)

-- `-1` is `none`.
unfoldable pub answer :
    Option (ℕ → ℕ) → Buffer → (sector_count count offect : ℕ) → Option ℕ × Buffer
unfolding ata_read_data
answer none buf sector_count count offect = (none, buf)
answer (some words) buf sector_count count offect =
    let room : ℕ = sub64 (sector_count * ata_sector_size % 2 ^ 32) offect in
    let served : ℕ = if ltb room count then room % 2 ^ 32 else count in
    (some served, ata_read_data words buf sector_count served offect)

-- The command by the drive's mode.
unfoldable pub send_read :
    Drive → AtaIo → Buffer → (count sector_count start_sector offect : ℕ) → Option ℕ × Buffer
unfolding answer ata_read_lba28 ata_read_lba48
send_read drive io buf count sector_count start_sector offect = elim io.state [
  | lba28 ↦
      answer (drive (ata_read_lba28 io sector_count start_sector)) buf sector_count count offect
  | lba48 ↦
      answer (drive (ata_read_lba48 io sector_count start_sector)) buf sector_count count offect
  | nodisk ↦ (none, buf)
  | chs ↦ (none, buf)
]

-- The sector behind the last one that is read.
unfoldable pub end_of_read : Ata → (n count offect : ℕ) → ℕ
end_of_read s n count offect =
    let end_sector : ℕ = sub64 (add64 (add64 offect count) ata_sector_size) 1 / ata_sector_size in
    if leb (s.ata_sectors n) end_sector then sub64 (s.ata_sectors n) 1 else end_sector

-- What `ata_read` does once it knows how many sectors to read.
unfoldable pub read_run :
    Ata → Drive → (n : ℕ) → Buffer → (count offect sector_count : ℕ) → Option ℕ × Buffer
unfolding send_read ata_io_lock
read_run s drive n buf count offect sector_count =
    if sector_count == 0
    then (some 0, buf)
    else send_read drive (ata_io_lock s n) buf count sector_count (offect / ata_sector_size)
        (offect % ata_sector_size)

unfoldable pub ata_read : Ata → Drive → (n : ℕ) → Buffer → (count offect : ℕ) → Option ℕ × Buffer
unfolding read_run end_of_read
ata_read s drive n buf count offect =
    let start_sector : ℕ = offect / ata_sector_size in
    if leb 4 n
    then (none, buf)
    else if leb (s.ata_sectors n) start_sector
    then (some 0, buf)
    else read_run s drive n buf count offect
        (sub64 (end_of_read s n count offect) start_sector % 2 ^ 32)

unfoldable pub get_ata_sectors : Ata → ℕ → ℕ
get_ata_sectors s n = if ltb 4 n then 0 else s.ata_sectors n
