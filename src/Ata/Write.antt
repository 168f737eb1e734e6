-- ===== src/Ata/Write.antt =====
-- Writing bytes with driver/ata.c: the sectors at both ends, which the request covers in part, are read first
-- into two buffers of the driver.
pub mod Command
pub mod Contents
pub mod Stored
pub mod Bounds
mod Tests
use bitch.Base.{
  ℕ, zero, suc, ◌+◌, ◌-◌, ◌*◌, ◌/◌, ◌%◌, ◌^◌, Bool, true, false, not, Option, none, some, List, [],
  ◌∷◌, ◌++◌, leb, ltb, ◌==◌, if◌then◌else◌, add64, sub64,
}
use bitch.Ata.{
  Ata, AtaState, nodisk, chs, lba28, lba48, AtaIo, Writes, Buffer, Drive, ata_sector_size,
  ata_io_lock, ata_lba28_attr, ata_lba48_attr, end_of_read, ata_read,
}

-- COM_WRITE_SECTORS, COM_WRITE_SECTORS_EXT
abbrev pub com_write_sectors : ℕ
com_write_sectors = 0x30

abbrev pub com_write_sectors_ext : ℕ
com_write_sectors_ext = 0x34

unfoldable pub ata_write_lba28 : AtaIo → (count offect : ℕ) → Writes
unfolding ata_lba28_attr
ata_write_lba28 io count offect =
    ata_lba28_attr io count offect ++ (io.command_io, com_write_sectors) ∷ []

unfoldable pub ata_write_lba48 : AtaIo → (count offect : ℕ) → Writes
unfolding ata_lba48_attr
ata_write_lba48 io count offect =
    ata_lba48_attr io count offect ++ (io.command_io, com_write_sectors_ext) ∷ []

-- `buf_1` and `buf_2`
pub record Edges : Type 0 where
  pub buf_1 : Buffer
  pub buf_2 : Buffer

-- The byte that `ata_write_data` sends for the byte that stands at `at` in the sectors, and at `index` in its
-- own one: the low or the high half of a word.
unfoldable pub load_byte : Edges → Buffer → (count offect index at : ℕ) → ℕ
load_byte e buf count offect index at =
    if ltb at offect
    then e.buf_1 index
    else if leb count (at - offect)
    then e.buf_2 (at - offect - count)
    else buf (at - offect)

-- The inner loop at word `i` of sector `n`: the words that `outw` writes. `|` of a byte and another one
-- shifted by 8 is their sum.
unfoldable pub write_words : Edges → Buffer → (count offect n i left : ℕ) → List ℕ
unfolding load_byte
write_words e buf count offect n i zero = []
write_words e buf count offect n i (suc left) =
    let at : ℕ = n * ata_sector_size + i * 2 in
    (load_byte e buf count offect (i * 2) at
      + load_byte e buf count offect (i * 2 + 1) (at + 1) * 0x100)
    ∷ write_words e buf count offect n (i + 1) left

-- The outer loop at sector `n`.
unfoldable pub write_sectors : Edges → Buffer → (count offect n left : ℕ) → List ℕ
unfolding write_words
write_sectors e buf count offect n zero = []
write_sectors e buf count offect n (suc left) =
    write_words e buf count offect n 0 0x100 ++ write_sectors e buf count offect (n + 1) left

unfoldable pub ata_write_data : Edges → Buffer → (sector_count count offect : ℕ) → List ℕ
unfolding write_sectors
ata_write_data e buf sector_count count offect = write_sectors e buf count offect 0 sector_count

-- What `ata_write` returns and leaves: -1 is `none`; the command and the words that the drive got.
pub record Sent : Type 0 where
  pub result : Option ℕ
  pub edges : Edges
  pub command : Writes
  pub words : List ℕ

abbrev pub unsent : Option ℕ → Edges → Sent
unsent result e = record { result = result; edges = e; command = []; words = [] }

-- Whether the drive takes a command: its status has no error.
abbrev pub Accepts : Type 0
Accepts = Writes → Bool

-- What follows the command, with `count` cut to the sectors.
unfoldable pub transfer :
    Accepts → Edges → Buffer → (command : Writes) (sector_count count offect : ℕ) → Sent
unfolding ata_write_data
transfer accepts e buf command sector_count count offect =
    let room : ℕ = sub64 (sector_count * ata_sector_size % 2 ^ 32) offect in
    let served : ℕ = if ltb room count then room % 2 ^ 32 else count in
    if accepts command
    then record {
      result = some served;
      edges = e;
      command = command;
      words = ata_write_data e buf sector_count served offect;
    }
    else record { result = none; edges = e; command = command; words = [] }

-- The command by the drive's mode.
unfoldable pub send_write :
    Accepts → AtaIo → Edges → Buffer → (count sector_count start_sector offect : ℕ) → Sent
unfolding transfer ata_write_lba28 ata_write_lba48
send_write accepts io e buf count sector_count start_sector offect = elim io.state [
  | lba28 ↦
      transfer accepts e buf (ata_write_lba28 io sector_count start_sector) sector_count count
        offect
  | lba48 ↦
      transfer accepts e buf (ata_write_lba48 io sector_count start_sector) sector_count count
        offect
  | nodisk ↦ unsent none e
  | chs ↦ unsent none e
]

-- The bytes in front of the request in its first sector, and those behind it in its last one; `none` for an
-- error.
unfoldable pub read_front : Ata → Drive → (n : ℕ) → Edges → (offect : ℕ) → Option ℕ × Edges
read_front s drive n e offect =
    let start_offect : ℕ = offect % ata_sector_size in
    let r = ata_read s drive n e.buf_1 start_offect (offect - start_offect) in
    if start_offect == 0 then (some 0, e) else (r.0, record e { buf_1 = r.1 })

unfoldable pub read_back :
    Ata → Drive → (n : ℕ) → Edges → (count offect end_sector : ℕ) → Option ℕ × Edges
read_back s drive n e count offect end_sector =
    let behind : ℕ = add64 count offect in
    let r =
      ata_read s drive n e.buf_2 (sub64 (end_sector * ata_sector_size) behind % 2 ^ 32) behind in
    if ltb behind ((end_sector + 1) * ata_sector_size % 2 ^ 64)
    then (r.0, record e { buf_2 = r.1 })
    else (some 0, e)

-- What `ata_write` does once it has read the bytes in front.
unfoldable pub write_run :
    Ata → Drive → Accepts → (n : ℕ) → Edges → Buffer → (count offect end_sector : ℕ) → Sent
write_run s drive accepts n e buf count offect end_sector =
    let start_sector : ℕ = offect / ata_sector_size in
    let back = read_back s drive n e count offect end_sector in
    elim back.0 [
      | none ↦ unsent none back.1
      | some done ↦
          send_write accepts (ata_io_lock s n) back.1 buf count
            (sub64 end_sector start_sector % 2 ^ 32) start_sector (offect % ata_sector_size)
    ]

unfoldable pub ata_write :
    Ata → Drive → Accepts → (n : ℕ) → Edges → Buffer → (count offect : ℕ) → Sent
ata_write s drive accepts n e buf count offect =
    let front = read_front s drive n e offect in
    if leb 4 n
    then unsent none e
    else if leb (s.ata_sectors n) (offect / ata_sector_size)
    then unsent (some 0) e
    else elim front.0 [
      | none ↦ unsent none front.1
      | some done ↦
          write_run s drive accepts n front.1 buf count offect (end_of_read s n count offect)
    ]
