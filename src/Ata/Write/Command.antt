-- ===== src/Ata/Write/Command.antt =====
-- What a drive understands of the commands of `ata_write`.
use bitch.Base.{ℕ, ◌/◌, ◌%◌, arith, ◌^◌, ◌≤◌, ◌<◌, ◌≡◌, inl, inr, Option, some, ltb, Bool-cases}
use bitch.Ata.{Ata, Writes, ata_io_lock}
use bitch.Ata.Command.{
  Request, asked, request_eq, device_base, selects-device_base, device_base-selects, address_28,
  count_28, address_48, count_48,
}
use bitch.Ata.Write.{com_write_sectors, com_write_sectors_ext, ata_write_lba28, ata_write_lba48}

-- What a drive is asked to write.
abbrev pub replaced : (n : ℕ) → Writes → Option Request
replaced n ws = asked com_write_sectors com_write_sectors_ext n ws

pub replaced-ata_write_lba28 :
    (s : Ata) (n count offect : ℕ)
    → 0 < count
    → count ≤ 0x100
    → offect < 2 ^ 28
    → replaced n (ata_write_lba28 (ata_io_lock s n) count offect)
      ≡ some (record { first = offect; count = count })
unfolding ata_write_lba28 ata_io_lock device_base
replaced-ata_write_lba28 s n count offect pos most low = elim (Bool-cases (ltb n 2)) [
  | inl e ↦
      rw (e, selects-device_base n (offect / 0x100_0000 % 0x10) (omega arith))
        (request_eq _ offect _ count (address_28 n offect low) (count_28 count pos most))
  | inr e ↦
      rw (e, selects-device_base n (offect / 0x100_0000 % 0x10) (omega arith))
        (request_eq _ offect _ count (address_28 n offect low) (count_28 count pos most))
]

pub replaced-ata_write_lba48 :
    (s : Ata) (n count offect : ℕ)
    → 0 < count
    → count ≤ 0x1_0000
    → offect < 2 ^ 48
    → replaced n (ata_write_lba48 (ata_io_lock s n) count offect)
      ≡ some (record { first = offect; count = count })
unfolding ata_write_lba48 ata_io_lock device_base
replaced-ata_write_lba48 s n count offect pos most low = elim (Bool-cases (ltb n 2)) [
  | inl e ↦
      rw (e, device_base-selects n)
        (request_eq _ offect _ count (address_48 offect low) (count_48 count pos most))
  | inr e ↦
      rw (e, device_base-selects n)
        (request_eq _ offect _ count (address_48 offect low) (count_48 count pos most))
]
