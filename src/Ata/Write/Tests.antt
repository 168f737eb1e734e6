-- ===== src/Ata/Write/Tests.antt =====
-- The theorems on writing at the drive of Ata/Tests.
use bitch.Base.{◌+◌, ◌%◌, refl, inl, arith, true}
use bitch.Ata.{Buffer, ata_read}
use bitch.Ata.Bounds.{WithinCount, ata_read-WithinCount}
use bitch.Ata.Tests.{image, drive, drive-IsDrive, disks, empty}
use bitch.Ata.Write.{Edges, Accepts, ata_write}
use bitch.Ata.Write.Stored.{Stored, ata_write_lem}
use bitch.Ata.Write.Bounds.{WithinSector, ata_write-WithinSector}

abbrev unused : Edges
unused = record { buf_1 = λ j. 0; buf_2 = λ j. 0 }

abbrev ready : Accepts
ready ws = true

-- Bytes that no sector of the drive holds.
abbrev text : Buffer
text j = 0x100 + j % 0x100

ata_write_lem_example :
    Stored image text 0 700 1000 (ata_write disks drive ready 0 unused text 700 1000)
ata_write_lem_example =
    ata_write_lem disks drive 0 image drive-IsDrive (inl refl) text 700 1000
      (record {
        drive = omega arith;
        sectors = omega arith;
        short = λ e. omega arith;
        pos = omega arith;
        below = omega arith;
        few = omega arith;
      })
      ready (λ ws. refl) unused

ata_write-WithinSector_example :
    WithinSector unused (ata_write disks drive ready 0 unused text 100_000 1000).edges
ata_write-WithinSector_example =
    ata_write-WithinSector disks drive ready 0 unused text 100_000 1000 (omega arith) (omega arith)

ata_read-WithinCount_example : WithinCount empty 100_000 (ata_read disks drive 0 empty 100_000 1000)
ata_read-WithinCount_example = ata_read-WithinCount disks drive 0 empty 100_000 1000
