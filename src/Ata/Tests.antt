-- ===== src/Ata/Tests.antt =====
-- The theorems on the disk driver at a drive of 100 sectors.
use bitch.Base.{ℕ, ◌+◌, ◌*◌, ◌%◌, ◌≡◌, ◌<◌, refl, ap, inl, some, none, Option, Served, arith}
use bitch.Ata.{Ata, lba28, Buffer, Drive, ata_read}
use bitch.Ata.Command.{requested, Request}
use bitch.Ata.Read.{IsDrive, ata_read_lem, ata_read-last_sector}

abbrev pub image : ℕ → ℕ
image b = b % 0x100

-- A drive on the first bus with some contents.
abbrev words_of : (ℕ → ℕ) → Request → ℕ → ℕ
words_of bytes r k = bytes (r.first * 0x200 + 2 * k) + bytes (r.first * 0x200 + (2 * k + 1)) * 0x100

abbrev respond : (ℕ → ℕ) → Option Request → Option (ℕ → ℕ)
respond bytes none = none
respond bytes (some r) = some (words_of bytes r)

abbrev pub drive_of : (ℕ → ℕ) → Drive
drive_of bytes ws = respond bytes (requested 0 ws)

pub drive_of-IsDrive :
    (bytes : ℕ → ℕ) → ((b : ℕ) → bytes b < 0x100) → IsDrive (drive_of bytes) 0 bytes
drive_of-IsDrive bytes small ws r e = (
  words_of bytes r,
  ap (respond bytes) e,
  λ k h.
      let low = small (r.first * 0x200 + 2 * k) in
      let high = small (r.first * 0x200 + (2 * k + 1)) in
      (omega (arith, low, high), omega (arith, low, high)),
)

abbrev pub drive : Drive
drive = drive_of image

pub drive-IsDrive : IsDrive drive 0 image
drive-IsDrive = drive_of-IsDrive image (λ b. omega arith)

abbrev pub disks : Ata
disks = record { state = λ n. lba28; ata_sectors = λ n. 100 }

abbrev pub empty : Buffer
empty j = 0

ata_read_lem_example : Served image empty 700 1000 (ata_read disks drive 0 empty 700 1000)
ata_read_lem_example =
    ata_read_lem disks drive 0 image drive-IsDrive empty 700 1000
      (record {
        drive = omega arith;
        sectors = omega arith;
        short = λ e. omega arith;
        pos = omega arith;
        below = omega arith;
        few = omega arith;
      })
      (inl refl)

ata_read-last_sector_example : ata_read disks drive 0 empty 10 (99 * 0x200) ≡ (some 0, empty)
ata_read-last_sector_example =
    ata_read-last_sector disks drive 0 empty 10 (99 * 0x200) (omega arith) (omega arith)
      (omega arith) (omega arith) (omega arith)
