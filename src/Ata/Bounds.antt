-- ===== src/Ata/Bounds.antt =====
-- The bytes of a buffer that driver/ata.c may change.
use bitch.Base.{
  ℕ, zero, suc, ◌+◌, ◌*◌, ◌/◌, ◌%◌, ◌^◌, ◌≤◌, ◌≡◌, refl, ◌∙◌, inl, inr, Option, some, none, leb,
  ltb, ◌==◌, if◌then◌else◌, arith, Bool-cases, update, sub64,
}
use bitch.Ata.{
  Ata, AtaIo, AtaState, nodisk, chs, lba28, lba48, Buffer, Drive, ata_sector_size, store_byte,
  read_words, read_sectors, ata_read_data, answer, send_read, read_run, ata_io_lock, ata_read,
  ata_read_lba28, ata_read_lba48,
}

store_byte-same :
    (buf : Buffer) (count offect at value j : ℕ)
    → count ≤ j
    → store_byte buf count offect at value j ≡ buf j
unfolding store_byte update
store_byte-same buf count offect at value j out = ground arith

read_words-same :
    (words : ℕ → ℕ) (buf : Buffer) (count offect n i left j : ℕ)
    → count ≤ j
    → read_words words buf count offect n i left j ≡ buf j
unfolding read_words
read_words-same words buf count offect n i zero j out = refl
read_words-same words buf count offect n i (suc left) j out =
    let word : ℕ = words (n * 0x100 + i) in
    let at : ℕ = n * ata_sector_size + i * 2 in
    let low : Buffer = store_byte buf count offect at (word % 0x100) in
    let both : Buffer = store_byte low count offect (at + 1) (word / 0x100 % 0x100) in
    read_words-same words both count offect n (i + 1) left j out
    ∙ store_byte-same low count offect (at + 1) (word / 0x100 % 0x100) j out
    ∙ store_byte-same buf count offect at (word % 0x100) j out

read_sectors-same :
    (words : ℕ → ℕ) (buf : Buffer) (count offect n left j : ℕ)
    → count ≤ j
    → read_sectors words buf count offect n left j ≡ buf j
unfolding read_sectors
read_sectors-same words buf count offect n zero j out = refl
read_sectors-same words buf count offect n (suc left) j out =
    read_sectors-same words (read_words words buf count offect n 0 0x100) count offect (n + 1) left
      j out
    ∙ read_words-same words buf count offect n 0 0x100 j out

-- A result that is at most the bytes that were asked for, with a buffer that has changed in that many bytes
-- at most; in none when there was an error.
pub WithinCount : (buf : Buffer) (count : ℕ) → Option ℕ × Buffer → Type 0
WithinCount buf count (none, after) = (j : ℕ) → after j ≡ buf j
WithinCount buf count (some done, after) = (done ≤ count) × ((j : ℕ) → done ≤ j → after j ≡ buf j)

pub WithinCount-same :
    (buf : Buffer) (count j : ℕ) (r : Option ℕ × Buffer)
    → WithinCount buf count r
    → count ≤ j
    → r.1 j ≡ buf j
unfolding WithinCount
WithinCount-same buf count j (none, after) kept out = kept j
WithinCount-same buf count j (some done, after) kept out = kept.1 j (omega (arith, kept.0, out))

answer-WithinCount :
    (words : Option (ℕ → ℕ)) (buf : Buffer) (sector_count count offect : ℕ)
    → WithinCount buf count (answer words buf sector_count count offect)
unfolding WithinCount answer ata_read_data
answer-WithinCount none buf sector_count count offect = λ j. refl
answer-WithinCount (some words) buf sector_count count offect =
    let room : ℕ = sub64 (sector_count * ata_sector_size % 2 ^ 32) offect in
    let served : ℕ = if ltb room count then room % 2 ^ 32 else count in
    let few : served ≤ count = ground arith in
    (few, λ j out. read_sectors-same words buf served offect 0 sector_count j out)

send_read-WithinCount :
    (drive : Drive) (io : AtaIo) (buf : Buffer) (count sector_count start_sector offect : ℕ)
    (mode : AtaState)
    → io.state ≡ mode
    → WithinCount buf count (send_read drive io buf count sector_count start_sector offect)
unfolding WithinCount send_read
send_read-WithinCount drive io buf count sector_count start_sector offect nodisk is =
    rw is (λ j. refl)
send_read-WithinCount drive io buf count sector_count start_sector offect chs is = rw is (λ j. refl)
send_read-WithinCount drive io buf count sector_count start_sector offect lba28 is = rw is (
    answer-WithinCount (drive (ata_read_lba28 io sector_count start_sector)) buf sector_count count
      offect)
send_read-WithinCount drive io buf count sector_count start_sector offect lba48 is = rw is (
    answer-WithinCount (drive (ata_read_lba48 io sector_count start_sector)) buf sector_count count
      offect)

read_run-WithinCount :
    (s : Ata) (drive : Drive) (n : ℕ) (buf : Buffer) (count offect sector_count : ℕ)
    → WithinCount buf count (read_run s drive n buf count offect sector_count)
unfolding WithinCount read_run
read_run-WithinCount s drive n buf count offect sector_count =
    elim (Bool-cases (sector_count == 0)) [
      | inl e ↦ rw e (omega arith, λ j out. refl)
      | inr e ↦ rw e (
          send_read-WithinCount drive (ata_io_lock s n) buf count sector_count
            (offect / ata_sector_size) (offect % ata_sector_size) (ata_io_lock s n).state refl)
    ]

-- Whatever the drive answers, `ata_read` returns -1 and leaves the buffer as it was, or returns at most the
-- number of bytes that were asked for and changes no byte of the buffer behind that many.
pub ata_read-WithinCount :
    (s : Ata) (drive : Drive) (n : ℕ) (buf : Buffer) (count offect : ℕ)
    → WithinCount buf count (ata_read s drive n buf count offect)
unfolding WithinCount ata_read
ata_read-WithinCount s drive n buf count offect = elim (Bool-cases (leb 4 n)) [
  | inl e ↦ rw e (λ j. refl)
  | inr e ↦ elim (Bool-cases (leb (s.ata_sectors n) (offect / 0x200))) [
    | inl f ↦ rw (e, f) (omega arith, λ j out. refl)
    | inr f ↦ rw (e, f) (read_run-WithinCount s drive n buf count offect _)
  ]
]
