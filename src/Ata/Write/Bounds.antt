-- ===== src/Ata/Write/Bounds.antt =====
-- The two buffers of `ata_write`, which have the size of a sector.
use bitch.Base.{
  ℕ, ◌+◌, ◌-◌, ◌*◌, ◌/◌, ◌%◌, ◌^◌, ◌≤◌, ◌<◌, ◌≡◌, refl, ◌∙◌, ap, inl, inr, true, false, Option,
  some, none, leb, ltb, ◌==◌, arith, Bool-cases, sub64, add64,
}
use bitch.Ata.{
  Ata, AtaIo, AtaState, nodisk, chs, lba28, lba48, Buffer, Drive, Writes, ata_io_lock, end_of_read,
  ata_read,
}
use bitch.Ata.Read.{ata_read-nothing}
use bitch.Ata.Bounds.{WithinCount-same, ata_read-WithinCount}
use bitch.Ata.Write.{
  Edges, Accepts, transfer, send_write, read_front, read_back, write_run, ata_write,
  ata_write_lba28, ata_write_lba48,
}

-- No byte behind the first sector of either buffer has changed.
pub WithinSector : (before after : Edges) → Type 0
WithinSector before after =
    (j : ℕ) → 0x200 ≤ j → (after.buf_1 j ≡ before.buf_1 j) × (after.buf_2 j ≡ before.buf_2 j)

WithinSector-refl : (e : Edges) → WithinSector e e
unfolding WithinSector
WithinSector-refl e = λ j out. (refl, refl)

WithinSector-trans : (a b c : Edges) → WithinSector a b → WithinSector b c → WithinSector a c
unfolding WithinSector
WithinSector-trans a b c p q = λ j out. ((q j out).0 ∙ (p j out).0, (q j out).1 ∙ (p j out).1)

read_front-WithinSector :
    (s : Ata) (drive : Drive) (n : ℕ) (e : Edges) (offect : ℕ)
    → WithinSector e (read_front s drive n e offect).1
unfolding WithinSector read_front
read_front-WithinSector s drive n e offect j out =
    let kept =
      WithinCount-same e.buf_1 (offect % 0x200) j _
        (ata_read-WithinCount s drive n e.buf_1 (offect % 0x200) (offect - offect % 0x200))
        (omega (arith, out)) in
    elim (Bool-cases (offect % 0x200 == 0)) [
      | inl p ↦ rw p (refl, refl)
      | inr p ↦ rw p (kept, refl)
    ]

transfer-edges :
    (accepts : Accepts) (e : Edges) (buf : Buffer) (command : Writes) (sectors count offect : ℕ)
    → (transfer accepts e buf command sectors count offect).edges ≡ e
unfolding transfer
transfer-edges accepts e buf command sectors count offect = elim (Bool-cases (accepts command)) [
  | inl p ↦ rw p refl
  | inr p ↦ rw p refl
]

send_write-edges :
    (accepts : Accepts) (io : AtaIo) (e : Edges) (buf : Buffer) (count sectors start offect : ℕ)
    (mode : AtaState)
    → io.state ≡ mode
    → (send_write accepts io e buf count sectors start offect).edges ≡ e
unfolding send_write
send_write-edges accepts io e buf count sectors start offect nodisk is = rw is refl
send_write-edges accepts io e buf count sectors start offect chs is = rw is refl
send_write-edges accepts io e buf count sectors start offect lba28 is =
    rw is (transfer-edges accepts e buf (ata_write_lba28 io sectors start) sectors count offect)
send_write-edges accepts io e buf count sectors start offect lba48 is =
    rw is (transfer-edges accepts e buf (ata_write_lba48 io sectors start) sectors count offect)

-- Such a request ends with the drive.
end_of_last :
    (s : Ata) (n count offect : ℕ)
    → offect < 2 ^ 63
    → count < 2 ^ 32
    → s.ata_sectors n ≤ (offect + 0x1ff) / 0x200
    → offect / 0x200 < s.ata_sectors n
    → end_of_read s n count offect ≡ offect / 0x200
unfolding end_of_read
end_of_last s n count offect small length past below =
    let whole : sub64 (add64 (add64 offect count) 0x200) 1 / 0x200
        ≡ (offect + count + 0x1ff) / 0x200 =
      omega (arith, small, length) in
    let cut : leb (s.ata_sectors n) ((offect + count + 0x1ff) / 0x200) ≡ true =
      (let longer : s.ata_sectors n ≤ (offect + count + 0x1ff) / 0x200 = omega (arith, past) in
        ground (arith, longer)) in
    rw (whole, cut) (omega (arith, past, below))

-- Nothing is read behind the start of the last sector.
ata_read-past :
    (s : Ata) (drive : Drive) (n : ℕ) (buf : Buffer) (count offect : ℕ)
    → n < 4
    → 0 < s.ata_sectors n
    → offect < 2 ^ 63
    → count < 2 ^ 32
    → s.ata_sectors n ≤ (offect + 0x1ff) / 0x200
    → ata_read s drive n buf count offect ≡ (some 0, buf)
unfolding ata_read
ata_read-past s drive n buf count offect on pos small length past =
    elim (Bool-cases (leb (s.ata_sectors n) (offect / 0x200))) [
      | inl out ↦ (let known : leb 4 n ≡ false = ground (arith, on) in rw (known, out) refl)
      | inr in_last ↦
          (let below : offect / 0x200 < s.ata_sectors n = ground (arith, in_last) in
            ata_read-nothing s drive n buf count offect on below
              (end_of_last s n count offect small length past below))
    ]

module _ (s : Ata) (drive : Drive) (n count offect : ℕ) (on : n < 4)
    (there : offect / 0x200 < s.ata_sectors n) (few : s.ata_sectors n ≤ 2 ^ 48)
    (length : count < 2 ^ 32) where
  -- The last sector of the request, or the last one of the drive.
  end_cases :
      (end : ℕ)
      → end ≡ end_of_read s n count offect
      → (end * 0x200 ≤ offect + count + 0x1ff)
        × (end < s.ata_sectors n)
        × (end * 0x200 < offect + count → end + 1 ≡ s.ata_sectors n)
  unfolding end_of_read
  end_cases end is =
      let whole : sub64 (add64 (add64 offect count) 0x200) 1 / 0x200
          ≡ (offect + count + 0x1ff) / 0x200 =
        omega (arith, there, few, length) in
      elim (Bool-cases (leb (s.ata_sectors n) ((offect + count + 0x1ff) / 0x200))) [
        | inl cut ↦
            let beyond : s.ata_sectors n ≤ (offect + count + 0x1ff) / 0x200 = ground (arith, cut) in
            let here : end ≡ sub64 (s.ata_sectors n) 1 = is ∙ rw (whole, cut) refl in
            let back : end + 1 ≡ s.ata_sectors n = omega (arith, here, there, few) in
            (omega (arith, back, beyond), omega (arith, back), λ behind. back)
        | inr all ↦
            let below : (offect + count + 0x1ff) / 0x200 < s.ata_sectors n = ground (arith, all) in
            let here : end ≡ (offect + count + 0x1ff) / 0x200 = is ∙ rw (whole, all) refl in
            (
              omega (arith, here),
              omega (arith, here, below),
              λ behind. absurd (omega (arith, here, behind)),
            )
      ]

  -- The read of the bytes behind the request: less than a sector, or nothing.
  read_back-kept :
      (e : Edges) (end j : ℕ)
      → end ≡ end_of_read s n count offect
      → 0x200 ≤ j
      → (ata_read s drive n e.buf_2
            (sub64 (end * 0x200) (offect + count) % 2 ^ 32)
            (offect + count)).1
          j
        ≡ e.buf_2 j
  read_back-kept e end j is out =
      let cases = end_cases end is in
      let asked : ℕ = sub64 (end * 0x200) (offect + count) % 2 ^ 32 in
      let read = ata_read-WithinCount s drive n e.buf_2 asked (offect + count) in
      elim (Bool-cases (leb (offect + count) (end * 0x200))) [
        | inl p ↦
            (let before : offect + count ≤ end * 0x200 = ground (arith, p) in
              WithinCount-same e.buf_2 asked j _ read (omega (arith, before, cases.0, out, few)))
        | inr p ↦
            (let behind : end * 0x200 < offect + count = ground (arith, p) in
              let last = cases.2 behind in
              ap (λ r. r.1 j)
                (ata_read-past s drive n e.buf_2 asked (offect + count) on (omega (arith, there))
                  (omega (arith, there, few, length)) (omega arith) (omega (arith, behind, last))))
      ]

  read_back-WithinSector :
      (e : Edges) (end : ℕ)
      → end ≡ end_of_read s n count offect
      → WithinSector e (read_back s drive n e count offect end).1
  unfolding WithinSector read_back
  read_back-WithinSector e end is j out =
      let sum : add64 count offect ≡ offect + count = omega (arith, there, few, length) in
      let kept = read_back-kept e end j is out in
      elim (Bool-cases (ltb (offect + count) ((end + 1) * 0x200 % 2 ^ 64))) [
        | inl p ↦ rw (sum, p) (refl, kept)
        | inr p ↦ rw (sum, p) (refl, refl)
      ]

  write_run-WithinSector :
      (accepts : Accepts) (e : Edges) (buf : Buffer) (end : ℕ)
      → end ≡ end_of_read s n count offect
      → (back : Option ℕ) → (read_back s drive n e count offect end).0 ≡ back
      → WithinSector e (write_run s drive accepts n e buf count offect end).edges
  unfolding write_run WithinSector
  write_run-WithinSector accepts e buf end is none fails =
      rw (write_run, fails) (read_back-WithinSector e end is)
  write_run-WithinSector accepts e buf end is (some done) reads =
      rw (write_run, reads)
        (rw
          (send_write-edges accepts (ata_io_lock s n) (read_back s drive n e count offect end).1 buf
            count _ _ _ _ refl)
          (read_back-WithinSector e end is))

  front_cases :
      (accepts : Accepts) (e : Edges) (buf : Buffer) (front : Option ℕ)
      → (read_front s drive n e offect).0 ≡ front
      → WithinSector e (ata_write s drive accepts n e buf count offect).edges
  unfolding ata_write WithinSector
  front_cases accepts e buf none fails =
      let known : leb 4 n ≡ false = ground (arith, on) in
      let inside : leb (s.ata_sectors n) (offect / 0x200) ≡ false = ground (arith, there) in
      rw (ata_write, known, inside, fails) (read_front-WithinSector s drive n e offect)
  front_cases accepts e buf (some done) reads =
      let known : leb 4 n ≡ false = ground (arith, on) in
      let inside : leb (s.ata_sectors n) (offect / 0x200) ≡ false = ground (arith, there) in
      let front : Edges = (read_front s drive n e offect).1 in
      rw (ata_write, known, inside, reads)
        (WithinSector-trans e front _ (read_front-WithinSector s drive n e offect)
          (write_run-WithinSector accepts front buf (end_of_read s n count offect) refl _ refl))

-- For a drive of at most 2 ^ 48 sectors, whatever it answers, `ata_write` of any bytes changes no byte behind
-- the size of a sector in either of its two buffers.
pub ata_write-WithinSector :
    (s : Ata) (drive : Drive) (accepts : Accepts) (n : ℕ) (e : Edges) (buf : Buffer)
    (count offect : ℕ)
    → s.ata_sectors n ≤ 2 ^ 48
    → count < 2 ^ 32
    → WithinSector e (ata_write s drive accepts n e buf count offect).edges
unfolding ata_write WithinSector
ata_write-WithinSector s drive accepts n e buf count offect few length =
    elim (Bool-cases (leb 4 n)) [
      | inl p ↦ rw (ata_write, p) (WithinSector-refl e)
      | inr p ↦ elim (Bool-cases (leb (s.ata_sectors n) (offect / 0x200))) [
        | inl q ↦ rw (ata_write, p, q) (WithinSector-refl e)
        | inr q ↦
            front_cases s drive n count offect (ground (arith, p)) (ground (arith, q)) few length
              accepts e buf _ refl
      ]
    ]
