-- ===== src/Ata/Read.antt =====
-- Reading bytes with driver/ata.c.
use bitch.Base.{
  ℕ, zero, suc, ◌+◌, ◌-◌, ◌*◌, ◌/◌, ◌%◌, ◌^◌, ◌≤◌, ◌<◌, ◌≡◌, refl, ◌∙◌, ap, ◌⊎◌, inl, inr, true,
  false, some, leb, ltb, ◌==◌, ◌&&◌, if◌then◌else◌, update, arith, Bool-cases, ==→eq, le→ltb, sub64,
  add64, Served, join_ranges, ne→==,
}
use bitch.Ata.Command.{Request, requested, requested-ata_read_lba28, requested-ata_read_lba48}
use bitch.Ata.{
  Ata, lba28, lba48, Buffer, Drive, ata_sector_size, store_byte, read_words, read_sectors,
  ata_read_data, Writes, answer, ata_read, send_read, read_run, end_of_read, ata_io_lock,
  ata_read_lba28, ata_read_lba48,
}

-- The words hold the bytes `bytes`, two by two, the low one first.
abbrev pub Holds : (ℕ → ℕ) → (ℕ → ℕ) → (k : ℕ) → Type 0
Holds words bytes k =
    (words k % 0x100 ≡ bytes (2 * k)) × (words k / 0x100 % 0x100 ≡ bytes (2 * k + 1))

store_byte_lem :
    (bytes : ℕ → ℕ) (buf : Buffer) (count offect at q : ℕ)
    → store_byte buf count offect at (bytes at) q
      ≡ (if (q + offect == at) && ltb q count then bytes (q + offect) else buf q)
unfolding store_byte update
store_byte_lem bytes buf count offect at q = elim (Bool-cases (q + offect == at)) [
  | inl e ↦
      let here : q + offect ≡ at = ==→eq (q + offect) at e in
      let index : at - offect ≡ q = omega arith in rw (e, here, index) (ground arith)
  | inr e ↦ rw e (ground arith)
]

store_word_lem :
    (bytes : ℕ → ℕ) (buf : Buffer) (count offect at q : ℕ)
    → store_byte
        (store_byte buf count offect at (bytes at))
        count
        offect
        (at + 1)
        (bytes (at + 1))
        q
      ≡ (if leb at (q + offect) && ltb (q + offect) (at + 2) && ltb q count
          then bytes (q + offect)
          else buf q)
store_word_lem bytes buf count offect at q =
    let first : Buffer = store_byte buf count offect at (bytes at) in
    store_byte_lem bytes first count offect (at + 1) q
    ∙ rw (store_byte_lem bytes buf count offect at q) (ground arith)

module _ (words bytes : ℕ → ℕ) (count offect top : ℕ)
    (held : (k : ℕ) → k < top → Holds words bytes k) where
  read_words_lem :
      (left : ℕ) (buf : Buffer) (n i q : ℕ)
      → n * 0x100 + i + left ≤ top
      → read_words words buf count offect n i left q ≡ (
          if leb (n * 0x200 + 2 * i) (q + offect)
            && ltb (q + offect) (n * 0x200 + 2 * (i + left))
            && ltb q count
          then bytes (q + offect)
          else buf q)
  unfolding read_words
  read_words_lem zero buf n i q below = ground arith
  read_words_lem (suc left) buf n i q below =
      let at : ℕ = n * 0x200 + i * 2 in
      let k : ℕ = n * 0x100 + i in
      let low : words k % 0x100 ≡ bytes at = (held k (omega arith)).0 ∙ ap bytes (omega arith) in
      let high : words k / 0x100 % 0x100 ≡ bytes (at + 1) =
        (held k (omega arith)).1 ∙ ap bytes (omega arith) in
      let word : Buffer =
        store_byte (store_byte buf count offect at (bytes at)) count offect (at + 1)
          (bytes (at + 1)) in
      let from : n * 0x200 + 2 * (i + 1) ≡ at + 2 = omega arith in
      let to : n * 0x200 + 2 * (i + 1 + left) ≡ n * 0x200 + 2 * (i + suc left) = omega arith in
      let start : n * 0x200 + 2 * i ≡ at = omega arith in
      rw (low, high, start)
        (read_words_lem left word n (i + 1) q (omega arith)
          ∙ rw (from, to, store_word_lem bytes buf count offect at q)
              (join_ranges at (at + 2) (n * 0x200 + 2 * (i + suc left)) (q + offect) (ltb q count)
                (bytes (q + offect)) (buf q) (omega arith) (omega arith)))

  read_sectors_lem :
      (left : ℕ) (buf : Buffer) (n q : ℕ)
      → (n + left) * 0x100 ≤ top
      → read_sectors words buf count offect n left q ≡ (
          if leb (n * 0x200) (q + offect) && ltb (q + offect) ((n + left) * 0x200) && ltb q count
          then bytes (q + offect)
          else buf q)
  unfolding read_sectors
  read_sectors_lem zero buf n q below = ground arith
  read_sectors_lem (suc left) buf n q below =
      let sector : Buffer = read_words words buf count offect n 0 0x100 in
      let from : (n + 1) * 0x200 ≡ n * 0x200 + 2 * (0 + 0x100) = omega arith in
      let to : (n + 1 + left) * 0x200 ≡ (n + suc left) * 0x200 = omega arith in
      let start : n * 0x200 + 2 * 0 ≡ n * 0x200 = omega arith in
      read_sectors_lem left sector (n + 1) q (omega arith)
      ∙ rw (from, to, read_words_lem 0x100 buf n 0 q (omega arith), start)
          (join_ranges (n * 0x200) (n * 0x200 + 2 * (0 + 0x100)) ((n + suc left) * 0x200)
            (q + offect) (ltb q count) (bytes (q + offect)) (buf q) (omega arith) (omega arith))

  -- The bytes that `ata_read_data` takes out of the sectors.
  ata_read_data_lem :
      (buf : Buffer) (sector_count q : ℕ)
      → sector_count * 0x100 ≤ top
      → offect + count ≤ sector_count * 0x200
      → ata_read_data words buf sector_count count offect q
        ≡ (if ltb q count then bytes (q + offect) else buf q)
  unfolding ata_read_data
  ata_read_data_lem buf sector_count q below inside =
      ground (arith, read_sectors_lem sector_count buf 0 q (omega arith))

-- The drive `n` with the contents `image`: to a read command that selects it, it delivers the sectors that were asked
-- for; nothing is known of its answers to other commands.
abbrev pub IsDrive : Drive → (n : ℕ) → (image : ℕ → ℕ) → Type 0
IsDrive drive n image =
    (ws : Writes) (r : Request)
    → requested n ws ≡ some r
    → (words : ℕ → ℕ) × (drive ws ≡ some words)
      × ((k : ℕ) → k < r.count * 0x100 → Holds words (λ b. image (r.first * 0x200 + b)) k)

module _ (drive : Drive) (n : ℕ) (image : ℕ → ℕ) (is : IsDrive drive n image) (ws : Writes)
    (start_sector sector_count : ℕ)
    (asked : requested n ws ≡ some (record { first = start_sector; count = sector_count })) where
  answer-Served :
      (buf : Buffer) (count offect : ℕ)
      → sector_count ≤ 0x1_0000
      → offect % 0x200 + count ≤ sector_count * 0x200
      → offect / 0x200 ≡ start_sector
      → Served image buf count offect
          (answer (drive ws) buf sector_count count (offect % ata_sector_size))
  unfolding answer
  answer-Served buf count offect few inside start =
      let (words, e, held) = is ws (record { first = start_sector; count = sector_count }) asked in
      let room : ℕ = sub64 (sector_count * 0x200 % 2 ^ 32) (offect % 0x200) in
      let enough : ltb room count ≡ false = le→ltb room count (omega arith) in
      rw (e, enough)
        (
          refl,
          λ q.
              ata_read_data_lem words (λ b. image (start_sector * 0x200 + b)) count (offect % 0x200)
                (sector_count * 0x100) held buf sector_count q (omega arith) (omega arith)
              ∙ ap (λ p. if ltb q count then image p else buf q) (omega arith),
        )

-- A drive with sectors that its mode can address, whose last one the request does not reach.
pub record InRange (s : Ata) (n count offect : ℕ) : Type 0 where
  pub drive : n < 4
  pub sectors : s.ata_sectors n ≤ 2 ^ 48
  pub short : s.state n ≡ lba28 → s.ata_sectors n ≤ 2 ^ 28
  pub pos : 0 < count
  pub below : (offect + count + 0x1ff) / 0x200 < s.ata_sectors n
  pub few : offect % 0x200 + count ≤ 0x100 * 0x200

module _ (s : Ata) (drive : Drive) (n : ℕ) (image : ℕ → ℕ) (is : IsDrive drive n image)
    (buf : Buffer) (count offect : ℕ) (v : InRange s n count offect) where
  abbrev last : ℕ
  last = (offect + count + 0x1ff) / 0x200

  pub end_of_read_lem : end_of_read s n count offect ≡ last
  unfolding end_of_read
  end_of_read_lem =
      let whole : sub64 (add64 (add64 offect count) ata_sector_size) 1 / ata_sector_size ≡ last =
        omega (arith, v.below, v.sectors) in
      let free : leb (s.ata_sectors n) last ≡ false = ground (arith, v.below) in
      rw (whole, free) refl

  abbrev first : ℕ
  first = offect / 0x200

  sent_read :
      (s.state n ≡ lba28) ⊎ (s.state n ≡ lba48)
      → (rounds : ℕ) → rounds ≡ last - first
      → Served image buf count offect
          (send_read drive (ata_io_lock s n) buf count rounds first (offect % ata_sector_size))
  unfolding send_read
  sent_read (inl mode) rounds e =
      let known : (ata_io_lock s n).state ≡ lba28 = unfold ata_io_lock in mode in
      rw known (
        answer-Served drive n image is (ata_read_lba28 (ata_io_lock s n) rounds first) first rounds
          (requested-ata_read_lba28 s n rounds first (omega (arith, e, v.pos))
            (omega (arith, e, v.few)) (omega (arith, v.below, v.short mode)))
          buf count offect (omega (arith, e, v.few)) (omega arith) refl)
  sent_read (inr mode) rounds e =
      let known : (ata_io_lock s n).state ≡ lba48 = unfold ata_io_lock in mode in
      rw known (
        answer-Served drive n image is (ata_read_lba48 (ata_io_lock s n) rounds first) first rounds
          (requested-ata_read_lba48 s n rounds first (omega (arith, e, v.pos))
            (omega (arith, e, v.few)) (omega (arith, v.below, v.sectors)))
          buf count offect (omega (arith, e, v.few)) (omega arith) refl)

  read_run-Served :
      (s.state n ≡ lba28) ⊎ (s.state n ≡ lba48)
      → (sector_count : ℕ) → sector_count ≡ last - first
      → Served image buf count offect (read_run s drive n buf count offect sector_count)
  unfolding read_run
  read_run-Served mode sector_count e =
      let some_sector : (sector_count == 0) ≡ false =
        ne→== sector_count 0 (λ z. absurd (omega (arith, e, z, v.pos))) in
      rw some_sector (sent_read mode sector_count e)

  -- With a drive of at most 2^28 sectors in the 28-bit mode, or 2^48 in the 48-bit mode, which delivers the sectors
  -- that it is asked for when it is the one that is selected on its bus: `ata_read` of bytes that end before
  -- the drive's last sector, and lie in at most 256 sectors, returns their number and puts them at the start
  -- of the buffer, whose other bytes stay as they were.
  pub ata_read_lem :
      (s.state n ≡ lba28) ⊎ (s.state n ≡ lba48)
      → Served image buf count offect (ata_read s drive n buf count offect)
  unfolding ata_read
  ata_read_lem mode =
      let known : leb 4 n ≡ false = ground (arith, v.drive) in
      let inside : leb (s.ata_sectors n) first ≡ false = ground (arith, v.below) in
      let difference : sub64 last first % 2 ^ 32 ≡ last - first =
        omega (arith, v.below, v.sectors) in
      let rounds : sub64 (end_of_read s n count offect) first % 2 ^ 32 ≡ last - first =
        rw end_of_read_lem difference in
      rw (known, inside) (read_run-Served mode _ rounds)

-- A request whose sectors end where they start.
pub ata_read-nothing :
    (s : Ata) (drive : Drive) (n : ℕ) (buf : Buffer) (count offect : ℕ)
    → n < 4
    → offect / 0x200 < s.ata_sectors n
    → end_of_read s n count offect ≡ offect / 0x200
    → ata_read s drive n buf count offect ≡ (some 0, buf)
unfolding ata_read
ata_read-nothing s drive n buf count offect known below end =
    let on : leb 4 n ≡ false = ground arith in
    let there : leb (s.ata_sectors n) (offect / 0x200) ≡ false = ground (arith, below) in
    let none_left : sub64 (offect / 0x200) (offect / 0x200) % 2 ^ 32 ≡ 0 = omega arith in
    rw (on, there, end, none_left) (unfold read_run in refl)

-- A request inside the last sector of a drive reads nothing: `ata_read` returns 0 and leaves the
-- buffer as it was, whatever the drive is.
pub ata_read-last_sector :
    (s : Ata) (drive : Drive) (n : ℕ) (buf : Buffer) (count offect : ℕ)
    → n < 4
    → 0 < count
    → s.ata_sectors n ≤ 2 ^ 48
    → offect / 0x200 + 1 ≡ s.ata_sectors n
    → offect % 0x200 + count ≤ 0x200
    → ata_read s drive n buf count offect ≡ (some 0, buf)
ata_read-last_sector s drive n buf count offect known pos small last inside =
    let whole : sub64 (add64 (add64 offect count) ata_sector_size) 1 / ata_sector_size
        ≡ s.ata_sectors n =
      omega arith in
    let full : leb (s.ata_sectors n) (s.ata_sectors n) ≡ true = ground arith in
    let end : end_of_read s n count offect ≡ offect / 0x200 =
      unfold end_of_read in rw (whole, full) (omega arith) in
    ata_read-nothing s drive n buf count offect known (omega (arith, last)) end
