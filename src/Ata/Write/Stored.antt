-- ===== src/Ata/Write/Stored.antt =====
-- What a drive is told by `ata_write`.
use bitch.Base.{
  ℕ, ◌+◌, ◌-◌, ◌*◌, ◌/◌, ◌%◌, ◌^◌, ◌<◌, ◌≡◌, refl, ◌∙◌, ap, ◌⊎◌, inl, inr, true, false, Option,
  some, leb, ltb, ◌==◌, arith, Bool-cases, List, le→ltb, lt→ltb, ==→eq, sub64, add64, Served,
}
use bitch.Ata.{Ata, lba28, lba48, Buffer, Drive, ata_sector_size, ata_io_lock, end_of_read}
use bitch.Ata.Read.{IsDrive, InRange, ata_read_lem, end_of_read_lem, ata_read-nothing}
use bitch.Ata.Write.{
  Edges, Sent, Accepts, ata_write_lba28, ata_write_lba48, transfer, send_write, read_front,
  read_back, write_run, ata_write,
}
use bitch.Ata.Write.Command.{replaced, replaced-ata_write_lba28, replaced-ata_write_lba48}
use bitch.Ata.Write.Contents.{overlay, words_of, Filled, ata_write_data_lem}

-- The outcome of a request that succeeds.
pub record Stored (image : ℕ → ℕ) (buf : Buffer) (n count offect : ℕ) (t : Sent) : Type 0 where
  pub result : t.result ≡ some count
  pub command :
      replaced n t.command
      ≡ some (record {
        first = offect / 0x200;
        count = (offect + count + 0x1ff) / 0x200 - offect / 0x200;
      })
  pub words :
      t.words
      ≡ words_of
          (overlay image buf count offect)
          (offect / 0x200 * 0x100)
          (((offect + count + 0x1ff) / 0x200 - offect / 0x200) * 0x100)

Served-inside :
    (image buf : ℕ → ℕ) (count offect j b : ℕ) (r : Option ℕ × (ℕ → ℕ))
    → Served image buf count offect r
    → j < count
    → offect + j ≡ b
    → r.1 j ≡ image b
Served-inside image buf count offect j b r served below here =
    let all = served.1 j in ground (arith, all, here)

module _ (s : Ata) (drive : Drive) (n : ℕ) (image : ℕ → ℕ) (is : IsDrive drive n image)
    (mode : (s.state n ≡ lba28) ⊎ (s.state n ≡ lba48)) (buf : Buffer) (count offect : ℕ)
    (v : InRange s n count offect) where
  abbrev last : ℕ
  last = (offect + count + 0x1ff) / 0x200

  abbrev first : ℕ
  first = offect / 0x200

  -- The buffer in front of the request, and the one behind it.
  FrontRead : Edges → Option ℕ × Edges → Type 0
  FrontRead e r =
      (done : ℕ) × (r.0 ≡ some done)
      × ((j : ℕ) → j < offect % 0x200 → r.1.buf_1 j ≡ image (first * 0x200 + j))

  BackRead : Edges → Option ℕ × Edges → Type 0
  BackRead e r =
      (done : ℕ) × (r.0 ≡ some done)
      × ((j : ℕ) → offect + count + j < last * 0x200 → r.1.buf_2 j ≡ image (offect + count + j))
      × (r.1.buf_1 ≡ e.buf_1)

  read_front_lem : (e : Edges) → FrontRead e (read_front s drive n e offect)
  unfolding FrontRead read_front
  read_front_lem e = elim (Bool-cases (offect % ata_sector_size == 0)) [
    | inl p ↦
        let aligned : offect % 0x200 ≡ 0 = ==→eq (offect % 0x200) 0 p in
        rw p (0, refl, λ j below. absurd (omega (arith, below, aligned)))
    | inr p ↦
        let unaligned : 0 < offect % 0x200 = ground (arith, p) in
        let served =
          ata_read_lem s drive n image is e.buf_1 (offect % 0x200) (offect - offect % 0x200)
            (record {
              drive = v.drive;
              sectors = v.sectors;
              short = v.short;
              pos = unaligned;
              below = omega (arith, v.below, v.pos);
              few = omega arith;
            })
            mode in
        rw p (
          offect % 0x200,
          served.0,
          λ j below.
              Served-inside image e.buf_1 (offect % 0x200) (offect - offect % 0x200) j
                (first * 0x200 + j) _ served below (omega arith),
        )
  ]

  -- The request reaches no further than `last`, and the sectors behind it are whole.
  count_behind : ℕ
  count_behind = last * 0x200 - (offect + count)

  end_behind :
      count_behind ≡ 0 → end_of_read s n count_behind (offect + count) ≡ (offect + count) / 0x200
  unfolding end_of_read count_behind
  end_behind whole =
      let end : sub64 (add64 (add64 (offect + count) count_behind) 0x200) 1 / 0x200 ≡ last =
        omega (arith, v.below, v.sectors, whole) in
      let inside : leb (s.ata_sectors n) last ≡ false = ground (arith, v.below) in
      rw (end, inside) (omega (arith, whole))

  read_back_lem : (e : Edges) → BackRead e (read_back s drive n e count offect last)
  unfolding BackRead read_back count_behind
  read_back_lem e =
      let behind : add64 count offect ≡ offect + count = omega (arith, v.below, v.sectors) in
      let more : ltb (offect + count) ((last + 1) * 0x200 % 2 ^ 64) ≡ true =
        lt→ltb (offect + count) ((last + 1) * 0x200 % 2 ^ 64) (omega (arith, v.below, v.sectors)) in
      let asked : sub64 (last * 0x200) (offect + count) % 2 ^ 32 ≡ count_behind =
        omega (arith, v.below, v.sectors) in
      elim (Bool-cases (count_behind == 0)) [
        | inl p ↦
            let whole : count_behind ≡ 0 = ==→eq count_behind 0 p in
            let nothing =
              ata_read-nothing s drive n e.buf_2 count_behind (offect + count) v.drive
                (omega (arith, v.below, whole)) (end_behind whole) in
            rw (behind, asked, more, nothing)
              (0, refl, λ j below. absurd (omega (arith, below, whole)), refl)
        | inr p ↦
            let pos : 0 < count_behind = ground (arith, p) in
            let served =
              ata_read_lem s drive n image is e.buf_2 count_behind (offect + count)
                (record {
                  drive = v.drive;
                  sectors = v.sectors;
                  short = v.short;
                  pos = pos;
                  below = omega (arith, v.below, pos);
                  few = omega (arith, pos);
                })
                mode in
            rw (behind, asked, more)
              (
                count_behind,
                served.0,
                λ j below.
                    Served-inside image e.buf_2 count_behind (offect + count) j (offect + count + j)
                      _ served (omega (arith, below)) refl,
                refl,
              )
      ]

  module _ (accepts : Accepts) (takes : (ws : List (ℕ × ℕ)) → accepts ws ≡ true) (e : Edges)
      (filled : Filled image e first (last - first) count (offect % 0x200)) where
    transfer-Stored :
        (command : List (ℕ × ℕ)) (sectors : ℕ)
        → sectors ≡ last - first
        → replaced n command ≡ some (record { first = first; count = sectors })
        → Stored image buf n count offect
            (transfer accepts e buf command sectors count (offect % ata_sector_size))
    unfolding transfer
    transfer-Stored command sectors same asked =
        let room : ℕ = sub64 (sectors * 0x200 % 2 ^ 32) (offect % 0x200) in
        let enough : ltb room count ≡ false =
          le→ltb room count (omega (arith, same, v.few, filled.inside, v.below, v.sectors)) in
        let sent =
          ata_write_data_lem image e buf first (last - first) count (offect % 0x200) filled in
        let place : first * 0x200 + offect % 0x200 ≡ offect = omega arith in
        rw (takes command, enough, same)
          (record {
            result = refl;
            command = asked ∙ ap (λ c. some (record { first = first; count = c })) same;
            words =
                sent
                ∙ ap
                    (λ o.
                      words_of (overlay image buf count o) (first * 0x100) ((last - first) * 0x100))
                    place;
          })

    send_write-Stored :
        (sectors : ℕ)
        → sectors ≡ last - first
        → Stored image buf n count offect (
            send_write accepts
              (ata_io_lock s n)
              e
              buf
              count
              sectors
              first
              (offect % ata_sector_size))
    unfolding send_write
    send_write-Stored sectors same = elim mode [
      | inl low ↦
          let known : (ata_io_lock s n).state ≡ lba28 = unfold ata_io_lock in low in
          rw known (
            transfer-Stored (ata_write_lba28 (ata_io_lock s n) sectors first) sectors same (
              replaced-ata_write_lba28 s n sectors first (omega (arith, same, v.pos))
                (omega (arith, same, v.few)) (omega (arith, v.below, v.short low))))
      | inr high ↦
          let known : (ata_io_lock s n).state ≡ lba48 = unfold ata_io_lock in high in
          rw known (
            transfer-Stored (ata_write_lba48 (ata_io_lock s n) sectors first) sectors same (
              replaced-ata_write_lba48 s n sectors first (omega (arith, same, v.pos))
                (omega (arith, same, v.few)) (omega (arith, v.below, v.sectors))))
    ]

  run-Stored :
      (accepts : Accepts)
      → ((ws : List (ℕ × ℕ)) → accepts ws ≡ true)
      → (e : Edges) → ((j : ℕ) → j < offect % 0x200 → e.buf_1 j ≡ image (first * 0x200 + j))
      → Stored image buf n count offect (write_run s drive accepts n e buf count offect last)
  unfolding write_run BackRead
  run-Stored accepts takes e front =
      let (done, read, behind, kept) = read_back_lem e in
      let rounds : sub64 last first % 2 ^ 32 ≡ last - first = omega (arith, v.below, v.sectors) in
      let back : Edges = (read_back s drive n e count offect last).1 in
      rw (write_run, read)
        (send_write-Stored accepts takes back
          (record {
            low = omega arith;
            inside = omega (arith, v.below);
            front = λ j below. ap (λ b. b j) kept ∙ front j below;
            back = λ j below. behind j (omega (arith, below)) ∙ ap image (omega arith);
          })
          _ rounds)

  -- With a drive of at most 2^28 sectors in the 28-bit mode, or 2^48 in the 48-bit mode, which reads the sectors that
  -- it is asked for when it is the one that is selected on its bus, and accepts every command: `ata_write` of bytes
  -- that end before the drive's last sector, and lie in at most 256 sectors, returns their number, and asks this
  -- drive of its bus to replace the sectors that the bytes lie in; the words that it sends are the sectors' old
  -- contents with the bytes in their place.
  pub ata_write_lem :
      (accepts : Accepts)
      → ((ws : List (ℕ × ℕ)) → accepts ws ≡ true)
      → (e : Edges)
      → Stored image buf n count offect (ata_write s drive accepts n e buf count offect)
  unfolding ata_write FrontRead
  ata_write_lem accepts takes e =
      let on : leb 4 n ≡ false = ground (arith, v.drive) in
      let inside : leb (s.ata_sectors n) first ≡ false = ground (arith, v.below) in
      let (done, read, front) = read_front_lem e in
      let end = end_of_read_lem s drive n image is buf count offect v in
      rw (on, inside, read, end) (run-Stored accepts takes (read_front s drive n e offect).1 front)
