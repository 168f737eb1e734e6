-- ===== src/Ata/Command.antt =====
-- What a drive understands of the bytes that driver/ata.c writes to its ports.
use bitch.Base.{
  ℕ, ◌+◌, ◌*◌, ◌/◌, ◌%◌, ◌^◌, ◌≤◌, ◌<◌, ◌≡◌, refl, inl, inr, Option, none, some, [], ◌∷◌, ltb, ◌==◌,
  ◌&&◌, not, Bool, true, if◌then◌else◌, arith, Bool-cases,
}
use bitch.Ata.{
  Ata, Writes, ata_io_lock, ata_read_lba28, ata_read_lba48, com_read_sectors, com_read_sectors_ext,
}

-- A register keeps the last two bytes written to its port, `newest` and `older`.
pub record Register : Type 0 where
  pub newest : ℕ
  pub older : ℕ

abbrev pub register : (port : ℕ) → Writes → Register → Register
register port [] r = r
register port ((p, v) ∷ ws) r =
    register port ws (if p == port then record { newest = v; older = r.newest } else r)

-- The sectors that a command is about.
pub record Request : Type 0 where
  pub first : ℕ
  pub count : ℕ

-- A count of 0 stands for the largest one and one more.
abbrev counted : (limit count : ℕ) → ℕ
counted limit count = if count == 0 then limit else count

-- The bus of a drive.
abbrev pub bus : ℕ → ℕ
bus n = if ltb n 2 then 0x1f0 else 0x170

-- The device register selects the first or the second drive on the bus by bit 4, and its bit 6 says that the
-- registers hold an address.
abbrev pub selects : (device n : ℕ) → Bool
selects device n = (device / 0x10 % 2 == n % 2) && (device / 0x40 % 2 == 1)

-- The request of the drive `n`, with the commands for 28-bit and for 48-bit addresses: 28-bit addresses have their
-- top in the device register, 48-bit addresses theirs in the older bytes. A drive that is not selected is not
-- asked for anything.
abbrev pub asked : (short long n : ℕ) → Writes → Option Request
asked short long n ws =
    let base : ℕ = bus n in
    let off : Register = record { newest = 0; older = 0 } in
    let count : Register = register (base + 2) ws off in
    let low : Register = register (base + 3) ws off in
    let mid : Register = register (base + 4) ws off in
    let high : Register = register (base + 5) ws off in
    let device : Register = register (base + 6) ws off in
    let command : ℕ = (register (base + 7) ws off).newest in
    let address : ℕ = low.newest + mid.newest * 0x100 + high.newest * 0x1_0000 in
    let above : ℕ = low.older + mid.older * 0x100 + high.older * 0x1_0000 in
    if not (selects device.newest n)
    then none
    else if command == short
    then some (record {
      first = address + device.newest % 0x10 * 0x100_0000;
      count = counted 0x100 count.newest;
    })
    else if command == long
    then some (record {
      first = address + above * 0x100_0000;
      count = counted 0x1_0000 (count.newest + count.older * 0x100);
    })
    else none

-- What a drive is asked to read.
abbrev pub requested : (n : ℕ) → Writes → Option Request
requested n ws = asked com_read_sectors com_read_sectors_ext n ws

abbrev pub request : (first count : ℕ) → Option Request
request first count = some (record { first = first; count = count })

pub request_eq : (a b c d : ℕ) → a ≡ b → c ≡ d → request a c ≡ request b d
request_eq a b c d p q = rw (p, q) refl

-- The device register's constant part has nothing in the bits of the address.
unfoldable pub device_base : (n : ℕ) → ℕ
device_base n = if (if n % 2 == 0 then 0xa0 else 0xb0) == 0xa0 then 0xe0 else 0xf0

pub device_base_low : (n : ℕ) → device_base n % 0x10 ≡ 0
unfolding device_base
device_base_low n = ground arith

pub selects-device_base : (n top : ℕ) → top < 0x10 → selects (top + device_base n) n ≡ true
unfolding device_base
selects-device_base n top low = ground arith

pub device_base-selects : (n : ℕ) → selects (device_base n) n ≡ true
unfolding device_base
device_base-selects n = ground arith

pub address_28 :
    (n offect : ℕ)
    → offect < 2 ^ 28
    → offect % 0x100
        + offect / 0x100 % 0x100 * 0x100
        + offect / 0x1_0000 % 0x100 * 0x1_0000
        + (offect / 0x100_0000 % 0x10 + device_base n) % 0x10 * 0x100_0000
      ≡ offect
address_28 n offect low = omega (arith, device_base_low n)

pub count_28 : (count : ℕ) → 0 < count → count ≤ 0x100 → counted 0x100 (count % 0x100) ≡ count
count_28 count pos most = ground arith

pub address_48 :
    (offect : ℕ)
    → offect < 2 ^ 48
    → offect % 0x100
        + offect / 0x100 % 0x100 * 0x100
        + offect / 0x1_0000 % 0x100 * 0x1_0000
        + (offect / 0x100_0000 % 0x100
            + offect / 0x1_0000_0000 % 0x100 * 0x100
            + offect / 0x100_0000_0000 % 0x100 * 0x1_0000)
          * 0x100_0000
      ≡ offect
address_48 offect low = omega arith

pub count_48 :
    (count : ℕ)
    → 0 < count
    → count ≤ 0x1_0000
    → counted 0x1_0000 (count % 0x100 + count / 0x100 % 0x100 * 0x100) ≡ count
count_48 count pos most = ground arith

-- A drive reads from the commands of the driver the sectors that were asked for: at most 0x100 with an
-- address of 28 bits, or at most 0x10000 with one of 48 bits.
pub requested-ata_read_lba28 :
    (s : Ata) (n count offect : ℕ)
    → 0 < count
    → count ≤ 0x100
    → offect < 2 ^ 28
    → requested n (ata_read_lba28 (ata_io_lock s n) count offect)
      ≡ some (record { first = offect; count = count })
unfolding ata_read_lba28 ata_io_lock device_base
requested-ata_read_lba28 s n count offect pos most low = elim (Bool-cases (ltb n 2)) [
  | inl e ↦
      rw (e, selects-device_base n (offect / 0x100_0000 % 0x10) (omega arith))
        (request_eq _ offect _ count (address_28 n offect low) (count_28 count pos most))
  | inr e ↦
      rw (e, selects-device_base n (offect / 0x100_0000 % 0x10) (omega arith))
        (request_eq _ offect _ count (address_28 n offect low) (count_28 count pos most))
]

pub requested-ata_read_lba48 :
    (s : Ata) (n count offect : ℕ)
    → 0 < count
    → count ≤ 0x1_0000
    → offect < 2 ^ 48
    → requested n (ata_read_lba48 (ata_io_lock s n) count offect)
      ≡ some (record { first = offect; count = count })
unfolding ata_read_lba48 ata_io_lock device_base
requested-ata_read_lba48 s n count offect pos most low = elim (Bool-cases (ltb n 2)) [
  | inl e ↦
      rw (e, device_base-selects n)
        (request_eq _ offect _ count (address_48 offect low) (count_48 count pos most))
  | inr e ↦
      rw (e, device_base-selects n)
        (request_eq _ offect _ count (address_48 offect low) (count_48 count pos most))
]
