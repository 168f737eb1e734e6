-- ===== src/Ata/Write/Contents.antt =====
-- The words that `ata_write_data` sends.
use bitch.Base.{
  ℕ, zero, suc, ◌+◌, ◌-◌, ◌*◌, ◌≤◌, ◌<◌, ◌≡◌, refl, ◌∙◌, ap, inl, inr, List, [], ◌∷◌, ◌++◌, leb,
  ltb, ◌&&◌, if◌then◌else◌, arith, Bool-cases, ltb→lt, ltb→le,
}
use bitch.Ata.{Buffer}
use bitch.Ata.Write.{Edges, load_byte, write_words, write_sectors, ata_write_data}

-- The contents `image` with `count` bytes of `buf` at `offect`.
abbrev pub overlay : (image : ℕ → ℕ) → Buffer → (count offect : ℕ) → ℕ → ℕ
overlay image buf count offect b =
    if leb offect b && ltb (b - offect) count then buf (b - offect) else image b

-- Contents as words, from word `k` on, the low byte of each first.
abbrev pub words_of : (image : ℕ → ℕ) → (k left : ℕ) → List ℕ
words_of image k zero = []
words_of image k (suc left) =
    (image (2 * k) + image (2 * k + 1) * 0x100) ∷ words_of image (k + 1) left

words_of-++ :
    (image : ℕ → ℕ) (k left more : ℕ)
    → words_of image k left ++ words_of image (k + left) more ≡ words_of image k (left + more)
words_of-++ image k zero more =
    let here : k + 0 ≡ k = omega arith in
    let all : 0 + more ≡ more = omega arith in rw (here, all) refl
words_of-++ image k (suc left) more =
    let from : k + suc left ≡ k + 1 + left = omega arith in
    let all : suc left + more ≡ suc (left + more) = omega arith in
    rw (from, all)
      (ap (λ (ws : List ℕ). (image (2 * k) + image (2 * k + 1) * 0x100) ∷ ws)
        (words_of-++ image (k + 1) left more))

words_of_join :
    (image : ℕ → ℕ) (k left more : ℕ) (a b : List ℕ)
    → a ≡ words_of image k left
    → b ≡ words_of image (k + left) more
    → a ++ b ≡ words_of image k (left + more)
words_of_join image k left more a b p q = rw (p, q) (words_of-++ image k left more)

-- `sectors` sectors from `first` on, of which the request leaves the bytes in `buf_1` and `buf_2`.
pub record Filled (image : ℕ → ℕ) (e : Edges) (first sectors count offect : ℕ) : Type 0 where
  pub low : offect < 0x200
  pub inside : offect + count ≤ sectors * 0x200
  pub front : (j : ℕ) → j < offect → e.buf_1 j ≡ image (first * 0x200 + j)
  pub back :
      (j : ℕ)
      → offect + count + j < sectors * 0x200
      → e.buf_2 j ≡ image (first * 0x200 + (offect + count + j))

module _ (image : ℕ → ℕ) (e : Edges) (buf : Buffer) (first sectors count offect : ℕ)
    (v : Filled image e first sectors count offect) where
  abbrev new : ℕ → ℕ
  new = overlay image buf count (first * 0x200 + offect)

  load_byte_lem :
      (index at b : ℕ)
      → (at < offect → index ≡ at)
      → at < sectors * 0x200
      → b ≡ first * 0x200 + at
      → load_byte e buf count offect index at ≡ new b
  unfolding load_byte
  load_byte_lem index at b same below here = elim (Bool-cases (ltb at offect)) [
    | inl p ↦
        (let index_is : index ≡ at = same (ltb→lt at offect p) in
          let outside : new b ≡ image b = ground (arith, here, p) in
          let read : e.buf_1 at ≡ image (first * 0x200 + at) = v.front at (ltb→lt at offect p) in
          rw (p, index_is, read, outside, here) refl)
    | inr p ↦ elim (Bool-cases (leb count (at - offect))) [
      | inl q ↦
          (let ge_count : count ≤ at - offect = ground (arith, q) in
            let read =
              v.back (at - offect - count) (omega (arith, ltb→le at offect p, ge_count, below)) in
            let outside : new b ≡ image b = ground (arith, here, p, q) in
            let place : first * 0x200 + (offect + count + (at - offect - count)) ≡ b =
              omega (arith, ltb→le at offect p, ge_count, here) in
            rw (p, q, read, outside, place) refl)
      | inr q ↦
          (let index_is : b - (first * 0x200 + offect) ≡ at - offect = omega (arith, here) in
            let within : new b ≡ buf (at - offect) = ground (arith, here, p, q, index_is) in
            rw (p, q, within) refl)
    ]
  ]

  write_words_lem :
      (n i left k : ℕ)
      → n * 0x100 + i + left ≤ sectors * 0x100
      → i + left ≤ 0x100
      → k ≡ first * 0x100 + (n * 0x100 + i)
      → write_words e buf count offect n i left ≡ words_of new k left
  unfolding write_words
  write_words_lem n i zero k below row from = refl
  write_words_lem n i (suc left) k below row from =
      let at : ℕ = n * 0x200 + i * 2 in
      let low : load_byte e buf count offect (i * 2) at ≡ new (2 * k) =
        load_byte_lem (i * 2) at (2 * k) (λ p. omega (arith, p, v.low)) (omega (arith, below))
          (omega (arith, from)) in
      let high : load_byte e buf count offect (i * 2 + 1) (at + 1) ≡ new (2 * k + 1) =
        load_byte_lem (i * 2 + 1) (at + 1) (2 * k + 1) (λ p. omega (arith, p, v.low))
          (omega (arith, below)) (omega (arith, from)) in
      let rest =
        write_words_lem n (i + 1) left (k + 1) (omega (arith, below)) (omega (arith, row))
          (omega (arith, from)) in
      rw (low, high, rest) refl

  write_sectors_lem :
      (n left k : ℕ)
      → n + left ≤ sectors
      → k ≡ first * 0x100 + n * 0x100
      → write_sectors e buf count offect n left ≡ words_of new k (left * 0x100)
  unfolding write_sectors
  write_sectors_lem n zero k below from = refl
  write_sectors_lem n (suc left) k below from =
      let row =
        write_words_lem n 0 0x100 k (omega (arith, below)) (omega arith) (omega (arith, from)) in
      let rest =
        write_sectors_lem (n + 1) left (k + 0x100) (omega (arith, below)) (omega (arith, from)) in
      words_of_join new k 0x100 (left * 0x100) _ _ row rest
      ∙ ap (λ c. words_of new k c) (omega arith)

  -- They are the new contents of the sectors.
  pub ata_write_data_lem :
      ata_write_data e buf sectors count offect ≡ words_of new (first * 0x100) (sectors * 0x100)
  unfolding ata_write_data
  ata_write_data_lem = write_sectors_lem 0 sectors (first * 0x100) (omega arith) (omega arith)
