-- ===== src/Ata/Identify.antt =====
-- What driver/ata.c makes of the words by which a drive identifies itself.
use bitch.Base.{
  ℕ, zero, suc, ◌+◌, ◌*◌, ◌/◌, ◌%◌, ◌^◌, ◌<◌, ◌≡◌, refl, inl, inr, Bool, true, false, ◌&&◌, Option,
  none, some, ◌==◌, if◌then◌else◌, add64, Bool-cases, arith, ◌∙◌, ap, sym,
}
use bitch.Ata.{AtaState, nodisk, chs, lba28, lba48}

-- `(data & 0x100) != 0` and `(data & 0x200) != 0`: a bit of `data`.
abbrev pub bit_8 : ℕ → Bool
bit_8 word = word / 0x100 % 2 == 1

abbrev pub bit_9 : ℕ → Bool
bit_9 word = word / 0x200 % 2 == 1

abbrev is_lba28 : AtaState → Bool
is_lba28 lba28 = true
is_lba28 nodisk = false
is_lba28 chs = false
is_lba28 lba48 = false

abbrev is_lba48 : AtaState → Bool
is_lba48 lba48 = true
is_lba48 nodisk = false
is_lba48 chs = false
is_lba48 lba28 = false

-- The tests of the loop of `init_status` at word `i`, but for the first, which is in `identify_loop`: the
-- mode and the number of sectors.
unfoldable pub identify_word : (i word : ℕ) → AtaState → (sectors : ℕ) → AtaState × ℕ
identify_word i word state sectors =
    if i == 0
    then (chs, sectors)
    else if (i == 49) && bit_8 word
    then (lba28, sectors)
    else if (i == 60) && is_lba28 state
    then (state, word)
    else if (i == 61) && is_lba28 state
    then (state, add64 sectors (word * 2 ^ 16))
    else if (i == 83) && bit_9 word
    then (lba48, sectors)
    else if (i == 100) && is_lba48 state
    then (state, word)
    else if (i == 101) && is_lba48 state
    then (state, add64 sectors (word * 2 ^ 16))
    else if (i == 102) && is_lba48 state
    then (state, add64 sectors (word * 2 ^ 32))
    else if (i == 103) && is_lba48 state
    then (state, add64 sectors (word * 2 ^ 48 % 2 ^ 64))
    else (state, sectors)

unfoldable pub identify_loop : (words : ℕ → ℕ) → AtaState → (sectors i left : ℕ) → AtaState × ℕ
unfolding identify_word
identify_loop words state sectors i zero = (state, sectors)
identify_loop words state sectors i (suc left) =
    let r = identify_word i (words i) state sectors in
    let rest = identify_loop words r.0 r.1 (i + 1) left in
    if (i == 0) && (words i == 0) then (state, sectors) else rest

-- The mode and the sectors of a drive; `none` when the status has no DRDY.
unfoldable pub identify : Option (ℕ → ℕ) → AtaState × ℕ
unfolding identify_loop
identify none = (nodisk, 0)
identify (some words) = identify_loop words nodisk 0 0 0x100

module _ (words : ℕ → ℕ) where
  -- The number of sectors in the words for 28-bit, and in those for 48-bit addresses.
  abbrev pub sectors_28 : ℕ
  sectors_28 = add64 (words 60) (words 61 * 2 ^ 16)

  abbrev pub sectors_48 : ℕ
  sectors_48 =
      add64 (add64 (add64 (words 100) (words 101 * 2 ^ 16)) (words 102 * 2 ^ 32))
        (words 103 * 2 ^ 48 % 2 ^ 64)

  one_word :
      (state : AtaState) (sectors i left : ℕ) (r : AtaState × ℕ)
      → 0 < i
      → identify_word i (words i) state sectors ≡ r
      → identify_loop words state sectors i (suc left) ≡ identify_loop words r.0 r.1 (i + 1) left
  unfolding identify_loop
  one_word state sectors i left r pos e =
      let later : (i == 0) ≡ false = ground (arith, pos) in
      ap
        (λ b.
          if b && (words i == 0)
          then (state, sectors)
          else identify_loop words (identify_word i (words i) state sectors).0
              (identify_word i (words i) state sectors).1 (i + 1) left)
        later
      ∙ ap (λ q. identify_loop words q.0 q.1 (i + 1) left) e

  words_60 :
      (state : AtaState)
      → identify_loop words state 0 50 206
        ≡ identify_loop words state (if is_lba28 state then sectors_28 else 0) 83 173
  unfolding identify_loop identify_word
  words_60 nodisk = refl
  words_60 chs = refl
  words_60 lba28 = refl
  words_60 lba48 = refl

  words_100 :
      (state : AtaState) (sectors : ℕ)
      → identify_loop words state sectors 84 172
        ≡ (state, if is_lba48 state then sectors_48 else sectors)
  unfolding identify_loop identify_word
  words_100 nodisk sectors = refl
  words_100 chs sectors = refl
  words_100 lba28 sectors = refl
  words_100 lba48 sectors = refl

  words_1 :
      (words 0 == 0) ≡ false → identify_loop words nodisk 0 0 256 ≡ identify_loop words chs 0 1 255
  unfolding identify_loop identify_word
  words_1 some_disk = ap (λ b. if b then (nodisk, 0) else identify_loop words chs 0 1 255) some_disk

  words_2 : identify_loop words chs 0 1 255 ≡ identify_loop words chs 0 49 207
  unfolding identify_loop identify_word
  words_2 = refl

  abbrev mode : AtaState
  mode = if bit_8 (words 49) then lba28 else chs

  word_49 : identify_word 49 (words 49) chs 0 ≡ (mode, 0)
  unfolding identify_word
  word_49 = elim (Bool-cases (bit_8 (words 49))) [ inl e ↦ rw e refl | inr e ↦ rw e refl ]

  word_83 :
      (state : AtaState) (sectors : ℕ)
      → identify_word 83 (words 83) state sectors
        ≡ (if bit_9 (words 83) then lba48 else state, sectors)
  unfolding identify_word
  word_83 state sectors = elim (Bool-cases (bit_9 (words 83))) [
    | inl e ↦ rw e refl
    | inr e ↦ rw e refl
  ]

  -- The mode, with the sectors, of a drive whose words are not empty.
  identify_words :
      (words 0 == 0) ≡ false
      → identify_loop words nodisk 0 0 256 ≡ (
        if bit_9 (words 83) then lba48 else mode,
        if is_lba48 (if bit_9 (words 83) then lba48 else mode)
            then sectors_48
            else if is_lba28 mode
            then sectors_28
            else 0,
      )
  identify_words some_disk =
      words_1 some_disk
      ∙ words_2
      ∙ one_word chs 0 49 206 _ (omega arith) word_49
      ∙ words_60 mode
      ∙ one_word mode _ 83 172 _ (omega arith) (word_83 mode _)
      ∙ words_100 (if bit_9 (words 83) then lba48 else mode) _

-- What the loop makes of the words, by the bits that it tests.
abbrev decoded : Option (ℕ → ℕ) → AtaState × ℕ
decoded none = (nodisk, 0)
decoded (some words) =
    if words 0 == 0
    then (nodisk, 0)
    else if bit_9 (words 83)
    then (lba48, sectors_48 words)
    else if bit_8 (words 49)
    then (lba28, sectors_28 words)
    else (chs, 0)

rest : (ℕ → ℕ) → AtaState × ℕ
rest words =
    if bit_9 (words 83)
    then (lba48, sectors_48 words)
    else if bit_8 (words 49)
    then (lba28, sectors_28 words)
    else (chs, 0)

empty : (words : ℕ → ℕ) → (words 0 == 0) ≡ true → identify_loop words nodisk 0 0 256 ≡ (nodisk, 0)
unfolding identify_loop identify_word
empty words e = ap (λ b. if b then (nodisk, 0) else identify_loop words chs 0 1 255) e

modes_lem :
    (long short : Bool) (a b : ℕ)
    → let state : AtaState = if long then lba48 else (if short then lba28 else chs) in
      let sectors : ℕ =
        if is_lba48 state then a else if is_lba28 (if short then lba28 else chs) then b else 0 in
      ◌≡◌ {A = AtaState × ℕ}
        (state, sectors)
        (if long then (lba48, a) else if short then (lba28, b) else (chs, 0))
modes_lem true true a b = refl
modes_lem true false a b = refl
modes_lem false true a b = refl
modes_lem false false a b = refl

identify-decoded : (answer : Option (ℕ → ℕ)) → identify answer ≡ decoded answer
unfolding identify rest
identify-decoded none = refl
identify-decoded (some words) = elim (Bool-cases (words 0 == 0)) [
  | inl e ↦ empty words e ∙ ap (λ b. if b then (nodisk, 0) else rest words) (sym e)
  | inr e ↦
      identify_words words e
      ∙ modes_lem (bit_9 (words 83)) (bit_8 (words 49)) (sectors_48 words) (sectors_28 words)
      ∙ ap (λ b. if b then (nodisk, 0) else rest words) (sym e)
]

-- In the standard's words, bit 9 of word 49 says that the drive takes addresses of sectors, and bit 10 of word 83
-- that it takes 48-bit ones.
abbrev pub takes_addresses : (ℕ → ℕ) → Bool
takes_addresses words = words 49 / 0x200 % 2 == 1

abbrev pub takes_long_addresses : (ℕ → ℕ) → Bool
takes_long_addresses words = words 83 / 0x400 % 2 == 1

-- The mode and the sectors that the words stand for: a drive with 48-bit addresses has its sectors in four
-- words, one with 28-bit addresses in two; a drive that is not there has an empty first word.
abbrev pub identified : Option (ℕ → ℕ) → AtaState × ℕ
identified none = (nodisk, 0)
identified (some words) =
    if words 0 == 0
    then (nodisk, 0)
    else if takes_long_addresses words
    then (lba48, sectors_48 words)
    else if takes_addresses words
    then (lba28, sectors_28 words)
    else (chs, 0)

-- The bits that the driver tests, each one below the standard's, say the same as the standard's.
abbrev pub SameBits : Option (ℕ → ℕ) → Type 0
SameBits none = Unit
SameBits (some words) =
    (bit_8 (words 49) ≡ takes_addresses words) × (bit_9 (words 83) ≡ takes_long_addresses words)

pub identify_lem : (answer : Option (ℕ → ℕ)) → SameBits answer → identify answer ≡ identified answer
identify_lem none same = identify-decoded none
identify_lem (some words) same =
    identify-decoded (some words)
    ∙ ap
        (λ b.
          if words 0 == 0
          then (nodisk, 0)
          else if b
          then (lba48, sectors_48 words)
          else if bit_8 (words 49)
          then (lba28, sectors_28 words)
          else (chs, 0))
        same.1
    ∙ ap
        (λ b.
          if words 0 == 0
          then (nodisk, 0)
          else if takes_long_addresses words
          then (lba48, sectors_48 words)
          else if b
          then (lba28, sectors_28 words)
          else (chs, 0))
        same.0
