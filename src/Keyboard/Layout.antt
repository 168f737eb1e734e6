-- ===== src/Keyboard/Layout.antt =====
-- What the keys type on a US keyboard, and that the table of kernel/dev/keyboard.c gives it.
use bitch.Base.{
  ℕ, ◌+◌, ◌-◌, ◌<◌, ◌≢◌, ◌≡◌, refl, ◌∙◌, ap, arith, Bool, true, false, not, ◌&&◌, ◌||◌, List, [],
  ◌∷◌, leb, ◌==◌, if◌then◌else◌, get_or, checked, law_of-checked,
}
use bitch.Keyboard.{key_at, has_flag, press_flags, release_flags, input_char, typed_key}
use bitch.Keyboard.Typed.{next_flags, typed, typed_line, AllCodes}

-- The characters of the keys by their codes, from 2 on, in ASCII: the digits with - and =, the three rows of letters
-- with their punctuation and the enter key, and the space; 0 for the keys that type none, and for the tabulator
-- and the backspace.
abbrev pub us_keys : List ℕ
us_keys =
    0x31 ∷ 0x32 ∷ 0x33 ∷ 0x34 ∷ 0x35 ∷ 0x36 ∷ 0x37 ∷ 0x38 ∷ 0x39 ∷ 0x30 ∷ 0x2d ∷ 0x3d ∷ 0 ∷ 0 ∷ 0x71
    ∷ 0x77 ∷ 0x65 ∷ 0x72 ∷ 0x74 ∷ 0x79 ∷ 0x75 ∷ 0x69 ∷ 0x6f ∷ 0x70 ∷ 0x5b ∷ 0x5d ∷ 0x0a ∷ 0 ∷ 0x61
    ∷ 0x73 ∷ 0x64 ∷ 0x66 ∷ 0x67 ∷ 0x68 ∷ 0x6a ∷ 0x6b ∷ 0x6c ∷ 0x3b ∷ 0x27 ∷ 0x60 ∷ 0 ∷ 0x5c ∷ 0x7a
    ∷ 0x78 ∷ 0x63 ∷ 0x76 ∷ 0x62 ∷ 0x6e ∷ 0x6d ∷ 0x2c ∷ 0x2e ∷ 0x2f ∷ 0 ∷ 0 ∷ 0 ∷ 0x20 ∷ []

abbrev pub us_key : (code : ℕ) → ℕ
us_key code = if leb 2 code then get_or us_keys (code - 2) 0 else 0

-- With a shift key a letter becomes its capital, and another character its partner; from the apostrophe on, the
-- partners of the characters up to the equals sign, then those of the brackets.
abbrev pub us_partners : List ℕ
us_partners =
    0x22 ∷ 0 ∷ 0 ∷ 0 ∷ 0 ∷ 0x3c ∷ 0x5f ∷ 0x3e ∷ 0x3f ∷ 0x29 ∷ 0x21 ∷ 0x40 ∷ 0x23 ∷ 0x24 ∷ 0x25
    ∷ 0x5e ∷ 0x26 ∷ 0x2a ∷ 0x28 ∷ 0 ∷ 0x3a ∷ 0 ∷ 0x2b ∷ []

abbrev pub us_shifted : (char : ℕ) → ℕ
us_shifted char =
    if leb 0x61 char && leb char 0x7a
    then char - 0x20
    else if leb 0x5b char && leb char 0x5d
    then char + 0x20
    else if char == 0x60
    then 0x7e
    else if leb 0x27 char
    then get_or us_partners (char - 0x27) 0
    else char

-- The character that a code types, 0 for none, with a shift key down or not.
abbrev pub us_char : (shift : Bool) (code : ℕ) → ℕ
us_char shift code = if shift then us_shifted (us_key code) else us_key code

-- The left and the right shift key after a code: 0x2a and 0x36 go down, and 0xaa and 0xb6 up.
abbrev pub left_after : Bool → (code : ℕ) → Bool
left_after left code = if code == 0x2a then true else if code == 0xaa then false else left

abbrev pub right_after : Bool → (code : ℕ) → Bool
right_after right code = if code == 0x36 then true else if code == 0xb6 then false else right

-- What the codes type, from the shift keys that are down on.
abbrev pub us_line : (left right : Bool) → List ℕ → List ℕ
us_line left right [] = []
us_line left right (code ∷ codes) =
    let rest : List ℕ = us_line (left_after left code) (right_after right code) codes in
    let char : ℕ = us_char (left || right) code in if char == 0 then rest else char ∷ rest

-- A key that types a character, or a shift key, goes down or up.
abbrev pub is_us : (code : ℕ) → Bool
is_us code =
    not (us_key code == 0)
    || (leb 0x80 code && not (us_key (code - 0x80) == 0))
    || (code == 0x2a)
    || (code == 0xaa)
    || (code == 0x36)
    || (code == 0xb6)

abbrev pub AllUs : List ℕ → Type 0
AllUs [] = Unit
AllUs (code ∷ codes) = (code < 0x100) × (is_us code ≡ true) × AllUs codes

-- The flags while the shift keys are down or not, and no other key that has a flag.
abbrev pub shift_flags : (left right : Bool) → ℕ
shift_flags left right = (if left then 0x04 else 0) + (if right then 0x08 else 0)

both_of :
    (u : Bool) (a b c d : ℕ)
    → u ≡ true
    → (not u || ((a == b) && (c == d))) ≡ true
    → (a ≡ b) × (c ≡ d)
both_of u a b c d us law = ground (arith, us, law)

module _ (beyond : ℕ → ℕ) where
  abbrev agrees : (left right : Bool) (code : ℕ) → Bool
  agrees left right code =
      not (is_us code)
      || ((typed beyond (shift_flags left right) code == us_char (left || right) code)
          && (next_flags beyond (shift_flags left right) code
              == shift_flags (left_after left code) (right_after right code)))

  table-agrees : (left right : Bool) → checked (agrees left right) 0x100 ≡ true
  unfolding checked typed next_flags key_at press_flags release_flags input_char typed_key has_flag
  table-agrees true true = refl
  table-agrees true false = refl
  table-agrees false true = refl
  table-agrees false false = refl

  one_key :
      (left right : Bool) (code : ℕ)
      → code < 0x100
      → is_us code ≡ true
      → (typed beyond (shift_flags left right) code ≡ us_char (left || right) code)
        × (next_flags beyond (shift_flags left right) code
            ≡ shift_flags (left_after left code) (right_after right code))
  one_key left right code byte us =
      let law : agrees left right code ≡ true =
        law_of-checked (agrees left right) (table-agrees left right) byte in
      both_of (is_us code) (typed beyond (shift_flags left right) code)
        (us_char (left || right) code) (next_flags beyond (shift_flags left right) code)
        (shift_flags (left_after left code) (right_after right code)) us law

  -- The codes of keys that type characters, and of the shift keys, type what they do on a US keyboard.
  pub typed_line-us_line :
      (left right : Bool) (codes : List ℕ)
      → AllUs codes
      → typed_line beyond (shift_flags left right) codes ≡ us_line left right codes
  unfolding typed_line
  typed_line-us_line left right [] us = refl
  typed_line-us_line left right (code ∷ codes) us =
      let one = one_key left right code us.0 us.1 in
      let rest = typed_line-us_line (left_after left code) (right_after right code) codes us.2 in
      ap
        (λ c.
          if c == 0
          then typed_line beyond (next_flags beyond (shift_flags left right) code) codes
          else c ∷ typed_line beyond (next_flags beyond (shift_flags left right) code) codes)
        one.0
      ∙ ap
          (λ f.
            if us_char (left || right) code == 0
            then typed_line beyond f codes
            else us_char (left || right) code ∷ typed_line beyond f codes)
          one.1
      ∙ ap
          (λ (l : List ℕ).
            if us_char (left || right) code == 0 then l else us_char (left || right) code ∷ l)
          rest

not_break : (code : ℕ) → is_us code ≡ true → code ≢ 0x80
not_break code us e = let wrong : is_us 0x80 ≡ true = rw e at us in ground (arith, wrong)

pub AllUs-AllCodes : (codes : List ℕ) → AllUs codes → AllCodes codes
unfolding AllCodes
AllUs-AllCodes [] us = omega arith
AllUs-AllCodes (code ∷ codes) us = (us.0, not_break code us.1, AllUs-AllCodes codes us.2)
