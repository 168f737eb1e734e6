-- ===== src/Keyboard/Typed.antt =====
-- What the handler of the keyboard delivers in the input modes.
use bitch.Base.{
  ℕ, ◌-◌, ◌<◌, ◌≤◌, ◌≡◌, ◌≢◌, ◌⊎◌, inl, inr, refl, arith, Bool, true, not, ◌&&◌, ◌||◌, List, [],
  ◌∷◌, ltb, ◌==◌, if◌then◌else◌, Bool-cases, checked, law_of-checked,
}
use bitch.Keyboard.{
  Keyboard, code_break, code_emul0, code_emul1, flag_emul0, flag_emul1, flag_shift_l, flag_shift_r,
  flag_ctrl_l, flag_ctrl_r, flag_alt_l, flag_alt_r, has_flag, set_flag, key_at, after_emul0,
  emul0_column, press_flags, release_flags, input_char, typed_key, deliver, key_up, key_down, echo,
  keyboard_handler,
}

-- The flags after a code.
unfoldable pub next_flags : (beyond : ℕ → ℕ) → (flags code : ℕ) → ℕ
next_flags beyond flags code =
    if code == code_emul0
    then set_flag flags flag_emul0
    else if code == code_emul1
    then set_flag flags flag_emul1
    else if ltb code_break code
    then release_flags (after_emul0 flags) (key_at beyond (code - code_break) (emul0_column flags))
    else press_flags (after_emul0 flags) (key_at beyond code (emul0_column flags))

-- The character that a code gives in an input mode, 0 for none.
unfoldable pub typed : (beyond : ℕ → ℕ) → (flags code : ℕ) → ℕ
typed beyond flags code =
    if (code == code_emul0) || (code == code_emul1) || ltb code_break code
    then 0
    else typed_key beyond (next_flags beyond flags code) code
        (key_at beyond code (emul0_column flags))

-- The handler in an input mode.
pub keyboard_handler-typed :
    {S : Type 0} (beyond : ℕ → ℕ) (k : Keyboard S) (code : ℕ)
    → k.input_mode ≢ 0
    → let key : ℕ = typed beyond k.key_flags code in
      let t : Keyboard S = record k { key_flags = next_flags beyond k.key_flags code } in
      keyboard_handler beyond k code ≡ deliver (echo t key) key
unfolding keyboard_handler typed next_flags key_up key_down deliver echo
keyboard_handler-typed beyond k code mode = ground arith

-- No key of the table is 0x80 itself.
abbrev is_flag_ext : ℕ → Bool
is_flag_ext code =
    not (key_at (λ _. 0) code 0 == 0x80)
    && not (key_at (λ _. 0) code 1 == 0x80)
    && not (key_at (λ _. 0) code 2 == 0x80)

table-is_flag_ext : checked is_flag_ext 0x80 ≡ true
unfolding checked key_at
table-is_flag_ext = refl

key_at-beyond :
    (beyond : ℕ → ℕ) {code : ℕ} (flags : ℕ)
    → code < 0x80
    → key_at beyond code flags ≡ key_at (λ _. 0) code flags
unfolding key_at
key_at-beyond beyond {code} flags under = ground arith

key_at-column :
    {code : ℕ} (flags : ℕ)
    → code < 0x80
    → (key_at (λ _. 0) code flags ≡ key_at (λ _. 0) code 0)
      ⊎ ((key_at (λ _. 0) code flags ≡ key_at (λ _. 0) code 1)
          ⊎ (key_at (λ _. 0) code flags ≡ key_at (λ _. 0) code 2))
unfolding key_at
key_at-column {code} flags under = ground arith

key_at-ne : (beyond : ℕ → ℕ) {code : ℕ} (flags : ℕ) → code < 0x80 → key_at beyond code flags ≢ 0x80
key_at-ne beyond {code} flags under = ground (
  arith,
  key_at-beyond beyond flags under,
  key_at-column flags under,
  law_of-checked is_flag_ext table-is_flag_ext under,
)

input_char-bound : (key : ℕ) → key ≢ 0x80 → input_char key < 0x80
unfolding input_char
input_char-bound key ne = ground arith

typed_key-bound :
    (beyond : ℕ → ℕ) (flags : ℕ) {code : ℕ} (key : ℕ)
    → code < 0x80
    → key ≢ 0x80
    → typed_key beyond flags code key < 0x80
unfolding typed_key
typed_key-bound beyond flags {code} key under ne =
    let shifted : key_at beyond code 1 ≢ 0x80 = key_at-ne beyond 1 under in
    input_char-bound
      (if has_flag flags flag_ctrl_l
          || has_flag flags flag_ctrl_r
          || has_flag flags flag_alt_l
          || has_flag flags flag_alt_r
        then 0
        else if has_flag flags flag_shift_l || has_flag flags flag_shift_r
        then key_at beyond code 1
        else key)
      (ground arith)

pub typed-bound :
    (beyond : ℕ → ℕ) (flags : ℕ) {code : ℕ}
    → code < 0x100
    → code ≢ 0x80
    → typed beyond flags code < 0x80
unfolding typed
typed-bound beyond flags {code} byte ne = ground (
  arith,
  λ (low : code < 0x80).
      typed_key-bound beyond (next_flags beyond flags code)
        (key_at beyond code (emul0_column flags)) low (key_at-ne beyond (emul0_column flags) low),
)

-- All codes of a sequence.
unfoldable pub handle_all : {S : Type 0} (beyond : ℕ → ℕ) → Keyboard S → List ℕ → Keyboard S
handle_all beyond k [] = k
handle_all beyond k (code ∷ codes) = handle_all beyond (keyboard_handler beyond k code) codes

-- The characters that a sequence of codes gives in an input mode.
unfoldable pub typed_line : (beyond : ℕ → ℕ) → (flags : ℕ) → List ℕ → List ℕ
typed_line beyond flags [] = []
typed_line beyond flags (code ∷ codes) =
    let rest : List ℕ = typed_line beyond (next_flags beyond flags code) codes in
    let key : ℕ = typed beyond flags code in if key == 0 then rest else key ∷ rest

-- The codes that a keyboard sends.
unfoldable pub AllCodes : List ℕ → Type 0
AllCodes [] = 0 ≤ 0
AllCodes (code ∷ codes) = (code < 0x100) × (code ≢ 0x80) × AllCodes codes

-- Every key is a character other than 0.
unfoldable pub AllChars : List ℕ → Type 0
AllChars [] = 0 ≤ 0
AllChars (key ∷ keys) = (0 < key) × (key < 0x80) × AllChars keys

keep_char :
    (key : ℕ) (rest : List ℕ)
    → key < 0x80
    → AllChars rest
    → AllChars (if key == 0 then rest else key ∷ rest)
unfolding AllChars
keep_char key rest under all = elim (Bool-cases (key == 0)) [
  | inl nothing ↦ rw nothing all
  | inr char ↦ rw char (ground arith, under, all)
]

-- Whatever codes the keyboard sends, each character that is typed is between 1 and 0x7f.
pub typed_line-bound :
    (beyond : ℕ → ℕ) (flags : ℕ) (codes : List ℕ)
    → AllCodes codes
    → AllChars (typed_line beyond flags codes)
unfolding typed_line AllChars AllCodes
typed_line-bound beyond flags [] sent = omega arith
typed_line-bound beyond flags (code ∷ codes) sent =
    keep_char (typed beyond flags code) (typed_line beyond (next_flags beyond flags code) codes)
      (typed-bound beyond flags sent.0 sent.1)
      (typed_line-bound beyond (next_flags beyond flags code) codes sent.2)
