-- ===== src/Keyboard.antt =====
-- The keyboard, kernel/dev/keyboard.c: from the scan codes that the controller delivers to the keys that the
-- registered function gets, and the driver of its controller, driver/atkbd.c.
mod Keys
mod Map
pub mod Driver
pub mod Layout
pub mod Typed
use bitch.Base.{
  ℕ, ◌+◌, ◌-◌, ◌%◌, ◌^◌, bit_and, bit_or, Bool, true, false, not, ◌&&◌, ◌||◌, Option, none, some,
  ltb, ◌==◌, if◌then◌else◌, get_or,
}
use bitch.Console.{Console, console_putchar}
use bitch.Keyboard.Keys.{
  key_flag_ext, key_flag_break, key_tab_input, key_enter_input, key_backspace_input, key_tab,
  key_enter, key_backspace, key_shift_l, key_shift_r, key_ctrl_l, key_ctrl_r, key_alt_l, key_alt_r,
}
use bitch.Keyboard.Map.{keyboard_map}

-- The static variables of kernel/dev/keyboard.c, with the console and the state `caller` that the
-- registered function changes. `none` is the NULL of `key_callback`.
pub record Keyboard (S : Type 0) : Type 0 where
  pub key_callback : Option (ℕ → S → S)
  pub key_flags : ℕ
  pub input_mode : ℕ
  pub console : Console
  pub caller : S

-- CODE_BREAK, CODE_EMUL0, CODE_EMUL1
abbrev pub code_break : ℕ
code_break = 0x80

abbrev pub code_emul0 : ℕ
code_emul0 = 0xe0

abbrev pub code_emul1 : ℕ
code_emul1 = 0xe1

-- FLAG_EMUL0 and the others
abbrev pub flag_emul0 : ℕ
flag_emul0 = 0x01

abbrev pub flag_emul1 : ℕ
flag_emul1 = 0x02

abbrev pub flag_shift_l : ℕ
flag_shift_l = 0x04

abbrev pub flag_shift_r : ℕ
flag_shift_r = 0x08

abbrev pub flag_ctrl_l : ℕ
flag_ctrl_l = 0x10

abbrev pub flag_ctrl_r : ℕ
flag_ctrl_r = 0x20

abbrev pub flag_alt_l : ℕ
flag_alt_l = 0x40

abbrev pub flag_alt_r : ℕ
flag_alt_r = 0x80

-- `key_flags |= f`, `key_flags &= ~f` and `(key_flags & f) == f`
unfoldable pub set_flag : (flags f : ℕ) → ℕ
set_flag flags f = bit_or flags f

unfoldable pub clear_flag : (flags f : ℕ) → ℕ
clear_flag flags f = bit_and flags (0xffff - f)

unfoldable pub has_flag : (flags f : ℕ) → Bool
has_flag flags f = bit_and flags f == f

abbrev pub column : (ℕ × ℕ × ℕ) → ℕ → ℕ
column row flags = if flags == 0 then row.0 else if flags == 1 then row.1 else row.2

-- `keyboard_map[code][flags]`; `beyond` are the bytes behind the table, which the code 0x80 reads.
unfoldable pub key_at : (beyond : ℕ → ℕ) → (code flags : ℕ) → ℕ
key_at beyond code flags =
    if ltb code 0x80 then column (get_or keyboard_map code (0, 0, 0)) flags else beyond flags

-- The flags when `key` goes up or down.
unfoldable pub release_flags : (flags key : ℕ) → ℕ
unfolding clear_flag
release_flags flags key =
    if key == key_shift_l
    then clear_flag flags flag_shift_l
    else if key == key_shift_r
    then clear_flag flags flag_shift_r
    else if key == key_ctrl_l
    then clear_flag flags flag_ctrl_l
    else if key == key_ctrl_r
    then clear_flag flags flag_ctrl_r
    else if key == key_alt_l
    then clear_flag flags flag_alt_l
    else if key == key_alt_r
    then clear_flag flags flag_alt_r
    else flags

unfoldable pub press_flags : (flags key : ℕ) → ℕ
unfolding set_flag
press_flags flags key =
    if key == key_shift_l
    then set_flag flags flag_shift_l
    else if key == key_shift_r
    then set_flag flags flag_shift_r
    else if key == key_ctrl_l
    then set_flag flags flag_ctrl_l
    else if key == key_ctrl_r
    then set_flag flags flag_ctrl_r
    else if key == key_alt_l
    then set_flag flags flag_alt_l
    else if key == key_alt_r
    then set_flag flags flag_alt_r
    else flags

-- The character for a key that has one and for the keys of the controls; 0 for any other.
unfoldable pub input_char : ℕ → ℕ
input_char key =
    let input : ℕ =
      if key == key_tab
      then key_tab_input
      else if key == key_enter
      then key_enter_input
      else if key == key_backspace
      then key_backspace_input
      else key in
    if ltb key_flag_ext input then 0 else input

-- The character that a key gives in the input modes.
unfoldable pub typed_key : (beyond : ℕ → ℕ) → (flags code key : ℕ) → ℕ
typed_key beyond flags code key =
    let shifted : ℕ =
      if has_flag flags flag_shift_l || has_flag flags flag_shift_r
      then key_at beyond code 1
      else key in
    input_char (
      if has_flag flags flag_ctrl_l
        || has_flag flags flag_ctrl_r
        || has_flag flags flag_alt_l
        || has_flag flags flag_alt_r
      then 0
      else shifted)

-- The flags behind the code 0xe0, and the column of the table for the code that follows it.
abbrev pub after_emul0 : ℕ → ℕ
after_emul0 flags = if has_flag flags flag_emul0 then clear_flag flags flag_emul0 else flags

abbrev pub emul0_column : ℕ → ℕ
emul0_column flags = if has_flag flags flag_emul0 then 2 else 0

module _ {S : Type 0} where
  unfoldable pub deliver : Keyboard S → ℕ → Keyboard S
  deliver k key = if key == 0 then k else elim k.key_callback [
    | none ↦ k
    | some callback ↦ record k { caller = callback key k.caller }
  ]

  unfoldable pub key_up : Keyboard S → ℕ → Keyboard S
  key_up k key =
      deliver (record k { key_flags = release_flags k.key_flags key })
        (if k.input_mode == 0 then (key + key_flag_break) % 2 ^ 16 else 0)

  unfoldable pub echo : Keyboard S → ℕ → Keyboard S
  echo k key =
      if not (key == 0) && (k.input_mode == 2)
      then record k { console = console_putchar k.console key }
      else k

  unfoldable pub key_down : (beyond : ℕ → ℕ) → Keyboard S → (code key : ℕ) → Keyboard S
  key_down beyond k code key =
      let down : Keyboard S = record k { key_flags = press_flags k.key_flags key } in
      if k.input_mode == 0
      then deliver down key
      else let input : ℕ = typed_key beyond down.key_flags code key in
        deliver (echo down input) input

  unfoldable pub keyboard_handler : (beyond : ℕ → ℕ) → Keyboard S → (code : ℕ) → Keyboard S
  keyboard_handler beyond k code =
      if code == code_emul0
      then record k { key_flags = set_flag k.key_flags flag_emul0 }
      else if code == code_emul1
      then record k { key_flags = set_flag k.key_flags flag_emul1 }
      else let t : Keyboard S = record k { key_flags = after_emul0 k.key_flags } in
        let flags : ℕ = emul0_column k.key_flags in
        if ltb code_break code
        then key_up t (key_at beyond (code - code_break) flags)
        else key_down beyond t code (key_at beyond code flags)

  abbrev pub reg_key_callback : Keyboard S → Option (ℕ → S → S) → Keyboard S
  reg_key_callback k callback = record k { key_callback = callback }

  abbrev pub set_input_mode : Keyboard S → ℕ → Keyboard S
  set_input_mode k m = record k { input_mode = m % 0x100 }
