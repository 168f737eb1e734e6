-- ===== src/Input/Typing.antt =====
-- What a program that waits for a line gets of the codes that the keyboard sends, and what the screen shows.
use bitch.Base.{
  ℕ, Bool, ◌≡◌, refl, ap, ◌∙◌, arith, some, List, [], ◌∷◌, ◌==◌, if◌then◌else◌, Bool-cases, inl,
  inr,
}
use bitch.Console.{console_putchar, console_write}
use bitch.Keyboard.{Keyboard, deliver, echo, keyboard_handler}
use bitch.Keyboard.Typed.{
  next_flags, typed, keyboard_handler-typed, typed_line, handle_all, AllChars, AllCodes,
  typed_line-bound,
}
use bitch.Keyboard.Layout.{shift_flags, us_line, AllUs, AllUs-AllCodes, typed_line-us_line}
use bitch.Input.{Input, key_get}
use bitch.Input.Line.{get_all, AllBytes, IsWaiting, line_byte, get_all-memory}

-- The keyboard while `sys_get` waits.
abbrev pub IsListening : Keyboard Input → Type 0
IsListening k = (k.input_mode ≡ 2) × (k.key_callback ≡ some key_get)

-- One character.
typed_one :
    (k : Keyboard Input) (key : ℕ)
    → IsListening k
    → deliver (echo k key) key ≡ (
        if key == 0
        then k
        else record k { console = console_putchar k.console key; caller = key_get key k.caller })
unfolding deliver echo
typed_one k key on = rw (on.0, on.1) (ground arith)

-- One code.
one_code :
    (beyond : ℕ → ℕ) (k : Keyboard Input) (code : ℕ)
    → IsListening k
    → let key : ℕ = typed beyond k.key_flags code in
      let t : Keyboard Input = record k { key_flags = next_flags beyond k.key_flags code } in
      keyboard_handler beyond k code ≡ (
        if key == 0
        then t
        else record t { console = console_putchar k.console key; caller = key_get key k.caller })
one_code beyond k code on =
    keyboard_handler-typed beyond k code (rw (on.0) (ground arith))
    ∙ typed_one (record k { key_flags = next_flags beyond k.key_flags code })
        (typed beyond k.key_flags code) on

-- The state behind a sequence of codes.
abbrev TypesLine : (beyond : ℕ → ℕ) (k : Keyboard Input) (codes : List ℕ) → Type 0
TypesLine beyond k codes =
    ((handle_all beyond k codes).console
      ≡ console_write k.console (typed_line beyond k.key_flags codes))
    × ((handle_all beyond k codes).caller ≡ get_all k.caller (typed_line beyond k.key_flags codes))

all_codes :
    (beyond : ℕ → ℕ) (k : Keyboard Input) (codes : List ℕ)
    → IsListening k
    → TypesLine beyond k codes
unfolding handle_all typed_line get_all console_write
all_codes beyond k [] on = (refl, refl)
all_codes beyond k (code ∷ codes) on =
    let key : ℕ = typed beyond k.key_flags code in
    let t : Keyboard Input = record k { key_flags = next_flags beyond k.key_flags code } in
    let u : Keyboard Input = record t {
      console = console_putchar k.console key;
      caller = key_get key k.caller;
    } in
    elim (Bool-cases (key == 0)) as (λ _. TypesLine beyond k (code ∷ codes)) [
      | inl nothing ↦
          let e : keyboard_handler beyond k code ≡ t =
            one_code beyond k code on ∙ rw nothing refl in
          let ih = all_codes beyond t codes on in
          (
            ap (λ x. (handle_all beyond x codes).console) e ∙ ih.0 ∙ rw nothing refl,
            ap (λ x. (handle_all beyond x codes).caller) e ∙ ih.1 ∙ rw nothing refl,
          )
      | inr char ↦
          let e : keyboard_handler beyond k code ≡ u = one_code beyond k code on ∙ rw char refl in
          let ih = all_codes beyond u codes on in
          (
            ap (λ x. (handle_all beyond x codes).console) e
                ∙ ih.0
                ∙ rw (char, console_write, char) refl,
            ap (λ x. (handle_all beyond x codes).caller) e ∙ ih.1 ∙ rw char refl,
          )
    ]

bytes_of_chars : (keys : List ℕ) → AllChars keys → AllBytes keys
unfolding AllChars AllBytes
bytes_of_chars [] chars = chars
bytes_of_chars (key ∷ keys) chars = (omega (arith, chars.1), bytes_of_chars keys chars.2)

-- Behind a sequence of codes: what was typed are characters, the screen shows them all, and the memory holds
-- those that fit, with the lock open when the buffer is full.
abbrev ReadsLine : (beyond : ℕ → ℕ) (k : Keyboard Input) (codes : List ℕ) → Type 0
ReadsLine beyond k codes =
    let line : List ℕ = typed_line beyond k.key_flags codes in
    let t : Keyboard Input = handle_all beyond k codes in
    AllChars line
    × (t.console ≡ console_write k.console line)
    × ((q : ℕ) → t.caller.memory q ≡ line_byte k.caller line q)

-- While a program waits for a line, with the keyboard in the mode that shows what is typed and `key_get`
-- registered, let the keyboard send any bytes but 0x80. The characters that its table and the keys held down
-- give for them are all between 1 and 0x7f; the console has written all of them in their order; and the
-- memory has the first `key_len` of them from `key_c` on, has the lock open if there were that many (and at
-- least one), and is unchanged elsewhere. The condition on the program is that its buffer is not at NULL and
-- ends inside the address space, and that its lock is not at NULL and outside of the buffer.
keyboard_handler-line :
    (beyond : ℕ → ℕ) (k : Keyboard Input) (codes : List ℕ)
    → IsListening k
    → IsWaiting k.caller
    → AllCodes codes
    → ReadsLine beyond k codes
keyboard_handler-line beyond k codes on waits sent =
    let line : List ℕ = typed_line beyond k.key_flags codes in
    let chars : AllChars line = typed_line-bound beyond k.key_flags codes sent in
    let all = all_codes beyond k codes on in
    (
      chars,
      all.0,
      λ q.
          ap (λ (s : Input). s.memory q) (all.1)
          ∙ get_all-memory line k.caller waits (bytes_of_chars line chars) q,
    )

-- While a program waits for a line, with the keyboard in the mode that shows what is typed and `key_get`
-- registered, and no key held down but shift keys, let the keyboard send the codes of keys that type characters,
-- and of the shift keys, which go down or up. The console has written what these keys type on a US keyboard, in
-- its order; and the memory has the first `key_len` of these characters from `key_c` on, has the lock open if
-- there were that many (and at least one), and is unchanged elsewhere. The condition on the program is that its
-- buffer is not at NULL and ends inside the address space, and that its lock is not at NULL and outside of the buffer.
pub keyboard_handler-us_line :
    (beyond : ℕ → ℕ) (k : Keyboard Input) (left right : Bool) (codes : List ℕ)
    → IsListening k
    → k.key_flags ≡ shift_flags left right
    → IsWaiting k.caller
    → AllUs codes
    → let line : List ℕ = us_line left right codes in
      let t : Keyboard Input = handle_all beyond k codes in
      (t.console ≡ console_write k.console line)
      × ((q : ℕ) → t.caller.memory q ≡ line_byte k.caller line q)
keyboard_handler-us_line beyond k left right codes on held waits us =
    let read = keyboard_handler-line beyond k codes on waits (AllUs-AllCodes codes us) in
    let line : typed_line beyond k.key_flags codes ≡ us_line left right codes =
      ap (λ f. typed_line beyond f codes) held ∙ typed_line-us_line beyond left right codes us in
    (
      read.1 ∙ ap (console_write k.console) line,
      λ q. read.2 q ∙ ap (λ l. line_byte k.caller l q) line,
    )
