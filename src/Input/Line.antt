-- ===== src/Input/Line.antt =====
-- What a line of keys leaves in the memory of the program that waits for it.
use bitch.Base.{
  ℕ, zero, suc, ◌+◌, ◌-◌, ◌^◌, ◌<◌, ◌≤◌, ◌≡◌, ap, ◌∙◌, arith, false, ◌&&◌, List, [], ◌∷◌, leb, ltb,
  ◌==◌, ◌⊎◌, inl, inr, if◌then◌else◌, update, length, get_or, get_or-cons,
}
use bitch.Input.{Input, store_key, unlock_full, key_get}

-- All keys of a line.
unfoldable pub get_all : Input → List ℕ → Input
get_all s [] = s
get_all s (key ∷ keys) = get_all (key_get key s) keys

-- Every key is a byte.
unfoldable pub AllBytes : List ℕ → Type 0
AllBytes [] = 0 ≤ 0
AllBytes (key ∷ keys) = (key < 0x100) × AllBytes keys

-- A program waits for the `key_len` bytes behind `key_c`, with its lock outside them.
pub record IsWaiting (s : Input) : Type 0 where
  pub buf : 0 < s.key_c
  pub end : s.key_c + s.key_len < 2 ^ 32
  pub lock : 0 < s.key_lock
  pub apart : (leb s.key_c s.key_lock && ltb s.key_lock (s.key_c + s.key_len)) ≡ false

unfoldable pub kept : List ℕ → ℕ → ℕ
kept keys len = if leb len (length keys) then len else length keys

-- The byte at `q` when the keys have been stored at `start`.
unfoldable pub line_byte : Input → List ℕ → ℕ → ℕ
line_byte s keys q =
    if leb s.key_c q && ltb q (s.key_c + s.key_len) && ltb (q - s.key_c) (length keys)
    then get_or keys (q - s.key_c) 0
    else if (q == s.key_lock) && ltb 0 (length keys) && leb s.key_len (length keys)
    then 0
    else s.memory q

key_get-len : (key : ℕ) (s : Input) → IsWaiting s → (key_get key s).key_len ≡ s.key_len - 1
unfolding key_get store_key unlock_full
key_get-len key s waits =
    let h0 : 0 < s.key_c = waits.buf in let h1 : 0 < s.key_lock = waits.lock in ground arith

key_get-lock : (key : ℕ) (s : Input) → (key_get key s).key_lock ≡ s.key_lock
unfolding key_get store_key unlock_full
key_get-lock key s = ground arith

key_get-pos :
    (key : ℕ) (s : Input)
    → IsWaiting s
    → (key_get key s).key_c ≡ (if ltb 0 s.key_len then s.key_c + 1 else s.key_c)
unfolding key_get store_key unlock_full
key_get-pos key s waits =
    let h0 : 0 < s.key_c = waits.buf in
    let h1 : s.key_c + s.key_len < 2 ^ 32 = waits.end in ground arith

key_get-memory :
    (key : ℕ) (s : Input)
    → IsWaiting s
    → key < 0x100
    → (q : ℕ)
    → (key_get key s).memory q ≡ (
        if (q == s.key_lock) && leb s.key_len 1
        then 0
        else if (q == s.key_c) && ltb 0 s.key_len
        then key
        else s.memory q)
unfolding key_get store_key unlock_full update
key_get-memory key s waits byte q =
    let h0 : 0 < s.key_c = waits.buf in
    let h1 : 0 < s.key_lock = waits.lock in
    let h2 : (leb s.key_c s.key_lock && ltb s.key_lock (s.key_c + s.key_len)) ≡ false =
      waits.apart in
    ground arith

key_get-IsWaiting : (key : ℕ) (s : Input) → IsWaiting s → IsWaiting (key_get key s)
key_get-IsWaiting key s waits =
    let h0 : 0 < s.key_c = waits.buf in
    let h1 : s.key_c + s.key_len < 2 ^ 32 = waits.end in
    let h2 : 0 < s.key_lock = waits.lock in
    let h3 : (leb s.key_c s.key_lock && ltb s.key_lock (s.key_c + s.key_len)) ≡ false =
      waits.apart in
    let len : (key_get key s).key_len ≡ s.key_len - 1 = key_get-len key s waits in
    let lock : (key_get key s).key_lock ≡ s.key_lock = key_get-lock key s in
    let pos = key_get-pos key s waits in
    record { buf = ground arith; end = ground arith; lock = ground arith; apart = ground arith }

-- The byte at `q` after a key and then `count` more, where `g` is that one of the `count` which belongs
-- there; and the same with the key as the first of the line.
unfoldable later_byte : (c len l q key count old g : ℕ) → ℕ
later_byte c len l q key count old g =
    let start : ℕ = if ltb 0 len then c + 1 else c in
    if leb start q && ltb q (start + (len - 1)) && ltb (q - start) count
    then g
    else if (q == l) && ltb 0 count && leb (len - 1) count
    then 0
    else if (q == l) && leb len 1
    then 0
    else if (q == c) && ltb 0 len
    then key
    else old

unfoldable first_byte : (c len l q key count old g : ℕ) → ℕ
first_byte c len l q key count old g =
    if leb c q && ltb q (c + len) && ltb (q - c) (suc count)
    then (if q - c == 0 then key else g)
    else if (q == l) && ltb 0 (suc count) && leb len (suc count)
    then 0
    else old

module _ (c len l q key count old g : ℕ) (apart : (leb c l && ltb l (c + len)) ≡ false) where
  byte_outside :
      (q < c) ⊎ (c + len ≤ q)
      → later_byte c len l q key count old g ≡ first_byte c len l q key count old g
  unfolding later_byte first_byte
  byte_outside out =
      let none_later : (leb (if ltb 0 len then c + 1 else c) q
            && ltb q ((if ltb 0 len then c + 1 else c) + (len - 1)))
          ≡ false =
        ground arith in
      let none_first : (leb c q && ltb q (c + len)) ≡ false = ground arith in
      let not_start : ((q == c) && ltb 0 len) ≡ false = ground arith in
      rw (none_later, none_first, not_start) (ground arith)

  byte_first :
      q ≡ c → 0 < len → later_byte c len l q key count old g ≡ first_byte c len l q key count old g
  unfolding later_byte first_byte
  byte_first at some = ground arith

  byte_inside :
      c < q
      → q < c + len
      → later_byte c len l q key count old g ≡ first_byte c len l q key count old g
  unfolding later_byte first_byte
  byte_inside below above = ground arith

  byte_place : ((q < c) ⊎ (c + len ≤ q)) ⊎ (((q ≡ c) × (0 < len)) ⊎ ((c < q) × (q < c + len)))
  byte_place = ground arith

  byte_step : later_byte c len l q key count old g ≡ first_byte c len l q key count old g
  byte_step = elim byte_place [
    | inl outside ↦ byte_outside outside
    | inr (inl at) ↦ byte_first at.0 at.1
    | inr (inr inside) ↦ byte_inside inside.0 inside.1
  ]

-- The line's own byte does not count when there is no place for it.
later_byte-of :
    (c len l q key count old g h : ℕ)
    → (0 < len → g ≡ h)
    → later_byte c len l q key count old g ≡ later_byte c len l q key count old h
unfolding later_byte
later_byte-of c zero l q key count old g h same = ground arith
later_byte-of c (suc len) l q key count old g h same =
    ap (later_byte c (suc len) l q key count old) (same (omega arith))

-- The state behind a line of keys: the part of it that fits has been stored, and the lock is open when the
-- buffer is full.
pub get_all-memory :
    (keys : List ℕ) (s : Input)
    → IsWaiting s
    → AllBytes keys
    → (q : ℕ) → (get_all s keys).memory q ≡ line_byte s keys q
unfolding get_all line_byte AllBytes later_byte first_byte
get_all-memory [] s waits bytes q = ground arith
get_all-memory (key ∷ keys) s waits bytes q =
    let t : Input = key_get key s in
    let ih = get_all-memory keys t (key_get-IsWaiting key s waits) bytes.1 q in
    let len : t.key_len ≡ s.key_len - 1 = key_get-len key s waits in
    let lock : t.key_lock ≡ s.key_lock = key_get-lock key s in
    let pos = key_get-pos key s waits in
    let memory = key_get-memory key s waits bytes.0 q in
    let skip = get_or-cons key keys (q - s.key_c) 0 in
    let c : ℕ = if ltb 0 s.key_len then s.key_c + 1 else s.key_c in
    rw (ih, pos, len, lock, memory, skip)
      (later_byte-of s.key_c s.key_len s.key_lock q key (length keys) (s.memory q)
          (get_or keys (q - c) 0) (get_or keys (q - s.key_c - 1) 0)
          (λ some. let at : q - c ≡ q - s.key_c - 1 = ground arith in ap (λ i. get_or keys i 0) at)
        ∙ byte_step s.key_c s.key_len s.key_lock q key (length keys) (s.memory q)
            (get_or keys (q - s.key_c - 1) 0) waits.apart)
