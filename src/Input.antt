-- ===== src/Input.antt =====
-- The input of a program, kernel/syscall/io.c: the function that the keyboard calls for each key while
-- `sys_get` waits.
pub mod Line
pub mod Typing
mod Tests
use bitch.Base.{ℕ, ◌-◌, ◌%◌, not, ◌&&◌, ltb, ◌==◌, if◌then◌else◌, add32, update}

-- The static variables of kernel/syscall/io.c, and the memory that their pointers point into.
pub record Input : Type 0 where
  pub key_c : ℕ
  pub key_len : ℕ
  pub key_lock : ℕ
  pub memory : ℕ → ℕ

-- `*(key_c++) = (char) key; key_len--;`, under its guard.
unfoldable pub store_key : ℕ → Input → Input
unfolding update
store_key key s =
    if ltb 0 s.key_len && not (s.key_c == 0)
    then record s {
      memory = update s.memory s.key_c (key % 0x100);
      key_c = add32 s.key_c 1;
      key_len = s.key_len - 1;
    }
    else s

-- `intr_unlock(key_lock)`, under its guard.
unfoldable pub unlock_full : Input → Input
unfolding update
unlock_full s =
    if (s.key_len == 0) && not (s.key_lock == 0)
    then record s { memory = update s.memory s.key_lock 0 }
    else s

unfoldable pub key_get : ℕ → Input → Input
unfolding store_key unlock_full
key_get key s = unlock_full (store_key key s)
