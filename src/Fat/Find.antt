-- ===== src/Fat/Find.antt =====
-- The search for a long name in a directory, of `get_root_file` and `get_file` of kernel/fs/fat.c.
use bitch.Base.{ℕ, ◌+◌, ◌-◌, ◌/◌, ◌%◌, ◌≤◌, ◌<◌, ◌≡◌, ◌⊎◌, true, some, Option}
use bitch.Fat.{Buffer}
use bitch.Fat.Dir.{
  Entries, order, flag_del, is_part, is_last, part_number, is_file, is_part_of, lfn_char,
  part_count, last_part,
}

module _ (dir : ℕ → Buffer) (entry : Entries) (reads : (n : ℕ) → entry n ≡ some (dir n))
    (name : ℕ → ℕ) where
  -- The parts up to `i` of a long name that ends before `at`.
  abbrev pub Parts : (at i : ℕ) → Type 0
  Parts at i = (j : ℕ) → 0 < j → j ≤ i → is_part_of name j (dir (at - j)) ≡ true

  -- The name in the parts before the entry at `m + part_count len`, which is `f`, is the one of `len`
  -- characters: the parts spell its characters, and the one that is marked as the last, at `m`, has a zero
  -- behind them, or no room for more.
  pub record FoundAt (len m : ℕ) (f : Buffer) : Type 0 where
    pub entry_is : f ≡ dir (m + part_count len)
    pub file : is_file f ≡ true
    pub part : (i : ℕ) → i < len → is_part (dir (m + part_count len - (i / 13 + 1))) ≡ true
    pub top : is_last (dir m) ≡ true
    pub numbered : part_number (dir m) ≡ part_count len
    pub end : lfn_char (dir m) (last_part len) ≡ 0
    pub char :
        (i : ℕ) → i < len → lfn_char (dir (m + part_count len - (i / 13 + 1))) (i % 13) ≡ name i

  -- The parts of a name, taken from the tests of its entries.
  abbrev Spelled : (len m i : ℕ) → Type 0
  Spelled len m i =
      (is_part (dir (m + part_count len - (i / 13 + 1))) ≡ true)
      × (lfn_char (dir (m + part_count len - (i / 13 + 1))) (i % 13) ≡ name i)

  abbrev pub Outcome : (len dir_count : ℕ) → Option Buffer → Type 0
  Outcome len dir_count r =
      (f : Buffer) × (r ≡ some f)
      × ((order f ≡ flag_del) ⊎ ((m : ℕ) × (m < dir_count) × FoundAt len m f))
