-- ===== src/Umm/Tables.antt =====
-- The page tables of a program in memory, and what a new entry or a new table changes in them, kernel/mm/umm.c.
use bitch.Base.{
  ℕ, zero, suc, ◌+◌, ◌*◌, ◌/◌, ◌^◌, ◌≤◌, ◌<◌, ◌≡◌, ◌≢◌, refl, false, ◌&&◌, arith, ltb, leb, ◌==◌,
  if◌then◌else◌,
}
use bitch.Kmm.{set_page, user_flags, page_pte_index}
use bitch.Pmm.{page_size, is_free}
use bitch.Umm.{Umm, word_at, store_word, clear_words}
use bitch.Vmm.{Vmm}

-- The directory's entry `m`, and the page of the table that it names. The directory is the page
-- `dir`.
abbrev pub entry : Umm → ℕ → ℕ → ℕ
entry s dir m = s.mem (word_at (dir * page_size) m)

abbrev pub table : Umm → ℕ → ℕ → ℕ
table s dir m = entry s dir m / page_size

-- The directory and its tables are different pages in use, none of them page 0.
pub record IsTables (s : Umm) (dir : ℕ) : Type 0 where
  pub linked : (m : ℕ) → m < 1024 → entry s dir m ≢ 0 → 0 < table s dir m
  pub apart : (m : ℕ) → m < 1024 → entry s dir m ≢ 0 → table s dir m ≢ dir
  pub distinct :
      (m k : ℕ)
      → m < 1024
      → k < 1024
      → m ≢ k
      → entry s dir m ≢ 0
      → entry s dir k ≢ 0
      → table s dir m ≢ table s dir k
  pub used : (m : ℕ) → m < 1024 → entry s dir m ≢ 0 → is_free s.vmm.pmm (table s dir m) ≡ false
  pub dir_used : is_free s.vmm.pmm dir ≡ false

-- What lies in the pages from `p` on after the words `i` up to `last` have been cleared.
clear_words_lem :
    (s : Umm) (p i left last page j : ℕ)
    → i + left ≡ last
    → last ≤ 1024
    → j < 1024
    → (clear_words s (p * page_size) i left).mem (word_at (page * page_size) j)
      ≡ (if (page == p) && (leb i j && ltb j last) then 0 else s.mem (word_at (page * page_size) j))
unfolding clear_words store_word
clear_words_lem s p i zero last page j e h b = ground arith
clear_words_lem s p i (suc left) last page j e h b = ground (
  arith,
  clear_words_lem (store_word s (word_at (p * page_size) i) 0) p (i + 1) left last page j
      (omega arith) h b,
)

clear_words-vmm : (s : Umm) (p i left : ℕ) → (clear_words s p i left).vmm ≡ s.vmm
unfolding clear_words store_word
clear_words-vmm s p i zero = refl
clear_words-vmm s p i (suc left) = clear_words-vmm (store_word s (word_at p i) 0) p (i + 1) left

-- Storing a word changes that word alone.
mem-store_word :
    (s : Umm) (page page' i j v : ℕ)
    → i < 1024
    → j < 1024
    → (store_word s (word_at (page * page_size) i) v).mem (word_at (page' * page_size) j)
      ≡ (if (page' == page) && (j == i) then v else s.mem (word_at (page' * page_size) j))
unfolding store_word
mem-store_word s page page' i j v h k = ground arith

-- The entry at the index `j` of the table at the index `m`, or 0 without a table.
abbrev pub cell : Umm → ℕ → ℕ → ℕ → ℕ
cell s dir m j = if entry s dir m == 0 then 0 else s.mem (word_at (table s dir m * page_size) j)

-- `s` with the word `j` of the table `m` set to `v`.
abbrev pub set_old : Umm → ℕ → ℕ → ℕ → ℕ → Umm
set_old s dir m j v = store_word s (word_at (table s dir m * page_size) j) v

module _ (s : Umm) (dir m j v : ℕ) (tables : IsTables s dir) (hm : m < 1024) (hj : j < 1024)
    (here : entry s dir m ≢ 0) where
  entry-set_old : (k : ℕ) → k < 1024 → entry (set_old s dir m j v) dir k ≡ entry s dir k
  entry-set_old k h =
      ground (arith, mem-store_word s (table s dir m) dir j k v hj h, tables.apart m hm here)

  pub cell-set_old :
      (k i : ℕ)
      → k < 1024
      → i < 1024
      → cell (set_old s dir m j v) dir k i ≡ (if (k == m) && (i == j) then v else cell s dir k i)
  cell-set_old k i hk hi = rw (entry-set_old k hk) (
      ground (
        arith,
        mem-store_word s (table s dir m) (table s dir k) j i v hj hi,
        tables.distinct k m hk hm,
        here,
      ))

  pub IsTables-set_old : IsTables (set_old s dir m j v) dir
  IsTables-set_old = record {
    linked = λ k h e. ground (arith, entry-set_old k h, tables.linked k h);
    apart = λ k h e. ground (arith, entry-set_old k h, tables.apart k h);
    distinct = λ k l h h' ne e e'.
        ground (arith, entry-set_old k h, entry-set_old l h', tables.distinct k l h h' ne);
    used = λ k h e. unfold store_word in ground (arith, entry-set_old k h, tables.used k h);
    dir_used = unfold store_word in tables.dir_used;
  }

-- `s` with the new page `p`, cleared, linked at the index `m` and with its word `j` set to `v`.
abbrev pub set_new : Umm → ℕ → ℕ → ℕ → ℕ → ℕ → Umm
set_new s dir p m j v =
    store_word
      (store_word (clear_words s (p * page_size) 0 page_pte_index) (word_at (dir * page_size) m)
        (set_page (p * page_size) user_flags))
      (word_at (p * page_size) j) v

module _ (s : Umm) (dir p m j v : ℕ) (tables : IsTables s dir) (hm : m < 1024) (hj : j < 1024)
    (new : (k : ℕ) → k < 1024 → entry s dir k ≢ 0 → table s dir k ≢ p) (ne_dir : p ≢ dir)
    (pos : 0 < p) (word : p < 2 ^ 20) (none_here : entry s dir m ≡ 0) where
  mem-set_new :
      (page i : ℕ)
      → i < 1024
      → (set_new s dir p m j v).mem (word_at (page * page_size) i) ≡ (
          if page == p
          then if i == j then v else 0
          else if (page == dir) && (i == m)
          then p * page_size + user_flags
          else s.mem (word_at (page * page_size) i))
  mem-set_new page i hi =
      let cleared : Umm = clear_words s (p * page_size) 0 page_pte_index in
      let link : ℕ = set_page (p * page_size) user_flags in
      ground (
        arith,
        mem-store_word (store_word cleared (word_at (dir * page_size) m) link) p page j i v hj hi,
        mem-store_word cleared dir page m i link hm hi,
        clear_words_lem s p 0 1024 1024 page i (omega arith) (omega arith) hi,
      )

  entry-set_new :
      (k : ℕ)
      → k < 1024
      → entry (set_new s dir p m j v) dir k
        ≡ (if k == m then p * page_size + user_flags else entry s dir k)
  entry-set_new k h = ground (arith, mem-set_new dir k h, ne_dir)

  table-set_new :
      (k : ℕ)
      → k < 1024
      → table (set_new s dir p m j v) dir k ≡ (if k == m then p else table s dir k)
  table-set_new k h = ground (arith, entry-set_new k h)

  pub cell-set_new :
      (k i : ℕ)
      → k < 1024
      → i < 1024
      → cell (set_new s dir p m j v) dir k i ≡ (if (k == m) && (i == j) then v else cell s dir k i)
  cell-set_new k i hk hi = ground (
    arith,
    entry-set_new k hk,
    table-set_new k hk,
    mem-set_new (table (set_new s dir p m j v) dir k) i hi,
    new k hk,
    tables.apart k hk,
    none_here,
  )

  vmm-set_new : (set_new s dir p m j v).vmm ≡ s.vmm
  unfolding store_word
  vmm-set_new = clear_words-vmm s (p * page_size) 0 page_pte_index

  pub IsTables-set_new : is_free s.vmm.pmm p ≡ false → IsTables (set_new s dir p m j v) dir
  IsTables-set_new p_used = record {
    linked = λ k h e. ground (arith, entry-set_new k h, table-set_new k h, tables.linked k h);
    apart = λ k h e. ground (arith, entry-set_new k h, table-set_new k h, tables.apart k h);
    distinct = λ k l h h' ne e e'. ground (
      arith,
      entry-set_new k h,
      entry-set_new l h',
      table-set_new k h,
      table-set_new l h',
      tables.distinct k l h h' ne,
      new k h,
      new l h',
    );
    used = λ k h e.
        rw vmm-set_new (ground (arith, entry-set_new k h, table-set_new k h, tables.used k h));
    dir_used = rw vmm-set_new tables.dir_used;
  }

-- Pages that are taken from the allocator are no tables.
pub IsTables-taken :
    (s : Umm) (v : Vmm) (dir : ℕ)
    → IsTables s dir
    → ((q : ℕ) → is_free s.vmm.pmm q ≡ false → is_free v.pmm q ≡ false)
    → IsTables (record s { vmm = v }) dir
IsTables-taken s v dir t keeps = record {
  linked = t.linked;
  apart = t.apart;
  distinct = t.distinct;
  used = λ m h e. keeps (table s dir m) (t.used m h e);
  dir_used = keeps dir t.dir_used;
}
