-- ===== src/Vmm/Pages.antt =====
-- The pages that several calls of `pmm_alloc_page` hand out one after the other.
use bitch.Base.{
  ℕ, zero, suc, ◌+◌, ◌/◌, ◌<◌, ◌≡◌, ◌≢◌, refl, ◌∙◌, inl, inr, true, false, arith, List, [], ◌∷◌,
  get_or,
}
use bitch.Pmm.{Pmm, page_size, is_free, pmm_alloc_page}
use bitch.Pmm.Alloc.{bitmap_length-pmm_alloc_page, pmm_alloc_page_lem, pmm_alloc_page-IsValid, Took}
use bitch.Pmm.Inv
use bitch.Pmm.Inv.{is_free→lt}

-- The page numbers, and the allocator's last state.
unfoldable pub alloc_pages : ℕ → Pmm → List ℕ × Pmm
alloc_pages zero m = ([], m)
alloc_pages (suc n) m =
    let (a, m') = pmm_alloc_page m in
    let (ps, m'') = alloc_pages n m' in ((a / page_size) ∷ ps, m'')

abbrev pub page_at : List ℕ → ℕ → ℕ
page_at ps j = get_or ps j 0

-- Distinct free pages, none of them page 0; the allocator loses these and no others.
pub record Fresh (m : Pmm) (n : ℕ) (ps : List ℕ) (m' : Pmm) : Type 0 where
  pub valid : Inv.IsValid m'
  pub len : m'.bitmap_length ≡ m.bitmap_length
  pub counted : m'.free_page_count + n ≡ m.free_page_count
  pub were_free : (j : ℕ) → j < n → is_free m (page_at ps j) ≡ true
  pub are_used : (j : ℕ) → j < n → is_free m' (page_at ps j) ≡ false
  pub ne_zero : (j : ℕ) → j < n → 0 < page_at ps j
  pub distinct : (j k : ℕ) → j < k → k < n → page_at ps j ≢ page_at ps k
  pub others : (q : ℕ) → ((j : ℕ) → j < n → page_at ps j ≢ q) → is_free m' q ≡ is_free m q
  pub shrinks : (q : ℕ) → is_free m' q ≡ true → is_free m q ≡ true

-- One call with two free pages left succeeds.
pub one_page : {m : Pmm} → Inv.IsValid m → 1 < m.free_page_count → Took m (pmm_alloc_page m)
one_page v h = elim (pmm_alloc_page_lem v) [
  | inl (_, _, _, few) ↦ absurd (omega arith)
  | inr took ↦ took
]

module _ {m : Pmm} (r : ℕ × Pmm) (n : ℕ) {ps : List ℕ} {m'' : Pmm} (v : Inv.IsValid m)
    (took : Took m r) (len : r.1.bitmap_length ≡ m.bitmap_length) (rest : Fresh r.1 n ps m'') where
  abbrev page : ℕ
  page = r.0 / page_size

  page_taken : (page ≡ took.0) × (is_free r.1 page ≡ false)
  page_taken = ground (arith, took.1, took.5 page)

  pages : List ℕ
  pages = page ∷ ps

  cons-were_free : (j : ℕ) → j < suc n → is_free m (page_at pages j) ≡ true
  unfolding pages
  cons-were_free zero h = rw page_taken.0 took.3
  cons-were_free (suc j) h = ground (arith, rest.were_free j, took.5 (page_at ps j))

  cons-are_used : (j : ℕ) → j < suc n → is_free m'' (page_at pages j) ≡ false
  unfolding pages
  cons-are_used zero h = ground (arith, rest.shrinks page, page_taken)
  cons-are_used (suc j) h = rest.are_used j (omega arith)

  cons-ne_zero : (j : ℕ) → j < suc n → 0 < page_at pages j
  unfolding pages
  cons-ne_zero zero h = omega (arith, page_taken, took.2)
  cons-ne_zero (suc j) h = rest.ne_zero j (omega arith)

  cons-distinct : (j k : ℕ) → j < k → k < suc n → page_at pages j ≢ page_at pages k
  unfolding pages
  cons-distinct j zero lt h = absurd (omega arith)
  cons-distinct zero (suc k) lt h = λ e. ground (arith, rest.were_free k, page_taken)
  cons-distinct (suc j) (suc k) lt h = rest.distinct j k (omega arith) (omega arith)

  cons-others : (q : ℕ) → ((j : ℕ) → j < suc n → page_at pages j ≢ q) → is_free m'' q ≡ is_free m q
  unfolding pages
  cons-others q ne =
      rest.others q (λ j h. ne (suc j) (omega arith)) ∙ ground (arith, took.5 q, ne 0, page_taken)

  Fresh-cons : Fresh m (suc n) (page ∷ ps) m''
  unfolding pages
  Fresh-cons = record {
    valid = rest.valid;
    len = rest.len ∙ len;
    counted = omega (arith, rest.counted, took.6);
    were_free = cons-were_free;
    are_used = cons-are_used;
    ne_zero = cons-ne_zero;
    distinct = cons-distinct;
    others = cons-others;
    shrinks = λ q h. ground (arith, rest.shrinks q, took.5 q);
  }

-- With more than `n` free pages, `n` calls of `pmm_alloc_page` succeed.
pub alloc_pages-Fresh :
    (n : ℕ) {m : Pmm}
    → Inv.IsValid m
    → n < m.free_page_count
    → Fresh m n (alloc_pages n m).0 (alloc_pages n m).1
unfolding alloc_pages
alloc_pages-Fresh zero v h = record {
  valid = v;
  len = refl;
  counted = omega arith;
  were_free = λ j l. absurd (omega arith);
  are_used = λ j l. absurd (omega arith);
  ne_zero = λ j l. absurd (omega arith);
  distinct = λ j k l l'. absurd (omega arith);
  others = λ q ne. refl;
  shrinks = λ q f. f;
}
alloc_pages-Fresh (suc n) {m} v h =
    let took = one_page v (omega arith) in
    Fresh-cons (pmm_alloc_page m) n v took (bitmap_length-pmm_alloc_page m)
      (alloc_pages-Fresh n (pmm_alloc_page-IsValid v) (omega (arith, took.6)))
