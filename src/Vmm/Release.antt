-- ===== src/Vmm/Release.antt =====
-- `vmm_free_page` of kernel/mm/vmm.c, and how it undoes `vmm_alloc_page`.
use bitch.Base.{
  ℕ, zero, suc, ◌+◌, ◌-◌, ◌*◌, ◌/◌, ◌^◌, ◌≤◌, ◌<◌, ◌≡◌, ◌≢◌, refl, sym, ◌∙◌, true, false, arith,
  ltb, leb, ◌==◌, if◌then◌else◌, add32, ℕ_discrete, Bool-cases, inl, inr, le→ltb,
}
use bitch.Pmm.{page_size, is_free}
use bitch.Pmm.Bitmap.{IsBytes}
use bitch.Pmm.Free.{is_free-pmm_free_page, pmm_free_page_bitmap}
use bitch.Pmm.Inv
use bitch.Pmm.Inv.{capacity, is_free→lt}
use bitch.Pmm.Runs.{in_run}
use bitch.Vmm.{
  Vmm, get_vmm_page, remove_slot, free_phys, release_run, raise_pos, vmm_alloc_page, vmm_free_page,
}
use bitch.Vmm.Alloc.{SlotsFree, TookSlots, vmm_alloc_page_lem}
use bitch.Vmm.Pages.{alloc_pages, page_at}
use bitch.Vmm.Slots.{IsWindow, get_vmm_page-remove_slot, get_vmm_page_same}

-- A slot's page number.
abbrev pub slot_page : Vmm → ℕ → ℕ
slot_page t q = get_vmm_page t q / page_size

-- What releasing the `n` slots from `p` on leaves.
record Released (t : Vmm) (p n : ℕ) (r : Vmm) : Type 0 where
  pub slots : (q : ℕ) → get_vmm_page r q ≡ (if in_run p n q then 0 else get_vmm_page t q)
  pub keeps : (x : ℕ) → is_free t.pmm x ≡ true → is_free r.pmm x ≡ true
  pub gives : (q : ℕ) → p ≤ q → q < p + n → is_free r.pmm (slot_page t q) ≡ true
  pub others :
      (x : ℕ)
      → ((q : ℕ) → p ≤ q → q < p + n → slot_page t q ≢ x)
      → is_free r.pmm x ≡ is_free t.pmm x

-- The state after one round.
abbrev released : Vmm → ℕ → Vmm
released t p = remove_slot (free_phys t (get_vmm_page t p)) p

module _ (t : Vmm) (p : ℕ) (w : IsWindow t) (fits : p < t.vmmap_page_count)
    (bytes : IsBytes t.pmm.bitmap) (small : capacity t.pmm ≤ 2 ^ 20)
    (has_bit : slot_page t p < capacity t.pmm) where
  aligned : get_vmm_page t p ≡ slot_page t p * page_size
  unfolding get_vmm_page
  aligned = ground arith

  released_slots :
      (q : ℕ) → get_vmm_page (released t p) q ≡ (if q == p then 0 else get_vmm_page t q)
  released_slots q =
      unfold free_phys in
      ground (
        arith,
        get_vmm_page-remove_slot (free_phys t (get_vmm_page t p)) w p fits q,
        get_vmm_page_same t (free_phys t (get_vmm_page t p)) q refl refl refl,
      )

  released_pages :
      (x : ℕ)
      → is_free (released t p).pmm x ≡ (if x == slot_page t p then true else is_free t.pmm x)
  unfolding free_phys remove_slot
  released_pages x =
      ground
        (arith, aligned, is_free-pmm_free_page t.pmm (slot_page t p) 1 bytes small (omega arith) x)

  Released-suc : (n : ℕ) (r : Vmm) → Released (released t p) (p + 1) n r → Released t p (suc n) r
  Released-suc n r d = record {
    slots = λ q. ground (arith, d.slots q, released_slots q);
    keeps = λ x f. ground (arith, d.keeps x, released_pages x);
    gives = λ q lo hi. elim (ℕ_discrete q p) [
      | yes e ↦ rw e (d.keeps (slot_page t p) (ground (arith, released_pages (slot_page t p))))
      | no ne ↦
          let same : get_vmm_page (released t p) q ≡ get_vmm_page t q =
            ground (arith, released_slots q) in
          rw same at (d.gives q (omega arith) (omega arith))
    ];
    others = λ x ne.
        d.others x (λ q lo hi. ground (arith, released_slots q, ne q))
        ∙ ground (arith, released_pages x, ne p);
  }

-- The slots of the run hold pages that the bitmap has a bit for.
abbrev pub HasBits : Vmm → ℕ → ℕ → Type 0
HasBits t p n = (q : ℕ) → p ≤ q → q < p + n → slot_page t q < capacity t.pmm

release_run-Released :
    (t : Vmm) (index i p n : ℕ)
    → index + i ≡ p
    → IsWindow t
    → p + n ≤ t.vmmap_page_count
    → IsBytes t.pmm.bitmap
    → capacity t.pmm ≤ 2 ^ 20
    → HasBits t p n
    → Released t p n (release_run t index i n)
unfolding release_run free_phys remove_slot
release_run-Released t index i p zero e w fits bytes small bits = record {
  slots = λ q. ground arith;
  keeps = λ x f. f;
  gives = λ q lo hi. absurd (omega arith);
  others = λ x ne. refl;
}
release_run-Released t index i p (suc n) e w fits bytes small bits =
    let at : add32 index i ≡ p = omega arith in
    let has_bit : slot_page t p < capacity t.pmm = bits p (omega arith) (omega arith) in
    let bitmap = pmm_free_page_bitmap t.pmm (get_vmm_page t p) 1 bytes in
    rw at (
      Released-suc t p w (omega arith) bytes small has_bit n
        (release_run (released t p) index (i + 1) n)
        (release_run-Released (released t p) index (i + 1) (p + 1) n (omega arith) w (omega arith)
          bitmap.0 (omega (arith, bitmap.1))
          λ q lo hi.
            ground
              (arith, bits q, bitmap.1, released_slots t p w (omega arith) bytes small has_bit q)))

abbrev counted_up : Vmm → ℕ → Vmm
counted_up t n = record t { vmm_free_page_count = add32 t.vmm_free_page_count n }

-- The same slots map the same pages, and the same pages are free.
abbrev pub SameMap : Vmm → Vmm → Type 0
SameMap s t =
    ((q : ℕ) → get_vmm_page t q ≡ get_vmm_page s q) × ((x : ℕ) → is_free t.pmm x ≡ is_free s.pmm x)

module _ (s : Vmm) (n : ℕ) (w : IsWindow s) (v : Inv.IsValid s.pmm) (pos : 0 < n)
    (in_window : s.vmm_pos < s.vmmap_page_count) (r : ℕ × Vmm) (took : TookSlots s n r) where
  abbrev first : ℕ
  first = took.top + 1 - n

  abbrev run_end : Vmm
  run_end = release_run r.1 first 0 n

  run_page :
      (q : ℕ)
      → first ≤ q
      → q < first + n
      → slot_page r.1 q ≡ page_at (alloc_pages n s.pmm).0 (q - first)
  run_page q lo hi = ground (arith, took.slots q, took.room)

  release_of_run : Released r.1 first n run_end
  release_of_run =
      release_run-Released r.1 first 0 first n (omega arith)
        (omega (arith, w, took.direct_count, took.window_count))
        (omega (arith, took.window_count, took.room, took.inside)) took.pages.valid.bytes
        took.pages.valid.small
        λ q lo hi. omega (
          arith,
          run_page q lo hi,
          took.pages.len,
          is_free→lt s.pmm (page_at (alloc_pages n s.pmm).0 (q - first))
              (took.pages.were_free (q - first) (omega arith)),
        )

  run_end_slots : (q : ℕ) → get_vmm_page run_end q ≡ get_vmm_page s q
  run_end_slots q =
      ground (arith, release_of_run.slots q, took.slots q, took.were_free q, took.room)

  -- Every page of the run is free after the release.
  run_given_back : (j : ℕ) → j < n → is_free run_end.pmm (page_at (alloc_pages n s.pmm).0 j) ≡ true
  run_given_back j h =
      let shift : first + j - first ≡ j = omega arith in
      let page : slot_page r.1 (first + j) ≡ page_at (alloc_pages n s.pmm).0 j =
        rw shift at (run_page (first + j) (omega arith) (omega arith)) in
      rw page at (release_of_run.gives (first + j) (omega arith) (omega arith))

  not_in_run :
      (x : ℕ)
      → ((j : ℕ) → j < n → page_at (alloc_pages n s.pmm).0 j ≢ x)
      → is_free run_end.pmm x ≡ is_free s.pmm x
  not_in_run x ne =
      release_of_run.others x
        (λ q lo hi e. ne (q - first) (omega arith) (sym (run_page q lo hi) ∙ e))
      ∙ took.pages.others x ne

  run_end_pages : (x : ℕ) → is_free run_end.pmm x ≡ is_free s.pmm x
  run_end_pages x = elim (Bool-cases (is_free run_end.pmm x)) [
    | inr u ↦ not_in_run x λ j h e. ground (arith, run_given_back j h)
    | inl f ↦ elim (Bool-cases (is_free s.pmm x)) [
      | inl g ↦ f ∙ sym g
      | inr u ↦ not_in_run x λ j h e. ground (arith, took.pages.were_free j h)
    ]
  ]

  freed_is : SameMap run_end (vmm_free_page r.1 r.0 n)
  unfolding vmm_free_page
  freed_is =
      let at : r.0 / page_size - r.1.dmmap_page_count ≡ first =
        omega (arith, took.address, took.direct_count, w, took.inside) in
      let high : ltb (r.0 / page_size) r.1.dmmap_page_count ≡ false =
        le→ltb _ _ (omega (arith, took.address, took.direct_count, w, took.inside)) in
      let fits : leb (add32 first n) r.1.vmmap_page_count ≡ true =
        ground (arith, took.window_count, took.room, took.inside, w) in
      rw (high, at, fits)
        (
          λ q.
              get_vmm_page_same run_end (counted_up (raise_pos run_end first n) n) q refl refl refl,
          λ x. refl,
        )

  undone : SameMap s (vmm_free_page r.1 r.0 n)
  undone = (λ q. freed_is.0 q ∙ run_end_slots q, λ x. freed_is.1 x ∙ run_end_pages x)

-- In a window that fills the page table, with a valid page allocator that has more than `n` free
-- pages and a run of `n` free slots that begins above slot 0, giving back to `vmm_free_page` what
-- `vmm_alloc_page` of a positive `n` returned leaves every slot and the set of free pages as they
-- were.
pub vmm_free_page-vmm_alloc_page :
    (s : Vmm) (n p0 : ℕ)
    → IsWindow s
    → Inv.IsValid s.pmm
    → 0 < n
    → n < s.pmm.free_page_count
    → s.vmm_pos < s.vmmap_page_count
    → p0 ≤ s.vmm_pos
    → n ≤ p0
    → SlotsFree s (p0 + 1 - n) n
    → SameMap s (vmm_free_page (vmm_alloc_page s n).1 (vmm_alloc_page s n).0 n)
vmm_free_page-vmm_alloc_page s n p0 w v pos enough inside below room run =
    undone s n w v pos inside (vmm_alloc_page s n)
      (vmm_alloc_page_lem s n w v pos enough inside p0 below room run)
