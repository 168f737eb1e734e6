-- ===== src/Disk/Map.antt =====
-- How `disk_mmap` adds a partition to the list of the disks.
use bitch.Base.{
  ℕ, suc, ◌+◌, ◌^◌, ◌<◌, ◌≤◌, ◌≡◌, ◌≢◌, inl, inr, refl, sym, ap, ◌∙◌, arith, Bool, false, some,
  List, [], ◌∷◌, ◌++◌, ltb, ◌==◌, if◌then◌else◌, ne→==, le→ltb, add32, add64, update, update-here,
  update-other, Bool-cases, ==→eq,
}
use bitch.Ata.{Ata, Drive, Buffer}
use bitch.Fat.{Fat}
use bitch.Fs.{Fs, disk_fs_init}
use bitch.Disk.{Disk, Disks, get_disk, disk_read, part_of, link_part, disk_mmap}
use bitch.Disk.Find.{Chain, Within, IsList, Chain-id, get_disk_lem}

Within-last : (xs : List ℕ) (x : ℕ) → Within x (xs ++ x ∷ [])
unfolding Within
Within-last [] x = inl refl
Within-last (y ∷ ys) x = inr (Within-last ys x)

Chain-end :
    (disk_at : ℕ → Disk) (nodes : List ℕ) (low top p : ℕ)
    → Chain disk_at low top p nodes
    → p ≡ 0
    → (nodes ≡ []) × (low ≤ top)
unfolding Chain
Chain-end disk_at [] low top p chain e = (refl, chain.1)
Chain-end disk_at (x ∷ xs) low top p chain e = absurd (omega (arith, e, chain.0, chain.1))

-- The structures `new` are the structures `old` with one more at `at`, behind the one at `pos`.
module _ (old new : ℕ → Disk) (at pos top : ℕ) (some_at : 0 < at)
    (same : (x : ℕ) → x ≢ at → (new x).id ≡ (old x).id)
    (next : (x : ℕ) → x ≢ at → (new x).next ≡ (if x == pos then at else (old x).next))
    (own_id : (new at).id ≡ top) (own_next : (new at).next ≡ 0) (end : (old pos).next ≡ 0) where
  Chain-one : (low p : ℕ) → low ≤ top → p ≡ at → Chain new low (suc top) p (at ∷ [])
  unfolding Chain
  Chain-one low p under e =
      (e, some_at, omega (arith, own_id, under), (own_next, omega (arith, own_id)))

  Chain-append :
      (nodes : List ℕ) (low p : ℕ)
      → Chain old low top p nodes
      → Within pos nodes
      → ((x : ℕ) → Within x nodes → x ≢ at)
      → Chain new low (suc top) p (nodes ++ at ∷ [])
  unfolding Chain Within
  Chain-append [] low p chain here fresh = absurd (omega (arith, here))
  Chain-append (x ∷ xs) low p chain here fresh =
      let not_at : x ≢ at = fresh x (inl refl) in
      let id : (new x).id ≡ (old x).id = same x not_at in
      elim (Bool-cases (x == pos)) [
        | inl e ↦
            let last : x ≡ pos = ==→eq x pos e in
            let behind : (new x).next ≡ at = next x not_at ∙ rw e refl in
            let none_left =
              Chain-end old xs (suc (old x).id) top (old x).next chain.3 (rw last end) in
            (
              chain.0,
              chain.1,
              omega (arith, id, chain.2),
              rw (none_left.0, id, behind) (Chain-one (suc (old x).id) at none_left.1 refl),
            )
        | inr e ↦
            let behind : (new x).next ≡ (old x).next = next x not_at ∙ rw e refl in
            let not_pos : x ≢ pos = ground arith in
            let there : Within pos xs = elim here [
              | inl here ↦ absurd (not_pos (sym here))
              | inr there ↦ there
            ] in
            (
              chain.0,
              chain.1,
              omega (arith, id, chain.2),
              rw (id, behind)
                  (Chain-append xs (suc (old x).id) (old x).next chain.3 there
                    (λ y h. fresh y (inr h))),
            )
      ]

-- A field that a change of one structure keeps.
pub update-field {ℓ} :
    {B : Type ℓ} (field : Disk → B) (m : ℕ → Disk) (i : ℕ) (v : Disk) (x : ℕ)
    → field v ≡ field (m i)
    → field (update m i v x) ≡ field (m x)
unfolding update
update-field field m i v x kept = elim (Bool-cases (x == i)) [
  | inl e ↦ rw e (kept ∙ ap (λ j. field (m j)) (sym (==→eq x i e)))
  | inr e ↦ rw e refl
]

-- The structures when the new one is in its place.
module _ (d : Disks) (at p start_sector sector_count : ℕ) (not_pos : d.pos ≢ at)
    (some_pos : d.pos ≢ 0) where
  abbrev counted : ℕ → Disk
  counted =
      update d.disk_at p (record (d.disk_at p) { part_count = add32 (d.disk_at p).part_count 1 })

  abbrev made : ℕ → Disk
  made = update counted at (part_of d at p start_sector sector_count)

  abbrev linked : ℕ → Disk
  linked = (link_part d at p start_sector sector_count).disk_at

  linked_lem : linked ≡ update made d.pos (record (made d.pos) { next = at })
  unfolding link_part
  linked_lem = rw (ne→== (d.pos) 0 some_pos) refl

  linked-new : linked at ≡ part_of d at p start_sector sector_count
  linked-new =
      ap (λ m. m at) linked_lem
      ∙ update-other made d.pos (record (made d.pos) { next = at }) at (λ e. not_pos (sym e))
      ∙ update-here counted at (part_of d at p start_sector sector_count)

  linked-id : (x : ℕ) → x ≢ at → (linked x).id ≡ (d.disk_at x).id
  linked-id x ne =
      ap (λ m. (m x).id) linked_lem
      ∙ update-field (λ r. r.id) made d.pos (record (made d.pos) { next = at }) x refl
      ∙ ap (λ r. r.id) (update-other counted at (part_of d at p start_sector sector_count) x ne)
      ∙ update-field (λ r. r.id) d.disk_at p
          (record (d.disk_at p) { part_count = add32 (d.disk_at p).part_count 1 }) x refl

  linked-next : (x : ℕ) → x ≢ at → (linked x).next ≡ (if x == d.pos then at else (d.disk_at x).next)
  linked-next x ne = elim (Bool-cases (x == d.pos)) [
    | inl e ↦
        rw (e, linked_lem, ==→eq x d.pos e)
          (ap (λ r. r.next) (update-here made d.pos (record (made d.pos) { next = at })))
    | inr e ↦
        let other : x ≢ d.pos = ground arith in
        rw e (
          ap (λ m. (m x).next) linked_lem
          ∙ ap (λ r. r.next) (update-other made d.pos (record (made d.pos) { next = at }) x other)
          ∙ ap (λ r. r.next)
              (update-other counted at (part_of d at p start_sector sector_count) x ne)
          ∙ update-field (λ r. r.next) d.disk_at p
              (record (d.disk_at p) { part_count = add32 (d.disk_at p).part_count 1 }) x refl)
  ]

-- The disks when the file system of the new one is known.
abbrev pub with_fs : Disks → (at p start_sector sector_count : ℕ) → Fs → Disks
with_fs d at p start_sector sector_count fs =
    let t : Disks = link_part d at p start_sector sector_count in
    record t { disk_at = update t.disk_at at (record (t.disk_at at) { fs = fs }) }

-- `disk_mmap` where nothing is amiss.
pub disk_mmap-with_fs :
    (ata : Ata) (drives : ℕ → Drive) (boot : Buffer) (fat : Fat) (full : Bool) (d : Disks)
    (at id p start_sector sector_count : ℕ)
    → get_disk d id ≡ p
    → 0 < p
    → 0 < at
    → start_sector + sector_count ≤ (d.disk_at p).sector_count
    → (d.disk_at p).sector_count < 2 ^ 64
    → (fs : Fs) × (disk_mmap ata drives boot fat full d at id start_sector sector_count
        ≡ (some d.new_id, with_fs d at p start_sector sector_count fs))
unfolding disk_mmap
disk_mmap-with_fs ata drives boot fat full d at id p start_sector sector_count found some_p some_at
      fit few =
    let t : Disks = link_part d at p start_sector sector_count in
    let sum : add64 start_sector sector_count ≡ start_sector + sector_count =
      omega (arith, fit, few) in
    let fits : ltb (d.disk_at p).sector_count (start_sector + sector_count) ≡ false =
      le→ltb (d.disk_at p).sector_count (start_sector + sector_count) fit in
    (
      disk_fs_init (disk_read ata drives t) d.new_id boot fat full,
      rw
          (
            found,
            ne→== p 0 (λ e. omega (arith, e, some_p)),
            sum,
            fits,
            ne→== at 0 (λ e. omega (arith, e, some_at)),
          )
          refl,
    )

-- The list with a new disk at its end.
module _ (d : Disks) (nodes : List ℕ) (list : IsList d nodes) (at p start_sector sector_count : ℕ)
    (fs : Fs) (some_at : 0 < at) (fresh : (x : ℕ) → Within x nodes → x ≢ at)
    (room : d.new_id + 1 < 2 ^ 32) where
  abbrev t : Disks
  t = link_part d at p start_sector sector_count

  abbrev mapped : Disks
  mapped = with_fs d at p start_sector sector_count fs

  not_pos : d.pos ≢ at
  not_pos = fresh d.pos list.has_pos

  some_pos : d.pos ≢ 0
  some_pos e =
      omega
        (arith, e, (Chain-id d.disk_at nodes 0 d.new_id d.header d.pos list.chain list.has_pos).2)

  pub mapped-new : mapped.disk_at at ≡ record (part_of d at p start_sector sector_count) { fs = fs }
  mapped-new =
      update-here t.disk_at at (record (t.disk_at at) { fs = fs })
      ∙ ap (λ (r : Disk). record r { fs = fs })
          (linked-new d at p start_sector sector_count not_pos some_pos)

  mapped-old : (x : ℕ) → x ≢ at → mapped.disk_at x ≡ t.disk_at x
  mapped-old x ne = update-other t.disk_at at (record (t.disk_at at) { fs = fs }) x ne

  pub new_id-next : mapped.new_id ≡ suc d.new_id
  unfolding link_part
  new_id-next = omega (arith, room)

  pub mapped-IsList : IsList mapped (nodes ++ at ∷ [])
  unfolding link_part
  mapped-IsList =
      let new : ℕ → Disk = mapped.disk_at in
      record {
        chain = rw new_id-next (
            Chain-append d.disk_at new at d.pos d.new_id some_at
              (λ x ne.
                ap (λ r. r.id) (mapped-old x ne)
                ∙ linked-id d at p start_sector sector_count not_pos some_pos x ne)
              (λ x ne.
                ap (λ r. r.next) (mapped-old x ne)
                ∙ linked-next d at p start_sector sector_count not_pos some_pos x ne)
              (ap (λ r. r.id) mapped-new) (ap (λ r. r.next) mapped-new) list.end nodes 0 d.header
              list.chain list.has_pos fresh);
        has_pos = Within-last nodes at;
        end = ap (λ r. r.next) mapped-new;
      }

  -- The new disk is the one that its number finds.
  pub get_disk-mapped : get_disk mapped d.new_id ≡ at
  get_disk-mapped =
      ap (get_disk mapped) (sym (ap (λ r. r.id) mapped-new))
      ∙ get_disk_lem mapped (nodes ++ at ∷ []) at mapped-IsList (Within-last nodes at)
