-- ===== src/Disk/Remove/Free.antt =====
-- What `free_disk` does to the list before it gives the structure back.
use bitch.Base.{
  ℕ, suc, ◌<◌, ◌≡◌, inl, inr, refl, ◌∙◌, arith, Bool, true, false, List, ◌∷◌, ◌++◌, ◌==◌,
  if◌then◌else◌, Bool-cases, ne→==, ==→eq, update, sub32,
}
use bitch.Disk.{Disk, Disks}
use bitch.Disk.Map.{update-field}
use bitch.Disk.Remove.{unlink_last, unlink_next, uncount_part, unlink_disk}
use bitch.Disk.Remove.Links.{
  first_of, last_of, Linked, Rising, Rising-Within, Rising-drop, Rising-same, Rising-front,
  Rising-back, Linked-at, Linked-drop, first_of-drop, last_of-drop,
}

abbrev pub next_of : Disks → ℕ → ℕ
next_of d x = (d.disk_at x).next

abbrev pub last_in : Disks → ℕ → ℕ
last_in d x = (d.disk_at x).last

abbrev pub id_of : Disks → ℕ → ℕ
id_of d x = (d.disk_at x).id

-- The structures of the list, in both directions, with their numbers rising.
pub record IsDisks (d : Disks) (nodes : List ℕ) : Type 0 where
  pub rising : Rising (id_of d) 0 d.new_id nodes
  pub linked : Linked (next_of d) (last_in d) 0 0 nodes
  pub first : d.header ≡ first_of nodes 0
  pub end : d.pos ≡ last_of 0 nodes

update-set :
    (m : ℕ → Disk) (i : ℕ) (v : Disk) (field : Disk → ℕ) (x : ℕ)
    → field (update m i v x) ≡ (if x == i then field v else field (m x))
unfolding update
update-set m i v field x = elim (Bool-cases (x == i)) [ inl e ↦ rw e refl | inr e ↦ rw e refl ]

module _ (d : Disks) (p : ℕ) where
  -- The fields of the structures that each step keeps.
  unlink_last-field {ℓ} :
      {B : Type ℓ} (field : Disk → B)
      → ((r : Disk) (v : ℕ) → field (record r { next = v }) ≡ field r)
      → (x : ℕ) → field ((unlink_last d p).disk_at x) ≡ field (d.disk_at x)
  unfolding unlink_last
  unlink_last-field field keeps x =
      let l : ℕ = (d.disk_at p).last in
      elim (Bool-cases (l == 0)) [
        | inl e ↦ rw e refl
        | inr e ↦ rw e (
            update-field field d.disk_at l (record (d.disk_at l) { next = (d.disk_at p).next }) x
              (keeps (d.disk_at l) (d.disk_at p).next))
      ]

  unlink_next-field {ℓ} :
      {B : Type ℓ} (field : Disk → B)
      → ((r : Disk) (v : ℕ) → field (record r { last = v }) ≡ field r)
      → (x : ℕ) → field ((unlink_next d p).disk_at x) ≡ field (d.disk_at x)
  unfolding unlink_next
  unlink_next-field field keeps x =
      let n : ℕ = (d.disk_at p).next in
      elim (Bool-cases (n == 0)) [
        | inl e ↦ rw e refl
        | inr e ↦ rw e (
            update-field field d.disk_at n (record (d.disk_at n) { last = (d.disk_at p).last }) x
              (keeps (d.disk_at n) (d.disk_at p).last))
      ]

  uncount_part-field {ℓ} :
      {B : Type ℓ} (field : Disk → B)
      → ((r : Disk) (v : ℕ) → field (record r { part_count = v }) ≡ field r)
      → (x : ℕ) → field ((uncount_part d p).disk_at x) ≡ field (d.disk_at x)
  unfolding uncount_part
  uncount_part-field field keeps x =
      let q : ℕ = (d.disk_at p).pdisk in
      let fewer : ℕ = sub32 (d.disk_at q).part_count 1 in
      elim (Bool-cases (q == 0)) [
        | inl e ↦ rw e refl
        | inr e ↦ rw e (
            update-field field d.disk_at q (record (d.disk_at q) { part_count = fewer }) x
              (keeps (d.disk_at q) fewer))
      ]

  unlink_last-next :
      (x : ℕ)
      → 0 < x
      → next_of (unlink_last d p) x ≡ (if x == last_in d p then next_of d p else next_of d x)
  unfolding unlink_last
  unlink_last-next x pos =
      let l : ℕ = (d.disk_at p).last in
      elim (Bool-cases (l == 0)) [
        | inl e ↦
            (let none_last : l ≡ 0 = ==→eq l 0 e in
              let other : (x == l) ≡ false = ne→== x l (λ s. omega (arith, s, none_last, pos)) in
              rw (e, other) refl)
        | inr e ↦ rw e (
            update-set d.disk_at l (record (d.disk_at l) { next = (d.disk_at p).next })
              (λ r. r.next) x)
      ]

  unlink_next-last :
      (x : ℕ)
      → 0 < x
      → last_in (unlink_next d p) x ≡ (if x == next_of d p then last_in d p else last_in d x)
  unfolding unlink_next
  unlink_next-last x pos =
      let n : ℕ = (d.disk_at p).next in
      elim (Bool-cases (n == 0)) [
        | inl e ↦
            (let none_next : n ≡ 0 = ==→eq n 0 e in
              let other : (x == n) ≡ false = ne→== x n (λ s. omega (arith, s, none_next, pos)) in
              rw (e, other) refl)
        | inr e ↦ rw e (
            update-set d.disk_at n (record (d.disk_at n) { last = (d.disk_at p).last })
              (λ r. r.last) x)
      ]

-- What the steps do to the ends of the list.
module _ (d : Disks) (p : ℕ) where
  uncount_part-ends :
      ((uncount_part d p).header ≡ d.header)
      × ((uncount_part d p).pos ≡ d.pos)
      × ((uncount_part d p).new_id ≡ d.new_id)
  unfolding uncount_part
  uncount_part-ends = elim (Bool-cases ((d.disk_at p).pdisk == 0)) [
    | inl e ↦ rw e (refl, refl, refl)
    | inr e ↦ rw e (refl, refl, refl)
  ]

  unlink_next-ends :
      ((unlink_next d p).header ≡ d.header)
      × ((unlink_next d p).pos ≡ (if next_of d p == 0 then last_in d p else d.pos))
      × ((unlink_next d p).new_id ≡ d.new_id)
  unfolding unlink_next
  unlink_next-ends = elim (Bool-cases ((d.disk_at p).next == 0)) [
    | inl e ↦ rw e (refl, refl, refl)
    | inr e ↦ rw e (refl, refl, refl)
  ]

  unlink_last-ends :
      ((unlink_last d p).header ≡ (if last_in d p == 0 then next_of d p else d.header))
      × ((unlink_last d p).pos ≡ d.pos)
      × ((unlink_last d p).new_id ≡ d.new_id)
  unfolding unlink_last
  unlink_last-ends = elim (Bool-cases ((d.disk_at p).last == 0)) [
    | inl e ↦ rw e (refl, refl, refl)
    | inr e ↦ rw e (refl, refl, refl)
  ]

if_same {ℓ} : {A : Type ℓ} (b : Bool) (x : A) → (if b then x else x) ≡ x
if_same true x = refl
if_same false x = refl

module _ (d : Disks) (p : ℕ) (pos : 0 < p) where
  abbrev pub freed : Disks
  freed = uncount_part (unlink_next (unlink_last d p) p) p

  pub unlink_disk-freed : unlink_disk d p ≡ freed
  unfolding unlink_disk
  unlink_disk-freed = refl

  -- A field that none of the three steps changes.
  pub freed-field {ℓ} :
      {B : Type ℓ} (field : Disk → B)
      → ((r : Disk) (v : ℕ) → field (record r { next = v }) ≡ field r)
      → ((r : Disk) (v : ℕ) → field (record r { last = v }) ≡ field r)
      → ((r : Disk) (v : ℕ) → field (record r { part_count = v }) ≡ field r)
      → (x : ℕ) → field (freed.disk_at x) ≡ field (d.disk_at x)
  freed-field field nexts lasts counts x =
      uncount_part-field (unlink_next (unlink_last d p) p) p field counts x
      ∙ unlink_next-field (unlink_last d p) p field lasts x
      ∙ unlink_last-field d p field nexts x

  -- The structure itself still points to the one behind it.
  next-own : next_of (unlink_last d p) p ≡ next_of d p
  next-own = unlink_last-next d p p pos ∙ if_same (p == last_in d p) (next_of d p)

  freed-next :
      (x : ℕ) → 0 < x → next_of freed x ≡ (if x == last_in d p then next_of d p else next_of d x)
  freed-next x some_x =
      uncount_part-field (unlink_next (unlink_last d p) p) p (λ r. r.next) (λ r v. refl) x
      ∙ unlink_next-field (unlink_last d p) p (λ r. r.next) (λ r v. refl) x
      ∙ unlink_last-next d p x some_x

  -- The disk that the structure is a partition of counts one partition less.
  pub freed-part_count :
      (x : ℕ)
      → let q : ℕ = (d.disk_at p).pdisk in
        (freed.disk_at x).part_count ≡ (
          if q == 0
          then (d.disk_at x).part_count
          else if x == q
          then sub32 (d.disk_at q).part_count 1
          else (d.disk_at x).part_count)
  unfolding uncount_part
  freed-part_count x =
      let t : Disks = unlink_next (unlink_last d p) p in
      let same : (y : ℕ) → (t.disk_at y).part_count ≡ (d.disk_at y).part_count = λ y.
        unlink_next-field (unlink_last d p) p (λ r. r.part_count) (λ r v. refl) y
        ∙ unlink_last-field d p (λ r. r.part_count) (λ r v. refl) y in
      let disk : (t.disk_at p).pdisk ≡ (d.disk_at p).pdisk =
        unlink_next-field (unlink_last d p) p (λ r. r.pdisk) (λ r v. refl) p
        ∙ unlink_last-field d p (λ r. r.pdisk) (λ r v. refl) p in
      let q : ℕ = (d.disk_at p).pdisk in
      elim (Bool-cases (q == 0)) [
        | inl e ↦ rw (disk, e) (same x)
        | inr e ↦
            rw (disk, e)
              (update-set t.disk_at q
                  (record (t.disk_at q) { part_count = sub32 (t.disk_at q).part_count 1 })
                  (λ r. r.part_count) x
                ∙ rw (same q, same x) refl)
      ]

  last_before : (x : ℕ) → last_in (unlink_last d p) x ≡ last_in d x
  last_before x = unlink_last-field d p (λ r. r.last) (λ r v. refl) x

  freed-last :
      (x : ℕ) → 0 < x → last_in freed x ≡ (if x == next_of d p then last_in d p else last_in d x)
  freed-last x some_x =
      uncount_part-field (unlink_next (unlink_last d p) p) p (λ r. r.last) (λ r v. refl) x
      ∙ unlink_next-last (unlink_last d p) p x some_x
      ∙ rw (next-own, last_before p, last_before x) refl

  freed-ends :
      (freed.header ≡ (if last_in d p == 0 then next_of d p else d.header))
      × (freed.pos ≡ (if next_of d p == 0 then last_in d p else d.pos))
      × (freed.new_id ≡ d.new_id)
  freed-ends =
      let a = unlink_last-ends d p in
      let b = unlink_next-ends (unlink_last d p) p in
      let c = uncount_part-ends (unlink_next (unlink_last d p) p) p in
      (c.0 ∙ b.0 ∙ a.0, c.1 ∙ b.1 ∙ rw (next-own, last_before p, a.1) refl, c.2 ∙ b.2 ∙ a.2)

  pub freed-id : (x : ℕ) → id_of freed x ≡ id_of d x
  freed-id x = freed-field (λ r. r.id) (λ r v. refl) (λ r v. refl) (λ r v. refl) x

  -- The list without the structure.
  pub freed-IsDisks : (xs ys : List ℕ) → IsDisks d (xs ++ p ∷ ys) → IsDisks freed (xs ++ ys)
  freed-IsDisks xs ys list =
      let at = Linked-at (next_of d) (last_in d) 0 0 p xs ys list.linked in
      let back = Rising-back (id_of d) d.new_id 0 p xs ys list.rising in
      record {
        rising = rw freed-ends.2 (
            Rising-same (id_of d) (id_of freed) 0 d.new_id (xs ++ ys) freed-id
              (Rising-drop (id_of d) d.new_id 0 p xs ys list.rising));
        linked =
            Linked-drop (next_of d) (last_in d) (next_of freed) (last_in freed) (id_of d) d.new_id 0
              p xs ys list.rising freed-next freed-last list.linked;
        first =
            freed-ends.0
            ∙ rw (at.0, at.1, list.first)
                (first_of-drop p xs ys
                  (λ x h. (Rising-front (id_of d) d.new_id 0 p x xs ys list.rising h).1));
        end =
            freed-ends.1
            ∙ rw (at.0, at.1, list.end)
                (last_of-drop p xs ys
                  (λ x h. (Rising-Within (id_of d) d.new_id (suc (id_of d p)) x ys back.1 h).2));
      }
