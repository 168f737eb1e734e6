-- ===== src/Disk/Remove/Parts.antt =====
-- `disk_remove_part` and `disk_remove` on the list of the disks.
use bitch.Base.{
  ℕ, zero, suc, ◌<◌, ◌≡◌, ◌≢◌, inl, inr, refl, ap, ◌∙◌, arith, false, List, [], ◌∷◌, ◌++◌, ◌==◌,
  if◌then◌else◌, some, ne→==, length, sub32, update,
}
use bitch.Disk.{Disk, Disks, get_disk}
use bitch.Disk.Find.{Within, Chain, get_disk-Chain}
use bitch.Disk.Remove.{is_part, remove_part_loop, disk_remove_part, free_disk, disk_remove}
use bitch.Disk.Remove.Links.{
  first_of, Linked, Linked-on, Rising, Rising-on, Rising-Within, Rising-apart, Rising-back,
}
use bitch.Disk.Remove.Free.{
  IsDisks, next_of, last_in, id_of, freed, unlink_disk-freed, freed-part_count, freed-IsDisks,
}
use bitch.Disk.Remove.Kept.{SameDisk, freed-SameDisk}

-- A list that holds no partition of a disk is left alone.
scan_lem :
    (junk : Disk) (d : Disks) (id : ℕ) (fuel before : ℕ) (ys : List ℕ)
    → ((y : ℕ) → Within y ys → (is_part d y id ≡ false) × (0 < y))
    → Linked (next_of d) (last_in d) before 0 ys
    → length ys < fuel
    → remove_part_loop junk fuel d id (first_of ys 0) ≡ some d
unfolding remove_part_loop Within Linked
scan_lem junk d id zero before ys none_part linked enough = absurd (omega (arith, enough))
scan_lem junk d id (suc fuel) before [] none_part linked enough = refl
scan_lem junk d id (suc fuel) before (y ∷ ys) none_part linked enough =
    let here = none_part y (inl refl) in
    let rest =
      scan_lem junk d id fuel y ys (λ z h. none_part z (inr h)) linked.2 (omega (arith, enough)) in
    rw (ne→== y 0 (λ e. omega (arith, e, here.1)), here.0, linked.1) rest

Within-middle : (xs : List ℕ) (y : ℕ) (ys : List ℕ) → Within y (xs ++ y ∷ ys)
unfolding Within
Within-middle [] y ys = inl refl
Within-middle (x ∷ xs) y ys = inr (Within-middle xs y ys)

Chain-of :
    (d : Disks) (nodes : List ℕ) (low before p : ℕ)
    → Rising (id_of d) low d.new_id nodes
    → Linked (next_of d) (last_in d) before 0 nodes
    → p ≡ first_of nodes 0
    → Chain d.disk_at low d.new_id p nodes
unfolding Chain Rising Linked
Chain-of d [] low before p rising linked first = (first, rising)
Chain-of d (x ∷ xs) low before p rising linked first = (
  first,
  rising.0,
  rising.1,
  Chain-of d xs (suc (id_of d x)) x (next_of d x) rising.2 linked.2 linked.1,
)

-- The number of a disk in the list finds it.
pub get_disk-IsDisks :
    (d : Disks) (nodes : List ℕ) (x : ℕ)
    → IsDisks d nodes
    → Within x nodes
    → get_disk d (id_of d x) ≡ x
get_disk-IsDisks d nodes x list here =
    get_disk-Chain d nodes x (Chain-of d nodes 0 0 d.header list.rising list.linked list.first) here

-- The disks after the structure at `p` has been given back.
abbrev gone : (junk : Disk) (d : Disks) (p : ℕ) → 0 < p → Disks
gone junk d p pos = let t : Disks = freed d p pos in record t { disk_at = update t.disk_at p junk }

module _ (junk : Disk) (d : Disks) (p : ℕ) (pos : 0 < p) where
  gone-other : (x : ℕ) → x ≢ p → (gone junk d p pos).disk_at x ≡ (freed d p pos).disk_at x
  unfolding update
  gone-other x other = rw (ne→== x p other) refl

  free_disk-gone : free_disk junk d p ≡ gone junk d p pos
  unfolding free_disk
  free_disk-gone = rw (ne→== p 0 (λ e. omega (arith, e, pos)), unlink_disk-freed d p pos) refl

  -- Nothing of the list stands in the structure that is given back.
  gone-IsDisks :
      (xs ys : List ℕ) → IsDisks d (xs ++ p ∷ ys) → IsDisks (gone junk d p pos) (xs ++ ys)
  gone-IsDisks xs ys list =
      let after = freed-IsDisks d p pos xs ys list in
      let other : (x : ℕ) → Within x (xs ++ ys) → x ≢ p =
        Rising-apart (id_of d) d.new_id 0 p xs ys list.rising in
      record {
        rising =
            Rising-on (id_of (freed d p pos)) (id_of (gone junk d p pos)) 0 _ (xs ++ ys)
              (λ x h. ap (λ (r : Disk). r.id) (gone-other x (other x h))) after.rising;
        linked =
            Linked-on (next_of (freed d p pos)) (last_in (freed d p pos))
              (next_of (gone junk d p pos)) (last_in (gone junk d p pos)) 0 0 (xs ++ ys)
              (λ x h. ap (λ (r : Disk). r.next) (gone-other x (other x h)))
              (λ x h. ap (λ (r : Disk). r.last) (gone-other x (other x h))) after.linked;
        first = after.first;
        end = after.end;
      }

-- What is left finds its disks.
pub Found : (t : Disks) (nodes : List ℕ) → Type 0
Found t nodes = (x : ℕ) → Within x nodes → get_disk t (id_of t x) ≡ x

-- What is left of the other structures when the one at `p` goes: all fields but the links are as they were, and
-- the disk that it was a partition of counts one partition less.
pub Others : (d : Disks) (p : ℕ) (t : Disks) → Type 0
Others d p t =
    let q : ℕ = (d.disk_at p).pdisk in
    (x : ℕ)
    → x ≢ p
    → SameDisk (d.disk_at x) (t.disk_at x)
      × ((t.disk_at x).part_count ≡ (
          if q == 0
          then (d.disk_at x).part_count
          else if x == q
          then sub32 (d.disk_at q).part_count 1
          else (d.disk_at x).part_count))

gone-Others : (junk : Disk) (d : Disks) (p : ℕ) (pos : 0 < p) → Others d p (gone junk d p pos)
unfolding Others
gone-Others junk d p pos x other =
    rw (gone-other junk d p pos x other) (freed-SameDisk d p pos x, freed-part_count d p pos x)

-- Let a disk or a partition without partitions of its own stand at `p` in the list of the disks, between `xs` and
-- `ys`. Then `disk_remove` with its number returns, on fuel for a round and more for each disk, with the list of
-- the others in their order, whatever the structure holds once `kfree` has it. The list is linked in both directions,
-- each number finds its disk, the disk that it was a partition of counts one partition less, and all other
-- fields but the links are as they were. A disk that has partitions is left out, as the loop
-- goes on with the link of a structure that it has given back.
pub disk_remove_lem :
    (junk : Disk) (d : Disks) (fuel : ℕ) (xs : List ℕ) (p : ℕ) (ys : List ℕ)
    → IsDisks d (xs ++ p ∷ ys)
    → ((y : ℕ) → Within y (xs ++ p ∷ ys) → is_part d y (id_of d p) ≡ false)
    → length (xs ++ p ∷ ys) < fuel
    → (t : Disks) × (disk_remove junk fuel d (id_of d p) ≡ some t)
      × IsDisks t (xs ++ ys)
      × Others d p t
      × Found t (xs ++ ys)
unfolding Found disk_remove disk_remove_part
disk_remove_lem junk d fuel xs p ys list alone enough =
    let nodes : List ℕ = xs ++ p ∷ ys in
    let some_p : 0 < p = (Rising-back (id_of d) d.new_id 0 p xs ys list.rising).0 in
    let found : get_disk d (id_of d p) ≡ p =
      get_disk-IsDisks d nodes p list (Within-middle xs p ys) in
    let parted : disk_remove_part junk fuel d (id_of d p) ≡ some d =
      ap (remove_part_loop junk fuel d (id_of d p)) list.first
      ∙ scan_lem junk d (id_of d p) fuel 0 nodes
          (λ y h. (alone y h, (Rising-Within (id_of d) d.new_id 0 y nodes list.rising h).2))
          list.linked enough in
    let list_t = gone-IsDisks junk d p some_p xs ys list in
    let t : Disks = gone junk d p some_p in
    (
      t,
      rw (found, ne→== p 0 (λ e. omega (arith, e, some_p)), parted, free_disk-gone junk d p some_p)
          refl,
      list_t,
      gone-Others junk d p some_p,
      λ x h. get_disk-IsDisks t (xs ++ ys) x list_t h,
    )
