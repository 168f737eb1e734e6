-- ===== src/Disk/Find.antt =====
-- The list of the disks in kernel/dev/disk.c, and the search in it.
use bitch.Base.{
  ℕ, zero, suc, ◌+◌, ◌<◌, ◌≤◌, ◌≡◌, ◌≢◌, ◌⊎◌, inl, inr, refl, sym, ◌∙◌, arith, List, [], ◌∷◌,
  length, ne→==, eq→==,
}
use bitch.Disk.{Disk, Disks, get_disk_loop, get_disk}

-- The structures from `p` on, with their numbers rising from `low` on and below `top`.
unfoldable pub Chain : (ℕ → Disk) → (low top p : ℕ) → List ℕ → Type 0
Chain disk_at low top p [] = (p ≡ 0) × (low ≤ top)
Chain disk_at low top p (x ∷ xs) =
    (p ≡ x)
    × (0 < x)
    × (low ≤ (disk_at x).id)
    × Chain disk_at (suc (disk_at x).id) top (disk_at x).next xs

unfoldable pub Within : ℕ → List ℕ → Type 0
Within x [] = suc x ≤ 0
Within x (y ∷ ys) = (x ≡ y) ⊎ Within x ys

-- The disks are the structures at `nodes`, and `pos` is the last of them.
pub record IsList (d : Disks) (nodes : List ℕ) : Type 0 where
  pub chain : Chain d.disk_at 0 d.new_id d.header nodes
  pub has_pos : Within d.pos nodes
  pub end : (d.disk_at d.pos).next ≡ 0

-- There are as many numbers as structures.
pub Chain-length :
    (disk_at : ℕ → Disk) (nodes : List ℕ) (low top p : ℕ)
    → Chain disk_at low top p nodes
    → low + length nodes ≤ top
unfolding Chain
Chain-length disk_at [] low top p chain = omega (arith, chain.1)
Chain-length disk_at (x ∷ xs) low top p chain =
    omega
      (arith, chain.2, Chain-length disk_at xs (suc (disk_at x).id) top (disk_at x).next chain.3)

pub Chain-id :
    (disk_at : ℕ → Disk) (nodes : List ℕ) (low top p x : ℕ)
    → Chain disk_at low top p nodes
    → Within x nodes
    → (low ≤ (disk_at x).id) × ((disk_at x).id < top) × (0 < x)
unfolding Chain Within
Chain-id disk_at [] low top p x chain here = absurd (omega (arith, here))
Chain-id disk_at (y ∷ ys) low top p x chain (inl e) =
    let long = Chain-length disk_at ys (suc (disk_at y).id) top (disk_at y).next chain.3 in
    rw e (chain.2, omega (arith, long), chain.1)
Chain-id disk_at (y ∷ ys) low top p x chain (inr there) =
    let rest = Chain-id disk_at ys (suc (disk_at y).id) top (disk_at y).next x chain.3 there in
    (omega (arith, chain.2, rest.0), rest.1, rest.2)

find :
    (disk_at : ℕ → Disk) (nodes : List ℕ) (low top p x fuel : ℕ)
    → Chain disk_at low top p nodes
    → Within x nodes
    → length nodes < fuel
    → get_disk_loop fuel disk_at p (disk_at x).id ≡ x
unfolding Chain Within get_disk_loop
find disk_at nodes low top p x zero chain here enough = absurd (omega (arith, enough))
find disk_at [] low top p x (suc fuel) chain here enough = absurd (omega (arith, here))
find disk_at (y ∷ ys) low top p x (suc fuel) chain (inl e) enough =
    let some_p : p ≢ 0 = λ z. omega (arith, z, chain.0, chain.1) in
    let at : p ≡ x = chain.0 ∙ sym e in
    rw (ne→== p 0 some_p, at, eq→== ((disk_at x).id) ((disk_at x).id) refl) refl
find disk_at (y ∷ ys) low top p x (suc fuel) chain (inr there) enough =
    let above = Chain-id disk_at ys (suc (disk_at y).id) top (disk_at y).next x chain.3 there in
    let some_p : p ≢ 0 = λ z. omega (arith, z, chain.0, chain.1) in
    let other : (disk_at y).id ≢ (disk_at x).id = λ e. omega (arith, e, above.0) in
    rw (ne→== p 0 some_p, chain.0, ne→== ((disk_at y).id) ((disk_at x).id) other)
      (find disk_at ys (suc (disk_at y).id) top (disk_at y).next x fuel chain.3 there
        (omega (arith, enough)))

-- `get_disk` finds each disk of the list by its number.
pub get_disk-Chain :
    (d : Disks) (nodes : List ℕ) (x : ℕ)
    → Chain d.disk_at 0 d.new_id d.header nodes
    → Within x nodes
    → get_disk d (d.disk_at x).id ≡ x
unfolding get_disk
get_disk-Chain d nodes x chain here =
    let few = Chain-length d.disk_at nodes 0 d.new_id d.header chain in
    find d.disk_at nodes 0 d.new_id d.header x (suc d.new_id) chain here (omega (arith, few))

pub get_disk_lem :
    (d : Disks) (nodes : List ℕ) (x : ℕ)
    → IsList d nodes
    → Within x nodes
    → get_disk d (d.disk_at x).id ≡ x
get_disk_lem d nodes x list here = get_disk-Chain d nodes x list.chain here
