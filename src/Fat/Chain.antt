-- ===== src/Fat/Chain.antt =====
-- The cluster chains of kernel/fs/fat.c: `next_cluster` and `dir_cluster`.
use bitch.Base.{
  ℕ, zero, suc, ◌+◌, ◌<◌, ◌%◌, ◌^◌, ◌≡◌, ◌≢◌, refl, ◌∙◌, ap, none, some, List, [], ◌∷◌, length,
  arith, ne→==,
}
use bitch.Fat.{Fat, Reader, next_cluster, count_clusters, dir_cluster}

-- The clusters `ds` follow `c`, and the last one is the end of the chain.
abbrev pub Links : Reader → Fat → ℕ → List ℕ → Type 0
Links read fat c [] = next_cluster read fat c ≡ 0
Links read fat c (d ∷ ds) = (next_cluster read fat c ≡ d) × (d ≢ 0) × Links read fat d ds

count_clusters_lem :
    (ds : List ℕ) (fuel : ℕ) (read : Reader) (fat : Fat) (c n : ℕ)
    → length ds < fuel
    → Links read fat c ds
    → n + length ds < 2 ^ 32
    → count_clusters fuel read fat c n ≡ some (n + length ds)
unfolding count_clusters
count_clusters_lem ds zero read fat c n more links small = absurd (omega (arith, more))
count_clusters_lem [] (suc fuel) read fat c n more end small =
    let whole : n ≡ n + 0 = omega arith in rw (end, ← whole) refl
count_clusters_lem (d ∷ ds) (suc fuel) read fat c n more (link, ne, links) small =
    let up : (n + 1) % 2 ^ 32 ≡ n + 1 = omega (arith, small) in
    let sum : n + 1 + length ds ≡ n + suc (length ds) = omega arith in
    rw (link, ne→== d 0 ne, up)
      (count_clusters_lem ds fuel read fat d (n + 1) (omega (arith, more)) links
          (omega (arith, small))
        ∙ ap some sum)

-- On a chain that ends, `dir_cluster` returns the number of its clusters, given more rounds than that.
pub dir_cluster_lem :
    (ds : List ℕ) (fuel : ℕ) (read : Reader) (fat : Fat) (c : ℕ)
    → length ds < fuel
    → Links read fat c ds
    → 1 + length ds < 2 ^ 32
    → dir_cluster fuel read fat c ≡ some (1 + length ds)
unfolding dir_cluster
dir_cluster_lem ds fuel read fat c more links small =
    count_clusters_lem ds fuel read fat c 1 more links small

-- On a chain that runs into a cycle, `dir_cluster` never returns.
pub dir_cluster_hangs :
    (read : Reader) (fat : Fat) (cycle : ℕ → Type 0)
    → ((c : ℕ) → cycle c → cycle (next_cluster read fat c) × (next_cluster read fat c ≢ 0))
    → (fuel c : ℕ) → cycle c
    → dir_cluster fuel read fat c ≡ none
unfolding dir_cluster
dir_cluster_hangs read fat cycle closed fuel c inside = go fuel c 1 inside
  where
    go : (fuel c n : ℕ) → cycle c → count_clusters fuel read fat c n ≡ none
    go zero c n inside = refl
    go (suc fuel) c n inside =
        let (next, ne) = closed c inside in
        rw (ne→== (next_cluster read fat c) 0 ne)
          (go fuel (next_cluster read fat c) ((n + 1) % 2 ^ 32) next)
