-- ===== src/Fat/Misplaced.antt =====
-- `read_cluster` of kernel/fs/fat.c where a read starts inside a cluster and goes beyond it.
use bitch.Base.{
  ℕ, zero, suc, ◌+◌, ◌-◌, ◌*◌, ◌≤◌, ◌<◌, ◌%◌, ◌^◌, ◌≡◌, inl, refl, ◌∙◌, true, some, List, ◌∷◌,
  length, arith, ◌&&◌, if◌then◌else◌, ne→==, ltb, leb, add64, sub64, lt→ltb,
}
use bitch.Fat.{Fat, Reader, Buffer, Progress, read_at, cluster_offect, read_rest, read_cluster}
use bitch.Fat.Chain.{Links}
use bitch.Fat.Read.{
  file_byte, cluster_start, Serves, OnDisk, read_at_lem, cluster_offect_lem, cluster_loop_lem,
  span_lem,
}

module _ (read : Reader) (fat : Fat) (image : ℕ → ℕ) (limit : ℕ)
    (serves : Serves read fat.disk_id image limit) (low : limit < 2 ^ 63)
    (small : fat.cluster_size < 2 ^ 32) where
  abbrev size : ℕ
  size = fat.cluster_size

  -- The first round of a read that starts inside a cluster and goes beyond it.
  first_rest :
      (c : ℕ) (cs : List ℕ) (buf : Buffer) (r m : ℕ)
      → OnDisk fat limit (c ∷ cs)
      → 0 < r
      → r < size
      → size + m < 2 ^ 32
      → (b : Buffer) × (read_rest read fat c
            (record { buf = buf; n = 0; count = size - r + m; offect = r; buf_offect = 0 })
          ≡ (
            some (size - r),
            record { buf = b; n = size - r; count = m; offect = 0; buf_offect = size },
          ))
        × ((q : ℕ)
            → b q ≡ (if ltb q (size - r) then image (cluster_start fat c + (r + q)) else buf q))
  unfolding read_rest
  first_rest c cs buf r m (two, word, product, inside, _) pos short few =
      let at : cluster_offect fat c r ≡ cluster_start fat c + r =
        cluster_offect_lem read fat image limit serves low small c r two word product inside
          (omega arith) in
      let part : sub64 size r ≡ size - r = omega arith in
      let whole : (size - r) % 2 ^ 32 ≡ size - r = omega arith in
      let left : sub64 (size - r + m) (size - r) % 2 ^ 32 ≡ m = omega arith in
      let far : add64 0 (sub64 size 0) ≡ size = omega arith in
      let sum : (0 + (size - r)) % 2 ^ 32 ≡ size - r = omega arith in
      let served =
        (serves (λ j. buf (0 + j)) (size - r) (cluster_start fat c + r) (omega arith)
          (omega arith)).0 in
      (
        (read_at read fat.disk_id buf 0 (size - r) (cluster_start fat c + r)).1,
        rw (part, at, whole, served, left, far, sum) refl,
        λ q.
            let shift : cluster_start fat c + r + (q - 0) ≡ cluster_start fat c + (r + q) =
              omega arith in
            (read_at_lem read fat image limit serves low small buf 0 (size - r)
              (cluster_start fat c + r) q (omega arith) (omega arith)).1
            ∙ rw shift (ground arith),
      )

  -- On a chain of clusters that lie on a readable disk, given more rounds than the chain has links: let a
  -- read begin `r` bytes inside the first cluster, `r` not 0, and end `m` bytes behind it, inside the chain.
  -- Then the bytes behind the first cluster are put `r` bytes too far into the buffer. `read_cluster`
  -- returns the count that was asked for, leaves the `r` bytes of the buffer where they belong as they
  -- were, and writes the buffer from the size of a cluster on.
  read_cluster-misplaced :
      (d : ℕ) (ds : List ℕ) (fuel c r m : ℕ) (buf : Buffer)
      → length (d ∷ ds) < fuel
      → Links read fat c (d ∷ ds)
      → OnDisk fat limit (c ∷ d ∷ ds)
      → 0 < r
      → r < size
      → 0 < m
      → size + m < 2 ^ 32
      → m ≤ length ds * size + size
      → (b : Buffer) × (read_cluster fuel read fat buf c (size - r + m) r
          ≡ some (some (size - r + m), b))
        × ((q : ℕ)
            → b q ≡ (
                if leb size q && ltb q (size + m)
                then file_byte image (cluster_start fat) size (c ∷ d ∷ ds) q
                else if ltb q (size - r)
                then image (cluster_start fat c + (r + q))
                else buf q))
  unfolding read_cluster
  read_cluster-misplaced d ds zero c r m buf more _ _ _ _ _ _ _ = absurd (omega (arith, more))
  read_cluster-misplaced d ds (suc fuel) c r m buf more links on pos inside some_left few room =
      let here : ltb r size ≡ true = ground arith in
      let most : ltb size (add64 r (size - r + m)) ≡ true = lt→ltb _ _ (omega arith) in
      let (first, e, cells) = first_rest c (d ∷ ds) buf r m on pos inside few in
      let p : Progress = record {
        buf = first;
        n = size - r;
        count = m;
        offect = 0;
        buf_offect = size;
      } in
      let (b, went, copied) =
        cluster_loop_lem read fat image limit serves low small ds fuel d zero 0 p
          (omega (arith, more)) links.2 on.4
          (some_left, omega (arith, few), omega (arith, few), omega arith) refl
          (omega (arith, inside)) (inl refl)
          (omega (arith, room, span_lem read fat image limit serves low small (length ds) size)) in
      rw (here, most, e, links.0, ne→== d 0 links.1, e)
        (
          b,
          went,
          λ q.
              let shift : 0 + (q - size) ≡ q - size = omega arith in
              copied q ∙ rw (shift, cells q) (ground arith),
        )
