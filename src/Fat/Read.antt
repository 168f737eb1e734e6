-- ===== src/Fat/Read.antt =====
-- `read_cluster` of kernel/fs/fat.c: the bytes of a file along its cluster chain.
use bitch.Base.{
  ℕ, zero, suc, ◌+◌, ◌-◌, ◌*◌, ◌≤◌, ◌<◌, ◌%◌, ◌^◌, ◌≡◌, ◌⊎◌, inl, inr, refl, ◌∙◌, sym, ap, true,
  false, some, Option, List, [], ◌∷◌, length, arith, ◌&&◌, if◌then◌else◌, ne→==, ltb, leb, Served,
  sub32, add64, sub64, Bool-cases, dec_lt, lt→ltb, le→ltb,
}
use bitch.Fat.{
  Fat, Reader, Buffer, Progress, read_at, cluster_offect, read_rest, read_last, cluster_loop,
  read_cluster,
}
use bitch.Fat.Chain.{Links}

-- The bytes of the clusters one after the other; `at` says where a cluster begins.
abbrev pub file_byte : (image : ℕ → ℕ) → (at : ℕ → ℕ) → (size : ℕ) → List ℕ → ℕ → ℕ
file_byte image at size [] p = 0
file_byte image at size (c ∷ cs) p =
    if ltb p size then image (at c + p) else file_byte image at size cs (p - size)

-- `k` clusters and `r` bytes.
abbrev pub span : (size : ℕ) → (k r : ℕ) → ℕ
span size zero r = r
span size (suc k) r = size + span size k r

-- The start of a cluster.
abbrev pub cluster_start : Fat → ℕ → ℕ
cluster_start fat c = fat.start_cluster + (c - 2) * fat.cluster_size

-- The disk up to `limit`, and the clusters of a chain on it.
abbrev pub Serves : Reader → (id : ℕ) → (image : ℕ → ℕ) → (limit : ℕ) → Type 0
Serves read id image limit =
    (buf : Buffer) (count offect : ℕ)
    → count < 2 ^ 32
    → offect + count ≤ limit
    → Served image buf count offect (read id buf count offect)

abbrev pub OnDisk : Fat → (limit : ℕ) → List ℕ → Type 0
OnDisk fat limit [] = Unit
OnDisk fat limit (c ∷ cs) =
    (2 ≤ c)
    × (c < 2 ^ 32)
    × ((c - 2) * fat.cluster_size < 2 ^ 32)
    × (cluster_start fat c + fat.cluster_size ≤ limit)
    × OnDisk fat limit cs

module _ (read : Reader) (fat : Fat) (image : ℕ → ℕ) (limit : ℕ)
    (serves : Serves read fat.disk_id image limit) (low : limit < 2 ^ 63)
    (small : fat.cluster_size < 2 ^ 32) where
  abbrev size : ℕ
  size = fat.cluster_size

  pub read_at_lem :
      (buf : Buffer) (at count offect q : ℕ)
      → count < 2 ^ 32
      → offect + count ≤ limit
      → ((read_at read fat.disk_id buf at count offect).0 ≡ some count)
        × ((read_at read fat.disk_id buf at count offect).1 q
            ≡ (if leb at q && ltb q (at + count) then image (offect + (q - at)) else buf q))
  unfolding read_at
  read_at_lem buf at count offect q fits inside =
      let (n, cells) = serves (λ j. buf (at + j)) count offect fits inside in
      (
        n,
        elim (Bool-cases (ltb q at)) [
          | inl before ↦ rw before (ground arith)
          | inr behind ↦
              let there : at + (q - at) ≡ q = ground arith in
              rw behind (cells (q - at) ∙ rw there (ground arith))
        ],
      )

  pub cluster_offect_lem :
      (c offect : ℕ)
      → 2 ≤ c
      → c < 2 ^ 32
      → (c - 2) * size < 2 ^ 32
      → cluster_start fat c + size ≤ limit
      → offect ≤ size
      → cluster_offect fat c offect ≡ cluster_start fat c + offect
  unfolding cluster_offect
  cluster_offect_lem c offect two word product inside within =
      let index : sub32 c 2 ≡ c - 2 = omega arith in rw index (omega arith)

  -- The buffer that a read of the clusters `cs` leaves.
  abbrev Copied : List ℕ → Progress → Buffer → Type 0
  Copied cs p b =
      (q : ℕ)
      → b q ≡ (
          if leb p.buf_offect q && ltb q (p.buf_offect + p.count)
          then file_byte image (cluster_start fat) size cs (p.offect + (q - p.buf_offect))
          else p.buf q)

  abbrev Returns : List ℕ → Progress → Option (Option ℕ × Buffer) → Type 0
  Returns cs p r = (b : Buffer) × (r ≡ some (some (p.n + p.count), b)) × Copied cs p b

  -- The counters of `read_cluster` stay in their ranges.
  abbrev Bounded : Progress → Type 0
  Bounded p =
      (0 < p.count)
      × (p.n + p.count < 2 ^ 32)
      × (p.buf_offect + p.count < 2 ^ 63)
      × (p.offect < 2 ^ 63)

  read_last-Returns :
      (c : ℕ) (cs : List ℕ) (p : Progress)
      → OnDisk fat limit (c ∷ cs)
      → Bounded p
      → p.offect + p.count ≤ size
      → Returns (c ∷ cs) p (some (read_last read fat c p))
  unfolding read_last
  read_last-Returns c cs p (two, word, product, inside, _) (pos, few, far, below) within =
      let at : cluster_offect fat c p.offect ≡ cluster_start fat c + p.offect =
        cluster_offect_lem c p.offect two word product inside (omega arith) in
      let r = read_at_lem p.buf p.buf_offect p.count (cluster_start fat c + p.offect) in
      let sum : (p.n + p.count) % 2 ^ 32 ≡ p.n + p.count = omega arith in
      rw (at, (r 0 (omega arith) (omega arith)).0, sum)
        (
          (read_at read fat.disk_id p.buf p.buf_offect p.count (cluster_start fat c + p.offect)).1,
          refl,
          λ q.
              let shift : cluster_start fat c + p.offect + (q - p.buf_offect)
                  ≡ cluster_start fat c + (p.offect + (q - p.buf_offect)) =
                omega arith in
              (r q (omega arith) (omega arith)).1 ∙ rw shift (ground arith),
        )

  -- A round that skips a cluster.
  skip-Copied :
      (c : ℕ) (cs : List ℕ) (p : Progress) (b : Buffer)
      → size ≤ p.offect
      → Copied cs (record p { offect = p.offect - size }) b
      → Copied (c ∷ cs) p b
  skip-Copied c cs p b past copied q =
      let shift : p.offect - size + (q - p.buf_offect) ≡ p.offect + (q - p.buf_offect) - size =
        omega arith in
      copied q ∙ rw shift (ground arith)

  -- What a whole cluster leaves for the rounds behind it.
  abbrev behind : Progress → Buffer → Progress
  behind p b = record {
    buf = b;
    n = p.n + size;
    count = p.count - size;
    offect = 0;
    buf_offect = p.buf_offect + size;
  }

  read_rest_lem :
      (c : ℕ) (cs : List ℕ) (p : Progress)
      → OnDisk fat limit (c ∷ cs)
      → Bounded p
      → p.offect ≡ 0
      → size < p.count
      → (b : Buffer) × (read_rest read fat c p ≡ (some size, behind p b))
        × ((q : ℕ)
            → b q ≡ (
                if leb p.buf_offect q && ltb q (p.buf_offect + size)
                then image (cluster_start fat c + (q - p.buf_offect))
                else p.buf q))
  unfolding read_rest
  read_rest_lem c cs p (two, word, product, inside, _) (pos, few, far, below) start more =
      let at : cluster_offect fat c 0 ≡ cluster_start fat c =
        cluster_offect_lem c 0 two word product inside (omega arith) ∙ omega arith in
      let r = read_at_lem p.buf p.buf_offect size (cluster_start fat c) in
      let whole : size % 2 ^ 32 ≡ size = omega arith in
      let served : (read fat.disk_id (λ j. p.buf (p.buf_offect + j)) size (cluster_start fat c)).0
          ≡ some size =
        (serves (λ j. p.buf (p.buf_offect + j)) size (cluster_start fat c) (omega arith)
          (omega arith)).0 in
      let step : sub64 size 0 ≡ size = omega arith in
      let left : sub64 p.count size % 2 ^ 32 ≡ p.count - size = omega arith in
      let sum : (p.n + size) % 2 ^ 32 ≡ p.n + size = omega arith in
      let far' : add64 p.buf_offect size ≡ p.buf_offect + size = omega arith in
      (
        (read_at read fat.disk_id p.buf p.buf_offect size (cluster_start fat c)).1,
        rw (start, step, at, whole, served, left, sum, far') refl,
        λ q. (r q (omega arith) (omega arith)).1,
      )

  rest-Copied :
      (c : ℕ) (cs : List ℕ) (p : Progress) (first b : Buffer)
      → p.offect ≡ 0
      → size < p.count
      → ((q : ℕ)
          → first q ≡ (
              if leb p.buf_offect q && ltb q (p.buf_offect + size)
              then image (cluster_start fat c + (q - p.buf_offect))
              else p.buf q))
      → Copied cs (behind p first) b
      → Copied (c ∷ cs) p b
  rest-Copied c cs p first b start more here copied q =
      let shift : 0 + (q - (p.buf_offect + size)) ≡ p.offect + (q - p.buf_offect) - size =
        omega (arith, start) in
      let same : cluster_start fat c + (q - p.buf_offect)
          ≡ cluster_start fat c + (p.offect + (q - p.buf_offect)) =
        omega (arith, start) in
      copied q ∙ rw (shift, here q, same) (ground (arith, start))

  -- The read starts `r` bytes inside the cluster `k` of the chain, and stays in it unless `r` is 0.
  pub cluster_loop_lem :
      (ds : List ℕ) (fuel c k r : ℕ) (p : Progress)
      → length ds < fuel
      → Links read fat c ds
      → OnDisk fat limit (c ∷ ds)
      → Bounded p
      → p.offect ≡ span size k r
      → r < size
      → (r ≡ 0) ⊎ (r + p.count ≤ size)
      → p.offect + p.count ≤ span size (length ds) size
      → Returns (c ∷ ds) p (cluster_loop fuel read fat c p)
  unfolding cluster_loop
  cluster_loop_lem ds zero c k r p more _ _ _ _ _ _ _ = absurd (omega (arith, more))
  cluster_loop_lem ds (suc fuel) c zero r p more links on bounded start inside (inr within) room =
      let (pos, few, far, below) = bounded in
      let here : ltb p.offect size ≡ true = ground (arith, start) in
      let last : ltb size (add64 p.offect p.count) ≡ false = le→ltb _ _ (omega (arith, start)) in
      rw (here, last) (read_last-Returns c ds p on bounded (omega (arith, start)))
  cluster_loop_lem [] (suc fuel) c zero r p more links on bounded start inside (inl aligned) room =
      let (pos, few, far, below) = bounded in
      let here : ltb p.offect size ≡ true = ground (arith, start) in
      let last : ltb size (add64 p.offect p.count) ≡ false = le→ltb _ _ (omega (arith, room)) in
      rw (here, last) (read_last-Returns c [] p on bounded (omega (arith, room)))
  cluster_loop_lem (d ∷ ds) (suc fuel) c zero r p more links on bounded start inside (inl aligned)
        room =
      let (pos, few, far, below) = bounded in
      let here : ltb p.offect size ≡ true = ground (arith, start) in
      elim (dec_lt size p.count) [
        | no within ↦
            let last : ltb size (add64 p.offect p.count) ≡ false =
              le→ltb _ _ (omega (arith, start, aligned, within)) in
            rw (here, last)
              (read_last-Returns c (d ∷ ds) p on bounded (omega (arith, start, aligned, within)))
        | yes beyond ↦
            let most : ltb size (add64 p.offect p.count) ≡ true =
              lt→ltb _ _ (omega (arith, start, aligned, beyond)) in
            let (first, e, cells) =
              read_rest_lem c (d ∷ ds) p on bounded (omega (arith, start, aligned)) beyond in
            let (b, went, copied) =
              cluster_loop_lem ds fuel d zero 0 (behind p first) (omega (arith, more)) links.2 on.4
                (omega arith, omega arith, omega arith, omega arith) refl (omega (arith, inside))
                (inl refl) (omega (arith, start, aligned, room)) in
            let total : p.n + size + (p.count - size) ≡ p.n + p.count = omega (arith, beyond) in
            rw (here, most, e, links.0, ne→== d 0 links.1, e, ← total)
              (
                b,
                went,
                rest-Copied c (d ∷ ds) p first b (omega (arith, start, aligned)) beyond cells
                    copied,
              )
      ]
  cluster_loop_lem [] (suc fuel) c (suc k) r p more links on bounded start inside way room =
      absurd (omega (arith, start, bounded.0))
  cluster_loop_lem (d ∷ ds) (suc fuel) c (suc k) r p more links on bounded start inside way room =
      let (pos, few, far, below) = bounded in
      let here : ltb p.offect size ≡ false = ground (arith, start) in
      let skipped : sub64 p.offect size ≡ p.offect - size = omega (arith, start) in
      let (b, e, copied) =
        cluster_loop_lem ds fuel d k r (record p { offect = p.offect - size }) (omega (arith, more))
          links.2 on.4 (pos, few, far, omega arith) (omega (arith, start)) inside way
          (omega (arith, start, room)) in
      rw (here, links.0, ne→== d 0 links.1, skipped)
        (b, e, skip-Copied c (d ∷ ds) p b (omega (arith, start)) copied)

  pub span_lem : (k r : ℕ) → span size k r ≡ k * size + r
  span_lem zero r = omega arith
  span_lem (suc k) r = grind (arith, span_lem k r)

  -- On a chain of clusters that lie on a readable disk, a read of a positive count that begins at the
  -- start of a cluster, or that stays inside one cluster, and ends inside the chain: given more rounds
  -- than the chain has links, `read_cluster` returns the count and puts the bytes of the file from the
  -- offset on at the start of the buffer, whose other bytes stay as they were.
  pub read_cluster_lem :
      (ds : List ℕ) (fuel c k r count : ℕ) (buf : Buffer)
      → length ds < fuel
      → Links read fat c ds
      → OnDisk fat limit (c ∷ ds)
      → 0 < count
      → count < 2 ^ 32
      → k * size + r < 2 ^ 63
      → r < size
      → (r ≡ 0) ⊎ (r + count ≤ size)
      → k * size + r + count ≤ length ds * size + size
      → (b : Buffer) × (read_cluster fuel read fat buf c count (k * size + r)
          ≡ some (some count, b))
        × ((q : ℕ)
            → b q ≡ (
                if ltb q count
                then file_byte image (cluster_start fat) size (c ∷ ds) (k * size + r + q)
                else buf q))
  unfolding read_cluster
  read_cluster_lem ds fuel c k r count buf more links on pos few far inside way room =
      let p : Progress = record {
        buf = buf;
        n = 0;
        count = count;
        offect = k * size + r;
        buf_offect = 0;
      } in
      let (b, e, copied) =
        cluster_loop_lem ds fuel c k r p more links on
          (pos, omega (arith, few), omega (arith, few), far) (sym (span_lem k r)) inside way
          (omega (arith, room, span_lem (length ds) size)) in
      let sum : 0 + count ≡ count = omega arith in
      (
        b,
        e ∙ ap (λ n. some (some n, b)) sum,
        λ q. let index : q - 0 ≡ q = omega arith in copied q ∙ rw (index, sum) (ground arith),
      )
