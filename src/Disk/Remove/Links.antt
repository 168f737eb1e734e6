-- ===== src/Disk/Remove/Links.antt =====
-- Doubly linked lists, and how one loses a node.
use bitch.Base.{
  ℕ, suc, ◌<◌, ◌≤◌, ◌≡◌, ◌≢◌, inl, inr, refl, sym, ap, ◌∙◌, arith, List, [], ◌∷◌, ◌++◌, ◌==◌,
  if◌then◌else◌, ne→==,
}
use bitch.Disk.Find.{Within}

abbrev pub first_of : List ℕ → (after : ℕ) → ℕ
first_of [] after = after
first_of (x ∷ xs) after = x

abbrev pub last_of : (before : ℕ) → List ℕ → ℕ
last_of before [] = before
last_of before (x ∷ xs) = last_of x xs

-- The nodes follow each other, from the one in front to the one behind.
unfoldable pub Linked : (next last : ℕ → ℕ) (before after : ℕ) → List ℕ → Type 0
Linked next last before after [] = 0 ≤ 0
Linked next last before after (x ∷ xs) =
    (last x ≡ before) × (next x ≡ first_of xs after) × Linked next last x after xs

-- The nodes are not NULL, and their numbers rise from `low` on and stay below `top`.
unfoldable pub Rising : (id : ℕ → ℕ) (low top : ℕ) → List ℕ → Type 0
Rising id low top [] = low ≤ top
Rising id low top (x ∷ xs) = (0 < x) × (low ≤ id x) × Rising id (suc (id x)) top xs

module _ (id : ℕ → ℕ) (top : ℕ) where
  pub Rising-low :
      (low under : ℕ) (xs : List ℕ) → under ≤ low → Rising id low top xs → Rising id under top xs
  unfolding Rising
  Rising-low low under [] less rising = omega (arith, less, rising)
  Rising-low low under (x ∷ xs) less rising = (rising.0, omega (arith, less, rising.1), rising.2)

  pub Rising-end : (low : ℕ) (xs : List ℕ) → Rising id low top xs → low ≤ top
  unfolding Rising
  Rising-end low [] rising = rising
  Rising-end low (x ∷ xs) rising = omega (arith, rising.1, Rising-end (suc (id x)) xs rising.2)

  pub Rising-Within :
      (low x : ℕ) (xs : List ℕ)
      → Rising id low top xs
      → Within x xs
      → (low ≤ id x) × (id x < top) × (0 < x)
  unfolding Rising Within
  Rising-Within low x [] rising here = absurd (omega (arith, here))
  Rising-Within low x (y ∷ ys) rising (inl e) =
      rw e (rising.1, omega (arith, Rising-end (suc (id y)) ys rising.2), rising.0)
  Rising-Within low x (y ∷ ys) rising (inr there) =
      let rest = Rising-Within (suc (id y)) x ys rising.2 there in
      (omega (arith, rest.0, rising.1), rest.1, rest.2)

  Rising-take : (low : ℕ) (xs ys : List ℕ) → Rising id low top (xs ++ ys) → Rising id low top xs
  unfolding Rising
  Rising-take low [] ys rising = Rising-end low ys rising
  Rising-take low (x ∷ xs) ys rising = (rising.0, rising.1, Rising-take (suc (id x)) xs ys rising.2)

  pub Rising-drop :
      (low p : ℕ) (xs ys : List ℕ) → Rising id low top (xs ++ p ∷ ys) → Rising id low top (xs ++ ys)
  unfolding Rising
  Rising-drop low p [] ys rising = Rising-low (suc (id p)) low ys (omega (arith, rising.1)) rising.2
  Rising-drop low p (x ∷ xs) ys rising =
      (rising.0, rising.1, Rising-drop (suc (id x)) p xs ys rising.2)

  Rising-middle : (low p : ℕ) (xs ys : List ℕ) → Rising id low top (xs ++ p ∷ ys) → low ≤ id p
  unfolding Rising
  Rising-middle low p [] ys rising = rising.1
  Rising-middle low p (x ∷ xs) ys rising =
      omega (arith, rising.1, Rising-middle (suc (id x)) p xs ys rising.2)

  -- The nodes in front of `p` have smaller numbers, and those behind it greater ones.
  pub Rising-front :
      (low p x : ℕ) (xs ys : List ℕ)
      → Rising id low top (xs ++ p ∷ ys)
      → Within x xs
      → (id x < id p) × (0 < x)
  unfolding Rising Within
  Rising-front low p x [] ys rising here = absurd (omega (arith, here))
  Rising-front low p x (y ∷ xs) ys rising (inl e) =
      rw e (Rising-middle (suc (id y)) p xs ys rising.2, rising.0)
  Rising-front low p x (y ∷ xs) ys rising (inr there) =
      Rising-front (suc (id y)) p x xs ys rising.2 there

  pub Rising-back :
      (low p : ℕ) (xs ys : List ℕ)
      → Rising id low top (xs ++ p ∷ ys)
      → (0 < p) × Rising id (suc (id p)) top ys
  unfolding Rising
  Rising-back low p [] ys rising = (rising.0, rising.2)
  Rising-back low p (x ∷ xs) ys rising = Rising-back (suc (id x)) p xs ys rising.2

-- The nodes of the list without `p` are not `p`.
pub Rising-apart :
    (id : ℕ → ℕ) (top low p : ℕ) (xs ys : List ℕ)
    → Rising id low top (xs ++ p ∷ ys)
    → (x : ℕ) → Within x (xs ++ ys)
    → x ≢ p
unfolding Rising Within
Rising-apart id top low p [] ys rising x here e =
    omega (arith, Rising-Within id top (suc (id p)) x ys rising.2 here, ap id e)
Rising-apart id top low p (y ∷ xs) ys rising x (inl e) same =
    omega (arith, Rising-middle id top (suc (id y)) p xs ys rising.2, ap id e, ap id same)
Rising-apart id top low p (y ∷ xs) ys rising x (inr there) same =
    Rising-apart id top (suc (id y)) p xs ys rising.2 x there same

-- Numbers and links that are the same on the nodes.
pub Rising-on :
    (id id' : ℕ → ℕ) (low top : ℕ) (xs : List ℕ)
    → ((x : ℕ) → Within x xs → id' x ≡ id x)
    → Rising id low top xs
    → Rising id' low top xs
unfolding Rising Within
Rising-on id id' low top [] same rising = rising
Rising-on id id' low top (x ∷ xs) same rising =
    let here : id' x ≡ id x = same x (inl refl) in
    (
      rising.0,
      omega (arith, here, rising.1),
      rw here (Rising-on id id' (suc (id x)) top xs (λ y h. same y (inr h)) rising.2),
    )

pub Linked-on :
    (next last next' last' : ℕ → ℕ) (before after : ℕ) (xs : List ℕ)
    → ((x : ℕ) → Within x xs → next' x ≡ next x)
    → ((x : ℕ) → Within x xs → last' x ≡ last x)
    → Linked next last before after xs
    → Linked next' last' before after xs
unfolding Linked Within
Linked-on next last next' last' before after [] nexts lasts linked = linked
Linked-on next last next' last' before after (x ∷ xs) nexts lasts linked = (
  lasts x (inl refl) ∙ linked.0,
  nexts x (inl refl) ∙ linked.1,
  Linked-on next last next' last' x after xs (λ y h. nexts y (inr h)) (λ y h. lasts y (inr h))
      linked.2,
)

-- Numbers that are the same.
pub Rising-same :
    (id id' : ℕ → ℕ) (low top : ℕ) (xs : List ℕ)
    → ((x : ℕ) → id' x ≡ id x)
    → Rising id low top xs
    → Rising id' low top xs
unfolding Rising
Rising-same id id' low top [] same rising = rising
Rising-same id id' low top (x ∷ xs) same rising = (
  rising.0,
  omega (arith, same x, rising.1),
  rw (same x) (Rising-same id id' (suc (id x)) top xs same rising.2),
)

Within-last_of : (xs : List ℕ) (x : ℕ) → Within (last_of x xs) (x ∷ xs)
unfolding Within
Within-last_of [] x = inl refl
Within-last_of (y ∷ ys) x = inr (Within-last_of ys y)

first_of-++ :
    (xs ys : List ℕ) (after : ℕ) → first_of (xs ++ ys) after ≡ first_of xs (first_of ys after)
first_of-++ [] ys after = refl
first_of-++ (x ∷ xs) ys after = refl

module _ (next last : ℕ → ℕ) where
  Linked-front :
      (before after p : ℕ) (xs ys : List ℕ)
      → Linked next last before after (xs ++ p ∷ ys)
      → Linked next last before p xs
  unfolding Linked
  Linked-front before after p [] ys linked = omega arith
  Linked-front before after p (x ∷ xs) ys linked =
      (linked.0, linked.1 ∙ first_of-++ xs (p ∷ ys) after, Linked-front x after p xs ys linked.2)

  pub Linked-at :
      (before after p : ℕ) (xs ys : List ℕ)
      → Linked next last before after (xs ++ p ∷ ys)
      → (last p ≡ last_of before xs) × (next p ≡ first_of ys after) × Linked next last p after ys
  unfolding Linked
  Linked-at before after p [] ys linked = linked
  Linked-at before after p (x ∷ xs) ys linked = Linked-at x after p xs ys linked.2

  Linked-append :
      (before after : ℕ) (xs ys : List ℕ)
      → Linked next last before (first_of ys after) xs
      → Linked next last (last_of before xs) after ys
      → Linked next last before after (xs ++ ys)
  unfolding Linked
  Linked-append before after [] ys front back = back
  Linked-append before after (x ∷ xs) ys front back =
      (front.0, front.1 ∙ sym (first_of-++ xs ys after), Linked-append x after xs ys front.2 back)

module _ (next last next' last' id : ℕ → ℕ) (top : ℕ) where
  Linked-same :
      (before after : ℕ) (xs : List ℕ)
      → ((x : ℕ) → Within x xs → next' x ≡ next x)
      → ((x : ℕ) → Within x xs → last' x ≡ last x)
      → Linked next last before after xs
      → Linked next' last' before after xs
  unfolding Linked Within
  Linked-same before after [] nexts lasts linked = linked
  Linked-same before after (x ∷ xs) nexts lasts linked = (
    lasts x (inl refl) ∙ linked.0,
    nexts x (inl refl) ∙ linked.1,
    Linked-same x after xs (λ y h. nexts y (inr h)) (λ y h. lasts y (inr h)) linked.2,
  )

  -- The nodes in front, with another one behind them.
  Linked-onto :
      (low before p q : ℕ) (xs : List ℕ)
      → Rising id low top xs
      → ((x : ℕ) → Within x xs → next' x ≡ (if x == last_of before xs then q else next x))
      → ((x : ℕ) → Within x xs → last' x ≡ last x)
      → Linked next last before p xs
      → Linked next' last' before q xs
  unfolding Linked Within Rising
  Linked-onto low before p q [] rising nexts lasts linked = linked
  Linked-onto low before p q (x ∷ []) rising nexts lasts linked =
      (lasts x (inl refl) ∙ linked.0, nexts x (inl refl) ∙ ground arith, omega arith)
  Linked-onto low before p q (x ∷ y ∷ ys) rising nexts lasts linked =
      let above =
        Rising-Within id top (suc (id x)) (last_of y ys) (y ∷ ys) rising.2 (Within-last_of ys y) in
      let other : x ≢ last_of y ys = λ e. omega (arith, above.0, ap id e) in
      (
        lasts x (inl refl) ∙ linked.0,
        nexts x (inl refl) ∙ rw (ne→== x (last_of y ys) other) linked.1,
        Linked-onto (suc (id x)) x p q (y ∷ ys) rising.2 (λ z h. nexts z (inr h))
            (λ z h. lasts z (inr h)) linked.2,
      )

  -- The nodes behind, with another one in front of them.
  Linked-behind :
      (low p l : ℕ) (ys : List ℕ)
      → Rising id low top ys
      → ((x : ℕ) → Within x ys → next' x ≡ next x)
      → ((x : ℕ) → Within x ys → last' x ≡ (if x == first_of ys 0 then l else last x))
      → Linked next last p 0 ys
      → Linked next' last' l 0 ys
  unfolding Linked Within Rising
  Linked-behind low p l [] rising nexts lasts linked = linked
  Linked-behind low p l (y ∷ ys) rising nexts lasts linked = (
    lasts y (inl refl) ∙ ground arith,
    nexts y (inl refl) ∙ linked.1,
    Linked-same y 0 ys (λ z h. nexts z (inr h))
        (λ z h.
          let above = Rising-Within id top (suc (id y)) z ys rising.2 h in
          lasts z (inr h) ∙ rw (ne→== z y (λ e. omega (arith, above.0, ap id e))) refl)
        linked.2,
  )

  front-ne :
      (p x : ℕ) (ys : List ℕ)
      → Rising id (suc (id p)) top ys
      → 0 < x
      → id x < id p
      → x ≢ first_of ys 0
  unfolding Rising
  front-ne p x [] rising pos less e = omega (arith, pos, e)
  front-ne p x (y ∷ ys) rising pos less e = omega (arith, less, rising.1, ap id e)

  back-ne :
      (p x : ℕ) (xs : List ℕ)
      → ((y : ℕ) → Within y xs → id y < id p)
      → 0 < x
      → suc (id p) ≤ id x
      → x ≢ last_of 0 xs
  back-ne p x [] below pos more e = omega (arith, pos, e)
  back-ne p x (y ∷ ys) below pos more e =
      let less = below (last_of y ys) (Within-last_of ys y) in omega (arith, less, more, ap id e)

  -- The list without the node `p`, when its neighbours have been joined.
  pub Linked-drop :
      (low p : ℕ) (xs ys : List ℕ)
      → Rising id low top (xs ++ p ∷ ys)
      → ((x : ℕ) → 0 < x → next' x ≡ (if x == last p then next p else next x))
      → ((x : ℕ) → 0 < x → last' x ≡ (if x == next p then last p else last x))
      → Linked next last 0 0 (xs ++ p ∷ ys)
      → Linked next' last' 0 0 (xs ++ ys)
  Linked-drop low p xs ys rising nexts lasts linked =
      let at = Linked-at next last 0 0 p xs ys linked in
      let back = Rising-back id top low p xs ys rising in
      let front = λ (x : ℕ) (h : Within x xs). Rising-front id top low p x xs ys rising h in
      let above = λ (x : ℕ) (h : Within x ys). Rising-Within id top (suc (id p)) x ys back.1 h in
      Linked-append next' last' 0 0 xs ys
        (Linked-onto low 0 p (first_of ys 0) xs (Rising-take id top low xs (p ∷ ys) rising)
          (λ x h. nexts x (front x h).1 ∙ rw (at.0, at.1) refl)
          (λ x h.
            lasts x (front x h).1
            ∙ rw
                (at.1, ne→== x (first_of ys 0) (front-ne p x ys back.1 (front x h).1 (front x h).0))
                refl)
          (Linked-front next last 0 0 p xs ys linked))
        (Linked-behind (suc (id p)) p (last_of 0 xs) ys back.1
          (λ x h.
            nexts x (above x h).2
            ∙ rw
                (
                  at.0,
                  ne→== x (last_of 0 xs)
                      (back-ne p x xs (λ y k. (front y k).0) (above x h).2 (above x h).0),
                )
                refl)
          (λ x h. lasts x (above x h).2 ∙ rw (at.0, at.1) refl) at.2)

last_of-++ :
    (before : ℕ) (xs ys : List ℕ) → last_of before (xs ++ ys) ≡ last_of (last_of before xs) ys
last_of-++ before [] ys = refl
last_of-++ before (x ∷ xs) ys = last_of-++ x xs ys

-- The ends of the list without `p`.
pub first_of-drop :
    (p : ℕ) (xs ys : List ℕ)
    → ((x : ℕ) → Within x xs → 0 < x)
    → (if last_of 0 xs == 0 then first_of ys 0 else first_of (xs ++ p ∷ ys) 0)
      ≡ first_of (xs ++ ys) 0
first_of-drop p [] ys pos = refl
first_of-drop p (x ∷ xs) ys pos =
    let some_last = pos (last_of x xs) (Within-last_of xs x) in
    rw (ne→== (last_of x xs) 0 (λ e. omega (arith, e, some_last))) refl

pub last_of-drop :
    (p : ℕ) (xs ys : List ℕ)
    → ((x : ℕ) → Within x ys → 0 < x)
    → (if first_of ys 0 == 0 then last_of 0 xs else last_of 0 (xs ++ p ∷ ys)) ≡ last_of 0 (xs ++ ys)
unfolding Within
last_of-drop p xs [] pos = sym (last_of-++ 0 xs [])
last_of-drop p xs (y ∷ ys) pos =
    rw
      (
        ne→== y 0 (λ e. omega (arith, e, pos y (inl refl))),
        last_of-++ 0 xs (p ∷ y ∷ ys),
        last_of-++ 0 xs (y ∷ ys),
      )
      refl
