-- ===== src/PrioArray/Sift.antt =====
-- The loop that sinks the top of a priority array: it ends, keeps the elements, and restores the
-- order of the heap.
use mathlib.Core.List.{Perm}
use mathlib.Core.List.Perm
use nvme_plus.Base.{
  ℕ, zero, suc, ◌+◌, ◌-◌, ◌*◌, ◌/◌, ◌≤◌, ◌<◌, ◌≡◌, ◌≢◌, ◌⊎◌, inl, inr, refl, List, ltb, arith,
  length, get_or, swap, length-swap, get_or-swap, swap-perm, ap, ◌∙◌, if_elim, dec_lt,
}
use nvme_plus.Base.Int.{ℤ, ltb_ℤ, ◌≤ℤ◌}
use nvme_plus.PrioArray.{sift, smaller_son}

abbrev pub father : ℕ → ℕ
father c = (c - 1) / 2

-- Every element's key is at least that of its father.
abbrev pub IsHeap : (ℕ → ℤ) → ℕ → List ℕ → Type 0
IsHeap key n h = (c : ℕ) → 0 < c → c < n → key (get_or h (father c) 0) ≤ℤ key (get_or h c 0)

sons : (c i : ℕ) → 0 < c → father c ≡ i → (c ≡ i * 2 + 1) ⊎ (c ≡ i * 2 + 2)
sons c i pos e = omega arith

module _ (merit : ℕ → ℤ) (used : ℤ) (n : ℕ) where
  abbrev pub son_of : List ℕ → ℕ → ℕ
  son_of h i = smaller_son merit n h i

  pub smaller_son-cases :
      (h : List ℕ) (i : ℕ)
      → i * 2 + 1 < n
      → let son = smaller_son merit n h i in
        (i < son)
        × (son < n)
        × (father son ≡ i)
        × ((c : ℕ) → 0 < c → c < n → father c ≡ i → merit (get_or h son 0) ≤ℤ merit (get_or h c 0))
  unfolding smaller_son
  smaller_son-cases h i inside = (
    ground arith,
    ground arith,
    ground arith,
    λ c pos below e. elim (sons c i pos e) [
      | inl left ↦ ground (arith, ap (λ k. merit (get_or h k 0)) left)
      | inr right ↦ ground (arith, ap (λ k. merit (get_or h k 0)) right)
    ],
  )

  -- Every fuel from the distance to the end on gives the same heap: the loop has ended by its tests.
  pub sift_fuel :
      (k : ℕ) (h : List ℕ) (i : ℕ)
      → n ≤ i + k
      → sift k merit used n h i ≡ sift (suc k) merit used n h i
  unfolding sift
  sift_fuel zero h i enough = ground arith
  sift_fuel (suc k) h i enough = elim (dec_lt (i * 2 + 1) n) [
    | yes inside ↦
        let (after, below, _, _) = smaller_son-cases h i inside in
        ground (arith, sift_fuel k (swap 0 h i (son_of h i)) (son_of h i))
    | no outside ↦ ground arith
  ]

  pub length-sift : (k : ℕ) (h : List ℕ) (i : ℕ) → length (sift k merit used n h i) ≡ length h
  unfolding sift
  length-sift zero h i = refl
  length-sift (suc k) h i =
      ground (
        arith,
        length-sift k (swap 0 h i (son_of h i)) (son_of h i),
        length-swap 0 h i (son_of h i),
      )

  pub sift-perm :
      (k : ℕ) (h : List ℕ) (i : ℕ) → length h ≡ n → i < n → Perm (sift k merit used n h i) h
  unfolding sift
  sift-perm zero h i size inside = Perm.refl h
  sift-perm (suc k) h i size inside =
      if_elim (λ l. Perm l h) (ltb (i * 2 + 1) n)
        (λ more.
          let (_, below, _, _) = smaller_son-cases h i (ground arith) in
          if_elim (λ l. Perm l h) _ (λ settled. Perm.refl h)
            (λ sink.
              Perm.trans
                (sift-perm k (swap 0 h i (son_of h i)) (son_of h i)
                  (length-swap 0 h i (son_of h i) ∙ size) below)
                (swap-perm 0 h i (son_of h i) (omega arith) (omega arith))))
        (λ leaf. Perm.refl h)

  -- Above the place where it starts, the loop changes nothing.
  pub sift-above :
      (k : ℕ) (h : List ℕ) (i c : ℕ)
      → length h ≡ n
      → c < i
      → get_or (sift k merit used n h i) c 0 ≡ get_or h c 0
  unfolding sift
  sift-above zero h i c size above = refl
  sift-above (suc k) h i c size above = elim (dec_lt (i * 2 + 1) n) [
    | yes inside ↦
        let (after, below, _, _) = smaller_son-cases h i inside in
        ground (
          arith,
          sift-above k (swap 0 h i (son_of h i)) (son_of h i) c,
          length-swap 0 h i (son_of h i),
          get_or-swap 0 h i (son_of h i) c,
        )
    | no outside ↦ ground arith
  ]

  -- A merit that no son exceeds sinks at once.
  pub sift-first :
      (k : ℕ) (h : List ℕ)
      → 0 < k
      → length h ≡ n
      → 1 < n
      → ((x : ℕ) → merit x ≤ℤ used)
      → get_or (sift k merit used n h 0) 0 0 ≡ get_or h (son_of h 0) 0
  unfolding sift
  sift-first zero h fuel size two most = absurd (omega arith)
  sift-first (suc k) h fuel size two most =
      let (after, below, _, _) = smaller_son-cases h 0 (omega arith) in
      ground (
        arith,
        most (get_or h (son_of h 0) 0),
        sift-above k (swap 0 h 0 (son_of h 0)) (son_of h 0) 0,
        length-swap 0 h 0 (son_of h 0),
        get_or-swap 0 h 0 (son_of h 0) 0,
      )

-- The order that the loop restores: that of the merits, with `used` for the element on the way down.
module _ (merit key : ℕ → ℤ) (used : ℤ) (n top : ℕ) (key_top : key top ≡ used)
    (key_other : (x : ℕ) → x ≢ top → key x ≡ merit x) where
  -- Only the edges below `i`, where the element `top` stands, may be out of order.
  pub record Sinking (h : List ℕ) (i : ℕ) : Type 0 where
    pub size : length h ≡ n
    pub inside : i < n
    pub here : get_or h i 0 ≡ top
    pub elsewhere : (c : ℕ) → c < n → c ≢ i → get_or h c 0 ≢ top
    pub edges :
        (c : ℕ) → 0 < c → c < n → father c ≢ i → key (get_or h (father c) 0) ≤ℤ key (get_or h c 0)
    pub bridged :
        (c : ℕ)
        → 0 < i
        → 0 < c
        → c < n
        → father c ≡ i
        → key (get_or h (father i) 0) ≤ℤ key (get_or h c 0)

  swap-Sinking :
      (h : List ℕ) (i : ℕ)
      → Sinking h i
      → i * 2 + 1 < n
      → merit (get_or h (smaller_son merit n h i) 0) ≤ℤ used
      → Sinking (swap 0 h i (smaller_son merit n h i)) (smaller_son merit n h i)
  swap-Sinking h i v more le =
      let s = smaller_son merit n h i in
      let (after, below, up, least) = smaller_son-cases merit used n h i more in
      let at = λ (c : ℕ).
        get_or-swap 0 h i s c (omega (arith, v.size, v.inside)) (omega (arith, v.size)) in
      let son : key (get_or h s 0) ≡ merit (get_or h s 0) =
        key_other (get_or h s 0) (v.elsewhere s below (omega arith)) in
      record {
        size = length-swap 0 h i s ∙ v.size;
        inside = below;
        here = ground (arith, at s, v.here);
        elsewhere = λ c p q. ground (arith, at c, v.elsewhere c, v.elsewhere s);
        edges = λ c pos p q. ground (
          arith,
          at c,
          at (father c),
          v.here,
          v.edges c,
          v.bridged s,
          son,
          key_top,
          key_other (get_or h c 0),
          v.elsewhere c,
          least c,
        );
        bridged = λ c pos cpos p q. ground (arith, at c, at (father s), v.edges c);
      }

  pub sift-IsHeap :
      (k : ℕ) (h : List ℕ) (i : ℕ)
      → n ≤ i + k
      → Sinking h i
      → IsHeap key n (sift k merit used n h i)
  unfolding sift
  sift-IsHeap zero h i enough v = absurd (omega (arith, v.inside))
  sift-IsHeap (suc k) h i enough v =
      if_elim (IsHeap key n) (ltb (i * 2 + 1) n)
        (λ more.
          let inside : i * 2 + 1 < n = ground arith in
          let (after, below, _, least) = smaller_son-cases merit used n h i inside in
          if_elim (IsHeap key n) (ltb_ℤ used (merit (get_or h (smaller_son merit n h i) 0)))
            (λ settled c pos p.
              ground (
                arith,
                v.edges c,
                v.here,
                least c,
                key_top,
                key_other (get_or h c 0),
                v.elsewhere c,
              ))
            (λ sink.
              sift-IsHeap k (swap 0 h i (smaller_son merit n h i)) (smaller_son merit n h i)
                (omega arith) (swap-Sinking h i v inside (ground arith))))
        (λ leaf c pos p. ground (arith, v.edges c))
