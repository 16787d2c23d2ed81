-- ===== src/Completion/Ring.antt =====
-- The completion queue as a ring that the device fills and nvme_poll_cq() of
-- daredevil/drivers/nvme/host/pci.c empties. The device writes at its own place, with its own phase, and
-- never more entries than the queue has.
use nvme_plus.Base.{
  ℕ, zero, suc, ◌+◌, ◌-◌, ◌≤◌, ◌<◌, ◌≡◌, ◌≢◌, refl, sym, subst, arith, ap, ◌∙◌, Bool, not, List, [],
  ◌∷◌, ◌++◌, ltb, ◌==◌, if◌then◌else◌, length, length-append, get_or, dec_lt,
}
use nvme_plus.Regulator.{update}
use nvme_plus.Completion.{Cqe}

-- A place in the ring: the slot, and the phase that a new entry there has
abbrev pub Place : Type 0
Place = ℕ × Bool

abbrev pub step : ℕ → Place → Place
step depth x = if suc x.0 == depth then (0, not x.1) else (suc x.0, x.1)

abbrev pub turn : ℕ → Place → ℕ → Place
turn depth x zero = x
turn depth x (suc k) = step depth (turn depth x k)

pub turn-step : (depth : ℕ) (x : Place) (k : ℕ) → turn depth (step depth x) k ≡ turn depth x (suc k)
turn-step depth x zero = refl
turn-step depth x (suc k) = ap (step depth) (turn-step depth x k)

-- The place k steps on, within one round
pub turn-wraps :
    (depth slot : ℕ) (phase : Bool) (k : ℕ)
    → slot < depth
    → k ≤ depth
    → turn depth (slot, phase) k
      ≡ (if ltb (slot + k) depth then (slot + k, phase) else (slot + k - depth, not phase))
turn-wraps depth slot phase zero h l = ground arith
turn-wraps depth slot phase (suc k) h l =
    ap (step depth) (turn-wraps depth slot phase k h (omega arith)) ∙ ground arith

-- The entries from the place x on: those of `ids`, then old ones
pub record IsRing (depth : ℕ) (x : Place) (cqes : ℕ → Cqe) (ids : List ℕ) : Type 0 where
  pub slot : x.0 < depth
  pub fits : length ids ≤ depth
  pub filled :
      (k : ℕ)
      → k < length ids
      → cqes (turn depth x k).0 ≡ record { phase = (turn depth x k).1; command_id = get_or ids k 0 }
  pub stale :
      (k : ℕ)
      → length ids ≤ k
      → k < depth
      → (cqes (turn depth x k).0).phase ≡ not (turn depth x k).1

-- Before a round is over, no other place has the slot; after it, the slot has the other phase.
turn-ne :
    (depth : ℕ) (x : Place) (j k : ℕ)
    → x.0 < depth
    → j < k
    → k < depth
    → (turn depth x j).0 ≢ (turn depth x k).0
turn-ne depth (slot, phase) j k h l m e =
    let a = ap (λ (p : Place). p.0) (turn-wraps depth slot phase j h (omega arith)) in
    let b = ap (λ (p : Place). p.0) (turn-wraps depth slot phase k h (omega arith)) in
    ground (arith, a, b)

turn-round : (depth : ℕ) (x : Place) → x.0 < depth → turn depth x depth ≡ (x.0, not x.1)
turn-round depth (slot, phase) h = turn-wraps depth slot phase depth h (omega arith) ∙ ground arith

step-lt : (depth : ℕ) (x : Place) → x.0 < depth → (step depth x).0 < depth
step-lt depth x h = ground arith

pub turn-lt : (depth : ℕ) (x : Place) (k : ℕ) → x.0 < depth → (turn depth x k).0 < depth
turn-lt depth x zero h = h
turn-lt depth x (suc k) h = step-lt depth (turn depth x k) (turn-lt depth x k h)

-- The first entry taken
pub taken-IsRing :
    (depth : ℕ) (x : Place) (cqes : ℕ → Cqe) (id : ℕ) (ids : List ℕ)
    → IsRing depth x cqes (id ∷ ids)
    → IsRing depth (step depth x) cqes ids
taken-IsRing depth x cqes id ids r = record {
  slot = step-lt depth x r.slot;
  fits = omega (arith, r.fits);
  filled = λ k l.
      subst (λ (y : Place). cqes y.0 ≡ record { phase = y.1; command_id = get_or ids k 0 })
        (sym (turn-step depth x k)) (r.filled (suc k) (omega arith));
  stale = λ k l m.
      subst (λ (y : Place). (cqes y.0).phase ≡ not y.1) (sym (turn-step depth x k)) (late k l m);
}
  where
    old : (cqes x.0).phase ≡ x.1
    old = ap (λ (c : Cqe). c.phase) (r.filled 0 (omega arith))

    late :
        (k : ℕ)
        → length ids ≤ k
        → k < depth
        → (cqes (turn depth x (suc k)).0).phase ≡ not (turn depth x (suc k)).1
    late k l m = elim (dec_lt (suc k) depth) [
      | yes n ↦ r.stale (suc k) (omega arith) n
      | no n ↦
          let e : suc k ≡ depth = omega arith in
          subst (λ i. (cqes (turn depth x i).0).phase ≡ not (turn depth x i).1) (sym e)
            (subst (λ (y : Place). (cqes y.0).phase ≡ not y.1) (sym (turn-round depth x r.slot))
              (ground (arith, old)))
    ]

get_or-append_lt :
    (xs : List ℕ) (v k : ℕ) → k < length xs → get_or (xs ++ v ∷ []) k 0 ≡ get_or xs k 0
get_or-append_lt [] v k l = absurd (omega arith)
get_or-append_lt (x ∷ xs) v zero l = refl
get_or-append_lt (x ∷ xs) v (suc k) l = get_or-append_lt xs v k (omega arith)

get_or-append_last : (xs : List ℕ) (v : ℕ) → get_or (xs ++ v ∷ []) (length xs) 0 ≡ v
get_or-append_last [] v = refl
get_or-append_last (x ∷ xs) v = get_or-append_last xs v

-- What the device writes: an entry at the place after those that are not taken
abbrev pub post : ℕ → Place → List ℕ → ℕ → (ℕ → Cqe) → ℕ → Cqe
post depth x ids id cqes =
    let y = turn depth x (length ids) in update cqes y.0 (record { phase = y.1; command_id = id })

pub posted-IsRing :
    (depth : ℕ) (x : Place) (cqes : ℕ → Cqe) (ids : List ℕ) (id : ℕ)
    → IsRing depth x cqes ids
    → length ids < depth
    → IsRing depth x (post depth x ids id cqes) (ids ++ id ∷ [])
posted-IsRing depth x cqes ids id r h = record {
  slot = r.slot;
  fits = omega (arith, len);
  filled = λ k l. elim (dec_lt k (length ids)) [
    | yes m ↦
        other k (turn-ne depth x k (length ids) r.slot m h)
        ∙ r.filled k m
        ∙ ap (λ i. record { phase = (turn depth x k).1; command_id = i })
            (sym (get_or-append_lt ids id k m))
    | no m ↦
        subst
          (λ i.
            post depth x ids id cqes (turn depth x i).0
            ≡ record { phase = (turn depth x i).1; command_id = get_or (ids ++ id ∷ []) i 0 })
          (omega (arith, len)) last
  ];
  stale = λ k l m.
      ap (λ (c : Cqe). c.phase)
        (other k (λ e. turn-ne depth x (length ids) k r.slot (omega (arith, len)) m (sym e)))
      ∙ r.stale k (omega (arith, len)) m;
}
  where
    len : length (ids ++ id ∷ []) ≡ length ids + 1
    len = length-append ids (id ∷ [])

    other :
        (k : ℕ)
        → (turn depth x k).0 ≢ (turn depth x (length ids)).0
        → post depth x ids id cqes (turn depth x k).0 ≡ cqes (turn depth x k).0
    other k n = ground arith

    written :
        post depth x ids id cqes (turn depth x (length ids)).0
        ≡ record { phase = (turn depth x (length ids)).1; command_id = id }
    written = ground arith

    last : post depth x ids id cqes (turn depth x (length ids)).0 ≡ record {
      phase = (turn depth x (length ids)).1;
      command_id = get_or (ids ++ id ∷ []) (length ids) 0;
    }
    last =
        written
        ∙ ap (λ i. record { phase = (turn depth x (length ids)).1; command_id = i })
            (sym (get_or-append_last ids id))
