-- ===== src/Topology/Tiling.antt =====
-- What the mappings of blk-blex.h promise of a device whose counts fit: the NCQs cut the NQ ids into
-- consecutive blocks, and every way of going between ids and indices agrees.
use native.Mathlib.Nat.{mod-lt, add-zero}
use nvme_plus.Base.{
  ℕ, suc, ◌+◌, ◌%◌, ◌≤◌, ◌<◌, ◌≡◌, ◌↔◌, ap, sym, ◌∙◌, arith, true, ◌==◌, ==_iff, if◌then◌else◌,
  refl,
}
use nvme_plus.Base.Words.{◌+u◌}
use nvme_plus.Topology.{
  DevInfo, Fits, cqid_to_kth_sqid, get_cq_nr_nsqs, get_kth_cqid, cqid_to_index, get_cqid,
  get_tag_idx, has_cq,
}
use nvme_plus.Topology.Blocks.{first, width, first-suc, first-end, block_of, average_pos}
use nvme_plus.Topology.Code.{kth_lem, nr_nsqs_lem, index_lem, get_cqid_lem, kth_sqid_lem}

module _ {m c : ℕ} (f : Fits m c) where
  width_pos : (k : ℕ) → 0 < width m c k
  width_pos k = ground (arith, average_pos f)

  -- The NCQ that serves an NQ, as the code computes it.
  pub record Owner (q : ℕ) : Type 0 where
    pub index : ℕ
    pub place : ℕ
    pub is_index : index < c
    pub in_block : place < width m c index
    pub at : q ≡ first m c index + place
    pub cqid : get_cqid q m c ≡ first m c index

  pub owner : (q : ℕ) → 1 ≤ q → q ≤ m → Owner q
  owner q pos inside =
      let (k, j, below, within, e) = block_of f c q pos (omega (arith, first-end f)) in
      record {
        index = k;
        place = j;
        is_index = below;
        in_block = within;
        at = e;
        cqid = ap (λ n. get_cqid n m c) e ∙ get_cqid_lem f k j below within;
      }

  get_cqid-first : (k : ℕ) → k < c → get_cqid (first m c k) m c ≡ first m c k
  get_cqid-first k h = rw add-zero at (get_cqid_lem f k 0 h (width_pos k))

  tag_idx_lem :
      {h : ℕ}
      → h < m
      → (o : Owner (h + 1)) → get_tag_idx h (record { nr_cqs = c; max_nqid = m }) ≡ o.index
  unfolding get_tag_idx
  tag_idx_lem {h} p o =
      let id : h +u 1 ≡ h + 1 = omega (arith, f.small) in
      rw (id, o.cqid) (index_lem f o.index o.is_index)

  kth_cqid-index :
      (q : ℕ)
      → 1 ≤ q
      → q ≤ m
      → get_kth_cqid (cqid_to_index (get_cqid q m c) m c) m c ≡ get_cqid q m c
  kth_cqid-index q pos inside =
      let o = owner q pos inside in
      rw (o.cqid, index_lem f o.index o.is_index) (kth_lem f o.index o.is_index)

  -- On a device that has an NCQ, no more NCQs than NQs, and ids in range, the index of the k-th
  -- NCQ is k.
  pub index-kth_cqid : (k : ℕ) → k < c → cqid_to_index (get_kth_cqid k m c) m c ≡ k
  index-kth_cqid k h = rw (kth_lem f k h) (index_lem f k h)

  -- On a device that has an NCQ, no more NCQs than NQs, and ids in range, the first block of NSQs
  -- begins at NQ 1, each next one where the block before it ends, and the last one ends at
  -- max_nqid.
  pub kth_cqid-tiles :
      (k : ℕ)
      → k < c
      → (get_kth_cqid 0 m c ≡ 1)
        × (get_kth_cqid k m c + get_cq_nr_nsqs (get_kth_cqid k m c) m c
            ≡ (if suc k == c then m + 1 else get_kth_cqid (suc k) m c))
  kth_cqid-tiles k h =
      rw (kth_lem f k h, nr_nsqs_lem f k h, kth_lem f 0 f.some_cq)
        (ground (arith, kth_lem f (suc k), first-end f, first-suc m c k))

  -- On a device that has an NCQ, no more NCQs than NQs, and ids in range, every NSQ that an NCQ
  -- counts as attached is mapped back to that NCQ.
  pub get_cqid-kth_sqid :
      (k j : ℕ)
      → k < c
      → get_cqid (cqid_to_kth_sqid (get_kth_cqid k m c) j m c) m c ≡ get_kth_cqid k m c
  get_cqid-kth_sqid k j h =
      rw (kth_lem f k h, kth_sqid_lem f k j h)
        (get_cqid_lem f k (j % width m c k) h (mod-lt j (width_pos k)))

  -- On a device that has an NCQ, no more NCQs than NQs, and ids in range, the NCQ of an NQ has an
  -- id of at least 1 and no higher than the NQ's, counts the NQ among its NSQs, is its own NCQ,
  -- has an index below the number of NCQs, and is found again from that index.
  pub get_cqid-owns :
      (q : ℕ)
      → 1 ≤ q
      → q ≤ m
      → let cqid = get_cqid q m c in
        (1 ≤ cqid)
        × (cqid ≤ q)
        × (q < cqid + get_cq_nr_nsqs cqid m c)
        × (get_cqid cqid m c ≡ cqid)
        × (cqid_to_index cqid m c < c)
        × (get_kth_cqid (cqid_to_index cqid m c) m c ≡ cqid)
  get_cqid-owns q pos inside =
      let o = owner q pos inside in
      let k = o.index in
      rw (o.cqid, nr_nsqs_lem f k o.is_index, get_cqid-first k o.is_index, index_lem f k o.is_index)
        (
          omega arith,
          omega (arith, o.at),
          omega (arith, o.at, o.in_block),
          refl,
          o.is_index,
          kth_lem f k o.is_index,
        )

  -- On a device that has an NCQ, no more NCQs than NQs, and ids in range, two hardware contexts
  -- draw on the same tags exactly when one NCQ serves both, and each tag index is below the number
  -- of NCQs.
  pub tag_idx-shared :
      (g h : ℕ)
      → g < m
      → h < m
      → let info : DevInfo = record { nr_cqs = c; max_nqid = m } in
        (get_tag_idx g info < c)
        × ((get_tag_idx g info ≡ get_tag_idx h info)
            ↔ (get_cqid (g + 1) m c ≡ get_cqid (h + 1) m c))
  tag_idx-shared g h p q =
      let a = owner (g + 1) (omega arith) (omega arith) in
      let b = owner (h + 1) (omega arith) (omega arith) in
      rw (tag_idx_lem p a, tag_idx_lem q b, a.cqid, b.cqid)
        (
          a.is_index,
          (
            ap (first m c),
            λ e.
                sym (index_lem f a.index a.is_index)
                ∙ ap (λ n. cqid_to_index n m c) e
                ∙ index_lem f b.index b.is_index,
          ),
        )

  -- On a device that has an NCQ, no more NCQs than NQs, and ids in range, an NQ has a completion
  -- queue of its own exactly when it is the k-th NCQ for some k.
  pub has_cq_iff :
      (q : ℕ)
      → 1 ≤ q
      → q ≤ m
      → (has_cq q (record { nr_cqs = c; max_nqid = m }) ≡ true)
        ↔ ((k : ℕ) × (k < c) × (get_kth_cqid k m c ≡ q))
  unfolding has_cq
  has_cq_iff q pos inside =
      let o = owner q pos inside in
      (
        λ h. (
          o.index,
          o.is_index,
          kth_lem f o.index o.is_index ∙ sym o.cqid ∙ sym ((==_iff q _).0 h),
        ),
        λ (k, below, e). (==_iff q _).1 (
            sym (
              ap (λ n. get_cqid n m c) (sym e ∙ kth_lem f k below)
              ∙ get_cqid-first k below
              ∙ sym (kth_lem f k below)
              ∙ e)),
      )
