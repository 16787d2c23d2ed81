-- ===== src/Topology/Tests.antt =====
-- A device of 13 NQs over 5 NCQs: the mappings of daredevil/include/linux/blk-blex.h on it.
use nvme_plus.Base.{◌+◌, ◌<◌, ◌≤◌, ◌≡◌, ◌↔◌, refl, arith, true, [], ◌∷◌}
use nvme_plus.Topology.{
  DevInfo, Fits, min_no_extra_sq_cqid, cqid_to_kth_sqid, get_cq_nr_nsqs, get_kth_cqid,
  cqid_to_index, get_cqid, get_tag_idx, has_cq,
}
use nvme_plus.Topology.Tiling.{get_cqid-owns, tag_idx-shared}

abbrev device : DevInfo
device = record { nr_cqs = 5; max_nqid = 13 }

device-Fits : Fits 13 5
device-Fits = record { some_cq = omega arith; enough = omega arith; small = omega arith }

first_ids :
    get_kth_cqid 0 13 5
      ∷ get_kth_cqid 1 13 5
      ∷ get_kth_cqid 2 13 5
      ∷ get_kth_cqid 3 13 5
      ∷ get_kth_cqid 4 13 5
      ∷ []
    ≡ 1 ∷ 4 ∷ 7 ∷ 10 ∷ 12 ∷ []
unfolding get_kth_cqid
first_ids = refl

sizes : get_cq_nr_nsqs 1 13 5 ∷ get_cq_nr_nsqs 7 13 5 ∷ get_cq_nr_nsqs 10 13 5 ∷ [] ≡ 3 ∷ 3 ∷ 2 ∷ []
unfolding get_cq_nr_nsqs min_no_extra_sq_cqid
sizes = refl

owners :
    get_cqid 6 13 5 ∷ get_cqid 9 13 5 ∷ get_cqid 11 13 5 ∷ get_cqid 13 13 5 ∷ []
    ≡ 4 ∷ 7 ∷ 10 ∷ 12 ∷ []
unfolding get_cqid min_no_extra_sq_cqid
owners = refl

own_tags :
    (get_tag_idx 10 device ≡ 3) × (has_cq 10 device ≡ true) × (cqid_to_kth_sqid 10 3 13 5 ≡ 11)
unfolding get_tag_idx has_cq get_cqid cqid_to_index cqid_to_kth_sqid min_no_extra_sq_cqid
own_tags = (refl, refl, refl)

get_cqid-owns_example :
    let cqid = get_cqid 11 13 5 in
    (1 ≤ cqid)
    × (cqid ≤ 11)
    × (11 < cqid + get_cq_nr_nsqs cqid 13 5)
    × (get_cqid cqid 13 5 ≡ cqid)
    × (cqid_to_index cqid 13 5 < 5)
    × (get_kth_cqid (cqid_to_index cqid 13 5) 13 5 ≡ cqid)
get_cqid-owns_example = get_cqid-owns device-Fits 11 (omega arith) (omega arith)

tag_idx-shared_example :
    (get_tag_idx 9 device < 5)
    × ((get_tag_idx 9 device ≡ get_tag_idx 10 device) ↔ (get_cqid 10 13 5 ≡ get_cqid 11 13 5))
tag_idx-shared_example = tag_idx-shared device-Fits 9 10 (omega arith) (omega arith)
