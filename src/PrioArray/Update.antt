-- ===== src/PrioArray/Update.antt =====
-- One update of a priority array: what it keeps, on every branch, and what it moves.
use mathlib.Core.List.{Perm, Mem, Nodup}
use mathlib.Core.List.Perm
use nvme_plus.Base.{
  ℕ, suc, ◌-◌, ◌<◌, ◌≡◌, refl, ◌∙◌, Bool, not, List, ◌==◌, if◌then◌else◌, arith, length, get_or,
  mem-get_or, if_elim,
}
use nvme_plus.Base.Int.{ℤ, ◌+ℤ◌}
use nvme_plus.Regulator.{Regulator, Tunables, PrioArray, NqType, nsq, ncq, set_enq}
use nvme_plus.PrioArray.{
  ArrayRef, of_group, of_ncq, read_arr, write_arr, calc_sched_merit, sift, merit_inf, is_inf,
  update_locked, clear_top,
}
use nvme_plus.PrioArray.Sift.{sift-perm, length-sift}

-- A priority array holds distinct ids of the NQs that it names, and its top is the first of them.
pub record IsPrioArray (r : Regulator) (a : PrioArray) : Type 0 where
  pub size : length a.bin_heap ≡ a.nq_count
  pub some_nq : 0 < a.nq_count
  pub top : suc a.top_nq ≡ get_or a.bin_heap 0 0
  pub ids : (x : ℕ) → Mem x a.bin_heap → (0 < x) × ((r.enqs (x - 1)).nqid ≡ x)
  pub distinct : Nodup a.bin_heap

pub read-write :
    (r : Regulator) (ref : ArrayRef) (a : PrioArray) → read_arr (write_arr r ref a) ref ≡ a
read-write r (of_group p) a = ground arith
read-write r (of_ncq i) a = ground arith

pub nqid-write :
    (r : Regulator) (ref : ArrayRef) (a : PrioArray) (j : ℕ)
    → ((write_arr r ref a).enqs j).nqid ≡ (r.enqs j).nqid
nqid-write r (of_group p) a j = refl
nqid-write r (of_ncq i) a j = ground arith

-- A top whose statistics are cleared keeps its id and its arrays.
abbrev pub cleared : Regulator → ℕ → NqType → ℤ → Regulator
cleared r i type merit = set_enq r i (clear_top type (r.enqs i) merit)

read-cleared :
    (r : Regulator) (ref : ArrayRef) (i : ℕ) (type : NqType) (merit : ℤ)
    → read_arr (cleared r i type merit) ref ≡ read_arr r ref
unfolding clear_top
read-cleared r (of_group p) i type merit = refl
read-cleared r (of_ncq j) i ncq merit = ground arith
read-cleared r (of_ncq j) i nsq merit = ground arith

nqid-cleared :
    (r : Regulator) (i : ℕ) (type : NqType) (merit : ℤ) (j : ℕ)
    → ((cleared r i type merit).enqs j).nqid ≡ (r.enqs j).nqid
unfolding clear_top
nqid-cleared r i ncq merit j = ground arith
nqid-cleared r i nsq merit j = ground arith

module _ (t : Tunables) (nr_cpus : ℕ) (ref : ArrayRef) (force : ℤ) (type : NqType)
    (r : Regulator) where
  abbrev pub merit_of : ℕ → ℤ
  merit_of nqid = calc_sched_merit t nr_cpus type (r.enqs (nqid - 1))

  abbrev pub used_of : ℤ
  used_of =
      if is_inf force
      then merit_inf
      else calc_sched_merit t nr_cpus type (r.enqs (read_arr r ref).top_nq) +ℤ force

  abbrev pub new_heap : List ℕ
  new_heap = let a = read_arr r ref in sift a.nq_count merit_of used_of a.nq_count a.bin_heap 0

  -- The array after the update.
  abbrev pub new_arr : PrioArray
  new_arr =
      let a = read_arr r ref in
      record a {
        bin_heap = new_heap;
        top_nq =
            if not (get_or new_heap 0 0 == (r.enqs a.top_nq).nqid)
            then get_or new_heap 0 0 - 1
            else a.top_nq;
        mru = t.prio_arr_mru;
      }

  abbrev pub written : Regulator
  written = write_arr r ref new_arr

  abbrev pub top_merit : ℤ
  top_merit = calc_sched_merit t nr_cpus type (r.enqs (read_arr r ref).top_nq)

  abbrev pub top_changed : Bool
  top_changed = not (get_or new_heap 0 0 == (r.enqs (read_arr r ref).top_nq).nqid)

  -- What the update leaves if the top changes.
  abbrev pub left : Regulator
  left = cleared written (read_arr r ref).top_nq type top_merit

  pub update_locked_cases :
      update_locked t nr_cpus ref force type r ≡ (if top_changed then left else written)
  unfolding update_locked
  update_locked_cases = refl

  pub nqid-update_locked :
      (j : ℕ) → ((update_locked t nr_cpus ref force type r).enqs j).nqid ≡ (r.enqs j).nqid
  nqid-update_locked j = rw update_locked_cases (
      if_elim {x = left} {y = written} (λ q. (q.enqs j).nqid ≡ (r.enqs j).nqid) top_changed
        (λ changed.
          nqid-cleared written (read_arr r ref).top_nq type top_merit j
          ∙ nqid-write r ref new_arr j)
        (λ same. nqid-write r ref new_arr j))

  pub read-update_locked : read_arr (update_locked t nr_cpus ref force type r) ref ≡ new_arr
  read-update_locked = rw update_locked_cases (
      if_elim {x = left} {y = written} (λ q. read_arr q ref ≡ new_arr) top_changed
        (λ changed.
          read-cleared written ref (read_arr r ref).top_nq type top_merit
          ∙ read-write r ref new_arr)
        (λ same. read-write r ref new_arr))

  module _ (v : IsPrioArray r (read_arr r ref)) where
    pub new_heap-perm : Perm new_heap (read_arr r ref).bin_heap
    new_heap-perm = sift-perm merit_of used_of _ _ _ 0 v.size v.some_nq

    pub old_first : (r.enqs (read_arr r ref).top_nq).nqid ≡ get_or (read_arr r ref).bin_heap 0 0
    old_first =
        let m = mem-get_or 0 (read_arr r ref).bin_heap 0 (omega (arith, v.size, v.some_nq)) in
        let at : get_or (read_arr r ref).bin_heap 0 0 - 1 ≡ (read_arr r ref).top_nq =
          omega (arith, v.top) in
        rw at at (v.ids _ m).1

    new_ids : (x : ℕ) → Mem x new_heap → (0 < x) × ((r.enqs (x - 1)).nqid ≡ x)
    new_ids x m = v.ids x ((Perm.mem_iff new_heap-perm).0 m)

    first_pos : 0 < get_or new_heap 0 0
    first_pos =
        (new_ids _ (
          mem-get_or 0 new_heap 0 (
            omega (
              arith,
              v.some_nq,
              v.size,
              length-sift merit_of used_of (read_arr r ref).nq_count (read_arr r ref).nq_count
                  (read_arr r ref).bin_heap 0,
            )))).0

    pub update_locked-IsPrioArray :
        IsPrioArray
          (update_locked t nr_cpus ref force type r)
          (read_arr (update_locked t nr_cpus ref force type r) ref)
    update_locked-IsPrioArray = rw read-update_locked record {
      size = length-sift _ _ _ _ _ 0 ∙ v.size;
      some_nq = v.some_nq;
      top = ground (arith, old_first, v.top, first_pos);
      ids = λ x m. ((new_ids x m).0, nqid-update_locked (x - 1) ∙ (new_ids x m).1);
      distinct = Perm.nodup (Perm.symm new_heap-perm) v.distinct;
    }
