-- ===== src/PrioArray/Frame.antt =====
-- What a call on one priority array leaves alone: every other array, the maps, and the fields of the
-- NQs and groups that no update writes.
use nvme_plus.Base.{ℕ, ◌≡◌, ◌≢◌, refl, ◌∙◌, sym, ap, Bool, arith, ◌==◌, if_elim}
use nvme_plus.Base.Int.{ℤ, pos, ◌-ℤ◌, leb_ℤ}
use nvme_plus.Regulator.{Regulator, Tunables, PrioArray, NqType, nsq, ncq, ExposedNq}
use nvme_plus.PrioArray.{
  ArrayRef, of_group, of_ncq, read_arr, write_arr, clear_top, update_locked, update_priority_array,
}
use nvme_plus.PrioArray.Update.{
  cleared, left, written, top_changed, top_merit, new_arr, update_locked_cases,
}

-- The fields of an eNQ that stand after any update.
pub record SameNq (d e : ExposedNq) : Type 0 where
  pub nqid : d.nqid ≡ e.nqid
  pub prio : d.prio ≡ e.prio
  pub mask : d.ensq.claimed_core_cpumask ≡ e.ensq.claimed_core_cpumask
  pub has_encq : d.has_encq ≡ e.has_encq
  pub attached : d.encq.nr_attached_nsqs ≡ e.encq.nr_attached_nsqs
  pub qdepth : d.qdepth ≡ e.qdepth

pub record Frame (ref : ArrayRef) (q r : Regulator) : Type 0 where
  pub maps : q.nsq_maps ≡ r.nsq_maps
  pub info : q.blex_info ≡ r.blex_info
  pub attach : (p : ℕ) → (q.nq_groups p).nr_attach_nsqs ≡ (r.nq_groups p).nr_attach_nsqs
  pub nqs : (j : ℕ) → SameNq (q.enqs j) (r.enqs j)
  pub arrays : (ref' : ArrayRef) → ref' ≢ ref → read_arr q ref' ≡ read_arr r ref'

SameNq-refl : (e : ExposedNq) → SameNq e e
SameNq-refl e = record {
  nqid = refl;
  prio = refl;
  mask = refl;
  has_encq = refl;
  attached = refl;
  qdepth = refl;
}

Frame-trans : {ref : ArrayRef} {p q r : Regulator} → Frame ref p q → Frame ref q r → Frame ref p r
Frame-trans f g = record {
  maps = f.maps ∙ g.maps;
  info = f.info ∙ g.info;
  attach = λ p. f.attach p ∙ g.attach p;
  nqs = λ j. record {
    nqid = (f.nqs j).nqid ∙ (g.nqs j).nqid;
    prio = (f.nqs j).prio ∙ (g.nqs j).prio;
    mask = (f.nqs j).mask ∙ (g.nqs j).mask;
    has_encq = (f.nqs j).has_encq ∙ (g.nqs j).has_encq;
    attached = (f.nqs j).attached ∙ (g.nqs j).attached;
    qdepth = (f.nqs j).qdepth ∙ (g.nqs j).qdepth;
  };
  arrays = λ ref' n. f.arrays ref' n ∙ g.arrays ref' n;
}

write-SameNq :
    (r : Regulator) (ref : ArrayRef) (a : PrioArray) (j : ℕ)
    → SameNq ((write_arr r ref a).enqs j) (r.enqs j)
write-SameNq r (of_group p) a j = SameNq-refl (r.enqs j)
write-SameNq r (of_ncq i) a j = record {
  nqid = ground arith;
  prio = ground arith;
  mask = ground arith;
  has_encq = ground arith;
  attached = ground arith;
  qdepth = ground arith;
}

write-arrays :
    (r : Regulator) (ref : ArrayRef) (a : PrioArray) (ref' : ArrayRef)
    → ref' ≢ ref
    → read_arr (write_arr r ref a) ref' ≡ read_arr r ref'
write-arrays r (of_group p) a (of_group q) n =
    ground (arith, λ (e : p ≡ q). n (ap of_group (sym e)))
write-arrays r (of_group p) a (of_ncq q) n = refl
write-arrays r (of_ncq p) a (of_group q) n = refl
write-arrays r (of_ncq p) a (of_ncq q) n = ground (arith, λ (e : p ≡ q). n (ap of_ncq (sym e)))

write-Frame : (r : Regulator) (ref : ArrayRef) (a : PrioArray) → Frame ref (write_arr r ref a) r
write-Frame r (of_group p) a = record {
  maps = refl;
  info = refl;
  attach = λ q. ground arith;
  nqs = write-SameNq r (of_group p) a;
  arrays = write-arrays r (of_group p) a;
}
write-Frame r (of_ncq i) a = record {
  maps = refl;
  info = refl;
  attach = λ p. refl;
  nqs = write-SameNq r (of_ncq i) a;
  arrays = write-arrays r (of_ncq i) a;
}

clear_top-arr :
    (type : NqType) (e : ExposedNq) (m : ℤ) → (clear_top type e m).encq.prio_arr ≡ e.encq.prio_arr
unfolding clear_top
clear_top-arr ncq e m = refl
clear_top-arr nsq e m = refl

clear_top-SameNq : (type : NqType) (e : ExposedNq) (m : ℤ) → SameNq (clear_top type e m) e
unfolding clear_top
clear_top-SameNq ncq e m = record {
  nqid = refl;
  prio = refl;
  mask = refl;
  has_encq = refl;
  attached = refl;
  qdepth = refl;
}
clear_top-SameNq nsq e m = record {
  nqid = refl;
  prio = refl;
  mask = refl;
  has_encq = refl;
  attached = refl;
  qdepth = refl;
}

clear-Frame :
    (ref : ArrayRef) (r : Regulator) (i : ℕ) (type : NqType) (m : ℤ)
    → Frame ref (cleared r i type m) r
clear-Frame ref r i type m = record {
  maps = refl;
  info = refl;
  attach = λ p. refl;
  nqs = λ j.
      if_elim {x = clear_top type (r.enqs i) m} {y = r.enqs j} (λ e. SameNq e (r.enqs j)) (i == j)
        (λ h. (let e : i ≡ j = ground arith in rw e (clear_top-SameNq type (r.enqs j) m)))
        (λ h. SameNq-refl (r.enqs j));
  arrays = λ ref' n. arrays_same ref';
}
  where
    arrays_same : (ref' : ArrayRef) → read_arr (cleared r i type m) ref' ≡ read_arr r ref'
    arrays_same (of_group p) = refl
    arrays_same (of_ncq j) =
        if_elim {x = clear_top type (r.enqs i) m} {y = r.enqs j}
          (λ e. e.encq.prio_arr ≡ (r.enqs j).encq.prio_arr) (i == j)
          (λ h. (let e : i ≡ j = ground arith in rw e (clear_top-arr type (r.enqs j) m)))
          (λ h. refl)

locked-Frame :
    (t : Tunables) (nr_cpus : ℕ) (ref : ArrayRef) (force : ℤ) (type : NqType) (r : Regulator)
    → Frame ref (update_locked t nr_cpus ref force type r) r
locked-Frame t n ref force type r = rw (update_locked_cases t n ref force type r) (
    if_elim {x = left t n ref force type r} {y = written t n ref force type r} (λ q. Frame ref q r)
      (top_changed t n ref force type r)
      (λ changed.
        Frame-trans
          (clear-Frame ref (written t n ref force type r) (read_arr r ref).top_nq type
            (top_merit t n ref force type r))
          (write-Frame r ref (new_arr t n ref force type r)))
      (λ same. write-Frame r ref (new_arr t n ref force type r)))

pub update-Frame :
    (t : Tunables) (nr_cpus : ℕ) (free : ArrayRef → Bool) (ref : ArrayRef) (mru force : ℤ)
    (type : NqType) (r : Regulator)
    → Frame ref (update_priority_array t nr_cpus free ref mru force type r) r
update-Frame t n free ref mru force type r =
    unfold update_priority_array in
    let a = read_arr r ref in
    let counted = write_arr r ref (record a { mru = a.mru -ℤ mru }) in
    let start = write-Frame r ref (record a { mru = a.mru -ℤ mru }) in
    if_elim (λ q. Frame ref q r) (leb_ℤ (a.mru -ℤ mru) (pos 0))
      (λ out.
        if_elim (λ q. Frame ref q r) (free ref)
          (λ held. Frame-trans (locked-Frame t n ref force type counted) start)
          (λ contended. start))
      (λ more. start)
