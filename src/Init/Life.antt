-- ===== src/Init/Life.antt =====
-- A regulator's memory from its construction to its release.
use nvme_plus.Base.{
  ℕ, ◌-◌, ◌/◌, ◌≤◌, ◌||◌, ◌≡◌, ◌≢◌, refl, ◌∙◌, Bool, true, false, arith, if_elim, if◌then◌else◌,
}
use nvme_plus.Base.Run.{Run, ok, fault, ◌>>=◌, Ends, Ends-bind, Ends-if}
use nvme_plus.Regulator.{Regulator, Tunables}
use nvme_plus.Topology.{DevInfo, Fits}
use nvme_plus.Profile.{prio_level}
use nvme_plus.Cells.{Cell, null, live, freed, Memory, Supply, Ret, done, invalid, no_memory}
use nvme_plus.Init.{
  init_groups, init_enqs, group_init_err, nq_regulator_alloc_and_init, nq_regulator_free, emptied,
  divides_by_zero, overruns,
}
use nvme_plus.Init.Leaks.{IsUnset}
use nvme_plus.Init.Errors.{Step, Loop, Loops, init_enqs_lem}
use nvme_plus.Init.Release.{
  IsGone, IsNew, Grouped, init_groups_lem, group_init_err_lem, release_lem,
}

abbrev pub Result : Type 0
Result = Ret × Regulator × Memory

-- A construction that went through can be released, with nothing left in use; after any other result
-- nothing is in use.
abbrev pub IsBalanced : ℕ → Result → Type 0
IsBalanced n (done, r, m) = Ends IsGone (nq_regulator_free n m)
IsBalanced n (invalid, r, m) = IsGone m
IsBalanced n (no_memory, r, m) = IsGone m

-- The part of the construction once the maps and the eNQs are allocated
abbrev tail : Tunables → Supply → ℕ → Step → Run Result
tail t s n (grouped, r, m) =
    if grouped
    then (init_enqs t s n r m >>= λ (made, r', m').
        if made
        then ok (done, r', m')
        else (group_init_err m' >>= λ undone. ok (no_memory, r', undone)))
    else (group_init_err m >>= λ undone. ok (no_memory, r, undone))

tail_lem :
    (t : Tunables) (s : Supply) (n : ℕ) (mem : Memory) (o : Step)
    → mem.nsq_maps ≡ live
    → mem.enqs ≡ live
    → ((i : ℕ) → IsUnset mem i)
    → Grouped mem o
    → Ends (IsBalanced n) (tail t s n o)
tail_lem t s n mem (false, r, m) maps enqs unset (heaps, same, maps', enqs') =
    Ends-bind IsGone (IsBalanced n) (group_init_err m) _
      (group_init_err_lem m heaps (maps' ∙ maps) (enqs' ∙ enqs)
        (λ i. ground (arith, same i, unset i)))
      (λ undone gone. gone)
tail_lem t s n mem (true, r, m) maps enqs unset (heaps, same, maps', enqs') =
    Ends-bind (Loops n m) (IsBalanced n) (init_enqs t s n r m) _
      (init_enqs_lem t s n r m (λ i. ground (arith, same i, unset i)))
      (λ (made, r', m') h. settled made r' m' h)
  where
    settled :
        (made : Bool) (r' : Regulator) (m' : Memory)
        → Loop n m made m'
        → Ends (IsBalanced n) (
            if made
            then ok (done, r', m')
            else (group_init_err m' >>= λ undone. ok (no_memory, r', undone)))
    settled true r' m' ((sound, above), (maps2, enqs2, heaps2)) =
        release_lem n m' (maps2 ∙ maps' ∙ maps, enqs2 ∙ enqs' ∙ enqs, rw heaps2 heaps, sound, above)
    settled false r' m' (dead, (maps2, enqs2, heaps2)) =
        Ends-bind IsGone (IsBalanced n) (group_init_err m') _
          (group_init_err_lem m' (rw heaps2 heaps) (maps2 ∙ maps' ∙ maps) (enqs2 ∙ enqs' ∙ enqs)
            dead)
          (λ undone gone. gone)

-- For a device of at least one NCQ and at most as many as NQs, on a machine with a CPU for each NCQ of a
-- group: whichever allocations succeed, the construction of a regulator ends, and frees nothing twice. If it
-- reports success, the release ends too and leaves nothing in use; on every error, nothing that it
-- allocated is left in use.
pub nq_regulator_alloc_and_init-IsBalanced :
    (nr_cpu_ids : ℕ) (t : Tunables) (s : Supply) (has_set : Bool) (info : DevInfo) (r : Regulator)
    (mem : Memory)
    → Fits info.max_nqid info.nr_cqs
    → info.nr_cqs - info.nr_cqs / 2 ≤ nr_cpu_ids
    → IsNew mem
    → Ends
        (IsBalanced info.max_nqid)
        (nq_regulator_alloc_and_init nr_cpu_ids t s has_set info r mem)
nq_regulator_alloc_and_init-IsBalanced nr_cpu_ids t s has_set info r mem f room
      (maps, enqs, heaps, unset) =
    unfold nq_regulator_alloc_and_init in
    let none_live : (c : Cell) → c ≡ null → c ≢ live = λ c e. ground arith in
    let gone : IsGone mem = (
      none_live mem.nsq_maps maps,
      none_live mem.enqs enqs,
      λ p h. none_live (mem.group_heaps p) (heaps p),
      λ i. ground (arith, unset i),
    ) in
    let r' = emptied (record r { blex_info = info }) in
    let mapped = record mem { nsq_maps = live } in
    let start = record mapped { enqs = live } in
    if_elim (Ends (IsBalanced info.max_nqid)) has_set
      (λ set.
        if_elim (Ends (IsBalanced info.max_nqid)) s.nsq_maps
          (λ m1.
            if_elim (Ends (IsBalanced info.max_nqid)) s.enqs
              (λ m2.
                Ends-if (IsBalanced info.max_nqid)
                  (divides_by_zero info || overruns nr_cpu_ids s info) fault _
                  (λ e. absurd (ground (arith, e, f.some_cq, f.enough, room)))
                  (λ e.
                    tail_lem t s info.max_nqid start (init_groups t s prio_level r' start) refl refl
                      unset
                      (init_groups_lem t s prio_level r' start (λ q e. ground (arith, heaps q)))))
              (λ no_enqs. (kfree_freed, gone.1, gone.2, gone.3)))
          (λ no_maps. gone))
      (λ unset_set. gone)
  where
    kfree_freed : freed ≢ live
    kfree_freed e = grind arith
