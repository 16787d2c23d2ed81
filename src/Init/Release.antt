-- ===== src/Init/Release.antt =====
-- What the whole construction leaves allocated, and that the release gives it back.
use nvme_plus.Base.{ℕ, zero, suc, ◌≤◌, ◌<◌, ◌≡◌, ◌≢◌, refl, ◌∙◌, true, arith, ltb, if_elim}
use nvme_plus.Base.Run.{Ends, Ends-bind, Ends-map}
use nvme_plus.Regulator.{Regulator, Tunables}
use nvme_plus.Profile.{prio_level}
use nvme_plus.Cells.{Cell, null, live, freed, kfree, Memory, Supply}
use nvme_plus.Setup.{nq_group_init}
use nvme_plus.Init.{free_enqs, free_groups, init_groups, group_init_err, nq_regulator_free}
use nvme_plus.Init.Leaks.{IsSound, IsDead, IsUnset, SameCells, free_enqs_lem}
use nvme_plus.Init.Errors.{Step}

-- Nothing is in use.
abbrev pub IsGone : Memory → Type 0
IsGone m =
    (m.nsq_maps ≢ live)
    × (m.enqs ≢ live)
    × ((p : ℕ) → p < prio_level → m.group_heaps p ≢ live)
    × ((i : ℕ) → IsDead m i)

-- No pointer is set.
abbrev pub IsNew : Memory → Type 0
IsNew m =
    (m.nsq_maps ≡ null)
    × (m.enqs ≡ null)
    × ((p : ℕ) → m.group_heaps p ≡ null)
    × ((i : ℕ) → IsUnset m i)

-- The groups' heaps are in use or were never set, and the eNQs' pointers are as before.
abbrev pub Grouped : Memory → Step → Type 0
Grouped mem (made, r, m) =
    ((p : ℕ) → m.group_heaps p ≢ freed)
    × ((i : ℕ) → SameCells m mem i)
    × (m.nsq_maps ≡ mem.nsq_maps)
    × (m.enqs ≡ mem.enqs)

nq_group_init_lem :
    (t : Tunables) (s : Supply) (p : ℕ) (r : Regulator) (mem : Memory)
    → ((q : ℕ) → mem.group_heaps q ≢ freed)
    → Grouped mem (nq_group_init t s p r mem)
unfolding nq_group_init
nq_group_init_lem t s p r mem h =
    if_elim (λ (o : Step). Grouped mem o) (s.group_heap p)
      (λ made. ((λ q. ground (arith, h q)), (λ i. (refl, refl, refl)), refl, refl))
      (λ refused. (h, (λ i. (refl, refl, refl)), refl, refl))

pub init_groups_lem :
    (t : Tunables) (s : Supply) (p : ℕ) (r : Regulator) (mem : Memory)
    → ((q : ℕ) → mem.group_heaps q ≢ freed)
    → Grouped mem (init_groups t s p r mem)
unfolding init_groups
init_groups_lem t s zero r mem h = (h, (λ i. (refl, refl, refl)), refl, refl)
init_groups_lem t s (suc p) r mem h =
    let (heaps, same, maps, enqs) = init_groups_lem t s p r mem h in
    let before = init_groups t s p r mem in
    let (heaps', same', maps', enqs') = nq_group_init_lem t s p before.1 before.2 heaps in
    if_elim (λ (o : Step). Grouped mem o) before.0
      (λ made. (
        heaps',
        (λ i. ((same' i).0 ∙ (same i).0, (same' i).1 ∙ (same i).1, (same' i).2 ∙ (same i).2)),
        maps' ∙ maps,
        enqs' ∙ enqs,
      ))
      (λ refused. (heaps, same, maps, enqs))

pub kfree_lem : (c : Cell) → c ≢ freed → Ends (λ c'. c' ≢ live) (kfree c)
kfree_lem null h = λ e. grind arith
kfree_lem live h = λ e. grind arith
kfree_lem freed h = absurd (h refl)

-- Releasing the groups' heaps ends, and leaves none of them in use.
free_groups_lem :
    (p : ℕ) (mem : Memory)
    → ((q : ℕ) → mem.group_heaps q ≢ freed)
    → Ends
        (λ m.
          ((q : ℕ) → q < p → m.group_heaps q ≢ live)
          × ((q : ℕ) → p ≤ q → m.group_heaps q ≡ mem.group_heaps q)
          × ((i : ℕ) → SameCells m mem i)
          × (m.nsq_maps ≡ mem.nsq_maps)
          × (m.enqs ≡ mem.enqs))
        (free_groups p mem)
unfolding free_groups
free_groups_lem zero mem h =
    ((λ q b. absurd (omega arith)), (λ q b. refl), (λ i. (refl, refl, refl)), refl, refl)
free_groups_lem (suc p) mem h =
    Ends-bind _ _ (free_groups p mem) _ (free_groups_lem p mem h)
      (λ m (gone, same, cells, maps, enqs).
        Ends-bind (λ c. c ≢ live) _ (kfree (m.group_heaps p)) _
          (kfree_lem (m.group_heaps p) (rw (same p (omega arith)) (h p)))
          (λ heap over. (
            λ q b. ground (arith, gone q, over),
            λ q b. ground (arith, same q),
            cells,
            maps,
            enqs,
          )))

pub group_init_err_lem :
    (m : Memory)
    → ((q : ℕ) → m.group_heaps q ≢ freed)
    → m.nsq_maps ≡ live
    → m.enqs ≡ live
    → ((i : ℕ) → IsDead m i)
    → Ends IsGone (group_init_err m)
group_init_err_lem m h maps enqs dead =
    unfold group_init_err in
    Ends-bind _ IsGone (free_groups prio_level m) _ (free_groups_lem prio_level m h)
      (λ m' (gone, same, cells, maps', enqs').
        Ends-bind (λ c. c ≢ live) IsGone (kfree m'.enqs) _
          (kfree_lem m'.enqs (rw (enqs', enqs) (λ e. ground arith)))
          (λ c over.
            Ends-bind (λ c. c ≢ live) IsGone (kfree m'.nsq_maps) _
              (kfree_lem m'.nsq_maps (rw (maps', maps) (λ e. ground arith)))
              (λ c' over'. (over', over, gone, λ i. ground (arith, cells i, dead i)))))

-- A regulator as a successful construction leaves its pointers
abbrev pub IsUp : ℕ → Memory → Type 0
IsUp n m =
    (m.nsq_maps ≡ live)
    × (m.enqs ≡ live)
    × ((q : ℕ) → m.group_heaps q ≢ freed)
    × ((i : ℕ) → i < n → IsSound m i)
    × ((j : ℕ) → n ≤ j → IsUnset m j)

-- Releasing a regulator that was set up ends, so nothing is freed twice, and leaves nothing in use.
pub release_lem : (n : ℕ) (m : Memory) → IsUp n m → Ends IsGone (nq_regulator_free n m)
release_lem n m (maps, enqs, heaps, sound, unset) =
    unfold nq_regulator_free in
    Ends-bind (λ c. c ≢ live) IsGone (kfree m.nsq_maps) _
      (kfree_lem m.nsq_maps (rw maps (λ e. ground arith)))
      (λ c over.
        Ends-bind _ IsGone (free_enqs n (record m { nsq_maps = c })) _
          (free_enqs_lem n (record m { nsq_maps = c }) sound)
          (λ m' (dead, same, (maps', enqs', heaps')).
            Ends-bind (λ c. c ≢ live) IsGone (kfree m'.enqs) _
              (kfree_lem m'.enqs (rw (enqs', enqs) (λ e. ground arith)))
              (λ c' over'.
                Ends-map _ IsGone (free_groups prio_level (record m' { enqs = c' }))
                  (free_groups_lem prio_level (record m' { enqs = c' }) (rw heaps' heaps))
                  (λ m'' (gone, kept, cells, maps'', enqs''). (
                    rw (maps'', maps') over,
                    rw enqs'' over',
                    gone,
                    λ i.
                        if_elim {x = true} {y = true} (λ b. IsDead m'' i) (ltb i n)
                          (λ below.
                            (let b : i < n = ground arith in ground (arith, cells i, dead i b)))
                          (λ above.
                            (let b : n ≤ i = ground arith in
                              ground (arith, cells i, same i b, unset i b))),
                  )))))
