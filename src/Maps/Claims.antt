-- ===== src/Maps/Claims.antt =====
-- The maps as what they stand for: how many tasks of each CPU claim each NSQ.
use mathlib.Core.Logic.{◌≢◌}
use nvme_plus.Base.{
  ℕ, zero, suc, ◌+◌, ◌-◌, ◌^◌, ◌≤◌, ◌<◌, ◌≡◌, refl, Bool, true, false, Option, none, some, arith,
  ◌==◌, ◌&&◌, if◌then◌else◌,
}
use nvme_plus.Base.Int.{pos, add_pos, sub_pos}
use nvme_plus.Regulator.{Regulator, update}
use nvme_plus.Maps.{set_maps, clear_maps}

abbrev pub amount : Option ℕ → ℕ
amount none = 0
amount (some v) = v

abbrev pub present : Option ℕ → Bool
present none = false
present (some v) = true

abbrev flag : Option ℕ → ℕ
flag none = 0
flag (some v) = 1

-- How many tasks of a CPU claim the eNQ at an index.
abbrev pub users : Regulator → ℕ → ℕ → ℕ
users r cpu i = amount ((r.nsq_maps cpu).xa_nsq_map (suc i))

-- How many of the NQ ids 1 .. n have an entry.
unfoldable pub entries : ℕ → (ℕ → Option ℕ) → ℕ
entries zero xa = 0
entries (suc n) xa = flag (xa (suc n)) + entries n xa

-- The two views agree on the `n` NQs of the device.
pub record IsConsistent (n : ℕ) (r : Regulator) : Type 0 where
  pub ids : (i : ℕ) → i < n → (r.enqs i).nqid ≡ suc i
  pub counted : (cpu i : ℕ) → i < n → (r.nsq_maps cpu).xa_nsq_map (suc i) ≢ some 0
  pub masked :
      (cpu i : ℕ)
      → i < n
      → (r.enqs i).ensq.claimed_core_cpumask cpu ≡ present ((r.nsq_maps cpu).xa_nsq_map (suc i))
  pub in_use : (cpu : ℕ) → (r.nsq_maps cpu).nr_in_use ≡ pos (entries n (r.nsq_maps cpu).xa_nsq_map)

entries-le : (n : ℕ) (xa : ℕ → Option ℕ) → entries n xa ≤ n
unfolding entries
entries-le zero xa = omega arith
entries-le (suc n) xa = ground (arith, entries-le n xa)

entries-update_above :
    (n i : ℕ) (xa : ℕ → Option ℕ) (v : Option ℕ)
    → n ≤ i
    → entries n (update xa (suc i) v) ≡ entries n xa
unfolding entries
entries-update_above zero i xa v h = refl
entries-update_above (suc n) i xa v h = ground (arith, entries-update_above n i xa v)

entries-update :
    (n i : ℕ) (xa : ℕ → Option ℕ) (v : Option ℕ)
    → i < n
    → entries n (update xa (suc i) v) + flag (xa (suc i)) ≡ entries n xa + flag v
unfolding entries
entries-update zero i xa v h = absurd (omega arith)
entries-update (suc n) i xa v h =
    ground (arith, entries-update n i xa v, entries-update_above n i xa v)

-- What a call leaves, at one place of the maps.
module _ {n : ℕ} {r : Regulator} (ok : IsConsistent n r) (small : n < 2 ^ 31) (cpu i : ℕ)
    (h : i < n) where
  abbrev xa : ℕ → Option ℕ
  xa = (r.nsq_maps cpu).xa_nsq_map

  set_ids : (j : ℕ) → j < n → ((set_maps r cpu i).enqs j).nqid ≡ suc j
  unfolding set_maps
  set_ids j p = ground (arith, ok.ids j p, ok.ids i h)

  set_counted :
      (cpu' j : ℕ) → j < n → ((set_maps r cpu i).nsq_maps cpu').xa_nsq_map (suc j) ≢ some 0
  unfolding set_maps
  set_counted cpu' j p = ground (arith, ok.counted cpu' j p, ok.ids i h)

  set_masked :
      (cpu' j : ℕ)
      → j < n
      → ((set_maps r cpu i).enqs j).ensq.claimed_core_cpumask cpu'
        ≡ present (((set_maps r cpu i).nsq_maps cpu').xa_nsq_map (suc j))
  unfolding set_maps
  set_masked cpu' j p = ground (arith, ok.masked cpu' j p, ok.ids i h)

  set_in_use :
      (cpu' : ℕ)
      → ((set_maps r cpu i).nsq_maps cpu').nr_in_use
        ≡ pos (entries n ((set_maps r cpu i).nsq_maps cpu').xa_nsq_map)
  unfolding set_maps
  set_in_use cpu' = ground (
    arith,
    ok.in_use cpu',
    ok.in_use cpu,
    ok.ids i h,
    entries-update n i xa (some 1) h,
    entries-le n (update xa (suc i) (some 1)),
    entries-update n i xa (some (amount (xa (suc i)) + 1)) h,
    add_pos (entries n xa) 1,
  )

  pub set_users :
      (cpu' j : ℕ)
      → j < n
      → users (set_maps r cpu i) cpu' j
        ≡ (if cpu == cpu' && i == j then users r cpu' j + 1 else users r cpu' j)
  unfolding set_maps
  set_users cpu' j p = ground (arith, ok.ids i h)

  clear_ids : (j : ℕ) → j < n → ((clear_maps r cpu i).enqs j).nqid ≡ suc j
  unfolding clear_maps
  clear_ids j p = ground (arith, ok.ids j p, ok.ids i h)

  clear_counted :
      (cpu' j : ℕ) → j < n → ((clear_maps r cpu i).nsq_maps cpu').xa_nsq_map (suc j) ≢ some 0
  unfolding clear_maps
  clear_counted cpu' j p = ground (arith, ok.counted cpu' j p, ok.ids i h)

  clear_masked :
      (cpu' j : ℕ)
      → j < n
      → ((clear_maps r cpu i).enqs j).ensq.claimed_core_cpumask cpu'
        ≡ present (((clear_maps r cpu i).nsq_maps cpu').xa_nsq_map (suc j))
  unfolding clear_maps
  clear_masked cpu' j p = ground (arith, ok.masked cpu' j p, ok.ids i h)

  clear_in_use :
      (cpu' : ℕ)
      → ((clear_maps r cpu i).nsq_maps cpu').nr_in_use
        ≡ pos (entries n ((clear_maps r cpu i).nsq_maps cpu').xa_nsq_map)
  unfolding clear_maps
  clear_in_use cpu' = ground (
    arith,
    ok.in_use cpu',
    ok.in_use cpu,
    ok.ids i h,
    entries-update n i xa none h,
    entries-le n xa,
    entries-update n i xa (some (amount (xa (suc i)) - 1)) h,
    sub_pos (entries n xa) 1,
  )

  pub clear_users :
      (cpu' j : ℕ)
      → j < n
      → users (clear_maps r cpu i) cpu' j
        ≡ (if cpu == cpu' && i == j then users r cpu' j - 1 else users r cpu' j)
  unfolding clear_maps
  clear_users cpu' j p = ground (arith, ok.ids i h)

  pub set_maps-IsConsistent : IsConsistent n (set_maps r cpu i)
  set_maps-IsConsistent = record {
    ids = set_ids;
    counted = set_counted;
    masked = set_masked;
    in_use = set_in_use;
  }

  pub clear_maps-IsConsistent : IsConsistent n (clear_maps r cpu i)
  clear_maps-IsConsistent = record {
    ids = clear_ids;
    counted = clear_counted;
    masked = clear_masked;
    in_use = clear_in_use;
  }
