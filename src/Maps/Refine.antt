-- ===== src/Maps/Refine.antt =====
-- Any sequence of calls on the maps implements a bag of claims.
use nvme_plus.Base.{
  ℕ, ◌+◌, ◌-◌, ◌^◌, ◌<◌, ◌≡◌, refl, ◌∙◌, ap, ◌==◌, ◌&&◌, if◌then◌else◌, List, [], ◌∷◌,
}
use nvme_plus.Regulator.{Regulator, task_update, SchedContext}
use nvme_plus.Maps.{set_maps, clear_maps, sched_update_mappings}
use nvme_plus.Maps.Claims.{
  users, IsConsistent, set_maps-IsConsistent, clear_maps-IsConsistent, set_users, clear_users,
}

-- How many claims each CPU has on each NSQ.
abbrev pub Claims : Type 0
Claims = ℕ → ℕ → ℕ

abbrev pub claim : Claims → ℕ → ℕ → Claims
claim b cpu i cpu' j = if cpu == cpu' && i == j then b cpu' j + 1 else b cpu' j

abbrev pub release : Claims → ℕ → ℕ → Claims
release b cpu i cpu' j = if cpu == cpu' && i == j then b cpu' j - 1 else b cpu' j

-- The calls that tasks make.
pub data Call : Type 0 where
  set_call : ℕ → ℕ → Call
  clear_call : ℕ → ℕ → Call

unfoldable pub run : Regulator → List Call → Regulator
run r [] = r
run r (set_call cpu i ∷ calls) = run (set_maps r cpu i) calls
run r (clear_call cpu i ∷ calls) = run (clear_maps r cpu i) calls

pub run_claims : Claims → List Call → Claims
run_claims b [] = b
run_claims b (set_call cpu i ∷ calls) = run_claims (claim b cpu i) calls
run_claims b (clear_call cpu i ∷ calls) = run_claims (release b cpu i) calls

-- Every call names an NSQ of the device.
abbrev pub InRange : ℕ → List Call → Type 0
InRange n [] = Unit {0}
InRange n (set_call cpu i ∷ calls) = (i < n) × InRange n calls
InRange n (clear_call cpu i ∷ calls) = (i < n) × InRange n calls

-- Two bags hold the same claims on the NSQs of the device.
abbrev pub SameClaims : ℕ → Claims → Claims → Type 0
SameClaims n a b = (cpu j : ℕ) → j < n → a cpu j ≡ b cpu j

-- The bag depends only on the claims that it starts from.
run_claims-SameClaims :
    (n : ℕ) (calls : List Call) (a b : Claims)
    → SameClaims n a b
    → SameClaims n (run_claims a calls) (run_claims b calls)
unfolding run_claims
run_claims-SameClaims n [] a b same = same
run_claims-SameClaims n (set_call cpu i ∷ calls) a b same =
    run_claims-SameClaims n calls (claim a cpu i) (claim b cpu i) λ c j p. rw (same c j p)
run_claims-SameClaims n (clear_call cpu i ∷ calls) a b same =
    run_claims-SameClaims n calls (release a cpu i) (release b cpu i) λ c j p. rw (same c j p)

-- On fewer than 2^31 NSQs, from maps whose two views agree, any sequence of calls on NSQs of the
-- device leaves maps whose two views agree, with the numbers of tasks that the same claims and
-- releases give as a bag.
pub run_refines :
    (n : ℕ) (calls : List Call) (r : Regulator)
    → n < 2 ^ 31
    → IsConsistent n r
    → InRange n calls
    → IsConsistent n (run r calls) × SameClaims n (users (run r calls)) (run_claims (users r) calls)
unfolding run run_claims
run_refines n [] r small ok inside = (ok, λ c j p. refl)
run_refines n (set_call cpu i ∷ calls) r small ok inside =
    let (ok', same) =
      run_refines n calls (set_maps r cpu i) small (set_maps-IsConsistent ok small cpu i inside.0)
        inside.1 in
    (
      ok',
      λ c j p.
          same c j p ∙ run_claims-SameClaims n calls _ _ (set_users ok small cpu i inside.0) c j p,
    )
run_refines n (clear_call cpu i ∷ calls) r small ok inside =
    let (ok', same) =
      run_refines n calls (clear_maps r cpu i) small
        (clear_maps-IsConsistent ok small cpu i inside.0) inside.1 in
    (
      ok',
      λ c j p.
          same c j p
          ∙ run_claims-SameClaims n calls _ _ (clear_users ok small cpu i inside.0) c j p,
    )

-- On fewer than 2^31 NSQs, from maps whose two views agree, rescheduling a task moves one claim of
-- its CPU from the old NSQ to the new one, both of the device, and the two views still agree; if
-- the two are one NSQ nothing changes in the counts. Any other context only adds the new claim.
-- The CPU is returned.
pub sched_update_mappings_moves :
    (n cpu new old : ℕ) (r : Regulator) (context : SchedContext)
    → n < 2 ^ 31
    → IsConsistent n r
    → new < n
    → old < n
    → let (cpu', r') = sched_update_mappings r cpu new old context in
      (cpu' ≡ cpu)
      × IsConsistent n r'
      × SameClaims n (users r') (elim context [
        | task_update ↦ release (claim (users r) cpu new) cpu old
        | _ ↦ claim (users r) cpu new
      ])
unfolding sched_update_mappings
sched_update_mappings_moves n cpu new old r task_update small ok p q =
    let ok' = set_maps-IsConsistent ok small cpu new p in
    (
      refl,
      clear_maps-IsConsistent ok' small cpu old q,
      λ c j h.
          clear_users ok' small cpu old q c j h
          ∙ ap (λ k. if cpu == c && old == j then k - 1 else k)
              (set_users ok small cpu new p c j h),
    )
sched_update_mappings_moves n cpu new old r _ small ok p q =
    (refl, set_maps-IsConsistent ok small cpu new p, set_users ok small cpu new p)
