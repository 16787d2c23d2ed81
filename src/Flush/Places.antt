-- ===== src/Flush/Places.antt =====
-- Where the requests of a flush queue stand, and how a step moves one: blk_flush_complete_seq() of
-- daredevil/block/blk-flush.c.
use nvme_plus.Base.{
  ℕ, zero, suc, ◌+◌, ◌≤◌, ◌<◌, ◌≡◌, ◌≢◌, refl, arith, Bool, true, false, not, ◌&&◌, ◌||◌, Option,
  none, some, List, [], ◌∷◌, ◌++◌, ◌==◌, if◌then◌else◌,
}
use nvme_plus.Flush.{Step, preflush, data_write, postflush, done, cur_seq, restore_request}
use nvme_plus.Flush.Machine.{
  Event, sends, flushes, bypasses, ends, FlushState, same, remove, queue_for_flush, send_data,
  end_sequence,
}

abbrev pub count : ℕ → List ℕ → ℕ
count r [] = 0
count r (x ∷ xs) = (if r == x then 1 else 0) + count r xs

pub count-remove :
    (x r : ℕ) (xs : List ℕ) → count x (remove r xs) ≡ (if x == r then 0 else count x xs)
unfolding remove
count-remove x r [] = ground arith
count-remove x r (y ∷ ys) = ground (arith, count-remove x r ys)

pub count-append :
    (x r : ℕ) (xs : List ℕ) → count x (xs ++ r ∷ []) ≡ count x xs + (if x == r then 1 else 0)
count-append x r [] = ground arith
count-append x r (y ∷ ys) = ground (arith, count-append x r ys)

pub remove-absent : (r : ℕ) (xs : List ℕ) → count r xs ≡ 0 → remove r xs ≡ xs
unfolding remove
remove-absent r [] h = refl
remove-absent r (y ∷ ys) h = ground (arith, remove-absent r ys)

pub ruleset moves = (arith, count-remove, count-append)

-- The lists that hold a request, counted
abbrev pub places : ℕ → FlushState → ℕ
places r w = count r w.queue_0 + count r w.queue_1 + count r w.data_in_flight

-- How often a request left the flush queue
abbrev pub left : ℕ → List Event → ℕ
left r [] = 0
left r (sends x ∷ es) = left r es
left r (flushes ∷ es) = left r es
left r (bypasses x ∷ es) = (if r == x then 1 else 0) + left r es
left r (ends x e ∷ es) = (if r == x then 1 else 0) + left r es

abbrev pub awaits_flush : Option Step → Bool
awaits_flush (some preflush) = true
awaits_flush (some postflush) = true
awaits_flush (some data_write) = false
awaits_flush (some done) = false
awaits_flush none = false

-- What the list that holds a request says of its sequence
pub record IsPlaced (w : FlushState) (r : ℕ) : Type 0 where
  pub once : places r w ≤ 1
  pub undone : 0 < places r w → (w.requests r).seq.has_done ≡ false
  pub flushing :
      0 < count r w.queue_0 + count r w.queue_1 → awaits_flush (cur_seq (w.requests r).seq) ≡ true
  pub sending : 0 < count r w.data_in_flight → cur_seq (w.requests r).seq ≡ some data_write

-- The pending list of w with r at its end, where it pends
abbrev pub appended : ℕ → Bool → Bool → List ℕ → List ℕ
appended r k idx xs = if same idx k then remove r xs ++ r ∷ [] else remove r xs

pub queue_for_flush-IsPlaced :
    (j r x : ℕ) (w : FlushState)
    → (x ≢ r → IsPlaced w x)
    → (w.requests r).seq.has_done ≡ false
    → awaits_flush (cur_seq (w.requests r).seq) ≡ true
    → IsPlaced (queue_for_flush j r w) x
unfolding queue_for_flush
queue_for_flush-IsPlaced j r x w h d a = grind moves

pub send_data-IsPlaced :
    (r x : ℕ) (w : FlushState)
    → (x ≢ r → IsPlaced w x)
    → (w.requests r).seq.has_done ≡ false
    → cur_seq (w.requests r).seq ≡ some data_write
    → IsPlaced (send_data r w) x
unfolding send_data
send_data-IsPlaced r x w h d a = grind moves

pub end_sequence-IsPlaced :
    (r e x : ℕ) (w : FlushState) → (x ≢ r → IsPlaced w x) → IsPlaced (end_sequence r e w) x
unfolding end_sequence restore_request
end_sequence-IsPlaced r e x w h = ground (
  arith,
  count-remove x r w.queue_0,
  count-remove x r w.queue_1,
  count-remove x r w.data_in_flight,
)
