-- ===== src/Node/Verifier.antt =====
-- node/verifier.go: the batched verification queue. Items are opaque but for the number of
-- attestations that each carries. The run loop is a step over the state that its mutex guards, the
-- channel's one slot and the timer; the time a batch sleeps is its result.
pub mod Batches
pub mod Drain
use eth_slot_sim.Base.{
  ℕ, zero, suc, ◌+◌, ◌*◌, ◌<◌, Bool, true, false, not, ◌&&◌, ◌||◌, List, [], ◌∷◌, ◌++◌, ltb, leb,
  ◌==◌, if◌then◌else◌, length, take, drop, sum, map,
}

-- A queued item: its attestations, and the label of its callback.
pub record Item : Type 0 where
  pub attestations : ℕ
  pub callback : ℕ

-- The loop of `batchEnd`: `n` items taken, with `atts` attestations.
unfoldable pub batch_end_from : ℕ → ℕ → ℕ → List Item → ℕ
batch_end_from max_items n atts [] = n
batch_end_from max_items n atts (q ∷ qs) =
    let rest = batch_end_from max_items (suc n) (atts + q.attestations) qs in
    if ltb 0 n && ltb max_items (atts + q.attestations) then n else rest

unfoldable pub batch_end : List Item → ℕ → ℕ
unfolding batch_end_from
batch_end queue max_items =
    if max_items == 0 then length queue else batch_end_from max_items 0 0 queue

abbrev pub attestations_in : List Item → ℕ
attestations_in qs = sum (map (λ q. q.attestations) qs)

pub record Verifier : Type 0 where
  pub verification_delay : ℕ
  pub per_attestation_delay : ℕ
  pub batch_window : ℕ
  pub max_batch_items : ℕ
  pub queue : List Item
  pub notified : Bool  -- the channel's one slot
  pub stopped : Bool
  pub timer_running : Bool

-- `submit`, under the mutex: the signal is dropped if one is already there.
unfoldable pub submit : Item → Verifier → Verifier
submit item v = record v { queue = v.queue ++ item ∷ []; notified = true }

unfoldable pub stop : Verifier → Verifier
stop v = record v { stopped = true; notified = true }

-- How a turn of the run loop ends: it waits for the next signal or timer, it has verified a batch
-- after the sleep and goes on, or it has returned.
pub data Turn : Type 0 where
  waits : Verifier → Turn
  verified : ℕ → List Item → Verifier → Turn
  exits : List Item → ℕ → Turn

-- The sleep of `verifyBatch`.
abbrev pub batch_delay : Verifier → List Item → ℕ
batch_delay v batch = v.verification_delay + attestations_in batch * v.per_attestation_delay

-- What follows the sleep: the state is read again, and a stopped verifier with a rest wakes itself.
-- `during` are the items and the stop that came in while the batch slept.
unfoldable pub after_batch : (Verifier → Verifier) → Verifier → List Item → Turn
after_batch during v batch =
    let v' = during v in
    if v'.stopped
    then (if length v'.queue == 0
        then exits batch (batch_delay v batch)
        else verified (batch_delay v batch) batch (record v' { notified = true }))
    else verified (batch_delay v batch) batch v'

-- One turn, woken by the signal or, where `fired`, by the timer. Both drain the channel.
unfoldable pub turn : Bool → (Verifier → Verifier) → Verifier → Turn
unfolding batch_end after_batch
turn fired during v =
    let running = v.timer_running && not fired in
    let n = batch_end v.queue v.max_batch_items in
    let open_window = record v { notified = false; timer_running = running } in
    let taken = record v { notified = false; timer_running = true; queue = drop n v.queue } in
    if running && not v.stopped
    then waits open_window
    else (if length v.queue == 0
        then (if v.stopped then exits [] 0 else waits open_window)
        else after_batch during taken (take n v.queue))
