-- ===== src/Node/Verifier/Drain.antt =====
-- node/verifier.go: a stopped verifier drains its queue and returns.
use eth_slot_sim.Base.{
  Bool, ◌&&◌, if◌then◌else◌, ℕ, zero, suc, ◌<◌, ◌≡◌, refl, sym, ap, ◌∙◌, inl, inr, true, false,
  List, [], ◌∷◌, ◌++◌, Option, none, some, arith, ltb, length, take, drop, Bool-cases,
  take-append-drop, length-drop, append-nil,
}
use eth_slot_sim.Node.Verifier.{
  stop, Item, Verifier, Turn, batch_delay, waits, verified, exits, batch_end, turn,
}
use eth_slot_sim.Node.Verifier.Batches.{batch_end-IsBatch}

-- What is verified from the end of a turn on, where the loop goes on by `more`.
abbrev pub verified_from : (Verifier → Option (List Item)) → Turn → Option (List Item)
verified_from more (waits v) = none
verified_from more (exits batch delay) = some batch
verified_from more (verified delay batch v) = elim (more v) [
  | none ↦ none
  | some rest ↦ some (batch ++ rest)
]

-- One way through the blocking select, then the turn: by the timer, where it runs and `fires` before
-- the signal is taken, and else by the signal. With neither, the loop stays parked.
unfoldable pub wake : Bool → Verifier → Turn
unfolding turn
wake fires v =
    if fires && v.timer_running
    then turn true (λ w. w) v
    else (if v.notified then turn false (λ w. w) v else waits v)

-- Turns of the loop with nothing submitted meanwhile, where the timer fires first on those that `fires`
-- names. `none` means that the loop is parked or waits, or that the fuel ran out.
unfoldable pub drain : (ℕ → Bool) → ℕ → Verifier → Option (List Item)
unfolding wake
drain fires zero v = none
drain fires (suc fuel) v = verified_from (drain fires fuel) (wake (fires fuel) v)

-- The state after a batch of a stopped verifier that leaves items.
next : Verifier → Verifier
next v = record v {
  notified = true;
  timer_running = true;
  queue = drop (batch_end v.queue v.max_batch_items) v.queue;
}

rest_of : Verifier → List Item
rest_of v = drop (batch_end v.queue v.max_batch_items) v.queue

wake_empty :
    (fires : Bool) (v : Verifier)
    → v.stopped ≡ true
    → v.notified ≡ true
    → length v.queue ≡ 0
    → wake fires v ≡ exits [] 0
unfolding wake turn
wake_empty fires v s w h = ground arith

wake_last :
    (fires : Bool) (v : Verifier)
    → v.stopped ≡ true
    → v.notified ≡ true
    → 0 < length v.queue
    → length (rest_of v) ≡ 0
    → wake fires v
      ≡ exits
          (take (batch_end v.queue v.max_batch_items) v.queue)
          (batch_delay v (take (batch_end v.queue v.max_batch_items) v.queue))
unfolding wake turn rest_of
wake_last fires v s w h l = ground arith

wake_more :
    (fires : Bool) (v : Verifier)
    → v.stopped ≡ true
    → v.notified ≡ true
    → 0 < length v.queue
    → 0 < length (rest_of v)
    → wake fires v
      ≡ verified
          (batch_delay v (take (batch_end v.queue v.max_batch_items) v.queue))
          (take (batch_end v.queue v.max_batch_items) v.queue)
          (next v)
unfolding wake turn rest_of next
wake_more fires v s w h l = ground arith

empty_of_length {ℓ} : {A : Type ℓ} (xs : List A) → length xs ≡ 0 → xs ≡ []
empty_of_length [] h = refl
empty_of_length (x ∷ xs) h = absurd (omega arith)

-- A stopped verifier with its signal in the channel.
drain_signalled :
    (fires : ℕ → Bool) (fuel : ℕ) (v : Verifier)
    → v.stopped ≡ true
    → v.notified ≡ true
    → length v.queue < fuel
    → drain fires fuel v ≡ some v.queue
unfolding drain rest_of next
drain_signalled fires zero v s w h = absurd (omega arith)
drain_signalled fires (suc fuel) v s w h =
    let n = batch_end v.queue v.max_batch_items in
    let b = batch_end-IsBatch v.queue v.max_batch_items in
    elim (Bool-cases (ltb 0 (length v.queue))) [
      | inl items ↦ elim (Bool-cases (ltb 0 (length (rest_of v)))) [
        | inl more ↦
            let ih =
              drain_signalled fires fuel (next v) s refl
                (ground (arith, length-drop n v.queue, b.1)) in
            rw (wake_more (fires fuel) v s w (ground arith) (ground arith), ih)
              (ap some (take-append-drop n v.queue))
        | inr last ↦
            let none_left = empty_of_length (rest_of v) (ground arith) in
            rw (wake_last (fires fuel) v s w (ground arith) (ground arith)) (
              ap some (
                sym (append-nil (take n v.queue))
                ∙ ap (λ r. take n v.queue ++ r) (sym none_left)
                ∙ take-append-drop n v.queue))
      ]
      | inr empty ↦
          rw (wake_empty (fires fuel) v s w (ground arith))
            (ap some (sym (empty_of_length v.queue (ground arith))))
    ]

-- Once it is stopped, and with nothing submitted from then on, the loop is never parked before it
-- returns, whichever of the signal and the timer each turn takes; it has then verified the queued
-- items, each once and in the order of submission. One turn for each item, and one more, are enough.
pub drain_stopped :
    (fires : ℕ → Bool) (fuel : ℕ) (v : Verifier)
    → length v.queue < fuel
    → drain fires fuel (stop v) ≡ some v.queue
unfolding stop
drain_stopped fires fuel v h = drain_signalled fires fuel (stop v) refl refl h
