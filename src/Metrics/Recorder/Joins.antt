-- ===== src/Metrics/Recorder/Joins.antt =====
-- metrics/tracer.go: each receipt is joined_receipts to the latest publish of its message.
use eth_slot_sim.Base.{
  ℕ, suc, ◌+◌, ◌≡◌, refl, sym, ap, ◌∙◌, Bool, true, false, List, [], ◌∷◌, ◌++◌, append-nil,
  append_assoc, length, Option, none, some, arith, if◌then◌else◌, inl, inr, Option-cases,
}
use eth_slot_sim.Metrics.Ids.{MsgId}
use eth_slot_sim.Metrics.Recorder.Keys.{find_pub-store_pub}
use eth_slot_sim.Metrics.Recorder.{
  id_eq, Arrival, PubRec, Recorder, new_recorder, find_pub, on_publish, arrival, receive_found,
  on_receive,
}

pub data Event : Type 0 where
  publish : MsgId → Bool → ℕ → Event
  receive : ℕ → MsgId → ℕ → Event

unfoldable pub after : Event → Recorder → Recorder
after (publish id voted at) r = on_publish id voted at r
after (receive rcv id at) r = on_receive rcv id at r

unfoldable pub run : List Event → Recorder → Recorder
run [] r = r
run (e ∷ es) r = run es (after e r)

unfoldable pub or_else : Option PubRec → Option PubRec → Option PubRec
or_else none b = b
or_else (some p) b = some p

-- The last publish of a message among events.
unfoldable pub latest : MsgId → List Event → Option PubRec
latest id [] = none
latest id (receive rcv other at ∷ es) = latest id es
latest id (publish other voted at ∷ es) =
    or_else (latest id es)
      (if id_eq other id then some (record { at = at; voted_block = voted }) else none)

or_else-none : (o : Option PubRec) → or_else o none ≡ o
unfolding or_else
or_else-none none = refl
or_else-none (some p) = refl

or_else_assoc : (a b c : Option PubRec) → or_else (or_else a b) c ≡ or_else a (or_else b c)
unfolding or_else
or_else_assoc none b c = refl
or_else_assoc (some p) b c = refl

latest_append :
    (id : MsgId) (es : List Event) (e : Event)
    → latest id (es ++ e ∷ []) ≡ or_else (latest id (e ∷ [])) (latest id es)
unfolding latest or_else
latest_append id [] (publish other voted at) = sym (or_else-none _)
latest_append id [] (receive rcv other at) = refl
latest_append id (receive rcv other at ∷ es) e = latest_append id es e
latest_append id (publish other voted at ∷ es) e =
    let here = latest id (publish other voted at ∷ []) in
    ap (λ o. or_else o here) (latest_append id es e)
    ∙ or_else_assoc (latest id (e ∷ [])) (latest id es) here

-- What a receipt adds to the arrivals, and to the orphans, where `p` is the publish of its message.
unfoldable pub join_one : ℕ → MsgId → ℕ → Option PubRec → List Arrival
join_one rcv id at none = []
join_one rcv id at (some p) = arrival rcv id at p ∷ []

-- The receipts of the events, each joined_receipts to the latest publish before it, in order.
unfoldable pub joined_receipts : List Event → List Event → List Arrival
joined_receipts before [] = []
joined_receipts before (publish id voted at ∷ es) =
    joined_receipts (before ++ publish id voted at ∷ []) es
joined_receipts before (receive rcv id at ∷ es) =
    join_one rcv id at (latest id before) ++ joined_receipts (before ++ receive rcv id at ∷ []) es

unfoldable pub receipts : List Event → ℕ
receipts [] = 0
receipts (publish id voted at ∷ es) = receipts es
receipts (receive rcv id at ∷ es) = suc (receipts es)

-- The recorder knows the latest publish of each message.
abbrev Knows : Recorder → List Event → Type 0
Knows r before = (id : MsgId) → find_pub id r.published ≡ latest id before

choose :
    (b : Bool) (p : PubRec) {o q : Option PubRec}
    → o ≡ q
    → (if b then some p else o) ≡ or_else (if b then some p else none) q
unfolding or_else
choose true p e = refl
choose false p e = e

publish-Knows :
    (r : Recorder) (before : List Event) (id : MsgId) (voted : Bool) (at : ℕ)
    → Knows r before
    → Knows (on_publish id voted at r) (before ++ publish id voted at ∷ [])
unfolding on_publish latest or_else
publish-Knows r before id voted at h other =
    let p : PubRec = record { at = at; voted_block = voted } in
    find_pub-store_pub id other p r.published
    ∙ (choose (id_eq id other) p (h other) ∙ sym (latest_append other before (publish id voted at)))

receive-Knows :
    (r : Recorder) (before : List Event) (rcv : ℕ) (id : MsgId) (at : ℕ) (o : Option PubRec)
    → Knows r before
    → Knows (receive_found rcv id at o r) (before ++ receive rcv id at ∷ [])
unfolding receive_found latest or_else
receive-Knows r before rcv id at none h other =
    h other ∙ sym (latest_append other before (receive rcv id at))
receive-Knows r before rcv id at (some p) h other =
    h other ∙ sym (latest_append other before (receive rcv id at))

run_joined :
    (r : Recorder) (before es : List Event)
    → Knows r before
    → ((run es r).arrivals ≡ r.arrivals ++ joined_receipts before es)
      × ((run es r).orphans + length (joined_receipts before es) ≡ r.orphans + receipts es)
unfolding run joined_receipts receipts after on_publish on_receive receive_found join_one
run_joined r before [] h = (sym (append-nil r.arrivals), omega arith)
run_joined r before (publish id voted at ∷ es) h =
    run_joined (on_publish id voted at r) (before ++ publish id voted at ∷ []) es
      (publish-Knows r before id voted at h)
run_joined r before (receive rcv id at ∷ es) h =
    let now = before ++ receive rcv id at ∷ [] in
    elim (Option-cases (latest id before)) [
      | inl e ↦
          let rest =
            run_joined (receive_found rcv id at none r) now es
              (receive-Knows r before rcv id at none h) in
          rw (e, run, after, on_receive, h id ∙ e) (rest.0, omega (arith, rest.1))
      | inr (p, e) ↦
          let rest =
            run_joined (receive_found rcv id at (some p) r) now es
              (receive-Knows r before rcv id at (some p) h) in
          rw (e, run, after, on_receive, h id ∙ e)
            (
              rest.0 ∙ append_assoc r.arrivals (arrival rcv id at p ∷ []) (joined_receipts now es),
              omega (arith, rest.1),
            )
    ]

-- After any events on a new recorder, its arrivals are the receipts of messages that were
-- published before them, in order, each with the delay and the vote of the latest publish; and the
-- arrivals and the orphans are together as many as the receipts.
pub run-joined_receipts :
    (es : List Event)
    → ((run es new_recorder).arrivals ≡ joined_receipts [] es)
      × ((run es new_recorder).orphans + length (joined_receipts [] es) ≡ receipts es)
unfolding find_pub latest
run-joined_receipts es =
    let (a, o) = run_joined new_recorder [] es (λ id. refl) in (a, o ∙ omega arith)
