-- ===== src/Examples/Queues.antt =====
-- A queue of three items under a cap of 5 attestations.
use eth_slot_sim.Base.{◌≡◌, false, true, List, [], ◌∷◌, some, arith}
use eth_slot_sim.Node.Verifier.{Item, Verifier, batch_end, stop}
use eth_slot_sim.Node.Verifier.Batches.{IsBatch, batch_end-IsBatch}
use eth_slot_sim.Node.Verifier.Drain.{drain, drain_stopped}

abbrev three_items : List Item
three_items =
    record { attestations = 3; callback = 0 }
    ∷ record { attestations = 2; callback = 1 }
    ∷ record { attestations = 7; callback = 2 }
    ∷ []

abbrev busy_verifier : Verifier
busy_verifier = record {
  verification_delay = 50;
  per_attestation_delay = 2;
  batch_window = 10;
  max_batch_items = 5;
  queue = three_items;
  notified = false;
  stopped = false;
  timer_running = true;
}

batch_end-IsBatch_example : IsBatch three_items 5 (batch_end three_items 5)
batch_end-IsBatch_example = batch_end-IsBatch three_items 5

-- The timer of an open window never fires first.
drain_stopped_example : drain (λ n. false) 4 (stop busy_verifier) ≡ some three_items
drain_stopped_example = drain_stopped (λ n. false) 4 busy_verifier (omega arith)
