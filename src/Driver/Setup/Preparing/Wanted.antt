-- ===== src/Driver/Setup/Preparing/Wanted.antt =====
-- driver/runner.go: which topics a node has subscribed once its runner has prepared.
use eth_slot_sim.Base.{ℕ, ◌≡◌, true, ◌||◌, List}
use eth_slot_sim.Node.Topics.{has_text}
use eth_slot_sim.Node.Topics.Lifetime.{global_topics}
use eth_slot_sim.Driver.Setup.{Runner}
use eth_slot_sim.Driver.Setup.Preparing.{own_topics}

-- What is wanted is a topic of the block family or of the runner's own.
abbrev IsListed : Runner → List ℕ → Type 0
IsListed r u = has_text u (own_topics r) || has_text u global_topics ≡ true
