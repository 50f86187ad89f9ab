-- ===== src/Lib.antt =====
-- Verification of eth-slot-sim, a simulator of Ethereum slots over gossipsub.
--
-- A plan (schedule/) says which node proposes, attests, votes and aggregates in each slot. A
-- runner per node (driver/) reads its view of the plan, times the messages of each slot, and
-- couples its vote to the arrival of the block and of its custody columns. A passive node
-- (node/) owns the transport and the verification queue, and hands what it receives back to the
-- runner. The messages are made in validator/. The tracer (metrics/) is told of each publish
-- and receipt under an identity of the message.
--
-- Schedule.antt has the structs of schedule/schedule.go. Schedule/Views and Schedule/Duties
-- model `Assignment.Node`, `finalityVoteDuties` and `finalityAggregations`; Schedule/Position
-- models the rank tables, the accessors and `HostOf` of schedule/position.go. Node/Verifier
-- models node/verifier.go: the queue, `batchEnd`, `submit`, `stop` and the turns of `run`.
-- Node/Partial models node/partial.go: the votes of a bucket and the caps on them (Buckets),
-- the groups with their seals and prunes (Groups), the receive path (Incoming), and one publish
-- tick (Publishing). Node/Registry is the table of kinds of node/registry.go with its lookups,
-- the names of topics and `Decode`; Registry/Wire has what a node publishes and what another
-- decodes. Node/Topics models node/node.go: `Join`, `Subscribe`, `Unsubscribe`, `Publish`,
-- `JoinTopics` and `Close`, with the verify hooks, as calls of gossipsub in a log. Validator
-- has the message builders of validator/. Node/Kinds and Metrics/Ids have the message kinds of
-- node/node.go and the identities of metrics/tracer.go. Driver/Coupling is `emitDecision` of
-- driver/coupling.go, and Driver/Resolver is the resolver of driver/partial.go. Driver/Slot
-- models the slot state of driver/runner.go and the critical sections that change it;
-- Slot/Handlers composes them as `onReceive`, `onBlockProcessed`, `onColumnProcessed`,
-- `onBlockDeadline` and the publish functions do; Slot/Emits has the emitters. Driver/Finality
-- models the finality chain: `prejoinFinality`, `dropFinality`, `reapFinality` and the emitters
-- of a round; what a teardown or a pre-join does to the network after it leaves the lock is a
-- step for each mesh and peer (Steps). Driver/Setup is `NewRunner`, with the subscriptions of
-- `Prepare` (Preparing), the set-up of a slot (Slots), its dials and its end (Dialing) and the
-- arming of finality rounds (Rounds). Driver/Fleet is `New` of driver/driver.go, and Cmd has
-- the flag checks of cmd/slot-sim-node/main.go. Metrics/Recorder and Metrics/Summary are the
-- recorder of metrics/tracer.go, its reports and `Summarize`. Netsim/Graph is the graph builder
-- of netsim/graph.go with `peerGraph` and `discv5Graph`, and Netsim/Topology the placement and
-- the adjacency of a topology. Examples has concrete plans and states.
--
-- A run-time panic of Go (an index out of range, a division by zero) is `none`. Times and
-- durations are natural numbers of nanoseconds, and a time that is not set is 0. A critical
-- section runs whole, as the mutex of the runner makes it; goroutines and timers interleave as
-- sequences of sections. The tables behind `sync.Once` are functions of the plan. Retries of
-- the graph builder are bounded as in the code. Two definitions use fuel: `strided`, with one
-- unit more than the validators, which is enough where the stride is positive; and `drain`, the
-- loop of a stopped verifier, with more units than queued items, whichever of its signal and
-- its timer wakes it.
--
-- Not modelled: libp2p, gossipsub, protobuf and the simulated network, which are libraries or
-- drive them, so of a message the fields and the number of its payload's bytes; the sleeping
-- loops of `Run`, of `BringUp` and of the bring-up in cmd/slot-sim-node/main.go; the
-- disconnection of a slot's dials, and the once-guards of its aggregate, contribution and
-- payload-timeliness bursts; the tick loop and `fanoutPublish` of node/partial.go; the
-- semaphore of node/column_verifier.go; the hosts, links and latencies of netsim/; the division
-- that turns a recorder's counts into a share; the Python generator of the plan. The generator
-- of `math/rand`, the bitmap library, protobuf's sizes and unmarshaling and the answers of
-- gossipsub are parameters, and a topic of Node/Partial stands for what `partialKindFor` reads
-- in its name, which Node/Registry models. Logs, and the wall clock, are left out.
mod Base
pub mod Schedule
pub mod Validator
pub mod Node
pub mod Metrics
pub mod Driver
pub mod Netsim
pub mod Cmd
pub mod Examples
