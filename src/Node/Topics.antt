-- ===== src/Node/Topics.antt =====
-- node/node.go: the topics that a node joins, subscribes and leaves, and their verify hooks. A text
-- is the list of its codes, and a delay function is a label. Of gossipsub the model has the calls,
-- in a log with the answers that they got.
pub mod Maps
pub mod Protocol
pub mod Hooking
pub mod Steps
pub mod Runs
pub mod Untouched
pub mod Subscribed
pub mod Held
pub mod Lifetime
use eth_slot_sim.Base.{
  ℕ, ◌+◌, Bool, true, false, not, ◌&&◌, ◌||◌, List, [], ◌∷◌, ◌++◌, Option, none, some, ltb, ◌==◌,
  if◌then◌else◌, any, keep, map,
}
use eth_slot_sim.Node.Registry.{
  codes, VerifyClass, unset, fixed, column_class, consensus, ac, fcvote, fcagg, ptc, Lookups,
  text_eq, verify_class_for,
}
use eth_slot_sim.Node.Registry.Numbers.{partial_kind_for}

-- A validator of a topic: what it does with a message that is not the node's own.
pub data Hook : Type 0 where
  column_hook : Hook
  sleep_hook : ℕ → Hook
  batch_hook : VerifyClass → Hook

-- A call of gossipsub, or of a subscription that it gave, with the answer.
pub data Call : Type 0 where
  registers : List ℕ → Hook → Bool → Call
  joins : List ℕ → Bool → Bool → Call
  subscribes : List ℕ → Option ℕ → Call
  cancels : ℕ → Call
  publishes : List ℕ → Call

-- What a batched verifier is made with; a window is in nanoseconds.
pub record VerifierOpts : Type 0 where
  pub base : ℕ
  pub per_item : ℕ
  pub window : ℕ
  pub batch_max : ℕ

-- `attest_verify_delay` may be nil; a window that is unset, or not positive, is 0.
pub record Settings : Type 0 where
  pub verify_delay : ℕ
  pub attest_verify_delay : Option ℕ
  pub attest_per_item : ℕ
  pub attest_batch_window : ℕ
  pub attest_batch_max : ℕ
  pub is_partial : Bool

-- `arriving` has the topics whose subscription is under way, outside the lock.
pub record Node : Type 0 where
  pub topics : List (List ℕ)
  pub validated : List (List ℕ)
  pub subs : List (List ℕ × ℕ)
  pub verifiers : List (VerifyClass × VerifierOpts)
  pub arriving : List (List ℕ)
  pub calls : List Call

abbrev pub has_text : List ℕ → List (List ℕ) → Bool
has_text t ts = any (λ u. text_eq u t) ts

abbrev pub class_index : VerifyClass → ℕ
class_index unset = 0
class_index fixed = 1
class_index column_class = 2
class_index consensus = 3
class_index ac = 4
class_index fcvote = 5
class_index fcagg = 6
class_index ptc = 7

abbrev pub find_verifier : VerifyClass → List (VerifyClass × VerifierOpts) → Option VerifierOpts
find_verifier class [] = none
find_verifier class ((c, v) ∷ rest) =
    let more = find_verifier class rest in
    if class_index c == class_index class then some v else more

abbrev pub find_sub : List ℕ → List (List ℕ × ℕ) → Option ℕ
find_sub t [] = none
find_sub t ((u, h) ∷ rest) = let more = find_sub t rest in if text_eq u t then some h else more

-- 50ms
abbrev pub default_batch_window : ℕ
default_batch_window = 50000000

unfoldable pub verifier_opts : Settings → VerifierOpts
verifier_opts o = record {
  base = elim o.attest_verify_delay [ none ↦ o.verify_delay | some delay ↦ delay ];
  per_item = o.attest_per_item;
  window = if o.attest_batch_window == 0 then default_batch_window else o.attest_batch_window;
  batch_max = o.attest_batch_max;
}

-- The verifier of a class is made, and run, at its first use.
abbrev pub found_or_made : Settings → VerifyClass → Node → Option VerifierOpts → Node × VerifierOpts
found_or_made o class n (some v) = (n, v)
found_or_made o class n none =
    (record n { verifiers = (class, verifier_opts o) ∷ n.verifiers }, verifier_opts o)

unfoldable pub batch_verifier_for : Settings → VerifyClass → Node → Node × VerifierOpts
batch_verifier_for o class n = found_or_made o class n (find_verifier class n.verifiers)

abbrev pub hook_for : Settings → VerifyClass → Hook
hook_for o column_class = column_hook
hook_for o fixed = sleep_hook o.verify_delay
hook_for o unset = batch_hook unset
hook_for o consensus = batch_hook consensus
hook_for o ac = batch_hook ac
hook_for o fcvote = batch_hook fcvote
hook_for o fcagg = batch_hook fcagg
hook_for o ptc = batch_hook ptc

-- Whether a class has a queue of its own.
abbrev pub with_queue : Settings → Hook → Node → Node
with_queue o column_hook n = n
with_queue o (sleep_hook d) n = n
with_queue o (batch_hook class) n = (batch_verifier_for o class n).0

-- What a validator does with a message, by the node's own number and the sender's.
pub data Work : Type 0 where
  no_work : Work
  column_work : Work
  sleeps : ℕ → Work
  submits : VerifyClass → Work

abbrev pub work_of : Hook → Work
work_of column_hook = column_work
work_of (sleep_hook d) = sleeps d
work_of (batch_hook class) = submits class

unfoldable pub validate : ℕ → Hook → ℕ → Work
validate self hook from = if from == self then no_work else work_of hook

-- Where the first part of `Subscribe` leaves it.
pub data Next : Type 0 where
  failed done goes_on : Next

-- `RegisterTopicValidator`, with its answer.
abbrev pub register_call : Bool → List ℕ → Hook → Node → Node × Bool
register_call true t hook n =
    (record n { validated = t ∷ n.validated; calls = registers t hook true ∷ n.calls }, true)
register_call false t hook n = (record n { calls = registers t hook false ∷ n.calls }, false)

-- `ps.Join`, with its answer.
abbrev pub join_call : Bool → Bool → List ℕ → Node → Node × Bool
join_call opt true t n =
    (record n { topics = t ∷ n.topics; calls = joins t opt true ∷ n.calls }, true)
join_call opt false t n = (record n { calls = joins t opt false ∷ n.calls }, false)

abbrev pub go_on : List ℕ → Node → Option ℕ → Node × Next
go_on t n (some h) = (n, done)
go_on t n none = (record n { arriving = t ∷ n.arriving }, goes_on)

module _ (o : Settings) (lk : Lookups) where
  -- With the answer of `RegisterTopicValidator`; the second part is whether there was no error.
  unfoldable pub register_verify_hook : Bool → List ℕ → Node → Node × Bool
  unfolding batch_verifier_for
  register_verify_hook ok t n =
      let hook = hook_for o (verify_class_for lk t) in
      if has_text t n.validated then (n, true) else register_call ok t hook (with_queue o hook n)

  abbrev pub is_partial_topic : List ℕ → Bool
  is_partial_topic t = elim (partial_kind_for lk t) [ none ↦ false | some k ↦ o.is_partial ]

  -- With the answers of `RegisterTopicValidator` and `Join`.
  unfoldable pub join_locked : Bool → Bool → List ℕ → Node → Node × Bool
  unfolding register_verify_hook
  join_locked registered joined t n =
      let (m, hooked) = register_verify_hook registered t n in
      if has_text t n.topics
      then (n, true)
      else (if is_partial_topic t
          then join_call true joined t n
          else (if hooked then join_call false joined t m else (m, false)))

  -- The part of `Subscribe` under its first lock: it goes on where the topic is joined and has no
  -- subscription.
  unfoldable pub subscribe_first : Bool → Bool → List ℕ → Node → Node × Next
  unfolding join_locked
  subscribe_first registered joined t n =
      let (m, ok) = join_locked registered joined t n in
      if ok then go_on t m (find_sub t m.subs) else (m, failed)

-- The first of the texts that are equal to one is taken away.
abbrev pub remove_text : List ℕ → List (List ℕ) → List (List ℕ)
remove_text t [] = []
remove_text t (u ∷ us) = let rest = remove_text t us in if text_eq u t then us else u ∷ rest

abbrev pub drop_sub : List ℕ → List (List ℕ × ℕ) → List (List ℕ × ℕ)
drop_sub t subs = keep (λ s. not (text_eq s.0 t)) subs

-- The rest of `Subscribe`: the call of the topic, and the second lock where there was no error.
unfoldable pub subscribe_last : Option ℕ → List ℕ → Node → Node × Bool
subscribe_last none t n =
    (record n { arriving = remove_text t n.arriving; calls = subscribes t none ∷ n.calls }, false)
subscribe_last (some h) t n = (
  record n {
    arriving = remove_text t n.arriving;
    subs = (t, h) ∷ drop_sub t n.subs;
    calls = subscribes t (some h) ∷ n.calls;
  },
  true,
)

abbrev pub cancel_found : Option ℕ → List Call → List Call
cancel_found none cs = cs
cancel_found (some h) cs = cancels h ∷ cs

unfoldable pub unsubscribe : List ℕ → Node → Node
unsubscribe t n = record n {
  subs = drop_sub t n.subs;
  calls = cancel_found (find_sub t n.subs) n.calls;
}

-- The second part is whether the topic was joined.
unfoldable pub publish : List ℕ → Node → Node × Bool
publish t n =
    if has_text t n.topics then (record n { calls = publishes t ∷ n.calls }, true) else (n, false)

-- The answers of gossipsub to the calls of one `Subscribe`.
pub record Answers : Type 0 where
  pub registered : Bool
  pub joined : Bool
  pub subscription : Option ℕ

abbrev pub finish : Option ℕ → List ℕ → Node → Next → Node × Bool
finish r t m failed = (m, false)
finish r t m done = (m, true)
finish r t m goes_on = subscribe_last r t m

-- `Subscribe` with no other operation in between.
unfoldable pub subscribe : Settings → Lookups → Answers → List ℕ → Node → Node × Bool
unfolding subscribe_first subscribe_last
subscribe o lk a t n =
    let (m, next) = subscribe_first o lk a.registered a.joined t n in finish a.subscription t m next

-- The maps that `JoinTopics` makes.
abbrev pub new_node : Node
new_node = record {
  topics = [];
  validated = [];
  subs = [];
  verifiers = [];
  arriving = [];
  calls = [];
}
