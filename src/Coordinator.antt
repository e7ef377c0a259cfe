-- ===== src/Coordinator.antt =====
-- The elector of internal/modules/etcdcoord/module.go: the two goroutines that write the node's view
-- of the leader, and `Stop`. Each atomic store is a step of its own, and any interleaving is a run.
pub mod Consistent
pub mod Stopped
use shiro_distributed_system.Common.{
  Bool, true, false, not, ◌&&◌, ◌||◌, Option, none, some, List, [], ◌∷◌, Text, Result, ok, err,
  text_eq, codes, if◌then◌else◌,
}
use shiro_distributed_system.Contracts.{Error, failed}

-- Where `runElection` stands.
pub data ElectionAt : Type 0 where
  -- Not started.
  idle : ElectionAt
  -- Before it reads `election`.
  entering : ElectionAt
  -- In `Campaign`.
  campaigning : ElectionAt
  -- `Campaign` has returned nil.
  elected : ElectionAt
  -- `isLeader` is stored, `leaderID` is not.
  raised : ElectionAt
  -- Waits for the context.
  leading : ElectionAt
  ended : ElectionAt

-- Where `observeLeader` stands.
pub data ObserverAt : Type 0 where
  idle : ObserverAt
  entering : ObserverAt
  -- In the select.
  watching : ObserverAt
  -- Has taken a response that names a leader.
  received : Text → ObserverAt
  -- `leaderID` is stored, `isLeader` is not.
  stored : Text → ObserverAt
  ended : ObserverAt

-- Where `Stop` stands.
pub data StopAt : Type 0 where
  idle : StopAt
  -- The fields are taken.
  detached : StopAt
  -- The context is cancelled.
  cancelled : StopAt
  -- Past the resignation; the session and the client are closed.
  closed : StopAt

pub record Coordinator : Type 0 where
  pub node_id : Text
  pub is_leader : Bool
  pub leader_id : Text
  -- Whether the client, the session, the election and the cancel function are set.
  pub connected : Bool
  -- Whether the context of the goroutines is done.
  pub done : Bool
  -- Whether `Stop` has resigned.
  pub resigned : Bool
  pub election : ElectionAt
  pub observer : ObserverAt
  pub stop : StopAt

unfoldable pub new : Text → Coordinator
new node_id = record {
  node_id = node_id;
  is_leader = false;
  leader_id = [];
  connected = false;
  done = false;
  resigned = false;
  election = idle;
  observer = idle;
  stop = idle;
}

-- `Start`, with what BuildTLSConfig, the client and the session return; the Boolean says whether a
-- client was opened and closed again.
unfoldable pub start :
    Result Error (Unit {0})
    → Result Error (Unit {0})
    → Result Error (Unit {0})
    → Coordinator
    → (Result Error (Unit {0}) × Bool) × Coordinator
start (err e) client session c = ((err e, false), c)
start (ok _) (err e) session c = ((err e, false), c)
start (ok _) (ok _) (err e) c = ((err e, true), c)
start (ok _) (ok _) (ok _) c =
    ((ok tt, false), record c { connected = true; election = entering; observer = entering })

-- `Ready`, with what the status of the first endpoint returns.
unfoldable pub ready : Result Error (Unit {0}) → Coordinator → Result Error (Unit {0})
ready status c = if c.connected then status else err (failed (codes "etcd not connected"))

-- The next step of `runElection`; `wins` says whether `Campaign` returns nil. It may return an error
-- at any time.
unfoldable pub step_election : Bool → Coordinator → Coordinator
step_election wins c = elim c.election [
  | idle ↦ c
  | entering ↦ record c { election = if c.connected then campaigning else ended }
  | campaigning ↦ record c { election = if wins then elected else ended }
  | elected ↦ record c { is_leader = true; election = raised }
  | raised ↦ record c { leader_id = c.node_id; election = leading }
  | leading ↦ if c.done then record c { is_leader = false; election = ended } else c
  | ended ↦ c
]

-- What the select of `observeLeader` takes: the end of the context if it is done, a closed channel, or
-- a response with its first value.
pub data Event : Type 0 where
  context_done : Event
  channel_closed : Event
  response : Option Text → Event

abbrev take_event : Coordinator → Event → ObserverAt
take_event c context_done = if c.done then ended else watching
take_event c channel_closed = ended
take_event c (response none) = watching
take_event c (response (some leader)) = received leader

-- The next step of `observeLeader`. When the context is done and a response is ready, the select
-- takes either.
unfoldable pub step_observer : Event → Coordinator → Coordinator
step_observer event c = elim c.observer [
  | idle ↦ c
  | entering ↦ record c { observer = if c.connected then watching else ended }
  | watching ↦ record c { observer = take_event c event }
  | received leader ↦ record c { leader_id = leader; observer = stored leader }
  | stored leader ↦ record c { is_leader = text_eq leader c.node_id; observer = watching }
  | ended ↦ c
]

-- The next step of `Stop`.
unfoldable pub step_stop : Coordinator → Coordinator
step_stop c = elim c.stop [
  | idle ↦ if c.connected then record c { connected = false; stop = detached } else c
  | detached ↦ record c { done = true; stop = cancelled }
  | cancelled ↦ record c { resigned = c.is_leader; stop = closed }
  | closed ↦ c
]

-- The step relation: a goroutine moves, `Stop` moves, or the parent context is cancelled.
pub data Step : Coordinator → Coordinator → Type 0 where
  elects : (wins : Bool) (c : Coordinator) → Step c (step_election wins c)
  observes : (event : Event) (c : Coordinator) → Step c (step_observer event c)
  stops : (c : Coordinator) → Step c (step_stop c)
  interrupts : (c : Coordinator) → Step c (record c { done = true })

-- A run, from the left.
pub data Reach (c : Coordinator) : Coordinator → Type 0 where
  here : Reach c c
  next : {d e : Coordinator} → Reach c d → Step d e → Reach c e

-- A running node: `Start` has succeeded.
abbrev pub started : Text → Coordinator
started node_id = (start (ok tt) (ok tt) (ok tt) (new node_id)).1
