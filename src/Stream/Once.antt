-- ===== src/Stream/Once.antt =====
-- A consumer gets a message once (internal/core/app.go over internal/modules/cassstore/module.go).
use shiro_distributed_system.Common.{
  ◌≡◌, inl, inr, refl, Bool, true, false, not, ◌&&◌, ◌||◌, some, List, [], ◌∷◌, Text, arith, All,
  is_empty, text_eq, text_eq_iff, Bool-cases, Result-cases,
}
use shiro_distributed_system.Contracts.{BusMessage}
use shiro_distributed_system.Breaker.{CircuitBreaker}
use shiro_distributed_system.Publish.{guarded, with_store, store_claim_inbox_message}
use shiro_distributed_system.Cass.Tables.{Tables}
use shiro_distributed_system.Cass.Driver.{Cassandra, IsLawful}
use shiro_distributed_system.Cass.Inbox.{claim_inbox_message}
use shiro_distributed_system.Cass.Inbox.Once.{
  is_consumed, is_consumed-IsKept, claim-consumes, claim-refuses, run_any-is_consumed,
}
use shiro_distributed_system.Cass.Calls.{consumes, step}
use shiro_distributed_system.Cass.Calls.Kept.{Any}
use shiro_distributed_system.Cass.Calls.Step.{step-keeps}
use shiro_distributed_system.Cass.Calls.Cleaned.{StoreCall, run_any}
use shiro_distributed_system.System.{Node, cass_store, runtime}
use shiro_distributed_system.Stream.{
  Feed, empty_feed, offer, claim, Turn, arrives, takes, passes, take_message, stream_turn,
  run_stream,
}

pub has_id : Text → List BusMessage → Bool
has_id id [] = false
has_id id (msg ∷ msgs) = text_eq id msg.message_id || has_id id msgs

-- No identity comes twice; a message without one may.
pub are_distinct : List BusMessage → Bool
unfolding has_id
are_distinct [] = true
are_distinct (msg ∷ msgs) =
    (is_empty msg.message_id || not (has_id msg.message_id msgs)) && are_distinct msgs

-- What is written is consumed.
all_consumed : Text → Tables → List BusMessage → Bool
all_consumed consumer t [] = true
all_consumed consumer t (msg ∷ msgs) =
    (is_empty msg.message_id || is_consumed (consumer, msg.message_id) t)
    && all_consumed consumer t msgs

-- A message that is not consumed has not been written.
all_consumed-has_id :
    (consumer : Text) (t : Tables) (id : Text) (msgs : List BusMessage)
    → all_consumed consumer t msgs ≡ true
    → is_empty id ≡ false
    → is_consumed (consumer, id) t ≡ false
    → has_id id msgs ≡ false
unfolding has_id all_consumed
all_consumed-has_id consumer t id [] h full new = refl
all_consumed-has_id consumer t id (msg ∷ msgs) h full new =
    let rest = all_consumed-has_id consumer t id msgs (ground arith) full new in
    elim (Bool-cases (text_eq id msg.message_id)) [
      | inr other ↦ rw other rest
      | inl same ↦
          let e = (text_eq_iff id msg.message_id).0 same in
          let full' = rw e at full in let new' = rw e at new in ground (arith, full', new')
    ]

all_consumed_mono :
    (consumer : Text) (t t' : Tables) (msgs : List BusMessage)
    → ((key : Text × Text) → is_consumed key t ≡ true → is_consumed key t' ≡ true)
    → all_consumed consumer t msgs ≡ true
    → all_consumed consumer t' msgs ≡ true
unfolding all_consumed
all_consumed_mono consumer t t' [] more h = refl
all_consumed_mono consumer t t' (msg ∷ msgs) more h =
    ground (arith, more (consumer, msg.message_id), all_consumed_mono consumer t t' msgs more)

-- The turns of the rest of the world are calls of the store by others, whatever they do to the breaker.
abbrev pub IsOthers : (c : Cassandra) (n : Node c) → Turn (runtime c n) → Type 0
IsOthers c n (passes move) =
    (s : CircuitBreaker × (c.Db × n.host.Rest))
    → (calls : List StoreCall) × ((move s).1.0 ≡ run_any c calls s.1.0)
IsOthers c n _ = Unit {0}

module _ (c : Cassandra) (lawful : IsLawful c) (n : Node c) (consumer : Text) where
  open c use {Db, tables}

  abbrev Breaking : Type 0
  Breaking = CircuitBreaker × (Db × n.host.Rest)

  run-consumed :
      (calls : List StoreCall) (db : Db) (key : Text × Text)
      → is_consumed key (tables db) ≡ true
      → is_consumed key (tables (run_any c calls db)) ≡ true
  run-consumed calls db key h = run_any-is_consumed c lawful key calls db h

  claim-keeps :
      (msg : BusMessage) (s : Breaking) (key : Text × Text)
      → is_consumed key (tables s.1.0) ≡ true
      → is_consumed key
          (tables (claim (runtime c n) (some (cass_store c n.host n.session)) consumer msg s).1.1.0)
        ≡ true
  unfolding claim store_claim_inbox_message with_store guarded cass_store step
  claim-keeps msg s key h =
      let kept =
        step-keeps c lawful (λ t. is_consumed key t ≡ true) Any Any (is_consumed-IsKept key)
          (consumes n.session (n.host.clock s.1.1 0) consumer msg.message_id) s.1.0 tt h in
      ground (arith, kept)

  -- A message with an identity that is to be written was not consumed, and is now.
  claim-granted :
      (msg : BusMessage) (s : Breaking)
      → is_empty msg.message_id ≡ false
      → let r = claim (runtime c n) (some (cass_store c n.host n.session)) consumer msg s in
        r.0 ≡ true
        → (is_consumed (consumer, msg.message_id) (tables s.1.0) ≡ false)
          × (is_consumed (consumer, msg.message_id) (tables r.1.1.0) ≡ true)
  unfolding claim store_claim_inbox_message with_store guarded cass_store
  claim-granted msg s named given =
      let now = n.host.clock s.1.1 0 in
      let r = claim_inbox_message c n.session now consumer msg.message_id s.1.0 in
      let done = claim-consumes c lawful n.session now consumer msg.message_id s.1.0 true in
      let refuses = claim-refuses c lawful n.session now consumer msg.message_id s.1.0 in
      ground (arith, done, refuses, Result-cases r.0)

  abbrev IsOnce : Feed × Breaking → Type 0
  IsOnce x =
      (are_distinct x.0.written ≡ true)
      × (all_consumed consumer (tables x.1.1.0) x.0.written ≡ true)

  written-IsOnce :
      (msg : BusMessage) (written : List BusMessage) (s : Breaking)
      → let r = claim (runtime c n) (some (cass_store c n.host n.session)) consumer msg s in
        are_distinct written ≡ true
        → all_consumed consumer (tables s.1.0) written ≡ true
        → all_consumed consumer (tables r.1.1.0) written ≡ true
        → r.0 ≡ true
        → (are_distinct (msg ∷ written) ≡ true)
          × (all_consumed consumer (tables r.1.1.0) (msg ∷ written) ≡ true)
  unfolding are_distinct all_consumed
  written-IsOnce msg written s distinct consumed kept given =
      elim (Bool-cases (is_empty msg.message_id)) [
        | inl bare ↦ rw bare (distinct, kept)
        | inr named ↦
            let (new, done) = claim-granted msg s named given in
            let absent =
              all_consumed-has_id consumer (tables s.1.0) msg.message_id written consumed named
                new in
            rw (named, absent, done) (distinct, kept)
      ]

  take_message-IsOnce :
      (channel written : List BusMessage) (s : Breaking)
      → are_distinct written ≡ true
      → all_consumed consumer (tables s.1.0) written ≡ true
      → IsOnce (
          take_message
            (runtime c n)
            (some (cass_store c n.host n.session))
            consumer
            channel
            written
            s)
  unfolding take_message
  take_message-IsOnce [] written s distinct consumed = (distinct, consumed)
  take_message-IsOnce (msg ∷ rest) written s distinct consumed =
      let r = claim (runtime c n) (some (cass_store c n.host n.session)) consumer msg s in
      let kept =
        all_consumed_mono consumer (tables s.1.0) (tables r.1.1.0) written (claim-keeps msg s)
          consumed in
      elim (Bool-cases r.0) [
        | inr refused ↦ rw (refused, take_message) (distinct, kept)
        | inl given ↦
            rw (given, take_message) (written-IsOnce msg written s distinct consumed kept given)
      ]

  stream_turn-IsOnce :
      (t : Turn (runtime c n)) (x : Feed × Breaking)
      → IsOthers c n t
      → IsOnce x
      → IsOnce (stream_turn (runtime c n) (some (cass_store c n.host n.session)) consumer t x)
  unfolding stream_turn offer
  stream_turn-IsOnce (arrives msg) x o h = ground (arith, h)
  stream_turn-IsOnce takes x o h = take_message-IsOnce x.0.channel x.0.written x.1 h.0 h.1
  stream_turn-IsOnce (passes move) x o h =
      let (calls, same) = o x.1 in
      (
        h.0,
        rw same (
            all_consumed_mono consumer (tables x.1.1.0) (tables (run_any c calls x.1.1.0))
              x.0.written (run-consumed calls x.1.1.0) h.1),
      )

  run_stream-IsOnce :
      (turns : List (Turn (runtime c n))) (x : Feed × Breaking)
      → All (IsOthers c n) turns
      → IsOnce x
      → IsOnce (run_stream (runtime c n) (some (cass_store c n.host n.session)) consumer turns x)
  unfolding run_stream
  run_stream-IsOnce [] x o h = h
  run_stream-IsOnce (t ∷ turns) x o h =
      run_stream-IsOnce turns
        (stream_turn (runtime c n) (some (cass_store c n.host n.session)) consumer t x) o.1
        (stream_turn-IsOnce t x o.0 h)

  -- A stream sends no message twice: among the messages that a client of /stream is sent, no identity
  -- but the empty one comes twice, however often the broker delivers, in whatever order the callback
  -- and the loop run, and whatever calls of the store others make in between, the cleanup included;
  -- any call may fail.
  pub run_stream-are_distinct :
      (turns : List (Turn (runtime c n))) (s : Breaking)
      → All (IsOthers c n) turns
      → are_distinct
          (run_stream
            (runtime c n)
            (some (cass_store c n.host n.session))
            consumer
            turns
            (empty_feed, s)).0.written
        ≡ true
  unfolding are_distinct all_consumed
  run_stream-are_distinct turns s o = (run_stream-IsOnce turns (empty_feed, s) o (refl, refl)).0
