-- ===== src/System/Once.antt =====
-- A key over several requests, from the request to the tables (internal/core/app.go over
-- internal/modules/cassstore/module.go).
use shiro_distributed_system.Common.{
  ◌≡◌, ◌≤◌, All, inl, inr, refl, subst, ℕ, Bool, false, Option, some, List, Text, arith, is_empty,
  ok, Result,
}
use shiro_distributed_system.Contracts.{Error, AppendResult}
use shiro_distributed_system.Handler.{PublishRequest, fill, event_of, Server}
use shiro_distributed_system.Handler.Acknowledged.{handle_publish_event-IsBackedBy}
use shiro_distributed_system.Handler.Keeps.{id_of, handle_publish_event-keeps}
use shiro_distributed_system.Cass.Driver.{Cassandra, IsLawful}
use shiro_distributed_system.Cass.Append.{with_defaults}
use shiro_distributed_system.Cass.Append.Keys.{holder, IsDuplicateOf, append-held}
use shiro_distributed_system.Cass.Append.Once.{append-holder, holder-IsKept}
use shiro_distributed_system.Cass.Calls.Cleaned.{StoreCall, run_any, IsAllowed}
use shiro_distributed_system.Cass.Cleanup.Young.{IsDated, run_any-IsProtected}
use shiro_distributed_system.System.Keeps.{OthersCall, AreKept-cass, IsBackedBy-append}
use shiro_distributed_system.System.{cass_store, Node, runtime, post_event}

-- The key under which a request's event is stored.
key_of :
    (now now' at at' : ℕ) (req req' : PublishRequest)
    → req'.stream ≡ req.stream
    → req'.idempotency_key ≡ req.idempotency_key
    → let key : Text × Text = ((with_defaults at (event_of now req)).stream, req.idempotency_key) in
      let key' : Text × Text =
        ((with_defaults at' (event_of now' req')).stream, req'.idempotency_key) in
      key ≡ key'
unfolding with_defaults event_of
key_of now now' at at' req req' same_stream same_key = rw (same_stream, same_key) refl

-- The stream and the key under which a node stores the event of a request.
abbrev pub stored_key :
    (c : Cassandra) (n : Node c) → PublishRequest → c.Db × n.host.Rest → Text × Text
stored_key c n req w =
    let event = event_of (n.now w) req in
    ((with_defaults (n.host.clock w.1 0) event).stream, event.idempotency_key)

module _ (c : Cassandra) (lawful : IsLawful c) where
  open c use {tables}

  IsDuplicateOf-id :
      (h : ℕ) (db : c.Db) (r : Result Error AppendResult × c.Db) (a : AppendResult)
      → IsDuplicateOf c h db r
      → r.0 ≡ ok a
      → a.event.id ≡ c.uuid_string h
  IsDuplicateOf-id h db r a (_, inl (x, e)) e' = ground (arith, e, e')
  IsDuplicateOf-id h db r a (_, inr (b, e, same, _)) e' = ground (arith, e, e', same)

  -- POST /events is idempotent per key and stream, across the nodes of the service: once a request with
  -- a key has been answered with the identity of an event, a later request with the same key and
  -- stream, at this or another node and with whatever body, is answered with an error or with that
  -- same identity. In between anyone may call any operation of the store, the cleanup included, in any
  -- order, and any call may fail, as long as no cleanup forgets keys younger than a time `start` that
  -- is no later than when any of these appends indexes its key, or than what the index dates the key
  -- when the first request is answered. While the first request is handled, others may call any
  -- operation but the cleanup.
  pub post_event-idempotent :
      (n n' : Node c) (others : OthersCall c n) (leads leads' : Option Bool) (header header' : Text)
      (req req' : PublishRequest) (s : Server (runtime c n) n.rate)
      (s' : Server (runtime c n') n'.rate) (calls : List StoreCall) (start : ℕ) (id id' : Text)
      → is_empty (fill header req).idempotency_key ≡ false
      → (fill header' req').idempotency_key ≡ (fill header req).idempotency_key
      → (fill header' req').stream ≡ (fill header req).stream
      → id_of (post_event c n leads header req s).0 ≡ some id
      → IsDated
          (stored_key c n (fill header req) s.state.1.1)
          start
          (tables (post_event c n leads header req s).1.state.1.1.0)
      → All (IsAllowed (λ at. start ≤ at) (λ before. before ≤ start)) calls
      → s'.state.1.1.0 ≡ run_any c calls (post_event c n leads header req s).1.state.1.1.0
      → id_of (post_event c n' leads' header' req' s').0 ≡ some id'
      → id' ≡ id
  unfolding cass_store event_of
  post_event-idempotent n n' others leads leads' header header' req req' s s' calls start id id'
        keyed same_key same_stream given dated allowed between given' =
      let w = s.state.1.1 in
      let w' = s'.state.1.1 in
      let event = event_of (n.now w) (fill header req) in
      let event' = event_of (n'.now w') (fill header' req') in
      let st = cass_store c n.host n.session in
      let st' = cass_store c n'.host n'.session in
      let (a, e, named) =
        IsBackedBy-append c lawful n event w (post_event c n leads header req s).0 id
          (handle_publish_event-IsBackedBy (runtime c n) n.rate n.decode n.config n.bus st leads
            header req s)
          given in
      let (a', e', named') =
        IsBackedBy-append c lawful n' event' w' (post_event c n' leads' header' req' s').0 id'
          (handle_publish_event-IsBackedBy (runtime c n') n'.rate n'.decode n'.config n'.bus st'
            leads' header' req' s')
          given' in
      let (h, held, same) =
        append-holder c lawful n.session (n.host.clock w.1) (n.host.time_uuid w.1) event w.0 a keyed
          e in
      let key = stored_key c n (fill header req) w in
      let kept =
        handle_publish_event-keeps (runtime c n) n.rate n.decode n.bus st
          (λ w. holder key (tables w.0) ≡ some h)
          (AreKept-cass c lawful n others (λ t. holder key t ≡ some h) (holder-IsKept key h))
          n.config leads header req s id given held in
      let later : holder key (tables w'.0) ≡ some h =
        rw between (run_any-IsProtected c lawful key h start calls _ allowed (kept, dated)).0 in
      let duplicate =
        append-held c lawful n'.session (n'.host.clock w'.1) (n'.host.time_uuid w'.1) event' h w'.0
          (rw same_key keyed)
          (subst (λ k. holder k (tables w'.0) ≡ some h)
            (key_of _ _ _ _ (fill header req) (fill header' req') same_stream same_key) later) in
      ground (arith, named, named', same, IsDuplicateOf-id h w'.0 _ a' duplicate e')
