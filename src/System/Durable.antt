-- ===== src/System/Durable.antt =====
-- No acknowledged event is lost (internal/core/app.go over internal/modules/cassstore/module.go).
use shiro_distributed_system.Common.{
  ok, ap, subst, ◌≢◌, ◌⊎◌, All, ◌≡◌, ◌∙◌, sym, ℕ, Bool, true, Option, some, List, Text,
}
use shiro_distributed_system.Handler.{PublishRequest, fill, event_of, Server}
use shiro_distributed_system.Handler.Acknowledged.{handle_publish_event-IsBackedBy}
use shiro_distributed_system.Handler.Keeps.{id_of, handle_publish_event-keeps}
use shiro_distributed_system.Cass.Driver.{Cassandra, IsLawful}
use shiro_distributed_system.Cass.Append.Durable.{
  IsStored, row_of, IsStored-IsKept, append-IsWritten,
}
use shiro_distributed_system.Cass.Calls.Cleaned.{StoreCall, IsSpared, run_any, run_any-keeps_spared}
use shiro_distributed_system.Contracts.{AppendResult}
use shiro_distributed_system.Cass.Append.{with_defaults, append_event_exactly_once}
use shiro_distributed_system.Cass.Cleanup.{forget_key, drop_dead_letter}
use shiro_distributed_system.System.Keeps.{OthersSpare, AreKept-spared, IsBackedBy-append}
use shiro_distributed_system.System.{cass_store, Node, runtime, post_event}

module _ (c : Cassandra) (lawful : IsLawful c) where
  open c use {tables}

  -- An acknowledged event keeps its contents: once POST /events has answered with the identity of an
  -- event, the append of the request's event returned an event of that identity, which is the
  -- request's own, with its defaults, or is reported as a duplicate; and the row of the table of
  -- events under that identity has the stream, subject, type, payload and time of the event that was
  -- returned, and keeps them whatever calls of the store anyone makes after the request, the cleanup
  -- included, and any but the cleanup while it is handled, in any order and whether they succeed or
  -- fail, as long as no other append is given the same identity.
  pub post_event-durable :
      (n : Node c) (id : Text) (others : OthersSpare c n (λ e. c.uuid_string e ≢ id))
      (leads : Option Bool) (header : Text) (req : PublishRequest) (s : Server (runtime c n) n.rate)
      (calls : List StoreCall)
      → All (IsSpared (λ e. c.uuid_string e ≢ id)) calls
      → id_of (post_event c n leads header req s).0 ≡ some id
      → let w = s.state.1.1 in
        let event = event_of (n.now w) (fill header req) in
        (a : AppendResult) × ((append_event_exactly_once c n.session
            (n.host.clock w.1)
            (n.host.time_uuid w.1)
            event
            w.0).0
          ≡ ok a)
        × (a.event.id ≡ id)
        × ((a.duplicate ≡ true)
            ⊎ (a.event ≡ record (with_defaults (n.host.clock w.1 0) event) { id = id }))
        × (h : ℕ) × (id ≡ c.uuid_string h)
        × IsStored h
            (row_of a.event)
            (tables (run_any c calls (post_event c n leads header req s).1.state.1.1.0))
  unfolding cass_store forget_key drop_dead_letter
  post_event-durable n id others leads header req s calls spared given =
      let w = s.state.1.1 in
      let event = event_of (n.now w) (fill header req) in
      let st = cass_store c n.host n.session in
      let Fresh : ℕ → Type 0 = λ e. c.uuid_string e ≢ id in
      let (a, e, named) =
        IsBackedBy-append c lawful n event w (post_event c n leads header req s).0 id
          (handle_publish_event-IsBackedBy (runtime c n) n.rate n.decode n.config n.bus st leads
            header req s)
          given in
      let (h, same, written, whose) =
        append-IsWritten c lawful n.session (n.host.clock w.1) (n.host.time_uuid w.1) event w.0 a
          e in
      let id_same = sym named ∙ same in
      let k =
        IsStored-IsKept h (row_of a.event) Fresh
          (λ new fresh is. fresh (ap c.uuid_string is ∙ sym id_same)) in
      let kept =
        handle_publish_event-keeps (runtime c n) n.rate n.decode n.bus st
          (λ w. IsStored h (row_of a.event) (tables w.0))
          (AreKept-spared c lawful n Fresh others (IsStored h (row_of a.event)) k) n.config leads
          header req s id given written in
      (
        a,
        e,
        named,
        subst
            (λ i.
              (a.duplicate ≡ true)
              ⊎ (a.event ≡ record (with_defaults (n.host.clock w.1 0) event) { id = i }))
            (sym id_same) whose,
        h,
        id_same,
        run_any-keeps_spared c lawful (IsStored h (row_of a.event)) Fresh k (λ k t h. h)
            (λ k t h. h) calls _ spared kept,
      )
