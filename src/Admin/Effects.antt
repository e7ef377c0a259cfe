-- ===== src/Admin/Effects.antt =====
-- What the handlers do to the tables (internal/core/app.go over
-- internal/modules/cassstore/module.go).
use shiro_distributed_system.Common.{
  ◌≡◌, inl, inr, refl, ℕ, true, false, some, Text, ℤ, arith, codes, is_empty, trim_space,
  Result-cases, nat_key,
}
use shiro_distributed_system.Common.Assoc.{Map, lookup}
use shiro_distributed_system.Breaker.{CircuitBreaker}
use shiro_distributed_system.Publish.{guarded, with_store, store_recent_events}
use shiro_distributed_system.Handler.{Lane, acquire_guard, release_guard}
use shiro_distributed_system.Cass.Tables.{Tables, StreamKey, Message, DeadRow, OutboxRow}
use shiro_distributed_system.Cass.Driver.{Cassandra, IsLawful, IsReliable, Module}
use shiro_distributed_system.Cass.Inbox.{recent_events}
use shiro_distributed_system.Cass.DeadLetters.{list_dead_letters}
use shiro_distributed_system.Cass.DeadLetters.Replay.{IsRequeued, replay_dead_letter-IsRequeued}
use shiro_distributed_system.Cass.Calls.Preserve.{
  Keeps-query, Keeps-return, Keeps-bind, Keeps-with_session,
}
use shiro_distributed_system.System.{cass_advanced, cass_store, Node, runtime}
use shiro_distributed_system.Admin.{
  HttpRequest, replayed, limit_of, stream_of, is_post, listing, handle_dead_letters,
  handle_replay_dead_letter, handle_list_events,
}

module _ (c : Cassandra) (lawful : IsLawful c) where
  open c use {Db, tables}

  recent_events-reads :
      (m : Module) (stream : Text) (limit : ℤ) (db : Db)
      → tables (recent_events c m stream limit db).1 ≡ tables db
  unfolding recent_events
  recent_events-reads m stream limit db =
      let I : Tables → Type 0 = λ t. t ≡ tables db in
      (Keeps-with_session c lawful I m _ (
          Keeps-bind c lawful I _ _ (Keeps-query c lawful I (Map StreamKey Message) _)
            (λ rows. Keeps-return c lawful I _))).at
        db refl

  list_dead_letters-reads :
      (m : Module) (limit : ℤ) (db : Db) → tables (list_dead_letters c m limit db).1 ≡ tables db
  unfolding list_dead_letters
  list_dead_letters-reads m limit db =
      let I : Tables → Type 0 = λ t. t ≡ tables db in
      (Keeps-with_session c lawful I m _ (
          Keeps-bind c lawful I _ _ (Keeps-query c lawful I (Map (ℕ × ℕ) DeadRow) _)
            (λ rows. Keeps-return c lawful I _))).at
        db refl

  store_recent_events-reads :
      (n : Node c) (stream : Text) (limit : ℤ) (s : CircuitBreaker × (Db × n.host.Rest))
      → tables
          (store_recent_events
            (runtime c n)
            (some (cass_store c n.host n.session))
            stream
            limit
            s).1.1.0
        ≡ tables s.1.0
  unfolding store_recent_events with_store guarded cass_store
  store_recent_events-reads n stream limit s =
      ground (arith, recent_events-reads n.session stream limit s.1.0)

  listing-reads :
      (n : Node c) (r : HttpRequest) (s : CircuitBreaker × (Db × n.host.Rest))
      → tables (listing (runtime c n) (cass_store c n.host n.session) r s).1.1.0 ≡ tables s.1.0
  unfolding listing
  listing-reads n r s =
      let found =
        store_recent_events (runtime c n) (some (cass_store c n.host n.session))
          (stream_of (runtime c n) r) (limit_of r) s in
      let same = store_recent_events-reads n (stream_of (runtime c n) r) (limit_of r) s in
      elim (Result-cases found.0) [
        | inl (x, e) ↦ rw (e, listing) same
        | inr (x, e) ↦ rw (e, listing) same
      ]

  -- GET /events changes no table, whatever its parameters and whether it succeeds, and gives its place
  -- in the query lane back.
  handle_list_events-reads :
      (n : Node c) (r : HttpRequest) (lane : Lane) (s : CircuitBreaker × (Db × n.host.Rest))
      → let after =
          (handle_list_events (runtime c n) (some (cass_store c n.host n.session)) r (lane, s)).1 in
        (after.0 ≡ lane) × (tables after.1.1.0 ≡ tables s.1.0)
  unfolding handle_list_events acquire_guard release_guard
  handle_list_events-reads n r lane s = ground (arith, listing-reads n r s)

  handle_dead_letters-reads :
      (n : Node c) (r : HttpRequest) (w : Db × n.host.Rest)
      → tables (handle_dead_letters (some (cass_store c n.host n.session)) r w).1.0 ≡ tables w.0
  unfolding handle_dead_letters cass_store cass_advanced
  handle_dead_letters-reads n r w =
      ground (arith, list_dead_letters-reads n.session (limit_of r) w.0)

  -- POST /deadletters/replay, with a session that does not fail: the dead letter whose identity is the
  -- parameter `id`, but for the space around it, is answered with that identity and is back in the
  -- outbox, with its message, at its old time, due from now on, and no longer a dead letter.
  pub handle_replay_dead_letter-IsRequeued :
      (reliable : IsReliable c) (n : Node c) (r : HttpRequest) (id : ℕ) (dead : DeadRow)
      (row : OutboxRow) (w : Db × n.host.Rest)
      → is_post r ≡ true
      → is_empty (trim_space (r.query (codes "id"))) ≡ false
      → n.session.session ≡ true
      → c.parse_uuid (trim_space (r.query (codes "id"))) ≡ some id
      → lookup id (tables w.0).dead_letters_by_id ≡ some dead
      → lookup id (tables w.0).outbox_events ≡ some row
      → let done = handle_replay_dead_letter (some (cass_store c n.host n.session)) r w in
        (done.0 ≡ replayed (trim_space (r.query (codes "id"))))
        × IsRequeued id dead row.occurred_at (n.host.clock w.1 0) (tables done.1.0)
  unfolding handle_replay_dead_letter cass_store cass_advanced
  handle_replay_dead_letter-IsRequeued reliable n r id dead row w post present on parsed is_dead
        there =
      let (e, requeued) =
        replay_dead_letter-IsRequeued c lawful reliable n.session (n.host.clock w.1 0)
          (trim_space (r.query (codes "id"))) id dead row w.0 on parsed is_dead there in
      rw (post, present, e, handle_replay_dead_letter) (refl, requeued)
