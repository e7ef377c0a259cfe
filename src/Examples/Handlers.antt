-- ===== src/Examples/Handlers.antt =====
-- A request to publish, with a broker that fails once and a lane for one request.
use shiro_distributed_system.Common.{ℕ, ◌≡◌, refl, none, some, [], Text, pos, codes, ◌-◌, ltb}
use shiro_distributed_system.Limiter.{Rate}
use shiro_distributed_system.SubjectLimiter.{new_subject_rate_limiter}
use shiro_distributed_system.Handler.{
  PublishRequest, Payload, object, fill, event_of, acquire_guard, Server, answer,
  handle_publish_event,
}
use shiro_distributed_system.Handler.Acknowledged.{IsBackedBy, handle_publish_event-IsBackedBy}
use shiro_distributed_system.Handler.Refused.{handle_publish_event-refuses}
use shiro_distributed_system.Examples.Publishing.{counting, broker, store, settings, breaker}

abbrev pub tokens_left : Rate
tokens_left = record {
  Limiter = ℕ;
  new_limiter = λ r b. b;
  take_token = λ lim now. (lim - 1, ltb 0 lim);
}

abbrev pub decode : Text → Payload
decode text = object []

abbrev pub request : PublishRequest
request = record {
  stream = codes "orders";
  subject = [];
  event_type = codes "order.created";
  schema_version = pos 0;
  idempotency_key = [];
  payload = codes "{}";
}

abbrev server : Server counting tokens_left
server = record {
  lane = record { used = 0; capacity = 1 };
  limiter = new_subject_rate_limiter tokens_left 100 (pos 200) [];
  state = (breaker, (breaker, (0, 0)));
}

handle_publish_event-IsBackedBy_example :
    IsBackedBy store
      (event_of 0 (fill (codes "k1") request))
      (0, 0)
      (handle_publish_event counting tokens_left decode settings
        (some broker)
        (some store)
        none
        (codes "k1")
        (some request)
        server).0
handle_publish_event-IsBackedBy_example =
    handle_publish_event-IsBackedBy counting tokens_left decode settings broker store none
      (codes "k1") request server

-- A body that is no JSON.
handle_publish_event-refuses_example :
    (handle_publish_event counting tokens_left decode settings
      (some broker)
      (some store)
      none
      (codes "k1")
      none
      server).1.state
    ≡ server.state
unfolding handle_publish_event acquire_guard answer
handle_publish_event-refuses_example =
    handle_publish_event-refuses counting tokens_left decode settings (some broker) (some store)
      none (codes "k1") none server refl
