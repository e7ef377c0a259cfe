-- ===== src/Examples/Modules.antt =====
-- A module that starts at its third attempt, and a broker that counts.
use shiro_distributed_system.Common.{
  ℕ, suc, ◌≡◌, refl, true, false, [], codes, leb, ltb, min, ok, err, arith, Result, if◌then◌else◌,
}
use shiro_distributed_system.Contracts.{Error, failed}
use shiro_distributed_system.Interfaces.{Runtime}
use shiro_distributed_system.Lifecycle.{AppModule, start_module_with_retry}
use shiro_distributed_system.Lifecycle.Starts.{
  is_ok, max_attempts, FailsFirst, start_module_with_retry-value,
}
use shiro_distributed_system.Nats.{NatsSettings, PubAck, Client, publish_nats, broker_id}
use shiro_distributed_system.Nats.Ids.{publish_nats_injective}
use shiro_distributed_system.Examples.Memory.{defaults}

abbrev patient : Runtime
patient = record { World = ℕ; now = λ w. 0; wait = λ d w. (true, w); error_text = λ e. [] }

abbrev answer : ℕ → Result Error (Unit {0})
answer n = if leb 2 n then ok tt else err (failed (codes "refused"))

abbrev slow : AppModule ℕ
slow = record {
  name = codes "cassstore";
  start = λ w. (answer w, suc w);
  ready = λ w. (ok tt, w);
  stop = λ w. (ok tt, w);
}

slow-FailsFirst : FailsFirst patient slow (λ w. w) 2
slow-FailsFirst = record {
  start_counts = λ w. refl;
  start_answers = λ w. ground arith;
  wait_counts = λ d w. refl;
  wait_fires = λ d w. refl;
}

start_module_with_retry-value_example :
    let r = start_module_with_retry patient defaults slow 0 in
    (is_ok r.0 ≡ ltb 2 (max_attempts defaults)) × (r.1 ≡ min 3 (max_attempts defaults))
start_module_with_retry-value_example =
    start_module_with_retry-value patient slow (λ w. w) 2 slow-FailsFirst defaults 0 refl

-- Its world is the last sequence number.
abbrev sequencer : Client ℕ
sequencer = record {
  connect = λ url opts w. (ok tt, w);
  jet_stream = λ w. (ok tt, w);
  stream_info = λ name w. (ok tt, w);
  add_stream = λ name subjects w. (ok tt, w);
  close = λ w. w;
  drain = λ w. (ok tt, w);
  is_connected = λ w. true;
  is_done = λ w. false;
  publish_msg = λ msg w. (ok (record { stream = codes "a:1"; sequence = suc w }), suc w);
  subscribe = λ subject w. (ok tt, w);
}

abbrev nats : NatsSettings
nats = record {
  url = codes "nats://localhost:4222";
  stream_name = codes "SHIRO";
  user = [];
  password = [];
  token = [];
  tls = record {
    ca_file = [];
    cert_file = [];
    key_file = [];
    server_name = [];
    insecure_skip_verify = false;
  };
}

publish_nats_injective_example :
    (a : PubAck) × (a' : PubAck) × ((sequencer.publish_msg
        (record { subject = codes "s"; payload = []; msg_id = codes "m" })
        4).0
      ≡ ok a)
    × ((sequencer.publish_msg
          (record { subject = codes "t"; payload = []; msg_id = codes "n" })
          4).0
        ≡ ok a')
    × (a.stream ≡ a'.stream)
    × (a.sequence ≡ a'.sequence)
unfolding publish_nats broker_id
publish_nats_injective_example =
    publish_nats_injective sequencer nats (codes "s") (codes "t") [] [] (codes "m") (codes "n")
      (broker_id (record { stream = codes "a:1"; sequence = 5 })) (true, 4) (true, 4) refl refl
