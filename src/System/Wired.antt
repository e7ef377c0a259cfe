-- ===== src/System/Wired.antt =====
-- A node as cmd/controlplane/main.go wires it: the bus of internal/modules/natsbus/module.go and the
-- store of internal/modules/cassstore/module.go.
use shiro_distributed_system.Common.{◌≡◌, refl, ℕ, Bool, List, [], Text, ℤ}
use shiro_distributed_system.Config.{Config}
use shiro_distributed_system.Contracts.{Error}
use shiro_distributed_system.Limiter.{Rate}
use shiro_distributed_system.Interfaces.{EventBus}
use shiro_distributed_system.Handler.{Payload}
use shiro_distributed_system.App.{nats_settings}
use shiro_distributed_system.Nats.{Client, publish_nats, subscribe_nats}
use shiro_distributed_system.Cass.Driver.{Cassandra, Module}
use shiro_distributed_system.Cass.Calls.{Call, run}
use shiro_distributed_system.System.{Host, Node}
use shiro_distributed_system.System.Keeps.{OthersCall}

-- What is left to the surroundings of a node: its clock and ids, its timers, its rates, and decoding.
pub record Site (c : Cassandra) (Net : Type 0) : Type 1 where
  pub client : Client Net
  pub outer : Host
  pub now : c.Db × ((Bool × Net) × outer.Rest) → ℕ
  pub wait : ℤ → c.Db × ((Bool × Net) × outer.Rest) → Bool × (c.Db × ((Bool × Net) × outer.Rest))
  pub error_text : Error → Text
  pub rate : Rate
  pub decode : Text → Payload

module _ (c : Cassandra) (Net : Type 0) (site : Site c Net) (cfg : Config) (session : Module) where
  open site use {client, outer}

  -- The state of the bus is beside the rest of the host's.
  abbrev pub nats_host : Host
  nats_host = record {
    Rest = (Bool × Net) × outer.Rest;
    clock = λ e. outer.clock e.1;
    time_uuid = λ e. outer.time_uuid e.1;
    intn = λ e. outer.intn e.1;
    tick = λ e. (e.0, outer.tick e.1);
  }

  unfoldable pub wired_bus : EventBus (c.Db × nats_host.Rest)
  wired_bus = record {
    publish = λ subject payload id w.
        let r = publish_nats client (nats_settings cfg) subject payload id w.1.0 in
        (r.0, (w.0, (r.1, w.1.1)));
    subscribe = λ subject w.
        let r = subscribe_nats client (nats_settings cfg) subject w.1.0 in
        (r.0, (w.0, (r.1, w.1.1)));
  }

  unfoldable pub wired_node : Node c
  unfolding wired_bus
  wired_node = record {
    config = cfg;
    host = nats_host;
    session = session;
    now = site.now;
    wait = site.wait;
    error_text = site.error_text;
    bus = wired_bus;
    rate = site.rate;
    decode = site.decode;
  }

  -- The broker touches no table: only while a timer runs may others call the store.
  wired_node-OthersCall :
      ((d : ℤ) (w : c.Db × nats_host.Rest)
        → (calls : List Call) × ((site.wait d w).1.0 ≡ run c calls w.0))
      → OthersCall c wired_node
  unfolding wired_node run
  wired_node-OthersCall waits = record {
    publish_calls = λ subject payload id w. ([], refl);
    wait_calls = λ d w. waits d w;
  }
