-- ===== src/Agent/Server.antt =====
-- llm-ops-agent/internal/server/server.go. `Connections` is the drivers that it calls: the error that
-- each gives for a URL, if any. The middleware and the file of the API are left out.
use xscope_hub.Prelude.{Bytes, codes, Option, none, some, List, ◌++◌, Outcome, ok, err}
use xscope_hub.Prelude.Print.{format_int}
use xscope_hub.Case.Repository.{Codec, Call}
use xscope_hub.Case.Handlers.{Wire}
use xscope_hub.Case.Routes.{Route, register_routes}
use xscope_hub.Agent.Settings.{Settings}

pub record Connections : Type 0 where
  pub open_error : Bytes → Option Bytes
  pub ping_error : Bytes → Option Bytes
  pub pool_error : Bytes → Option Bytes
  pub nats_error : Bytes → Option Bytes

-- What events are written to: the brokers and the topic.
pub record EventWriter : Type 0 where
  pub brokers : List Bytes
  pub topic : Bytes

pub record Server : Type 0 where
  pub cfg : Settings
  pub routes : List Route
  pub kafka : EventWriter

-- The error, or else what comes next.
abbrev pub unless_error : {A : Type 0} → Option Bytes → Outcome Bytes A → Outcome Bytes A
unless_error (some e) next = err e
unless_error none next = next

module _ (connections : Connections) (wire : Wire) (codec : Codec) (call : Call) where
  abbrev pub server_of : Settings → Server
  server_of cfg = record {
    cfg = cfg;
    routes = register_routes wire codec call;
    kafka = record { brokers = cfg.kafka_brokers; topic = codes "events" };
  }

  -- `New`
  unfoldable pub new_server : Settings → Outcome Bytes Server
  unfolding register_routes
  new_server cfg = unless_error (connections.open_error cfg.database_url) (
      unless_error (connections.ping_error cfg.database_url) (
        unless_error (connections.pool_error cfg.database_url)
          (unless_error (connections.nats_error cfg.nats_url) (ok (server_of cfg)))))

-- The address that `Run` listens on.
unfoldable pub run : Server → Bytes
unfolding format_int
run server = codes ":" ++ format_int server.cfg.port
