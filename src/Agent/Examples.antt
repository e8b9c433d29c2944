-- ===== src/Agent/Examples.antt =====
-- A daemon whose file names an endpoint that answers 204, a repository without a token, and no address.
use xscope_hub.Prelude.{codes, true, false, none, some, [], ◌∷◌, ok, err, pos, ◌≡◌, refl}
use xscope_hub.Prelude.Logs.{debug, info, warn, line}
use xscope_hub.Agent.Daemon.{Config, Host, run_agent, run_command}
use xscope_hub.Agent.Settings.{Settings, load}
use xscope_hub.Agent.Analysis.{analysis}
use xscope_hub.Agent.Server.{Connections, new_server, run}
use xscope_hub.Case.Repository.{Codec, Call}
use xscope_hub.Case.Handlers.{Wire}
use xscope_hub.Agent.Server.{server_of}

abbrev unset : Config
unset = record {
  listen = [];
  response_format = [];
  postgres = record { url = codes "postgres://" };
  openobserve = record { endpoint = codes "http://o"; headers = [] };
  embedder = record { name = []; endpoint = [] };
  generator = record { models = []; endpoint = [] };
  github_pr = record {
    enabled = true;
    repo = codes "a/b";
    token_env = codes "TOKEN";
    pr = record { number = pos 0; title = []; branch = []; commit_message = []; files = [] };
  };
  file_report = record { enabled = false; path = []; format = [] };
  answer = record { enabled = false; channel = [] };
  webhook = record { enabled = false; url = []; headers = [] };
  routing = record { default = []; on_action = []; on_error = [] };
}

abbrev host : Host
host = record {
  reborn = ok true;
  read_file = λ path. ok path;
  decode_yaml = λ content. ok unset;
  getenv = λ key. [];
  open_error = λ url. none;
  ping_error = λ url. some (codes "refused");
  request_error = λ url. none;
  get = λ url headers. ok 204;
  mkdir_error = λ path. none;
}

daemon_without_address : run_agent host (codes "f") ≡ (
  err (codes "server.api.listen must be set in config"),
  line warn (codes "inputs.postgres ping failed") ((codes "error", codes "refused") ∷ [])
      ∷ line info
          (codes "request")
          ((codes "target", codes "inputs.openobserve") ∷ (codes "endpoint", codes "http://o") ∷ [])
      ∷ line info
          (codes "inputs.openobserve reachable")
          ((codes "endpoint", codes "http://o") ∷ (codes "status", codes "204") ∷ [])
      ∷ line debug (codes "models.embedder not configured") []
      ∷ line debug (codes "models.generator not configured") []
      ∷ line warn (codes "outputs.github_pr token missing") ((codes "env", codes "TOKEN") ∷ [])
      ∷ line info (codes "request") (
          (codes "target", codes "outputs.github_pr")
          ∷ (codes "endpoint", codes "https://api.github.com/repos/a/b")
          ∷ [])
      ∷ line info (codes "outputs.github_pr reachable") (
          (codes "endpoint", codes "https://api.github.com/repos/a/b")
          ∷ (codes "status", codes "204")
          ∷ [])
      ∷ [],
)
unfolding run_agent
daemon_without_address = refl

parent_left : run_command host true (codes "f") ≡ none
unfolding run_command
parent_left = refl

port_dropped : Settings.port (load (λ key. codes "x80")) ≡ pos 0
unfolding load
port_dropped = refl

nothing_reported : analysis Unit ≡ []
unfolding analysis
nothing_reported = refl

abbrev settings : Settings
settings = record {
  port = pos 8080;
  database_url = codes "postgres://";
  otlp_endpoint = [];
  nats_url = codes "nats://";
  kafka_brokers = codes "k:9092" ∷ [];
}

abbrev connected : Connections
connected = record {
  open_error = λ url. none;
  ping_error = λ url. none;
  pool_error = λ url. none;
  nats_error = λ url. none;
}

abbrev wire : Wire
wire = record {
  bind_create = λ body. err (codes "EOF");
  bind_transition = λ body. err (codes "EOF");
  parse_uuid = λ id. ok 7;
  error_text = λ e. codes "failed";
}

nats_down :
    (codec : Codec) (call : Call)
    → new_server (record connected { nats_error = λ url. some url }) wire codec call settings
      ≡ err (codes "nats://")
unfolding new_server
nats_down codec call = refl

server_address :
    (codec : Codec) (call : Call)
    → run (server_of connected wire codec call settings) ≡ codes ":8080"
unfolding run
server_address codec call = refl
