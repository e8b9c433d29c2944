-- ===== src/Agent/Daemon.antt =====
-- llm-ops-agent/cmd/main.go: the configuration, the checks whose results are logged, and the
-- address that the daemon listens on. `Host` is what the checks call: the database driver, HTTP, the
-- file system, the environment and the library that makes a daemon. gin is left out.
use xscope_hub.Prelude.{
  ℕ, Bytes, codes, Bool, true, false, Option, none, some, List, [], ◌∷◌, ◌++◌, Outcome, ok, err,
  if◌then◌else◌, is_empty, Dict, ℤ,
}
use xscope_hub.Prelude.Logs.{debug, info, warn, error, Line, line}
use xscope_hub.Prelude.Print.{format_nat}

pub record Postgres : Type 0 where
  pub url : Bytes

pub record OpenObserve : Type 0 where
  pub endpoint : Bytes
  pub headers : Dict Bytes

pub record Embedder : Type 0 where
  pub name : Bytes
  pub endpoint : Bytes

pub record Generator : Type 0 where
  pub models : List Bytes
  pub endpoint : Bytes

pub record PullRequest : Type 0 where
  pub number : ℤ
  pub title : Bytes
  pub branch : Bytes
  pub commit_message : Bytes
  -- From and to.
  pub files : List (Bytes × Bytes)

pub record GithubPr : Type 0 where
  pub enabled : Bool
  pub repo : Bytes
  pub token_env : Bytes
  pub pr : PullRequest

pub record FileReport : Type 0 where
  pub enabled : Bool
  pub path : Bytes
  pub format : Bytes

pub record ChatAnswer : Type 0 where
  pub enabled : Bool
  pub channel : Bytes

pub record Webhook : Type 0 where
  pub enabled : Bool
  pub url : Bytes
  pub headers : Dict Bytes

pub record Routing : Type 0 where
  pub default : List Bytes
  pub on_action : Dict (List Bytes)
  pub on_error : List Bytes

pub record Config : Type 0 where
  pub listen : Bytes
  pub response_format : Bytes
  pub postgres : Postgres
  pub openobserve : OpenObserve
  pub embedder : Embedder
  pub generator : Generator
  pub github_pr : GithubPr
  pub file_report : FileReport
  pub answer : ChatAnswer
  pub webhook : Webhook
  pub routing : Routing

pub record Host : Type 0 where
  -- `Reborn`: whether this is the parent of a new child.
  pub reborn : Outcome Bytes Bool
  pub read_file : Bytes → Outcome Bytes Bytes
  pub decode_yaml : Bytes → Outcome Bytes Config
  pub getenv : Bytes → Bytes
  -- The error of `sql.Open`, and of the ping.
  pub open_error : Bytes → Option Bytes
  pub ping_error : Bytes → Option Bytes
  -- The error of `http.NewRequest`, and what a GET with headers gives: a status.
  pub request_error : Bytes → Option Bytes
  pub get : Bytes → Dict Bytes → Outcome Bytes ℕ
  -- The error of making the directory of a path.
  pub mkdir_error : Bytes → Option Bytes

module _ (host : Host) where
  abbrev pub decoded : Outcome Bytes Bytes → Outcome Bytes Config
  decoded (err e) = err e
  decoded (ok content) = host.decode_yaml content

  -- `loadConfig`
  unfoldable pub load_config : Bytes → Outcome Bytes Config
  load_config path = decoded (host.read_file path)

  abbrev pub pinged : Option Bytes → List Line
  pinged (some e) = line warn (codes "inputs.postgres ping failed") ((codes "error", e) ∷ []) ∷ []
  pinged none = line info (codes "inputs.postgres reachable") [] ∷ []

  abbrev pub opened : Bytes → Option Bytes → List Line
  opened url (some e) =
      line error (codes "inputs.postgres connection") ((codes "error", e) ∷ []) ∷ []
  opened url none = pinged (host.ping_error url)

  -- `checkPostgres`
  unfoldable pub check_postgres : Bytes → List Line
  check_postgres url = opened url (host.open_error url)

  abbrev pub reached : Bytes → Bytes → Outcome Bytes ℕ → Line
  reached name url (err e) =
      line warn (name ++ codes " unreachable") ((codes "endpoint", url) ∷ (codes "error", e) ∷ [])
  reached name url (ok status) =
      line info (name ++ codes " reachable")
        ((codes "endpoint", url) ∷ (codes "status", format_nat status) ∷ [])

  abbrev pub requested : Bytes → Bytes → Dict Bytes → Option Bytes → List Line
  requested name url headers (some e) =
      line error (name ++ codes " request") ((codes "endpoint", url) ∷ (codes "error", e) ∷ []) ∷ []
  requested name url headers none =
      line info (codes "request") ((codes "target", name) ∷ (codes "endpoint", url) ∷ [])
      ∷ reached name url (host.get url headers)
      ∷ []

  -- `checkHTTP`
  unfoldable pub check_http : Bytes → Bytes → Dict Bytes → List Line
  unfolding format_nat
  check_http name url headers =
      if is_empty url
      then line debug (name ++ codes " not configured") [] ∷ []
      else requested name url headers (host.request_error url)

  abbrev pub made : Bytes → Option Bytes → Line
  made path (some e) =
      line warn (codes "outputs.file_report inaccessible")
        ((codes "path", path) ∷ (codes "error", e) ∷ [])
  made path none = line info (codes "outputs.file_report path ok") ((codes "path", path) ∷ [])

  -- `checkFilePath`
  unfoldable pub check_file_path : Bytes → List Line
  check_file_path path =
      if is_empty path
      then line debug (codes "outputs.file_report not configured") [] ∷ []
      else made path (host.mkdir_error path) ∷ []

  abbrev pub repo_url : Bytes → Bytes
  repo_url repo = codes "https://api.github.com/repos/" ++ repo

  -- What is said of a missing token, and the headers that a token makes.
  abbrev pub token_lines : Bytes → Bytes → List Line
  token_lines token_env token =
      if is_empty token
      then line warn (codes "outputs.github_pr token missing") ((codes "env", token_env) ∷ []) ∷ []
      else []

  abbrev pub token_headers : Bytes → Dict Bytes
  token_headers token =
      if is_empty token then [] else (codes "Authorization", codes "Bearer " ++ token) ∷ []

  -- `checkGitHub`
  unfoldable pub check_github : Bytes → Bytes → List Line
  unfolding check_http
  check_github repo token_env =
      let token = host.getenv token_env in
      if is_empty repo
      then line debug (codes "outputs.github_pr repo not configured") [] ∷ []
      else token_lines token_env token
        ++ check_http (codes "outputs.github_pr") (repo_url repo) (token_headers token)

  -- `logConnections`
  unfoldable pub log_connections : Config → List Line
  unfolding check_postgres check_http check_github check_file_path
  log_connections cfg =
      check_postgres cfg.postgres.url
      ++ check_http (codes "inputs.openobserve") cfg.openobserve.endpoint cfg.openobserve.headers
      ++ check_http (codes "models.embedder") cfg.embedder.endpoint []
      ++ check_http (codes "models.generator") cfg.generator.endpoint []
      ++ (if cfg.github_pr.enabled
          then check_github cfg.github_pr.repo cfg.github_pr.token_env
          else [])
      ++ (if cfg.file_report.enabled then check_file_path cfg.file_report.path else [])
      ++ (if cfg.answer.enabled
          then line info (codes "outputs.answer configured")
              ((codes "channel", cfg.answer.channel) ∷ [])
            ∷ []
          else [])
      ++ (if cfg.webhook.enabled
          then check_http (codes "outputs.webhook") cfg.webhook.url cfg.webhook.headers
          else [])

  abbrev pub listens : Config → Outcome Bytes Bytes
  listens cfg =
      if is_empty cfg.listen
      then err (codes "server.api.listen must be set in config")
      else ok cfg.listen

  -- `log.Printf` gives a line no level; it counts as one of information.
  abbrev pub listening : Config → List Line
  listening cfg =
      if is_empty cfg.listen
      then []
      else line info (codes "XOpsAgent daemon listening on " ++ cfg.listen) [] ∷ []

  abbrev pub run_with : Outcome Bytes Config → Outcome Bytes Bytes × List Line
  run_with (err e) = (err (codes "load config: " ++ e), [])
  run_with (ok cfg) = (listens cfg, log_connections cfg ++ listening cfg)

  -- `runAgent`: the address that it listens on, or its error, and what it logs before.
  unfoldable pub run_agent : Bytes → Outcome Bytes Bytes × List Line
  unfolding load_config log_connections
  run_agent path = run_with (load_config path)

  -- Nothing is listened on by a parent that leaves a daemon behind.
  abbrev pub parted : Bytes → Outcome Bytes Bool → Option (Outcome Bytes Bytes × List Line)
  parted path (err e) = some (err e, [])
  parted path (ok true) = none
  parted path (ok false) = some (run_agent path)

  -- `RunE` of the command
  unfoldable pub run_command : Bool → Bytes → Option (Outcome Bytes Bytes × List Line)
  unfolding run_agent
  run_command daemon_mode path =
      if daemon_mode then parted path host.reborn else some (run_agent path)
