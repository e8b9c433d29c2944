-- ===== src/Bridge/Command.antt =====
-- observe-bridge/cmd/main.go: what the command does before and when it serves. `Machine` is what it
-- calls: daemons, the database driver, HTTP, URLs, git and the environment.
use xscope_hub.Prelude.{
  Bytes, codes, Bool, true, false, Option, none, some, List, [], ◌∷◌, ◌++◌, Outcome, ok, err,
  if◌then◌else◌, is_empty,
}
use xscope_hub.Prelude.Logs.{Level, debug, info, warn, error, Line, line}
use xscope_hub.Bridge.Config.{Repo, Config, Files, load}
use xscope_hub.Bridge.Stream.{Source}
use xscope_hub.Bridge.Window.{TimeParser}
use xscope_hub.Bridge.Server.{Elsewhere, new_server, run}

pub record Machine : Type 0 where
  -- `Reborn`: whether this is the parent of a new child.
  pub reborn : Outcome Bytes Bool
  -- The error of `sql.Open`, and of the ping.
  pub open_error : Bytes → Option Bytes
  pub ping_error : Bytes → Option Bytes
  -- The error of a GET within five seconds.
  pub get_error : Bytes → Option Bytes
  -- A URL with a token as the password of the user `token`, or none where it cannot be parsed.
  pub with_token : Bytes → Bytes → Option Bytes
  -- The error of `git ls-remote` within ten seconds.
  pub ls_remote_error : Bytes → Option Bytes
  pub getenv : Bytes → Bytes

abbrev said : Level → Bytes → Line
said level text = line level text []

abbrev pub or_url : Bytes → Option Bytes → Bytes
or_url url none = url
or_url url (some u) = u

module _ (machine : Machine) where
  -- `checkPostgres`: its error
  unfoldable pub check_postgres : Bytes → Option Bytes
  check_postgres url = elim (machine.open_error url) [
    | some e ↦ some e
    | none ↦ machine.ping_error url
  ]

  -- `checkEndpoint`
  unfoldable pub check_endpoint : Bytes → Option Bytes
  check_endpoint url = machine.get_error url

  -- `checkRepo`
  unfoldable pub check_repo : Bytes → Bytes → Option Bytes
  check_repo repo_url token =
      machine.ls_remote_error
        (if is_empty token then repo_url else or_url repo_url (machine.with_token repo_url token))

  abbrev pub postgres_line : Option Bytes → Line
  postgres_line (some e) = said error (codes "Postgres connection failed: " ++ e)
  postgres_line none = said info (codes "Postgres connection successful")

  abbrev pub endpoint_line : Option Bytes → Line
  endpoint_line (some e) = said warn (codes "OTEL endpoint unreachable: " ++ e)
  endpoint_line none = said info (codes "OTEL endpoint reachable")

  abbrev pub repo_line : Repo → Option Bytes → Line
  repo_line repo (some e) =
      said warn (codes "ansible repo " ++ repo.id ++ codes " unreachable: " ++ e)
  repo_line repo none = said info (codes "ansible repo " ++ repo.id ++ codes " reachable")

  abbrev pub token_of : Repo → Bytes
  token_of repo = if is_empty repo.token_env then [] else machine.getenv repo.token_env

  unfoldable pub check_repos : List Repo → List Line
  unfolding check_repo
  check_repos [] = []
  check_repos (repo ∷ repos) =
      said debug (codes "checking ansible repo " ++ repo.id ++ codes " (" ++ repo.url ++ codes ")")
      ∷ repo_line repo (check_repo repo.url (token_of repo))
      ∷ check_repos repos

  -- What is logged of a configuration before the server runs.
  unfoldable pub check_config : Bytes → Config → List Line
  unfolding check_postgres check_endpoint check_repos
  check_config path cfg =
      said info (codes "loaded config from " ++ path)
      ∷ said debug (codes "checking Postgres connection " ++ cfg.postgres_url)
      ∷ postgres_line (check_postgres cfg.postgres_url)
      ∷ said debug (codes "checking OTEL endpoint " ++ cfg.openobserve.endpoint)
      ∷ endpoint_line (check_endpoint cfg.openobserve.endpoint)
      ∷ check_repos cfg.ansible_repos

  module _ {J : Type 0} (source : Source J) (rfc3339 : TimeParser) (outer : Elsewhere)
      (files : Files) where
    -- The address that the server listens on, or the error of the command, and what is logged before.
    abbrev pub serve_with : Bytes → Outcome Bytes Config → Outcome Bytes (Option Bytes) × List Line
    serve_with path (err e) = (err e, [])
    serve_with path (ok cfg) =
        let listened = run (new_server source rfc3339 outer (some cfg)) in
        (elim listened [ err e ↦ err e | ok address ↦ ok (some address) ], check_config path cfg)

    abbrev pub parted : Bytes → Outcome Bytes Bool → Outcome Bytes (Option Bytes) × List Line
    parted path (err e) = (err e, [])
    parted path (ok true) = (ok none, [])
    parted path (ok false) = serve_with path (load files path)

    -- `RunE` of the command; a parent that leaves a daemon behind listens on nothing.
    unfoldable pub run_command : Bool → Bytes → Outcome Bytes (Option Bytes) × List Line
    unfolding load run new_server check_config
    run_command daemon_mode path =
        if daemon_mode then parted path machine.reborn else serve_with path (load files path)
