-- ===== src/Bridge/Config.antt =====
-- observe-bridge/internal/etl/config/config.go. Files, the environment and YAML are a parameter:
-- `load` is in terms of what reading, expanding and decoding give.
use xscope_hub.Prelude.{Bytes, codes, Bool, List, Outcome, ok, err, ◌++◌, Dict, ℤ}

pub record Api : Type 0 where
  pub listen : Bytes
  pub response_format : Bytes

pub record OpenObserve : Type 0 where
  pub endpoint : Bytes
  pub headers : Dict Bytes
  pub datasets : Dict Bytes

pub record Repo : Type 0 where
  pub id : Bytes
  pub url : Bytes
  pub ref : Bytes
  pub token_env : Bytes
  pub inventory : List Bytes
  pub playbooks : List Bytes
  pub vars : List Bytes

pub record Scheduler : Type 0 where
  pub jitter : Bytes
  pub max_backfill : Bytes
  pub fs_watch : Bool

pub record Tenant : Type 0 where
  pub code : Bytes
  pub id : ℤ

pub record Job : Type 0 where
  pub enabled : Bool
  pub align : Bytes
  pub delay : Bytes
  pub interval : Bytes
  pub concurrency : ℤ
  pub depends_on : List Bytes
  pub graph_name : Bytes
  pub graph_sql_file : Bytes
  pub status_ref : Bytes
  pub full_sync_on_boot : Bool
  pub drift_enabled : Bool
  pub drift_emit_event : Bool
  pub drift_severity_on_change : Bytes
  pub repo_ref : Bytes
  pub change_window : Bytes

pub record Config : Type 0 where
  pub api : Api
  pub openobserve : OpenObserve
  pub ansible_repos : List Repo
  pub postgres_url : Bytes
  pub scheduler : Scheduler
  pub initial_lookback : Dict Bytes
  pub tenants : List Tenant
  pub jobs : Dict Job

-- Reading of files, `os.ExpandEnv` and decoding of YAML.
pub record Files : Type 0 where
  pub read_file : Bytes → Outcome Bytes Bytes
  pub expand_env : Bytes → Bytes
  pub decode_yaml : Bytes → Outcome Bytes Config

abbrev pub decoded : Outcome Bytes Config → Outcome Bytes Config
decoded (ok cfg) = ok cfg
decoded (err e) = err (codes "parse config: " ++ e)

abbrev pub expanded : Files → Outcome Bytes Bytes → Outcome Bytes Config
expanded files (err e) = err e
expanded files (ok content) = decoded (files.decode_yaml (files.expand_env content))

unfoldable pub load : Files → Bytes → Outcome Bytes Config
load files path = expanded files (files.read_file path)
