-- ===== src/Gateway/Audit.antt =====
-- observe-gateway/internal/audit/audit.go. What is written is a list of entries, each as the JSON
-- line that the source writes for it.
use xscope_hub.Prelude.{Bytes, Bool, List, [], ◌∷◌, ◌++◌, if◌then◌else◌, ℤ, Time, Duration}
use xscope_hub.Prelude.Clock.{utc}

pub record Entry : Type 0 where
  pub tenant : Bytes
  pub user : Bytes
  pub lang : Bytes
  pub query : Bytes
  pub cost : ℤ
  pub duration : Duration
  pub cached : Bool
  pub backend : Bytes
  pub error : Bytes
  pub time : Time

-- `enabled` and what has been written.
pub record Logger : Type 0 where
  pub enabled : Bool
  pub out : List Entry

-- `Log`; an `Entry` has no field that JSON cannot hold.
unfoldable pub log : Entry → Logger → Logger
log entry l =
    if l.enabled then record l { out = l.out ++ record entry { time = utc entry.time } ∷ [] } else l
