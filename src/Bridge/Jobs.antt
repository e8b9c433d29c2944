-- ===== src/Bridge/Jobs.antt =====
-- What the routes of the ETL service call, none of it written yet: observe-bridge/etl/jobs/jobs.go
-- and, under observe-bridge/etl/pkg, pgw/pgw.go, events/events.go, scheduler/scheduler.go,
-- iac/iac.go and ansible/ansible.go. An error is its text.
use xscope_hub.Prelude.{Bytes, List, [], Outcome, ok}
use xscope_hub.Bridge.Window.{Window}

pub record Edge : Type 0 where
  pub from : Bytes
  pub to : Bytes

abbrev pub Result : Type 0
Result = Outcome Bytes Unit

unfoldable pub run_oo_agg : Bytes → Window → Result
run_oo_agg tenant w = ok tt

unfoldable pub run_age_refresh : Bytes → Window → Result
run_age_refresh tenant w = ok tt

unfoldable pub run_topo_iac : Bytes → Window → Result
run_topo_iac tenant w = ok tt

unfoldable pub run_topo_ansible : Bytes → Window → Result
run_topo_ansible tenant w = ok tt

unfoldable pub flush : Bytes → Window → Bytes → Result
flush tenant w out = ok tt

unfoldable pub upsert_topo_edges : Bytes → List Edge → Result
upsert_topo_edges tenant edges = ok tt

unfoldable pub enqueue : Bytes → Result
enqueue payload = ok tt

unfoldable pub tick : Result
tick = ok tt

unfoldable pub discover : Bytes → Outcome Bytes (List Edge)
discover tenant = ok []

unfoldable pub extract_deps : Bytes → Outcome Bytes (List Edge)
extract_deps tenant = ok []
