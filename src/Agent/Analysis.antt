-- ===== src/Agent/Analysis.antt =====
-- llm-ops-agent/internal: agent.go, model, input, analyzer and output. Most of the steps are still to
-- be written and give nothing. A float64 is a parameter; what is printed is a list of reports.
use xscope_hub.Prelude.{
  Bytes, codes, Bool, true, false, Option, none, some, List, [], ◌∷◌, ◌++◌, same, Dict, lookup, ℤ,
  Time,
}
use xscope_hub.Prelude.Clock.{zero_time}

pub record Span : Type 0 where
  pub id : Bytes
  pub parent_id : Bytes
  pub service : Bytes
  pub operation : Bytes
  pub duration_ms : ℤ
  pub error : Bool
  pub tags : Dict Bytes

pub record Trace : Type 0 where
  pub id : Bytes
  pub spans : List Span

pub record RootCause : Type 0 where
  pub type : Bytes
  pub description : Bytes
  pub evidence : List Bytes

pub record TimeRange : Type 0 where
  pub start : Time
  pub end : Time

pub record Sources : Type 0 where
  pub metrics_source : Bytes
  pub trace_source : Bytes

pub record Report : Type 0 where
  pub service : Bytes
  pub trace_id : Bytes
  pub time_range : TimeRange
  pub root_span : Span
  pub cause : RootCause
  pub suggestions : List Bytes

unfoldable pub load_config : Bytes → Sources
load_config path = record { metrics_source = []; trace_source = [] }

unfoldable pub fetch_traces : Bytes → Bytes → TimeRange → List Trace
fetch_traces source service window = []

unfoldable pub find_error_traces : List Trace → List Trace
find_error_traces traces = []

unfoldable pub locate_root_span : Trace → Span
locate_root_span trace = record {
  id = [];
  parent_id = [];
  service = [];
  operation = [];
  duration_ms = ℤ.pos 0;
  error = false;
  tags = [];
}

unfoldable pub resolve_location : Span → Bytes × Bytes
resolve_location span = ([], [])

unfoldable pub suggest_action : RootCause → List Bytes
suggest_action cause = []

unfoldable pub last_network_span : Trace → Option Span
last_network_span trace = none

unfoldable pub pod_has_oom : Bytes → Bool
pod_has_oom pod = false

abbrev pub is_reset : Option Bytes → Bool
is_reset none = false
is_reset (some v) = same v (codes "true")

abbrev pub tcp_reset : Option Span → Bool
tcp_reset none = false
tcp_reset (some span) = is_reset (lookup (codes "tcp_reset") span.tags)

-- The cause, from what is known of the network and of the pod.
abbrev pub cause_of : Bool → Bool → RootCause
cause_of true oom = record {
  type = codes "TCP Reset";
  description = codes "Server closed connection via TCP RST";
  evidence = codes "network_span:tcp_reset=true" ∷ [];
}
cause_of false true = record {
  type = codes "OOM";
  description = codes "Pod restarted due to out-of-memory";
  evidence = codes "pod_event:OOMKilled" ∷ [];
}
cause_of false false = record {
  type = codes "Unknown";
  description = codes "Root cause not found";
  evidence = [];
}

-- `InferRootCause`
unfoldable pub infer_root_cause : Trace → Bytes → Bytes → RootCause
unfolding last_network_span pod_has_oom lookup same
infer_root_cause trace pod node = cause_of (tcp_reset (last_network_span trace)) (pod_has_oom pod)

-- One round of the inner loop of `main`: what is reported of a trace.
abbrev pub report_of : Bytes → TimeRange → Trace → Report
report_of service window trace =
    let span = locate_root_span trace in
    let (pod, node) = resolve_location span in
    let cause = infer_root_cause trace pod node in
    record {
      service = service;
      trace_id = trace.id;
      time_range = window;
      root_span = span;
      cause = cause;
      suggestions = suggest_action cause;
    }

unfoldable pub report_traces : Bytes → TimeRange → List Trace → List Report
unfolding locate_root_span resolve_location infer_root_cause suggest_action
report_traces service window [] = []
report_traces service window (t ∷ ts) = report_of service window t ∷ report_traces service window ts

unfoldable pub report_services : Sources → TimeRange → List Bytes → List Report
unfolding report_traces fetch_traces find_error_traces
report_services sources window [] = []
report_services sources window (s ∷ ss) =
    report_traces s window (find_error_traces (fetch_traces sources.trace_source s window))
    ++ report_services sources window ss

pub record Metric (F : Type 0) : Type 0 where
  pub service_name : Bytes
  pub timestamp : Time
  pub latency_avg : F
  pub latency_max : F
  pub error_rate : F

module _ (F : Type 0) where
  unfoldable pub fetch_metrics : Bytes → List (Metric F)
  fetch_metrics source = []

  unfoldable pub analyze_abnormal_services : List (Metric F) → List Bytes
  analyze_abnormal_services metrics = []

  unfoldable pub detect_time_range : List (Metric F) → List Bytes → TimeRange
  detect_time_range metrics services = record { start = zero_time; end = zero_time }

  -- `main` of agent.go: what is reported
  unfoldable pub analysis : List Report
  unfolding load_config fetch_metrics analyze_abnormal_services report_services detect_time_range
  analysis =
      let sources = load_config (codes "config.yaml") in
      let metrics = fetch_metrics sources.metrics_source in
      let services = analyze_abnormal_services metrics in
      report_services sources (detect_time_range metrics services) services
