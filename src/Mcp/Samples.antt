-- ===== src/Mcp/Samples.antt =====
-- The sample resources and tools of mcp-server/internal/registry/registry.go, and the registry that
-- `serve` of mcp-server/cmd/mcp/main.go fills with them.
-- `Json` makes Go's values for an `interface{}` and reads a text back from one.
pub mod Callable
use xscope_hub.Prelude.{
  ℕ, Bytes, codes, Option, none, some, List, [], ◌∷◌, ◌++◌, Outcome, ok, Dict, lookup,
}
use xscope_hub.Mcp.Registry.{
  ResourcePayload, ToolDescriptor, ToolResult, Tool, Registry, empty, values, register_resources,
  register_tools,
}

pub record Json (J : Type 0) : Type 0 where
  pub text : Bytes → J
  pub number : ℕ → J
  -- A whole number as a `float64`.
  pub float : ℕ → J
  pub list : List J → J
  pub object : Dict J → J
  -- `v.(string)`
  pub as_text : J → Option Bytes

module _ {J : Type 0} (json : Json J) where
  open json use {text, number, float, list, object}

  abbrev logs_sample : ResourcePayload J
  logs_sample = record {
    name = codes "logs";
    description = codes "Recent log events captured by XScopeHub";
    «data» = list (
        (object (
          (codes "timestamp", text (codes "2024-01-01T00:00:00Z"))
          ∷ (codes "service", text (codes "observe-gateway"))
          ∷ (codes "level", text (codes "info"))
          ∷ (codes "message", text (codes "startup complete"))
          ∷ []))
        ∷ (object (
            (codes "timestamp", text (codes "2024-01-01T00:05:00Z"))
            ∷ (codes "service", text (codes "llm-ops-agent"))
            ∷ (codes "level", text (codes "warn"))
            ∷ (codes "message", text (codes "queue depth high"))
            ∷ []))
        ∷ []);
  }

  abbrev metrics_sample : ResourcePayload J
  metrics_sample = record {
    name = codes "metrics";
    description = codes "Key service metrics aggregated from OpenObserve";
    «data» = object (
        (codes "observe_bridge.latency_p95_ms", float 120)
        ∷ (codes "llm_ops_agent.queue_depth", number 7)
        ∷ (codes "vector.ingest_rate", number 5480)
        ∷ []);
  }

  abbrev traces_sample : ResourcePayload J
  traces_sample = record {
    name = codes "traces";
    description = codes "Representative traces with dependency context";
    «data» = list (
        (object (
          (codes "trace_id", text (codes "84dd9a5c9f8c1f7b"))
          ∷ (codes "root_service", text (codes "observe-gateway"))
          ∷ (codes "entry_span", text (codes "HTTP GET /api/query"))
          ∷ (codes "duration_ms", number 342)
          ∷ (codes "status", text (codes "ok"))
          ∷ (
            codes "critical_path",
            list (
                text (codes "observe-gateway")
                ∷ text (codes "observe-bridge")
                ∷ text (codes "openobserve")
                ∷ []),
          )
          ∷ (codes "error_spans", list ([]))
          ∷ (codes "correlated_log", text (codes "2024-01-01T00:05:01Z"))
          ∷ []))
        ∷ (object (
            (codes "trace_id", text (codes "3b0fb66c41a2b3de"))
            ∷ (codes "root_service", text (codes "llm-ops-agent"))
            ∷ (codes "entry_span", text (codes "POST /v1/insight"))
            ∷ (codes "duration_ms", number 1280)
            ∷ (codes "status", text (codes "error"))
            ∷ (
              codes "critical_path",
              list (
                  text (codes "llm-ops-agent")
                  ∷ text (codes "observe-bridge")
                  ∷ text (codes "postgres")
                  ∷ []),
            )
            ∷ (codes "error_spans", list (text (codes "pg-writer") ∷ []))
            ∷ (codes "correlated_log", text (codes "2024-01-01T00:07:11Z"))
            ∷ []))
        ∷ []);
  }

  abbrev topology_sample : ResourcePayload J
  topology_sample = record {
    name = codes "topology";
    description = codes "Service, network, and infrastructure relationships";
    «data» = object (
        (
          codes "service",
          list (
              (object (
                (codes "from", text (codes "observe-gateway"))
                ∷ (codes "to", text (codes "observe-bridge"))
                ∷ (codes "edge", text (codes "CALLS"))
                ∷ []))
              ∷ (object (
                  (codes "from", text (codes "observe-bridge"))
                  ∷ (codes "to", text (codes "postgres"))
                  ∷ (codes "edge", text (codes "WRITES"))
                  ∷ []))
              ∷ []),
        )
        ∷ (
          codes "deployment",
          list (
              (object (
                (codes "service", text (codes "observe-gateway"))
                ∷ (codes "pod", text (codes "gw-67f6b"))
                ∷ (codes "node", text (codes "worker-a1"))
                ∷ (codes "rev", text (codes "sha256:abc"))
                ∷ []))
              ∷ (object (
                  (codes "service", text (codes "observe-bridge"))
                  ∷ (codes "pod", text (codes "bridge-12ea4"))
                  ∷ (codes "node", text (codes "worker-b4"))
                  ∷ (codes "rev", text (codes "sha256:def"))
                  ∷ []))
              ∷ []),
        )
        ∷ (
          codes "network",
          list (
              (object (
                (codes "source", text (codes "gw-67f6b"))
                ∷ (codes "dest", text (codes "bridge-12ea4"))
                ∷ (codes "flow_per_s", number 2150)
                ∷ []))
              ∷ (object (
                  (codes "source", text (codes "bridge-12ea4"))
                  ∷ (codes "dest", text (codes "postgres"))
                  ∷ (codes "flow_per_s", number 480)
                  ∷ []))
              ∷ []),
        )
        ∷ (
          codes "infrastructure",
          list (
              (object (
                (codes "node", text (codes "worker-a1"))
                ∷ (codes "subnet", text (codes "10.0.1.0/24"))
                ∷ (codes "zone", text (codes "us-east-1a"))
                ∷ (codes "account", text (codes "prod"))
                ∷ []))
              ∷ (object (
                  (codes "node", text (codes "worker-b4"))
                  ∷ (codes "subnet", text (codes "10.0.2.0/24"))
                  ∷ (codes "zone", text (codes "us-east-1b"))
                  ∷ (codes "account", text (codes "prod"))
                  ∷ []))
              ∷ []),
        )
        ∷ []);
  }

  abbrev knowledge_sample : ResourcePayload J
  knowledge_sample = record {
    name = codes "knowledge";
    description = codes "Contextual knowledge spanning alerts, incidents, configs, and runbooks";
    «data» = object (
        (
          codes "alerts",
          list (
              (object (
                (codes "id", text (codes "alert-ops-1"))
                ∷ (codes "severity", text (codes "critical"))
                ∷ (codes "summary", text (codes "OpenObserve ingestion stalled"))
                ∷ (codes "trace_id", text (codes "3b0fb66c41a2b3de"))
                ∷ []))
              ∷ (object (
                  (codes "id", text (codes "alert-ops-2"))
                  ∷ (codes "severity", text (codes "warning"))
                  ∷ (codes "summary", text (codes "Vector agent backpressure"))
                  ∷ (codes "node", text (codes "worker-b4"))
                  ∷ []))
              ∷ []),
        )
        ∷ (
          codes "incidents",
          list (
              (object (
                (codes "id", text (codes "inc-20240101-1"))
                ∷ (codes "status", text (codes "mitigated"))
                ∷ (codes "primary_service", text (codes "observe-bridge"))
                ∷ (codes "started_at", text (codes "2024-01-01T00:06:00Z"))
                ∷ (codes "ended_at", text (codes "2024-01-01T00:20:00Z"))
                ∷ []))
              ∷ []),
        )
        ∷ (
          codes "runbooks",
          list (
              (object (
                (codes "id", text (codes "rb-ob-restore"))
                ∷ (codes "title", text (codes "Restore ObserveBridge ingestion"))
                ∷ (codes "service", text (codes "observe-bridge"))
                ∷ (codes "link", text (codes "https://wiki.example.com/runbooks/ob-restore"))
                ∷ []))
              ∷ []),
        )
        ∷ (
          codes "config",
          list (
              (object (
                (codes "id", text (codes "cfg-gateway-20240101"))
                ∷ (codes "component", text (codes "observe-gateway"))
                ∷ (codes "change", text (codes "Increased rate limit to 20rps"))
                ∷ (codes "git_ref", text (codes "main@c1d2e3"))
                ∷ []))
              ∷ []),
        )
        ∷ (
          codes "change_records",
          list (
              (object (
                (codes "id", text (codes "chg-221"))
                ∷ (codes "submitted_by", text (codes "sre-bot"))
                ∷ (codes "summary", text (codes "Rolled out vector agent 0.28"))
                ∷ (codes "window", text (codes "2024-01-01T00:00:00Z/2024-01-01T00:30:00Z"))
                ∷ []))
              ∷ []),
        )
        ∷ (
          codes "cmdb",
          list (
              (object (
                (codes "id", text (codes "svc-observe-bridge"))
                ∷ (codes "owner", text (codes "platform"))
                ∷ (codes "tier", text (codes "critical"))
                ∷ (
                  codes "dependencies",
                  list (text (codes "postgres") ∷ text (codes "openobserve") ∷ []),
                )
                ∷ []))
              ∷ []),
        )
        ∷ []);
  }

  unfoldable pub static_resources : List (ResourcePayload J)
  static_resources =
      logs_sample ∷ metrics_sample ∷ traces_sample ∷ topology_sample ∷ knowledge_sample ∷ []

  -- `v, _ := m[k].(string)`
  abbrev pub text_of : Option J → Bytes
  text_of none = []
  text_of (some v) = elim (json.as_text v) [ none ↦ [] | some t ↦ t ]

  unfoldable pub query_logs : Dict J → Outcome Bytes (ToolResult J)
  unfolding lookup
  query_logs arguments =
      let service = text_of (lookup (codes "service") arguments) in
      let level = text_of (lookup (codes "level") arguments) in
      let result = codes "queried logs for service=" ++ service ++ codes " level=" ++ level in
      ok
        (record { name = codes "query_logs"; output = object ((codes "result", text result) ∷ []) })

  unfoldable pub summarize_alerts : Dict J → Outcome Bytes (ToolResult J)
  summarize_alerts arguments =
      let summary =
        codes
          "2 alerts active: 1 critical (OpenObserve ingestion stalled), 1 warning (Vector agent backpressure)." in
      ok (record {
        name = codes "summarize_alerts";
        output = object ((codes "summary", text summary) ∷ []);
      })

  unfoldable pub static_tools : Dict (Tool J)
  unfolding query_logs summarize_alerts
  static_tools =
      (
        codes "query_logs",
        record {
          descriptor = record {
            name = codes "query_logs";
            description = codes "Filter logs by service name and severity.";
            input_schema = codes "{\"service\":\"string\",\"level\":\"string\"}";
          };
          func = some query_logs;
        },
      )
      ∷ (
        codes "summarize_alerts",
        record {
          descriptor = record {
            name = codes "summarize_alerts";
            description = codes "Summarize active alerts for operator review.";
            input_schema = codes "{}";
          };
          func = some summarize_alerts;
        },
      )
      ∷ []

  -- The registry of a server that `serve` starts.
  unfoldable pub served_registry : Registry J
  unfolding static_resources static_tools register_resources register_tools
  served_registry =
      register_tools J (values J static_tools) (register_resources J static_resources (empty J))
