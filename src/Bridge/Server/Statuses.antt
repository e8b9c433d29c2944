-- ===== src/Bridge/Server/Statuses.antt =====
-- Which status each request of the ETL service is answered with.
use xscope_hub.Prelude.{Bytes, codes, Bool, true, false, Option, ◌≡◌, is_ok, same, ◌⊎◌, [], ◌||◌}
use xscope_hub.Bridge.Config.{Config}
use xscope_hub.Bridge.Window.{TimeParser, Window, parse_window_params}
use xscope_hub.Bridge.Stream.{Source, panicked}
use xscope_hub.Bridge.Server.{ndjson, Elsewhere, Request, Answer, Route, handle_oo_stream}

module _ {J : Type 0} (source : Source J) (rfc3339 : TimeParser) (outer : Elsewhere)
    (cfg : Option Config) where
  -- The answer of a stream, from whether there is a window and whether the writer flushes.
  abbrev pub StreamAnswer : Bool → Bool → Answer → Type 0
  StreamAnswer false flushes a = a.status ≡ 400
  StreamAnswer true false a = a.status ≡ 500
  StreamAnswer true true a =
      ((a.status ≡ 200) × ¬ (a.body ≡ ndjson [] panicked))
      ⊎ ((a.status ≡ 0) × (a.body ≡ ndjson [] panicked))

  -- Where the stream is, and where other packages answer.
  abbrev pub is_special : Bytes → Bool
  is_special path =
      same path (codes "/oo/stream")
      || (same path (codes "/metrics") || same path (codes "/openapi.yaml"))

  -- A route that answers 200 to every request, the stream, or a route of another package.
  abbrev pub IsPlain : Route → Type 0
  IsPlain r =
      ((is_special r.path ≡ false) × ((req : Request) → (r.handler req).status ≡ 200))
      ⊎ (((r.path ≡ codes "/oo/stream") × (r.handler ≡ handle_oo_stream source rfc3339 cfg))
          ⊎ (((r.path ≡ codes "/metrics") × (r.handler ≡ outer.metrics))
              ⊎ ((r.path ≡ codes "/openapi.yaml") × (r.handler ≡ outer.static_file))))

  pub Served : Bytes → Request → Answer → Type 0
  Served path req a =
      ((is_special path ≡ false) × (a.status ≡ 200))
      ⊎ (((path ≡ codes "/oo/stream")
            × StreamAnswer (is_ok (parse_window_params rfc3339 req.from req.to)) req.flushes a)
          ⊎ (((path ≡ codes "/metrics") × (a ≡ outer.metrics req))
              ⊎ ((path ≡ codes "/openapi.yaml") × (a ≡ outer.static_file req))))
