-- ===== src/Mcp/Http.antt =====
-- mcp-server/internal/server/server.go: `ServeHTTP`; mcp-server/pkg/manifest/manifest.go. `Wire` is
-- the decoding of a request and the encoding of a response as JSON.
pub mod Codes
use xscope_hub.Prelude.{
  ℕ, Bytes, codes, Bool, true, false, not, List, ◌++◌, Outcome, ok, err, if◌then◌else◌, same,
}
use xscope_hub.Mcp.Registry.{Registry}
use xscope_hub.Mcp.Server.{Request, Response, Codec, handle_request}

pub record Manifest : Type 0 where
  pub name : Bytes
  pub version : Bytes
  pub description : Bytes
  pub entry_point : Bytes
  pub resources : List Bytes
  pub tools : List Bytes

abbrev pub decoded_manifest : Outcome Bytes Manifest → Outcome Bytes Manifest
decoded_manifest (ok mf) = ok mf
decoded_manifest (err e) = err (codes "decode manifest: " ++ e)

abbrev pub read_manifest :
    (Bytes → Outcome Bytes Manifest) → Outcome Bytes Bytes → Outcome Bytes Manifest
read_manifest decode (err e) = err (codes "read manifest: " ++ e)
read_manifest decode (ok raw) = decoded_manifest (decode raw)

-- `manifest.Load`, for what reads a file and what decodes JSON
unfoldable pub load_manifest :
    (Bytes → Outcome Bytes Bytes)
    → (Bytes → Outcome Bytes Manifest)
    → Bytes
    → Outcome Bytes Manifest
load_manifest read_file decode path = read_manifest decode (read_file path)

-- A body that could not be read is an error.
pub record HttpRequest : Type 0 where
  pub path : Bytes
  pub method : Bytes
  pub body : Outcome Bytes Bytes

pub record Wire (J : Type 0) : Type 0 where
  pub decode_request : Bytes → Outcome Bytes (Request J)
  pub encode_response : Response J → Outcome Bytes Bytes

-- What is written: a status with a text, or a response, of which nothing is written if it cannot be
-- encoded.
pub data HttpAnswer (J : Type 0) : Type 0 where
  refused : ℕ → Bytes → HttpAnswer J
  answered : Response J → Outcome Bytes Bytes → HttpAnswer J

module _ (J : Type 0) (codec : Codec J) (registry : Registry J) (wire : Wire J) where
  abbrev pub answer : Response J → HttpAnswer J
  answer resp = answered resp (wire.encode_response resp)

  abbrev pub serve_request : Outcome Bytes (Request J) → HttpAnswer J
  serve_request (err e) = refused 400 (codes "decode request: " ++ e)
  serve_request (ok req) = answer (handle_request J codec registry req)

  abbrev pub serve_body : Outcome Bytes Bytes → HttpAnswer J
  serve_body (err e) = refused 400 (codes "read body: " ++ e)
  serve_body (ok payload) = serve_request (wire.decode_request payload)

  -- `ServeHTTP`
  unfoldable pub serve_http : HttpRequest → HttpAnswer J
  unfolding same handle_request
  serve_http r =
      if not (same r.path (codes "/mcp"))
      then refused 404 (codes "404 page not found")
      else if not (same r.method (codes "POST"))
      then refused 405 (codes "only POST supported")
      else serve_body r.body
