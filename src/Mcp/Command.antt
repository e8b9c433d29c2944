-- ===== src/Mcp/Command.antt =====
-- mcp-server/cmd/mcp/main.go: the two commands up to where the server listens. `Tools` is the parsing
-- of flags, which ends the program on an error, the files and JSON.
use xscope_hub.Prelude.{
  Bytes, codes, Option, none, some, List, [], ◌∷◌, ◌++◌, Outcome, ok, err, if◌then◌else◌, same,
  Duration,
}
use xscope_hub.Mcp.Registry.{Registry}
use xscope_hub.Mcp.Samples.{Json, served_registry}
use xscope_hub.Mcp.Http.{Manifest, load_manifest}

pub record ServeFlags : Type 0 where
  pub addr : Bytes
  pub manifest : Bytes
  pub read_timeout : Duration
  pub write_timeout : Duration

-- What is listened on, and with what.
pub record HttpServer (J : Type 0) : Type 0 where
  pub addr : Bytes
  pub manifest : Manifest
  pub registry : Registry J
  pub read_timeout : Duration
  pub write_timeout : Duration

-- How the program goes on: it ends with a message, prints, or listens.
pub data Course (J : Type 0) : Type 0 where
  -- The usage of the program or of a command, on standard error.
  usage : Course J
  fatal : Bytes → Course J
  printed : Bytes → Course J
  listening : HttpServer J → Course J

pub record Tools : Type 0 where
  -- The flags, or none where `Parse` has written the usage and ended the program.
  pub serve_flags : List Bytes → Option ServeFlags
  pub manifest_flags : List Bytes → Option Bytes
  pub read_file : Bytes → Outcome Bytes Bytes
  pub decode_manifest : Bytes → Outcome Bytes Manifest
  pub encode_manifest : Manifest → Outcome Bytes Bytes

module _ {J : Type 0} (json : Json J) (tools : Tools) where
  abbrev pub loaded : Bytes → Outcome Bytes Manifest
  loaded path = load_manifest tools.read_file tools.decode_manifest path

  abbrev pub serve_manifest : ServeFlags → Outcome Bytes Manifest → Course J
  serve_manifest flags (err e) = fatal (codes "failed to load manifest: " ++ e)
  serve_manifest flags (ok mf) = listening (record {
    addr = flags.addr;
    manifest = mf;
    registry = served_registry json;
    read_timeout = flags.read_timeout;
    write_timeout = flags.write_timeout;
  })

  abbrev pub serve_with : Option ServeFlags → Course J
  serve_with none = usage
  serve_with (some flags) = serve_manifest flags (loaded flags.manifest)

  -- `serve`
  unfoldable pub serve : List Bytes → Course J
  unfolding load_manifest served_registry
  serve args = serve_with (tools.serve_flags args)

  abbrev pub print_encoded : Outcome Bytes Bytes → Course J
  print_encoded (err e) = fatal (codes "failed to encode manifest: " ++ e)
  print_encoded (ok text) = printed text

  abbrev pub print_loaded : Outcome Bytes Manifest → Course J
  print_loaded (err e) = fatal (codes "failed to load manifest: " ++ e)
  print_loaded (ok mf) = print_encoded (tools.encode_manifest mf)

  abbrev pub print_with : Option Bytes → Course J
  print_with none = usage
  print_with (some path) = print_loaded (loaded path)

  -- `printManifest`
  unfoldable pub print_manifest : List Bytes → Course J
  unfolding load_manifest
  print_manifest args = print_with (tools.manifest_flags args)

  -- `main`, given the arguments behind the program's name
  unfoldable pub main : List Bytes → Course J
  unfolding same serve print_manifest
  main [] = usage
  main (cmd ∷ args) =
      if same cmd (codes "serve")
      then serve args
      else if same cmd (codes "manifest")
      then print_manifest args
      else usage
