-- ===== src/Bridge/Stream.antt =====
-- observe-bridge/etl/pkg/oo/oo.go: `Stream`, and what it uses of `bufio.Scanner` and `http.Header`.
-- `Source` is what it calls: URLs, one HTTP exchange, and JSON, whose values are `J`.
pub mod Lines
pub mod Merged
pub mod Finished
pub mod Labels
pub mod Url
use xscope_hub.Prelude.{
  ℕ, suc, ◌-◌, ◌+◌, Bytes, codes, Bool, true, false, ◌&&◌, ◌||◌, not, Option, none, some, List, [],
  ◌∷◌, ◌++◌, Outcome, ok, err, if◌then◌else◌, ◌==◌, leb, ltb, length, Dict, insert, is_empty, map,
}
use xscope_hub.Prelude.Print.{format_int}
use xscope_hub.Bridge.Window.{Window, unix_milli}

-- A `bufio.Scanner` gives up at a line, its carriage return included, that is longer than this.
abbrev pub max_line : ℕ
max_line = 65535

abbrev pub cons_line : ℕ → List Bytes → List Bytes
cons_line c [] = (c ∷ []) ∷ []
cons_line c (line ∷ lines) = (c ∷ line) ∷ lines

-- The lines of a text without their line feeds; none stands behind the last line feed.
unfoldable pub split_lines : Bytes → List Bytes
split_lines [] = []
split_lines (c ∷ s) = elim (c == 10) [
  | true ↦ [] ∷ split_lines s
  | false ↦ cons_line c (split_lines s)
]

unfoldable pub drop_cr : Bytes → Bytes
drop_cr [] = []
drop_cr (c ∷ []) = if c == 13 then [] else c ∷ []
drop_cr (c ∷ d ∷ s) = c ∷ drop_cr (d ∷ s)

-- The lines up to the first that is too long, where the scanner stops with an error.
unfoldable pub scanned : List Bytes → List Bytes
unfolding drop_cr
scanned [] = []
scanned (line ∷ lines) =
    let rest = scanned lines in if leb (length line) max_line then drop_cr line ∷ rest else []

-- What `scanner.Scan()` and `scanner.Bytes()` give for a body.
abbrev pub scan_lines : Bytes → List Bytes
scan_lines body = scanned (split_lines body)

abbrev pub is_lower : ℕ → Bool
is_lower c = leb 97 c && leb c 122

abbrev pub is_upper : ℕ → Bool
is_upper c = leb 65 c && leb c 90

-- ``!#$%&'*+-.^_`|~``, digits and letters.
abbrev pub is_token : ℕ → Bool
is_token c =
    is_lower c
    || is_upper c
    || (leb 48 c && leb c 57)
    || c == 33
    || (leb 35 c && leb c 39)
    || c == 42
    || c == 43
    || c == 45
    || c == 46
    || (leb 94 c && leb c 96)
    || c == 124
    || c == 126

unfoldable pub all_tokens : Bytes → Bool
all_tokens [] = true
all_tokens (c ∷ s) = is_token c && all_tokens s

-- A letter is a capital at the start and behind a dash.
unfoldable pub capitalized : Bool → Bytes → Bytes
capitalized start [] = []
capitalized true (c ∷ s) = (if is_lower c then c - 32 else c) ∷ capitalized (c == 45) s
capitalized false (c ∷ s) = (if is_upper c then c + 32 else c) ∷ capitalized (c == 45) s

-- `textproto.CanonicalMIMEHeaderKey`
unfoldable pub canonical : Bytes → Bytes
unfolding all_tokens capitalized
canonical key = if all_tokens key then capitalized true key else key

abbrev pub set_header : Bytes → Bytes → Dict Bytes → Dict Bytes
set_header key value header = insert (canonical key) value header

unfoldable pub set_headers : Dict Bytes → Dict Bytes → Dict Bytes
unfolding insert canonical
set_headers [] header = header
set_headers ((k, v) ∷ headers) header = set_headers headers (set_header k v header)

-- The header of a request: the configured ones, in the order of the list, and the format that is asked for.
unfoldable pub request_header : Dict Bytes → Dict Bytes
unfolding set_headers
request_header headers =
    set_header (codes "Accept") (codes "application/x-ndjson") (set_headers headers [])

unfoldable pub search_url : Bytes → Bytes → Window → Bytes
unfolding format_int unix_milli
search_url endpoint typ w =
    endpoint
    ++ typ
    ++ codes "/_search?start="
    ++ format_int (unix_milli w.from)
    ++ codes "&end="
    ++ format_int (unix_milli w.to)

abbrev pub types : List Bytes
types = codes "logs" ∷ codes "metrics" ∷ codes "traces" ∷ []

pub record Request : Type 0 where
  pub url : Bytes
  pub header : Dict Bytes

-- An answer's body is what can be read of it: a scanner takes a failing read for the end.
pub record Reply : Type 0 where
  pub status : ℕ
  pub body : Bytes

pub record Source (J : Type 0) : Type 0 where
  -- The error of `http.NewRequestWithContext`, if any.
  pub refused_url : Bytes → Option Bytes
  pub send : Request → Outcome Bytes Reply
  -- Into a map, which stays nil for the line `null`.
  pub decode : Bytes → Outcome Bytes (Option (Dict J))
  pub encode : Dict J → Outcome Bytes Bytes
  pub text : Bytes → J

-- How `Stream` ends. Writing to a nil map panics.
pub data End : Type 0 where
  finished : End
  failed : Bytes → End
  panicked : End

-- The records for which the callback is called, in order.
pub record Streamed (J : Type 0) : Type 0 where
  pub records : List (Dict J)
  pub end : End

module _ {J : Type 0} where
  abbrev pub before : List (Dict J) → Streamed J → Streamed J
  before records later = record { records = records ++ later.records; end = later.end }

  abbrev pub go_on : List (Dict J) → End → Streamed J → Streamed J
  go_on records finished later = before records later
  go_on records (failed e) later = record { records = records; end = failed e }
  go_on records panicked later = record { records = records; end = panicked }

  -- What comes behind, unless this one ended the whole.
  abbrev pub then_stream : Streamed J → Streamed J → Streamed J
  then_stream s later = go_on s.records s.end later

module _ {J : Type 0} (source : Source J) where
  abbrev pub typed : Bytes → Dict J → Dict J
  typed typ rec = insert (codes "type") (source.text typ) rec

  unfoldable pub tag : Bytes → Bytes → Dict J → Dict J
  unfolding insert
  tag typ tenant rec =
      if is_empty tenant
      then typed typ rec
      else insert (codes "tenant") (source.text tenant) (typed typ rec)

  abbrev pub take_line : Bytes → Bytes → Outcome Bytes (Option (Dict J)) → Streamed J → Streamed J
  take_line typ tenant (err _) later = later
  take_line typ tenant (ok none) later = record { records = []; end = panicked }
  take_line typ tenant (ok (some rec)) later = before (tag typ tenant rec ∷ []) later

  unfoldable pub stream_lines : Bytes → Bytes → List Bytes → Streamed J
  unfolding tag
  stream_lines typ tenant [] = record { records = []; end = finished }
  stream_lines typ tenant (line ∷ lines) =
      take_line typ tenant (source.decode line) (stream_lines typ tenant lines)

  abbrev pub read_reply : Bytes → Bytes → Outcome Bytes Reply → Streamed J
  read_reply typ tenant (err e) = record { records = []; end = failed e }
  read_reply typ tenant (ok reply) = stream_lines typ tenant (scan_lines reply.body)

  abbrev pub requested : Bytes → Bytes → Option Bytes → Request → Streamed J
  requested typ tenant (some e) req = record { records = []; end = failed e }
  requested typ tenant none req = read_reply typ tenant (source.send req)

  abbrev pub type_request : Bytes → Dict Bytes → Window → Bytes → Request
  type_request endpoint headers w typ = record {
    url = search_url endpoint typ w;
    header = request_header headers;
  }

  unfoldable pub stream_type : Bytes → Dict Bytes → Bytes → Window → Bytes → Streamed J
  unfolding stream_lines search_url request_header split_lines scanned
  stream_type endpoint headers tenant w typ =
      requested typ tenant (source.refused_url (search_url endpoint typ w))
        (type_request endpoint headers w typ)

  unfoldable pub stream_types : Bytes → Dict Bytes → Bytes → Window → List Bytes → Streamed J
  unfolding stream_type
  stream_types endpoint headers tenant w [] = record { records = []; end = finished }
  stream_types endpoint headers tenant w (typ ∷ typs) =
      then_stream (stream_type endpoint headers tenant w typ)
        (stream_types endpoint headers tenant w typs)

  unfoldable pub stream : Bytes → Dict Bytes → Bytes → Window → Streamed J
  unfolding stream_types
  stream endpoint headers tenant w =
      if is_empty endpoint
      then record { records = []; end = failed (codes "openobserve endpoint not set") }
      else stream_types endpoint headers tenant w types
