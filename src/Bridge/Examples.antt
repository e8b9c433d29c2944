-- ===== src/Bridge/Examples.antt =====
-- An OpenObserve whose every answer has two records, the second behind a line that is no JSON.
use xscope_hub.Prelude.{
  List, ℕ, Bytes, codes, true, false, Option, none, some, [], ◌∷◌, ◌++◌, Outcome, ok, err, Dict,
  same, ◌≡◌, refl, ◌↔◌, pos, arith, is_empty,
}
use xscope_hub.Bridge.Window.{Window, TimeParser, parse_window_params}
use xscope_hub.Bridge.Stream.{
  Source, Streamed, search_url, stream, split_lines, scanned, canonical, types,
}
use xscope_hub.Bridge.Server
use xscope_hub.Prelude.Strconv.{parse_int}
use xscope_hub.Bridge.Server.{foreign, handle_scheduler_tick, Answer}
use xscope_hub.Bridge.Stream.Url.{InRange, search_url-Bounds}
use xscope_hub.Bridge.Stream
use xscope_hub.Bridge.Stream.Finished.{records_of, marked_as}
use xscope_hub.Bridge.Window.Params.{Means, parse_window_params_iff}
use xscope_hub.Bridge.Stream.Labels.{Relabelled, stream-Relabelled}

abbrev pub first_line : Bytes
first_line = codes "{\"a\":1}"

abbrev pub decode_line : Bytes → Outcome Bytes (Option (Dict Bytes))
decode_line line = elim (same line (codes "null")) [
  | true ↦ ok none
  | false ↦ elim (same line (codes "oops")) [
    | true ↦ err (codes "invalid character")
    | false ↦ ok (some ((codes "line", line) ∷ []))
  ]
]

abbrev sample : Source Bytes
sample = record {
  refused_url = λ _. none;
  send = λ _. ok (record { status = 200; body = codes "{}\r\noops\n{1}" });
  decode = decode_line;
  encode = λ _. ok (codes "{}");
  text = λ s. s;
}

abbrev hour : Window
hour = record {
  from = record { seconds = pos 1700000000; nanos = 0 };
  to = record { seconds = pos 1700003600; nanos = 500000000 };
}

lines_read :
    scanned (split_lines (codes "{}\r\noops\n{1}")) ≡ codes "{}" ∷ codes "oops" ∷ codes "{1}" ∷ []
unfolding scanned split_lines
lines_read = refl

url_made :
    search_url (codes "http://o/") (codes "logs") hour
    ≡ codes "http://o/logs/_search?start=1700000000000&end=1700003600500"
unfolding search_url
url_made = refl

accept_overridden : canonical (codes "aCCept-x") ≡ codes "Accept-X"
unfolding canonical
accept_overridden = refl

abbrev seconds_window : ℕ → ℕ → Window
seconds_window a b = record {
  from = record { seconds = pos a; nanos = 0 };
  to = record { seconds = pos b; nanos = 0 };
}

abbrev from_acme : Streamed Bytes
from_acme = stream sample (codes "http://o/") [] (codes "acme") hour

-- Lines with a record each, but for one that is no JSON.
abbrev two_lines : List Bytes
two_lines = codes "{}" ∷ codes "oops" ∷ []

abbrev line_by_line : Source Bytes
line_by_line = record sample {
  send = λ (r : Stream.Request). ok (record { status = 200; body = codes "{}\noops\n" });
}

abbrev one_record : Bytes → Dict Bytes
one_record typ = marked_as line_by_line typ (codes "acme") ((codes "line", codes "{}") ∷ [])

records_read :
    records_of line_by_line (codes "logs") (codes "acme") two_lines ≡ one_record (codes "logs") ∷ []
unfolding records_of same
records_read = refl

stream-Relabelled_example :
    Relabelled sample
      (codes "globex")
      from_acme
      (stream sample (codes "http://o/") [] (codes "globex") hour)
stream-Relabelled_example =
    stream-Relabelled sample (codes "acme") (codes "globex") refl refl (codes "http://o/") [] hour

hour_start-InRange : InRange hour.from
hour_start-InRange = record { nanos_below = omega arith; seconds_within = omega arith }

hour_end-InRange : InRange hour.to
hour_end-InRange = record { nanos_below = omega arith; seconds_within = omega arith }

search_url-Bounds_example :
    (start : Bytes) × (end : Bytes) × (search_url (codes "http://o/") (codes "logs") hour
      ≡ codes "http://o/"
        ++ codes "logs"
        ++ codes "/_search?start="
        ++ start
        ++ codes "&end="
        ++ end)
    × (parse_int start ≡ ok (pos 1700000000000))
    × (parse_int end ≡ ok (pos 1700003600500))
search_url-Bounds_example =
    search_url-Bounds (codes "http://o/") (codes "logs") hour hour_start-InRange hour_end-InRange

-- No text is a time of RFC 3339 here.
abbrev no_rfc3339 : TimeParser
no_rfc3339 s = none

abbrev asked : Server.Request
asked = record {
  tenant = codes "acme";
  from = codes "1700000000";
  to = codes "soon";
  body = [];
  flushes = true;
}

-- Where there are neither metrics nor the file.
abbrev elsewhere : Server.Elsewhere
elsewhere = record {
  metrics = λ _. record { status = 404; body = foreign };
  static_file = λ _. record { status = 404; body = foreign };
}

parse_window_params_iff_example :
    (parse_window_params no_rfc3339 (codes "0") (codes "1") ≡ ok (seconds_window 0 1)) ↔ (
      (is_empty (codes "0") ≡ false)
      × (is_empty (codes "1") ≡ false)
      × Means no_rfc3339 (codes "0") (record { seconds = pos 0; nanos = 0 })
      × Means no_rfc3339 (codes "1") (record { seconds = pos 1; nanos = 0 }))
parse_window_params_iff_example =
    parse_window_params_iff no_rfc3339 (codes "0") (codes "1") (seconds_window 0 1)
