-- ===== src/Gateway/Translate/Examples.antt =====
-- A line filter that tries to end its literal, and a name that does.
use xscope_hub.Prelude.{Bytes, codes, false, [], ◌++◌, ok, err, ◌≡◌, refl}
use xscope_hub.Gateway.Translate.{translate_log_ql, translate_trace_ql}
use xscope_hub.Gateway.Translate.Traces.{trace_shapes, translate_trace_ql-Contained}
use xscope_hub.Gateway.Text.{to_lower}
use xscope_hub.Gateway.Translate.Lexed.{outside}
use xscope_hub.Gateway.Translate.Shapes.{log_shapes}
use xscope_hub.Gateway.Translate.Contained.{Contained, translate_log_ql-Contained}

abbrev hostile : Bytes
hostile = codes "{app=\"web\"} |= \"x' OR '1'='1\""

abbrev hostile_sql : Bytes
hostile_sql =
    codes "SELECT * FROM logs WHERE labels->>'app' = 'web' AND message ILIKE '%x'' OR ''1''=''1%'"

hostile_translated : translate_log_ql hostile [] ≡ ok hostile_sql
unfolding translate_log_ql
hostile_translated = refl

translate_log_ql-Contained_example : Contained log_shapes (codes "logs") hostile_sql
unfolding xscope_hub.Gateway.Translate.Contained.selector_parts xscope_hub.Gateway.Text.drop_while
    xscope_hub.Gateway.Text.cut xscope_hub.Gateway.Translate.sanitize_sql_identifier
translate_log_ql-Contained_example =
    translate_log_ql-Contained hostile [] hostile_sql tt ((refl, (refl, (refl, tt))), tt)
      hostile_translated

-- A name with a quote ends its literal.
name_escapes :
    translate_log_ql (codes "{a'OR'b=c}") []
    ≡ ok (codes "SELECT * FROM logs WHERE labels->>'a'OR'b' = 'c'")
unfolding translate_log_ql
name_escapes = refl

reads_as_sql : outside false (codes "labels->>'a'OR'b' = 'c'") ≡ codes "labels->>OR = "
unfolding outside
reads_as_sql = refl

abbrev traced : Bytes
traced = codes "FROM web's where status != it's and name=x"

abbrev traced_sql : Bytes
traced_sql =
    codes
      "SELECT * FROM traces WHERE trace_stream = 'web''s' AND attributes->>'status' <> 'it''s' AND attributes->>'name' = 'x'"

traced_translated : translate_trace_ql to_lower traced [] ≡ ok traced_sql
unfolding translate_trace_ql to_lower
traced_translated = refl

translate_trace_ql-Contained_example : Contained trace_shapes (codes "traces") traced_sql
unfolding xscope_hub.Gateway.Translate.Traces.where_parts xscope_hub.Gateway.Text.drop_while
    xscope_hub.Gateway.Text.cut xscope_hub.Gateway.Translate.sanitize_sql_identifier to_lower
translate_trace_ql-Contained_example =
    translate_trace_ql-Contained to_lower traced [] traced_sql tt
      (
        (refl, (refl, (refl, (refl, (refl, (refl, (refl, tt))))))),
        ((refl, (refl, (refl, (refl, tt)))), tt),
      )
      traced_translated

-- The value behind `>` is no literal.
value_escapes :
    translate_trace_ql to_lower (codes "from web where a > 1 or true") []
    ≡ ok (codes "SELECT * FROM traces WHERE trace_stream = 'web' AND a > 1 or true")
unfolding translate_trace_ql to_lower
value_escapes = refl

-- As with a letter whose lower case is longer, as that of U+023A is: the place of ` where ` in the
-- lower-case text is behind that in the query, and the slice panics or is cut too late.
lower_longer :
    translate_trace_ql (λ (q : Bytes). q ++ codes " where ") (codes "from web") []
    ≡ err (codes "slice bounds out of range")
unfolding translate_trace_ql
lower_longer = refl
