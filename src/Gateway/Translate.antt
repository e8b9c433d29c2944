-- ===== src/Gateway/Translate.antt =====
-- The translators of observe-gateway/internal/backend/client.go: LogQL and TraceQL into SQL.
-- A translator's error is its text.
pub mod Literals
pub mod Lexed
pub mod Shapes
pub mod Contained
pub mod Traces
mod Examples
use xscope_hub.Prelude.{
  ℕ, zero, suc, ◌+◌, ◌-◌, Bytes, codes, Bool, true, false, ◌||◌, Option, none, some, List, [], ◌∷◌,
  ◌++◌, Outcome, ok, err, if◌then◌else◌, ◌==◌, leb, same, is_empty, length, drop, take,
}
use xscope_hub.Gateway.Text.{
  has_prefix, index, cut, split, join, is_space, drop_while, trim_by, trim_space, is_quote, fields,
  fields_from, replace_all, split_from,
}

-- `sanitizeSQLIdentifier`
unfoldable pub sanitize_sql_identifier : Bytes → Bytes
unfolding replace_all drop_while
sanitize_sql_identifier s = replace_all (trim_by is_quote (trim_space s)) 32 (codes "_")

-- `escapeSQLValue`
unfoldable pub escape_sql_value : Bytes → Bytes
unfolding replace_all drop_while
escape_sql_value s = replace_all (trim_by is_quote (trim_space s)) 39 (codes "''")

-- `column->>'key' op 'value'`
unfoldable pub field_condition : Bytes → Bytes → Bytes × Bytes → Bytes
unfolding sanitize_sql_identifier escape_sql_value
field_condition column op (key, value) =
    column
    ++ codes "->>'"
    ++ sanitize_sql_identifier key
    ++ codes "' "
    ++ op
    ++ codes " '"
    ++ escape_sql_value value
    ++ codes "'"

-- One part of a selector; a part without a comparison gives no condition.
unfoldable pub label_condition : Bytes → List Bytes
unfolding cut field_condition
label_condition part = elim (cut (codes "!=") part) [
  | some kv ↦ field_condition (codes "labels") (codes "<>") kv ∷ []
  | none ↦ elim (cut (codes "=") part) [
    | some kv ↦ field_condition (codes "labels") (codes "=") kv ∷ []
    | none ↦ []
  ]
]

unfoldable pub label_conditions : List Bytes → List Bytes
unfolding label_condition drop_while
label_conditions [] = []
label_conditions (p ∷ ps) = label_condition (trim_space p) ++ label_conditions ps

abbrev pub is_op : ℕ → Bool
is_op c = c == 61 || c == 33 || c == 126

-- `\s` of the regular expression, which has no vertical tab.
abbrev pub is_regex_space : ℕ → Bool
is_regex_space c = c == 32 || c == 9 || c == 10 || c == 12 || c == 13

-- `([^"]*)"`: the text up to the next double quote, and what follows it.
unfoldable pub until_quote : Bytes → Option (Bytes × Bytes)
until_quote [] = none
until_quote (c ∷ s) =
    let later = until_quote s in
    if c == 34
    then some ([], s)
    else elim later [ none ↦ none | some (v, rest) ↦ some (c ∷ v, rest) ]

-- `\s*"([^"]*)"`
unfoldable pub match_value : Bytes → Option (Bytes × Bytes)
unfolding until_quote
match_value [] = none
match_value (c ∷ s) =
    let later = match_value s in
    if c == 34 then until_quote s else if is_regex_space c then later else none

-- An operator with the value after it: what it matched, and the rest of the text.
abbrev pub with_op : Bytes → Option (Bytes × Bytes) → Option (Bytes × Bytes × Bytes)
with_op op none = none
with_op op (some (v, rest)) = some (op, v, rest)

-- `([=!~]{1,2})\s*"([^"]*)"`: two operator bytes if there are two. One byte of two would leave the
-- other where only a space or a quote may stand.
unfoldable pub match_operator : Bytes → Option (Bytes × Bytes × Bytes)
unfolding match_value
match_operator [] = none
match_operator (c ∷ []) = none
match_operator (c ∷ d ∷ s) =
    if is_op c
    then if is_op d
      then with_op (c ∷ d ∷ []) (match_value s)
      else with_op (c ∷ []) (match_value (d ∷ s))
    else none

-- `FindAllStringSubmatch` of `logPipelineRegex`: the operators and values, with how many bytes of
-- a match are still to be passed over.
unfoldable pub pipeline : ℕ → Bytes → List (Bytes × Bytes)
unfolding match_operator
pipeline n [] = []
pipeline (suc n) (c ∷ s) = pipeline n s
pipeline zero (c ∷ s) = elim (c == 124) [
  | false ↦ pipeline 0 s
  | true ↦ elim (match_operator s) [
    | none ↦ pipeline 0 s
    | some (op, v, rest) ↦ (op, v) ∷ pipeline (length s - length rest) s
  ]
]

-- One line filter; an operator that is no known one gives no condition.
unfoldable pub line_condition : Bytes × Bytes → List Bytes
unfolding escape_sql_value same
line_condition (op, value) =
    let v = escape_sql_value value in
    if same op (codes "=")
    then (codes "message ILIKE '%" ++ v ++ codes "%'") ∷ []
    else if same op (codes "!=")
    then (codes "message NOT ILIKE '%" ++ v ++ codes "%'") ∷ []
    else if same op (codes "~")
    then (codes "message ~ '" ++ v ++ codes "'") ∷ []
    else if same op (codes "!~")
    then (codes "message !~ '" ++ v ++ codes "'") ∷ []
    else []

unfoldable pub line_conditions : List (Bytes × Bytes) → List Bytes
unfolding line_condition
line_conditions [] = []
line_conditions (m ∷ ms) = line_condition m ++ line_conditions ms

-- The conditions of the selector, and the query behind it.
unfoldable pub selector : Bytes → Outcome Bytes (List Bytes × Bytes)
unfolding has_prefix index label_conditions drop_while split_from
selector q =
    if has_prefix (codes "{") q
    then elim (index (codes "}") q) [
      | none ↦ err (codes "invalid logql selector")
      | some i ↦
          let inner = drop 1 (take i q) in
          ok (
            if is_empty inner then [] else label_conditions (split inner (codes ",")),
            trim_space (drop (i + 1) q),
          )
    ]
    else ok ([], q)

abbrev pub or_default : Bytes → Bytes → Bytes
or_default s def = if is_empty s then def else s

-- `SELECT * FROM table WHERE conditions`
unfoldable pub select_where : Bytes → List Bytes → Bytes
unfolding join
select_where table conditions =
    codes "SELECT * FROM " ++ table ++ codes " WHERE " ++ join conditions (codes " AND ")

abbrev pub or_true : List Bytes → List Bytes
or_true [] = codes "1=1" ∷ []
or_true (c ∷ cs) = c ∷ cs

-- `translateLogQL`
unfoldable pub translate_log_ql : Bytes → Bytes → Outcome Bytes Bytes
unfolding selector pipeline line_conditions sanitize_sql_identifier select_where drop_while
translate_log_ql query table =
    let q = trim_space query in
    if is_empty q then err (codes "empty logql") else elim (selector q) [
      | err e ↦ err e
      | ok (labels, rest) ↦ ok (
          select_where (or_default (sanitize_sql_identifier table) (codes "logs"))
            (or_true (labels ++ line_conditions (pipeline 0 rest))))
    ]

-- `key op value` with the value as it stands.
unfoldable pub raw_condition : Bytes → Bytes × Bytes → Bytes
unfolding sanitize_sql_identifier drop_while
raw_condition op (key, value) = sanitize_sql_identifier key ++ op ++ trim_space value

unfoldable pub attribute_condition : Bytes → List Bytes
unfolding cut field_condition raw_condition
attribute_condition part = elim (cut (codes "!=") part) [
  | some kv ↦ field_condition (codes "attributes") (codes "<>") kv ∷ []
  | none ↦ elim (cut (codes "=") part) [
    | some kv ↦ field_condition (codes "attributes") (codes "=") kv ∷ []
    | none ↦ elim (cut (codes ">") part) [
      | some kv ↦ raw_condition (codes " > ") kv ∷ []
      | none ↦ elim (cut (codes "<") part) [
        | some kv ↦ raw_condition (codes " < ") kv ∷ []
        | none ↦ []
      ]
    ]
  ]
]

unfoldable pub attribute_conditions : List Bytes → List Bytes
unfolding attribute_condition drop_while
attribute_conditions [] = []
attribute_conditions (p ∷ ps) = attribute_condition (trim_space p) ++ attribute_conditions ps

-- `q[i+n:]`, which panics where the text is shorter.
abbrev pub slice_from : ℕ → Bytes → Outcome Bytes Bytes
slice_from n q = if leb n (length q) then ok (drop n q) else err (codes "slice bounds out of range")

abbrev pub and_parts : Outcome Bytes Bytes → Outcome Bytes (List Bytes)
and_parts (ok expr) = ok (attribute_conditions (split (trim_space expr) (codes " and ")))
and_parts (err e) = err e

-- The conditions behind ` where `, whose place is that in the lower-case text. `lower` is
-- `strings.ToLower`, after which a text may be longer or shorter.
unfoldable pub where_conditions : (Bytes → Bytes) → Bytes → Outcome Bytes (List Bytes)
unfolding index attribute_conditions drop_while split_from
where_conditions lower q = elim (index (codes " where ") (lower q)) [
  | none ↦ ok []
  | some i ↦ and_parts (slice_from (i + 7) q)
]

abbrev pub second_word : List Bytes → Option Bytes
second_word (_ ∷ w ∷ _) = some w
second_word _ = none

abbrev pub trace_sql : Bytes → Bytes → Outcome Bytes (List Bytes) → Outcome Bytes Bytes
trace_sql table stream (err e) = err e
trace_sql table stream (ok conditions) = ok (
    select_where (or_default (sanitize_sql_identifier table) (codes "traces"))
      ((codes "trace_stream = '" ++ escape_sql_value stream ++ codes "'") ∷ conditions))

-- `translateTraceQL`. The panic of the slice stands among the errors.
unfoldable pub translate_trace_ql : (Bytes → Bytes) → Bytes → Bytes → Outcome Bytes Bytes
unfolding where_conditions sanitize_sql_identifier escape_sql_value select_where has_prefix
    drop_while fields_from
translate_trace_ql lower query table =
    let q = trim_space query in
    if is_empty q
    then err (codes "empty traceql")
    else if has_prefix (codes "from") (lower q)
    then elim (second_word (fields q)) [
      | none ↦ err (codes "traceql missing stream")
      | some stream ↦ trace_sql table stream (where_conditions lower q)
    ]
    else err (codes "traceql must start with FROM")
