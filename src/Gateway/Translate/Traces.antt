-- ===== src/Gateway/Translate/Traces.antt =====
-- What a translated TraceQL query can be, where its conditions compare by `=` and `!=`: the user's text
-- stays within the string literals. Behind `>` and `<` a value is put into the statement as it is.
use xscope_hub.Prelude.{
  err, Bytes, codes, Option, none, some, List, [], ◌∷◌, ◌++◌, ◌+◌, ok, ◌≡◌, refl, subst, Bool-cases,
  Option-cases, inl, inr, All, All-append, is_empty, drop, ℕ, Outcome, leb, length,
}
use xscope_hub.Gateway.Text.{has_prefix, index, cut, split, trim_space, fields, split_from}
use xscope_hub.Gateway.Translate.{
  sanitize_sql_identifier, escape_sql_value, field_condition, attribute_condition,
  attribute_conditions, where_conditions, slice_from, and_parts, trace_sql, or_default,
  select_where, second_word, translate_trace_ql,
}
use xscope_hub.Gateway.Translate.Lexed.{outside, is_open, Unquoted}
use xscope_hub.Gateway.Translate.Shapes.{
  IsShaped, shaped, field-Lex, quoted-Lex, escaped-Lex, sanitized-Unquoted,
}
use xscope_hub.Gateway.Translate.Contained.{Contained, select_where-Contained}

-- What a condition of a TraceQL query leaves outside of its literals.
abbrev pub trace_shapes : List Bytes
trace_shapes = codes "trace_stream = " ∷ codes "attributes->> <> " ∷ codes "attributes->> = " ∷ []

-- The text before a separator has no quote; without the separator, something else is asked.
abbrev pub PlainCut : Option (Bytes × Bytes) → Type 0 → Type 0
PlainCut (some kv) otherwise = Unquoted kv.0
PlainCut none otherwise = otherwise

-- The name that a part compares has no quote, and it is not compared by `>` or `<`.
abbrev pub PlainPart : Bytes → Type 0
PlainPart part = PlainCut (cut (codes "!=") part) (
    PlainCut (cut (codes "=") part) ((cut (codes ">") part ≡ none) × (cut (codes "<") part ≡ none)))

-- The parts of a query's condition.
unfoldable pub where_parts : (Bytes → Bytes) → Bytes → List Bytes
unfolding index split_from
where_parts lower q = elim (index (codes " where ") (lower q)) [
  | none ↦ []
  | some i ↦ split (trim_space (drop (i + 7) q)) (codes " and ")
]

abbrev pub PlainParts : (Bytes → Bytes) → Bytes → Type 0
PlainParts lower query =
    All (λ (p : Bytes). PlainPart (trim_space p)) (where_parts lower (trim_space query))

attribute_condition-IsShaped :
    (part : Bytes) → PlainPart part → All (IsShaped trace_shapes) (attribute_condition part)
unfolding attribute_condition outside is_open
attribute_condition-IsShaped part h = elim (Option-cases (cut (codes "!=") part)) [
  | inr (kv, e) ↦
      let plain : Unquoted kv.0 = rw (e) at h in
      rw (e, attribute_condition)
        (
          shaped trace_shapes (field_condition (codes "attributes") (codes "<>") (kv.0, kv.1)) _
              (field-Lex (codes "attributes") (codes "attributes->>") (codes "<>") kv.0 kv.1
                (codes "<>") (refl, refl) plain (refl, refl))
              (inr (inl refl)),
          tt,
        )
  | inl other ↦ elim (Option-cases (cut (codes "=") part)) [
    | inr (kv, e) ↦
        let plain : Unquoted kv.0 = rw (other, e) at h in
        rw (other, e, attribute_condition)
          (
            shaped trace_shapes (field_condition (codes "attributes") (codes "=") (kv.0, kv.1)) _
                (field-Lex (codes "attributes") (codes "attributes->>") (codes "=") kv.0 kv.1
                  (codes "=") (refl, refl) plain (refl, refl))
                (inr (inr (inl refl))),
            tt,
          )
    | inl other' ↦
        let (above, below) = rw (other, other') at h in
        rw (other, other', above, below, attribute_condition) tt
  ]
]

attribute_conditions-IsShaped :
    (parts : List Bytes)
    → All (λ (p : Bytes). PlainPart (trim_space p)) parts
    → All (IsShaped trace_shapes) (attribute_conditions parts)
unfolding attribute_conditions
attribute_conditions-IsShaped [] h = tt
attribute_conditions-IsShaped (p ∷ ps) (here, later) =
    All-append (IsShaped trace_shapes) (attribute_condition (trim_space p))
      (attribute_conditions ps) (attribute_condition-IsShaped (trim_space p) here)
      (attribute_conditions-IsShaped ps later)

and_parts-IsShaped :
    (n : ℕ) (q : Bytes) {cs : List Bytes}
    → All (λ (p : Bytes). PlainPart (trim_space p)) (split (trim_space (drop n q)) (codes " and "))
    → and_parts (slice_from n q) ≡ ok cs
    → All (IsShaped trace_shapes) cs
and_parts-IsShaped n q {cs} h made = elim (Bool-cases (leb n (length q))) [
  | inr short ↦ cc (rw (short) at made)
  | inl long ↦
      let is : attribute_conditions (split (trim_space (drop n q)) (codes " and ")) ≡ cs =
        cc (rw (long) at made) in
      subst (All (IsShaped trace_shapes)) is (attribute_conditions-IsShaped _ h)
]

where_conditions-IsShaped :
    (lower : Bytes → Bytes) (q : Bytes) {cs : List Bytes}
    → All (λ (p : Bytes). PlainPart (trim_space p)) (where_parts lower q)
    → where_conditions lower q ≡ ok cs
    → All (IsShaped trace_shapes) cs
unfolding where_conditions where_parts
where_conditions-IsShaped lower q {cs} h made =
    elim (Option-cases (index (codes " where ") (lower q))) [
      | inl missing ↦
          let is : [] ≡ cs = cc (rw (missing, where_conditions) at made) in
          subst (All (IsShaped trace_shapes)) is tt
      | inr (i, found) ↦
          and_parts-IsShaped (i + 7) q (rw (found, where_parts) at h)
            (rw (found, where_conditions) at made)
    ]

stream-IsShaped :
    (stream : Bytes)
    → IsShaped trace_shapes (codes "trace_stream = '" ++ escape_sql_value stream ++ codes "'")
unfolding outside is_open
stream-IsShaped stream =
    shaped trace_shapes (codes "trace_stream = '" ++ escape_sql_value stream ++ codes "'") _
      (quoted-Lex (codes "trace_stream = '") (escape_sql_value stream) (codes "'")
        (codes "trace_stream = ") [] (refl, refl) (escaped-Lex stream) (refl, refl))
      (inl refl)

abbrev pub trace_table : Bytes → Bytes
trace_table table = or_default (sanitize_sql_identifier table) (codes "traces")

trace_table-Unquoted : (table : Bytes) → Unquoted table → Unquoted (trace_table table)
trace_table-Unquoted table h = elim (Bool-cases (is_empty (sanitize_sql_identifier table))) [
  | inl bare ↦ rw (bare) (refl, (refl, (refl, (refl, (refl, (refl, tt))))))
  | inr named ↦ rw (named) (sanitized-Unquoted table h)
]

trace_sql-Contained :
    (table stream sql : Bytes) (o : Outcome Bytes (List Bytes))
    → Unquoted table
    → ((cs : List Bytes) → o ≡ ok cs → All (IsShaped trace_shapes) cs)
    → trace_sql table stream o ≡ ok sql
    → Contained trace_shapes (trace_table table) sql
trace_sql-Contained table stream sql (err e) plain shaped_all h = cc h
trace_sql-Contained table stream sql (ok cs) plain shaped_all h =
    let conditions = (codes "trace_stream = '" ++ escape_sql_value stream ++ codes "'") ∷ cs in
    let made : select_where (trace_table table) conditions ≡ sql = cc h in
    subst (Contained trace_shapes (trace_table table)) made (
      select_where-Contained trace_shapes (trace_table table) conditions
        (trace_table-Unquoted table plain) (stream-IsShaped stream, shaped_all cs refl))

-- Where the name of the table has no single quote, no name in the condition has one, and no part of the
-- condition compares by `>` or `<` alone, whatever else the query says: a TraceQL query that is
-- translated gives a statement of which SQL reads, outside of string literals, the selection from that
-- table by conditions of three fixed shapes, and in which every literal is closed. The condition is
-- what the code cuts off as such, wherever the lower-case text, whatever it is, has ` where `.
pub translate_trace_ql-Contained :
    (lower : Bytes → Bytes) (query table sql : Bytes)
    → Unquoted table
    → PlainParts lower query
    → translate_trace_ql lower query table ≡ ok sql
    → Contained trace_shapes (trace_table table) sql
unfolding translate_trace_ql
translate_trace_ql-Contained lower query table sql plain parts h =
    let q = trim_space query in
    elim (Bool-cases (is_empty q)) [
      | inl bare ↦ cc (rw (bare) at h)
      | inr more ↦ elim (Bool-cases (has_prefix (codes "from") (lower q))) [
        | inr other ↦ cc (rw (more, other) at h)
        | inl from ↦ elim (Option-cases (second_word (fields q))) [
          | inl missing ↦ cc (rw (more, from, missing) at h)
          | inr (stream, found) ↦
              trace_sql-Contained table stream sql (where_conditions lower q) plain
                (λ cs made. where_conditions-IsShaped lower q parts made)
                (rw (more, from, found) at h)
        ]
      ]
    ]
