-- ===== src/Gateway/Translate/Contained.antt =====
-- What a translated LogQL query can be: the user's text stays within the string literals.
use xscope_hub.Prelude.{
  Bytes, codes, false, none, some, List, [], ◌∷◌, ◌++◌, Outcome, ok, err, if◌then◌else◌, ◌≡◌, refl,
  subst, Bool-cases, Option-cases, inl, inr, All, All-append, In, map, is_empty, take, drop,
}
use xscope_hub.Gateway.Text.{has_prefix, index, split, join, trim_space, split_from}
use xscope_hub.Gateway.Translate.{
  sanitize_sql_identifier, label_conditions, line_conditions, pipeline, selector, or_default,
  select_where, or_true, translate_log_ql,
}
use xscope_hub.Gateway.Translate.Lexed.{
  outside, is_open, Unquoted, outside-plain, open-plain, join-Closed, outside-join, Closed,
}
use xscope_hub.Gateway.Translate.Shapes.{
  Lex, Lex-append, IsShaped, log_shapes, name_of, label_conditions-IsShaped,
  line_conditions-IsShaped, sanitized-Unquoted,
}

-- The parts of a query's selector.
unfoldable pub selector_parts : Bytes → List Bytes
unfolding has_prefix index split_from
selector_parts q =
    if has_prefix (codes "{") q
    then elim (index (codes "}") q) [
      | none ↦ []
      | some i ↦ if is_empty (drop 1 (take i q)) then [] else split (drop 1 (take i q)) (codes ",")
    ]
    else []

selector-IsShaped :
    (q : Bytes) {labels : List Bytes} {rest : Bytes}
    → All (λ (p : Bytes). Unquoted (name_of (trim_space p))) (selector_parts q)
    → selector q ≡ ok (labels, rest)
    → All (IsShaped log_shapes) labels
unfolding selector selector_parts
selector-IsShaped q {labels} h e = elim (Bool-cases (has_prefix (codes "{") q)) [
  | inr absent ↦
      let is : [] ≡ labels = cc (rw (absent) at e) in subst (All (IsShaped log_shapes)) is tt
  | inl yes_there ↦ elim (Option-cases (index (codes "}") q)) [
    | inl missing ↦ absurd (cc (rw (yes_there, missing) at e))
    | inr (i, found) ↦ elim (Bool-cases (is_empty (drop 1 (take i q)))) [
      | inl bare ↦
          let is : [] ≡ labels = cc (rw (yes_there, found, bare) at e) in
          subst (All (IsShaped log_shapes)) is tt
      | inr more ↦
          let parts = split (drop 1 (take i q)) (codes ",") in
          let is : label_conditions parts ≡ labels = cc (rw (yes_there, found, more) at e) in
          let plain = rw (yes_there, found, more) at h in
          subst (All (IsShaped log_shapes)) is (label_conditions-IsShaped parts plain)
    ]
  ]
]

-- The parts of a query's selector have names with no quote.
abbrev pub PlainNames : Bytes → Type 0
PlainNames query =
    All (λ (p : Bytes). Unquoted (name_of (trim_space p))) (selector_parts (trim_space query))

abbrev pub table_name : Bytes → Bytes
table_name table = or_default (sanitize_sql_identifier table) (codes "logs")

table-Unquoted : (table : Bytes) → Unquoted table → Unquoted (table_name table)
table-Unquoted table h = elim (Bool-cases (is_empty (sanitize_sql_identifier table))) [
  | inl bare ↦ rw (bare) (refl, (refl, (refl, (refl, tt))))
  | inr named ↦ rw (named) (sanitized-Unquoted table h)
]

module _ (shapes : List Bytes) where
  Closed-of : (cs : List Bytes) → All (IsShaped shapes) cs → All Closed cs
  Closed-of [] h = tt
  Closed-of (c ∷ cs) ((closed, _), later) = (closed, Closed-of cs later)

  shapes-of :
      (cs : List Bytes) → All (IsShaped shapes) cs → All (λ o. In o shapes) (map (outside false) cs)
  shapes-of [] h = tt
  shapes-of (c ∷ cs) ((_, there), later) = (there, shapes-of cs later)

  -- A statement whose conditions have the shapes.
  abbrev pub Contained : Bytes → Bytes → Type 0
  Contained table sql =
      (cs : List Bytes) × (All (λ o. In o shapes) cs
        × ((outside false sql ≡ select_where table cs) × (is_open false sql ≡ false)))

  pub select_where-Contained :
      (table : Bytes) (cs : List Bytes)
      → Unquoted table
      → All (IsShaped shapes) cs
      → Contained table (select_where table cs)
  unfolding select_where outside is_open
  select_where-Contained table cs plain h =
      let named : Lex false table table false =
        (outside-plain table plain, open-plain false table plain) in
      let joined : Lex false (join cs (codes " AND "))
          (join (map (outside false) cs) (codes " AND ")) false =
        (
          outside-join cs (codes " AND ") refl (Closed-of cs h),
          join-Closed cs (codes " AND ") refl (Closed-of cs h),
        ) in
      let from =
        Lex-append false false false (codes "SELECT * FROM ") table (codes "SELECT * FROM ") table
          (refl, refl) named in
      let until_where =
        Lex-append false false false (codes "SELECT * FROM " ++ table) (codes " WHERE ")
          (codes "SELECT * FROM " ++ table) (codes " WHERE ") from (refl, refl) in
      let whole =
        Lex-append false false false (codes "SELECT * FROM " ++ table ++ codes " WHERE ")
          (join cs (codes " AND ")) (codes "SELECT * FROM " ++ table ++ codes " WHERE ")
          (join (map (outside false) cs) (codes " AND ")) until_where joined in
      (map (outside false) cs, (shapes-of cs h, whole))

or_true-IsShaped :
    (cs : List Bytes) → All (IsShaped log_shapes) cs → All (IsShaped log_shapes) (or_true cs)
unfolding outside is_open
or_true-IsShaped [] h = ((refl, inr (inr (inr (inr (inr (inr (inl refl))))))), tt)
or_true-IsShaped (c ∷ cs) h = h

translated :
    (table : Bytes) (q : Bytes) (o : Outcome Bytes (List Bytes × Bytes)) {sql : Bytes}
    → Unquoted table
    → All (λ (p : Bytes). Unquoted (name_of (trim_space p))) (selector_parts q)
    → selector q ≡ o
    → (elim o [
      | err e ↦ err e
      | ok (labels, rest) ↦
          ok (
            select_where (table_name table) (or_true (labels ++ line_conditions (pipeline 0 rest))))
    ])
      ≡ Outcome.ok sql
    → Contained log_shapes (table_name table) sql
translated table q (err e) plain names is h = cc h
translated table q (ok (labels, rest)) plain names is h =
    let cs = labels ++ line_conditions (pipeline 0 rest) in
    let made : select_where (table_name table) (or_true cs) ≡ _ = cc h in
    subst (Contained log_shapes (table_name table)) made (
      select_where-Contained log_shapes (table_name table) (or_true cs) (table-Unquoted table plain)
        (or_true-IsShaped cs (
          All-append (IsShaped log_shapes) labels (line_conditions (pipeline 0 rest))
            (selector-IsShaped q names is) (line_conditions-IsShaped (pipeline 0 rest)))))

-- Where neither the name of the table nor a name in the selector has a single quote, whatever else the
-- query says: a LogQL query that is translated gives a statement of which SQL reads, outside of string
-- literals, the selection from that table by conditions of seven fixed shapes, and in which every
-- literal is closed.
pub translate_log_ql-Contained :
    (query table sql : Bytes)
    → Unquoted table
    → PlainNames query
    → translate_log_ql query table ≡ ok sql
    → Contained log_shapes (table_name table) sql
unfolding translate_log_ql
translate_log_ql-Contained query table sql plain names h =
    elim (Bool-cases (is_empty (trim_space query))) [
      | inl bare ↦ cc (rw (bare) at h)
      | inr more ↦
          translated table (trim_space query) (selector (trim_space query)) plain names refl
            (rw (more) at h)
    ]
