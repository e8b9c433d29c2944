-- ===== src/Gateway/Translate/Shapes.antt =====
-- The conditions that the translators make, as SQL reads them.
use xscope_hub.Prelude.{
  Bytes, codes, Bool, true, false, none, some, List, [], ◌∷◌, ◌++◌, ◌≡◌, refl, sym, ap, subst, ◌∙◌,
  Bool-cases, Option-cases, inl, inr, All, All-append, In, same,
}
use xscope_hub.Gateway.Text.{cut, trim_by, trim_space, is_quote}
use xscope_hub.Gateway.Translate.{
  sanitize_sql_identifier, escape_sql_value, field_condition, label_condition, label_conditions,
  line_condition, line_conditions,
}
use xscope_hub.Gateway.Translate.Lexed.{
  outside, is_open, Unquoted, outside-append, open-append, inside-plain, open-plain, inside-doubled,
  open-doubled, trim_by-Unquoted, underscored-Unquoted, Closed,
}

-- Read with a literal open or not, a text leaves this outside of literals, and one open or not.
abbrev pub Lex : Bool → Bytes → Bytes → Bool → Type 0
Lex b s out b' = (outside b s ≡ out) × (is_open b s ≡ b')

pub Lex-append :
    (a b c : Bool) (s t o p : Bytes) → Lex a s o b → Lex b t p c → Lex a (s ++ t) (o ++ p) c
Lex-append a b c s t o p (hs, ks) (ht, kt) = (
  outside-append a s t
      ∙ ap (λ l. l ++ outside (is_open a s) t) hs
      ∙ ap (λ d. o ++ outside d t) ks
      ∙ ap (λ l. o ++ l) ht,
  open-append a s t ∙ ap (λ d. is_open d t) ks ∙ kt,
)

pub escaped-Lex : (value : Bytes) → Lex true (escape_sql_value value) [] true
unfolding escape_sql_value
escaped-Lex value = (
  inside-doubled (trim_by is_quote (trim_space value)),
  open-doubled (trim_by is_quote (trim_space value)),
)

pub sanitized-Unquoted : (name : Bytes) → Unquoted name → Unquoted (sanitize_sql_identifier name)
unfolding sanitize_sql_identifier
sanitized-Unquoted name h =
    underscored-Unquoted _ (trim_by-Unquoted is_quote _ (trim_by-Unquoted _ name h))

-- What a condition of a LogQL query leaves outside of its literals.
abbrev pub log_shapes : List Bytes
log_shapes =
    codes "labels->> <> "
    ∷ codes "labels->> = "
    ∷ codes "message ILIKE "
    ∷ codes "message NOT ILIKE "
    ∷ codes "message ~ "
    ∷ codes "message !~ "
    ∷ codes "1=1"
    ∷ []

abbrev pub IsShaped : List Bytes → Bytes → Type 0
IsShaped shapes c = Closed c × In (outside false c) shapes

pub shaped :
    (shapes : List Bytes) (c out : Bytes)
    → Lex false c out false
    → In out shapes
    → IsShaped shapes c
shaped shapes c out (h, k) there = (k, subst (λ o. In o shapes) (sym h) there)

-- A literal between two texts.
pub quoted-Lex :
    (before inner after out out' : Bytes)
    → Lex false before out true
    → Lex true inner [] true
    → Lex true after out' false
    → Lex false (before ++ inner ++ after) ((out ++ []) ++ out') false
quoted-Lex before inner after out out' h k l =
    Lex-append false true false (before ++ inner) after (out ++ []) out'
      (Lex-append false true true before inner out [] h k) l

pub field-Lex :
    (column name_out op key value out : Bytes)
    → Lex false (column ++ codes "->>'") name_out true
    → Unquoted key
    → Lex false op out false
    → Lex false
        (field_condition column op (key, value))
        (name_out ++ [] ++ codes " " ++ out ++ codes " " ++ [] ++ [])
        false
unfolding field_condition outside is_open
field-Lex column name_out op key value out columned plain lex =
    let name = sanitize_sql_identifier key in
    let named : Lex true name [] true = (
      inside-plain name (sanitized-Unquoted key plain),
      open-plain true name (sanitized-Unquoted key plain),
    ) in
    let before = column ++ codes "->>'" ++ name ++ codes "' " in
    let start =
      quoted-Lex (column ++ codes "->>'") name (codes "' ") name_out (codes " ") columned named
        (refl, refl) in
    let upto = Lex-append false false false before op (name_out ++ [] ++ codes " ") out start lex in
    let opened =
      Lex-append false false true (before ++ op) (codes " '") (name_out ++ [] ++ codes " " ++ out)
        (codes " ") upto (refl, refl) in
    let valued =
      Lex-append false true true (before ++ op ++ codes " '") (escape_sql_value value)
        (name_out ++ [] ++ codes " " ++ out ++ codes " ") [] opened (escaped-Lex value) in
    Lex-append false true false (before ++ op ++ codes " '" ++ escape_sql_value value) (codes "'")
      (name_out ++ [] ++ codes " " ++ out ++ codes " " ++ []) [] valued (refl, refl)

-- The name in one part of a selector.
abbrev pub name_of : Bytes → Bytes
name_of part = elim (cut (codes "!=") part) [
  | some kv ↦ kv.0
  | none ↦ elim (cut (codes "=") part) [ some kv ↦ kv.0 | none ↦ [] ]
]

label_condition-IsShaped :
    (part : Bytes) → Unquoted (name_of part) → All (IsShaped log_shapes) (label_condition part)
unfolding label_condition outside is_open
label_condition-IsShaped part h = elim (Option-cases (cut (codes "!=") part)) [
  | inr (kv, e) ↦
      let plain : Unquoted kv.0 = rw (e, name_of) at h in
      rw (e, label_condition)
        (
          shaped log_shapes (field_condition (codes "labels") (codes "<>") (kv.0, kv.1)) _
              (field-Lex (codes "labels") (codes "labels->>") (codes "<>") kv.0 kv.1 (codes "<>")
                (refl, refl) plain (refl, refl))
              (inl refl),
          tt,
        )
  | inl other ↦ elim (Option-cases (cut (codes "=") part)) [
    | inr (kv, e) ↦
        let plain : Unquoted kv.0 = rw (other, e, name_of) at h in
        rw (other, e, label_condition)
          (
            shaped log_shapes (field_condition (codes "labels") (codes "=") (kv.0, kv.1)) _
                (field-Lex (codes "labels") (codes "labels->>") (codes "=") kv.0 kv.1 (codes "=")
                  (refl, refl) plain (refl, refl))
                (inr (inl refl)),
            tt,
          )
    | inl other' ↦ rw (other, other', label_condition) tt
  ]
]

pub label_conditions-IsShaped :
    (parts : List Bytes)
    → All (λ (p : Bytes). Unquoted (name_of (trim_space p))) parts
    → All (IsShaped log_shapes) (label_conditions parts)
unfolding label_conditions
label_conditions-IsShaped [] h = tt
label_conditions-IsShaped (p ∷ ps) (here, later) =
    All-append (IsShaped log_shapes) (label_condition (trim_space p)) (label_conditions ps)
      (label_condition-IsShaped (trim_space p) here) (label_conditions-IsShaped ps later)

-- A line filter: a value between two texts.
filter-IsShaped :
    (before after out value : Bytes)
    → Lex false before out true
    → Lex true after [] false
    → In ((out ++ []) ++ []) log_shapes
    → All (IsShaped log_shapes) ((before ++ escape_sql_value value ++ after) ∷ [])
filter-IsShaped before after out value h k there = (
  shaped log_shapes (before ++ escape_sql_value value ++ after) ((out ++ []) ++ [])
      (quoted-Lex before (escape_sql_value value) after out [] h (escaped-Lex value) k) there,
  tt,
)

line_condition-IsShaped : (m : Bytes × Bytes) → All (IsShaped log_shapes) (line_condition m)
unfolding line_condition outside is_open
line_condition-IsShaped (op, value) = elim (Bool-cases (same op (codes "="))) [
  | inl h ↦ rw (h) (
      filter-IsShaped (codes "message ILIKE '%") (codes "%'") (codes "message ILIKE ") value
        (refl, refl) (refl, refl) (inr (inr (inl refl))))
  | inr n1 ↦ elim (Bool-cases (same op (codes "!="))) [
    | inl h ↦
        rw (n1, h)
          (filter-IsShaped (codes "message NOT ILIKE '%") (codes "%'") (codes "message NOT ILIKE ")
            value (refl, refl) (refl, refl) (inr (inr (inr (inl refl)))))
    | inr n2 ↦ elim (Bool-cases (same op (codes "~"))) [
      | inl h ↦
          rw (n1, n2, h)
            (filter-IsShaped (codes "message ~ '") (codes "'") (codes "message ~ ") value
              (refl, refl) (refl, refl) (inr (inr (inr (inr (inl refl))))))
      | inr n3 ↦ elim (Bool-cases (same op (codes "!~"))) [
        | inl h ↦
            rw (n1, n2, n3, h)
              (filter-IsShaped (codes "message !~ '") (codes "'") (codes "message !~ ") value
                (refl, refl) (refl, refl) (inr (inr (inr (inr (inr (inl refl)))))))
        | inr n4 ↦ rw (n1, n2, n3, n4) tt
      ]
    ]
  ]
]

pub line_conditions-IsShaped :
    (ms : List (Bytes × Bytes)) → All (IsShaped log_shapes) (line_conditions ms)
unfolding line_conditions
line_conditions-IsShaped [] = tt
line_conditions-IsShaped (m ∷ ms) =
    All-append (IsShaped log_shapes) (line_condition m) (line_conditions ms)
      (line_condition-IsShaped m) (line_conditions-IsShaped ms)
