-- ===== src/Gateway/Translate/Literals.antt =====
-- The values that the translators put into SQL, read back as SQL reads a literal.
use xscope_hub.Prelude.{
  ℕ, Bytes, codes, Bool, true, false, Option, none, some, [], ◌∷◌, ◌++◌, if◌then◌else◌, ◌==◌, ◌≡◌,
  refl, arith, sym, ap, ◌∙◌, Bool-cases, inl, inr, ==_iff,
}
use xscope_hub.Gateway.Text.{replace_all, trim_by, trim_space, is_quote}
use xscope_hub.Gateway.Translate.{escape_sql_value}

abbrev pub with_first : ℕ → Option (Bytes × Bytes) → Option (Bytes × Bytes)
with_first c none = none
with_first c (some (v, rest)) = some (c ∷ v, rest)

-- What SQL reads after an opening quote: the literal's value and the text behind the closing
-- quote. Two quotes stand for one.
unfoldable pub read_literal : Bytes → Option (Bytes × Bytes)
read_literal [] = none
read_literal (c ∷ []) = if c == 39 then some ([], []) else none
read_literal (c ∷ d ∷ s) = elim (c == 39) [
  | false ↦ with_first c (read_literal (d ∷ s))
  | true ↦ elim (d == 39) [ true ↦ with_first 39 (read_literal s) | false ↦ some ([], d ∷ s) ]
]

abbrev pub starts_with_quote : Bytes → Bool
starts_with_quote [] = false
starts_with_quote (c ∷ _) = c == 39

closes :
    (rest : Bytes) → starts_with_quote rest ≡ false → read_literal (39 ∷ rest) ≡ some ([], rest)
unfolding read_literal
closes [] h = refl
closes (c ∷ s) h = ground arith

read_plain :
    (c : ℕ) (s : Bytes) {p : Bytes × Bytes}
    → (c == 39) ≡ false
    → read_literal s ≡ some p
    → read_literal (c ∷ s) ≡ some (c ∷ p.0, p.1)
unfolding read_literal
read_plain c [] h e = cc
read_plain c (d ∷ s) h e = ground arith

read_doubled :
    (s : Bytes) {p : Bytes × Bytes}
    → read_literal s ≡ some p
    → read_literal (39 ∷ 39 ∷ s) ≡ some (39 ∷ p.0, p.1)
unfolding read_literal
read_doubled s e = rw e refl

pub read_escaped :
    (v rest : Bytes)
    → starts_with_quote rest ≡ false
    → read_literal (replace_all v 39 (codes "''") ++ 39 ∷ rest) ≡ some (v, rest)
unfolding replace_all
read_escaped [] rest h = closes rest h
read_escaped (c ∷ v) rest h = elim (Bool-cases (c == 39)) [
  | inl quote ↦ rw (quote) (
      read_doubled (replace_all v 39 (codes "''") ++ 39 ∷ rest) (read_escaped v rest h)
      ∙ ap (λ k. some (k ∷ v, rest)) (sym ((==_iff c 39).0 quote)))
  | inr plain ↦
      rw plain
        (read_plain c (replace_all v 39 (codes "''") ++ 39 ∷ rest) plain (read_escaped v rest h))
]

-- What a value means to SQL: its text without the spaces and quotes around it.
abbrev pub meant : Bytes → Bytes
meant value = trim_by is_quote (trim_space value)

-- SQL reads a value that `escapeSQLValue` has escaped, between quotes, as the value without the
-- spaces and quotes around it, and goes on right behind the closing quote, whatever bytes the value
-- holds, where what follows does not start with a quote.
pub escape_sql_value-literal :
    (value rest : Bytes)
    → starts_with_quote rest ≡ false
    → read_literal (escape_sql_value value ++ 39 ∷ rest) ≡ some (meant value, rest)
unfolding escape_sql_value
escape_sql_value-literal value rest h = read_escaped (meant value) rest h
