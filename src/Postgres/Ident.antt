-- ===== src/Postgres/Ident.antt =====
-- quoteIdent and joinIdents of internal/postgres/postgres.go against the way SQL reads a quoted identifier.
use mqtt2db_go.Prelude.{
  ℕ, ◌≡◌, ◌≢◌, refl, sym, ap, ◌∙◌, false, Bool-cases, inl, inr, [], ◌∷◌, ◌++◌, append_assoc, Option,
  none, some, Bytes, arith, ◌==◌, if◌then◌else◌,
}
use mqtt2db_go.Postgres.{quote, escape, quote_ident}

abbrev pub put : ℕ → Option (Bytes × Bytes) → Option (Bytes × Bytes)
put c none = none
put c (some (name, rest)) = some (c ∷ name, rest)

-- The body of a quoted identifier of SQL: a doubled quote is a quote, a single one ends it. The name, and the text
-- behind it.
unfoldable pub read_body : Bytes → Option (Bytes × Bytes)
read_body [] = none
read_body (c ∷ []) = if c == quote then some ([], []) else none
read_body (c ∷ e ∷ s) =
    let doubled = read_body s in
    let plain = read_body (e ∷ s) in
    if c == quote then (if e == quote then put quote doubled else some ([], e ∷ s)) else put c plain

unfoldable pub read_ident : Bytes → Option (Bytes × Bytes)
unfolding read_body
read_ident [] = none
read_ident (c ∷ s) = if c == quote then read_body s else none

-- The text does not go on with a quote.
abbrev pub NoQuote : Bytes → Type 0
NoQuote [] = Unit
NoQuote (c ∷ s) = c ≢ quote

read_body-plain :
    (c : ℕ) (s : Bytes) → (c == quote) ≡ false → s ≢ [] → read_body (c ∷ s) ≡ put c (read_body s)
unfolding read_body
read_body-plain c [] plain h = absurd (h refl)
read_body-plain c (e ∷ s) plain h = rw (plain, read_body) refl

append-nonempty : (s rest : Bytes) (c : ℕ) → s ++ c ∷ rest ≢ []
append-nonempty [] rest c h = cc
append-nonempty (x ∷ s) rest c h = cc

read_body-escape :
    (s rest : Bytes) → NoQuote rest → read_body (escape s ++ quote ∷ rest) ≡ some (s, rest)
unfolding read_body escape
read_body-escape [] [] h = refl
read_body-escape [] (c ∷ rest) h = ground arith
read_body-escape (c ∷ s) rest h = elim (Bool-cases (c == quote)) [
  | inl is_quote ↦
      let same : c ≡ quote = ground arith in
      rw (is_quote, escape)
        (ap (put quote) (read_body-escape s rest h) ∙ ap (λ x. some (x ∷ s, rest)) (sym same))
  | inr plain ↦
      rw (plain, escape)
        (read_body-plain c (escape s ++ quote ∷ rest) plain (append-nonempty (escape s) rest quote)
          ∙ ap (put c) (read_body-escape s rest h))
]

-- SQL reads back exactly the name that quoteIdent quoted, whatever bytes it has, and goes on behind it: no name breaks
-- out of its quotes. The text behind does not begin with a quote.
pub read_ident-quote_ident :
    (name rest : Bytes) → NoQuote rest → read_ident (quote_ident name ++ rest) ≡ some (name, rest)
unfolding read_ident quote_ident
read_ident-quote_ident name rest h =
    ap read_body (append_assoc (escape name) (quote ∷ []) rest) ∙ read_body-escape name rest h
