-- ===== src/Json/Parser/Tests.antt =====
-- A document read from a list of symbols.
use wake.Prelude.{◌≤◌, List, [], ◌∷◌, codes, true, false, ◌≡◌, refl, arith}
use wake.Json.Ast.{nullval, integer, object, array, end, Jast, jast, no_children, child, JSymbol}
use wake.Json.Parser.{JLexer, consume, parse}
use wake.Json.Parser.Reads.{sign, symbols, size, IsDocument, Gives, parse-symbols}

-- An engine that holds symbols, and the end behind them.
abbrev lex : List JSymbol → JSymbol × List JSymbol
lex [] = (sign end, [])
lex (s ∷ rest) = (s, rest)

-- {"a": [1, null], "b": {}}
abbrev document : Jast
document = jast object [] (
    child (codes "a")
      (jast array [] (
        child [] (jast integer (codes "1") no_children)
          (child [] (jast nullval [] no_children) no_children)))
      (child (codes "b") (jast object [] no_children) no_children))

abbrev begin : List JSymbol → JLexer (List JSymbol) lex
begin s = record { engine = (lex s).1; next = (lex s).0; fail = false }

document_fits : (size document ≤ 10) × IsDocument document
unfolding size IsDocument
document_fits =
    (omega arith, (refl, ((refl, (refl, refl, (refl, (refl, refl), tt))), ((refl, tt), tt))))

document_given :
    Gives
      (List JSymbol)
      lex
      (begin (symbols document (sign end ∷ [])))
      (symbols document (sign end ∷ []))
      (begin [])
unfolding consume symbols
document_given = (
  refl,
  (
    refl,
    (
      refl,
      (
        refl,
        (
          refl,
          (refl, (refl, (refl, (refl, (refl, (refl, (refl, (refl, (refl, (refl, refl)))))))))),
        ),
      ),
    ),
  ),
)

parse-symbols_example :
    parse (List JSymbol) lex 10 (begin (symbols document (sign end ∷ []))) ≡ (document, true)
parse-symbols_example =
    parse-symbols (List JSymbol) lex 10 document (begin (symbols document (sign end ∷ [])))
      (begin []) document_fits.0 document_fits.1 document_given refl
