-- ===== src/Json/Parser/Reads.antt =====
-- What the parser makes of the symbols of a document.
use wake.Prelude.{
  ℕ, zero, suc, ◌+◌, ◌≤◌, ◌<◌, Bytes, List, [], ◌∷◌, true, false, not, ◌≡◌, refl, ap, ap₂, sym, ◌∙◌,
  arith,
}
use wake.Json.Ast.{
  SymbolJson, nullval, true_symbol, false_symbol, nan, integer, double, infinity, str, object,
  array, end, sopen, sclose, bopen, bclose, colon, comma, Jast, jast, JChildren, no_children, child,
  JSymbol,
}
use wake.Json.Parser.{JLexer, consume, parse_jvalue, parse_jarray, parse_jobject, expect_end, parse}
use wake.Json.Parser.Steps.{
  is_word, has_text, value_word, value_text, opens, array_closed, array_last, array_more,
  object_closed, object_last, object_more, behind_key, value_array, value_object, expect_end_met,
}

abbrev pub sign : SymbolJson → JSymbol
sign k = record { kind = k; value = [] }

-- The symbols of a document, with what follows; a list of children ends in its bracket.
unfoldable mutual
  pub symbols : Jast → List JSymbol → List JSymbol
  symbols (jast object v c) after = sign bopen ∷ members c after
  symbols (jast array v c) after = sign sopen ∷ elements c after
  symbols (jast kind v c) after = record { kind = kind; value = v } ∷ after

  pub elements : JChildren → List JSymbol → List JSymbol
  elements no_children after = sign sclose ∷ after
  elements (child k v no_children) after = symbols v (sign sclose ∷ after)
  elements (child k v (child l w rest)) after =
      symbols v (sign comma ∷ elements (child l w rest) after)

  pub members : JChildren → List JSymbol → List JSymbol
  members no_children after = sign bclose ∷ after
  members (child k v no_children) after =
      record { kind = str; value = k } ∷ sign colon ∷ symbols v (sign bclose ∷ after)
  members (child k v (child l w rest)) after =
      record { kind = str; value = k }
      ∷ sign colon
      ∷ symbols v (sign comma ∷ members (child l w rest) after)

-- Documents that the parser can return without an error: a literal has no text and no children, a
-- number or a string has no children, an element of an array has no key.
unfoldable mutual
  pub IsDocument : Jast → Type 0
  IsDocument (jast nullval v c) = (v ≡ []) × (c ≡ no_children)
  IsDocument (jast true_symbol v c) = (v ≡ []) × (c ≡ no_children)
  IsDocument (jast false_symbol v c) = (v ≡ []) × (c ≡ no_children)
  IsDocument (jast nan v c) = (v ≡ []) × (c ≡ no_children)
  IsDocument (jast integer v c) = c ≡ no_children
  IsDocument (jast double v c) = c ≡ no_children
  IsDocument (jast infinity v c) = c ≡ no_children
  IsDocument (jast str v c) = c ≡ no_children
  IsDocument (jast object v c) = (v ≡ []) × AreMembers c
  IsDocument (jast array v c) = (v ≡ []) × AreElements c
  IsDocument (jast kind v c) = ⊥

  pub AreElements : JChildren → Type 0
  AreElements no_children = Unit
  AreElements (child k v rest) = (k ≡ []) × IsDocument v × AreElements rest

  pub AreMembers : JChildren → Type 0
  AreMembers no_children = Unit
  AreMembers (child k v rest) = IsDocument v × AreMembers rest

-- Fuel enough for a document.
unfoldable mutual
  pub size : Jast → ℕ
  size (jast k v c) = suc (size_children c)

  pub size_children : JChildren → ℕ
  size_children no_children = 1
  size_children (child k v rest) = size v + size_children rest

module _ (Engine : Type 0) (lex : Engine → JSymbol × Engine) where
  -- A lexer gives these symbols, and is then the second.
  abbrev pub Gives : JLexer Engine lex → List JSymbol → JLexer Engine lex → Type 0
  Gives l [] m = l ≡ m
  Gives l (s ∷ ss) m = (l.next ≡ s) × Gives (consume Engine lex l) ss m

  abbrev Lexer : Type 0
  Lexer = JLexer Engine lex

  -- A result that has a value, behind which the lexer gives the rest.
  abbrev Read : {A : Type 0} → A × Lexer → A → Lexer → List JSymbol → Lexer → Type 0
  Read result a l after m = (n : Lexer) × (result ≡ (a, n)) × Gives n after m × (n.fail ≡ l.fail)

  -- A value's symbols start with one that opens a value.
  symbols-opens :
      (j : Jast) (after : List JSymbol) (l m : Lexer)
      → IsDocument j
      → Gives l (symbols j after) m
      → opens l.next.kind ≡ true
  unfolding symbols IsDocument opens
  symbols-opens (jast nullval v c) after l m d g = ap (λ s. opens s.kind) g.0
  symbols-opens (jast true_symbol v c) after l m d g = ap (λ s. opens s.kind) g.0
  symbols-opens (jast false_symbol v c) after l m d g = ap (λ s. opens s.kind) g.0
  symbols-opens (jast nan v c) after l m d g = ap (λ s. opens s.kind) g.0
  symbols-opens (jast integer v c) after l m d g = ap (λ s. opens s.kind) g.0
  symbols-opens (jast double v c) after l m d g = ap (λ s. opens s.kind) g.0
  symbols-opens (jast infinity v c) after l m d g = ap (λ s. opens s.kind) g.0
  symbols-opens (jast str v c) after l m d g = ap (λ s. opens s.kind) g.0
  symbols-opens (jast object v c) after l m d g = ap (λ s. opens s.kind) g.0
  symbols-opens (jast array v c) after l m d g = ap (λ s. opens s.kind) g.0
  symbols-opens (jast k v c) after l m d g = absurd d

  size_positive : (j : Jast) → 0 < size j
  unfolding size
  size_positive (jast k v c) = omega arith

  size_children_positive : (c : JChildren) → 0 < size_children c
  unfolding size_children
  size_children_positive no_children = omega arith
  size_children_positive (child k v rest) = omega (arith, size_positive v)

  kind_lem : (l : Lexer) (s : JSymbol) → l.next ≡ s → l.next.kind ≡ s.kind
  kind_lem l s e = ap (λ t. t.kind) e

  -- A document of one symbol.
  read_word :
      (fuel : ℕ) (k : SymbolJson) (v : Bytes) (c : JChildren) (after : List JSymbol) (l m : Lexer)
      → is_word k ≡ true
      → (v ≡ []) × (c ≡ no_children)
      → Gives l (record { kind = k; value = v } ∷ after) m
      → Read (parse_jvalue Engine lex (suc fuel) l) (jast k v c) l after m
  unfolding consume
  read_word fuel k v c after l m w d g = (
    consume Engine lex l,
    value_word Engine lex fuel l k w (kind_lem l _ g.0)
        ∙ ap₂ (λ u b. (jast k u b, consume Engine lex l)) (sym d.0) (sym d.1),
    g.1,
    refl,
  )

  read_text :
      (fuel : ℕ) (k : SymbolJson) (v : Bytes) (c : JChildren) (after : List JSymbol) (l m : Lexer)
      → has_text k ≡ true
      → c ≡ no_children
      → Gives l (record { kind = k; value = v } ∷ after) m
      → Read (parse_jvalue Engine lex (suc fuel) l) (jast k v c) l after m
  unfolding consume
  read_text fuel k v c after l m w d g = (
    consume Engine lex l,
    value_text Engine lex fuel l k w (kind_lem l _ g.0)
        ∙ ap₂ (λ t b. (jast k t.value b, consume Engine lex l)) g.0 (sym d),
    g.1,
    refl,
  )

  consume_fail : (l : Lexer) → (consume Engine lex l).fail ≡ l.fail
  unfolding consume
  consume_fail l = refl

  mutual
    unfolding symbols elements members IsDocument AreElements AreMembers size size_children is_word
        has_text

    pub reads_value :
        (fuel : ℕ) (j : Jast) (after : List JSymbol) (l m : Lexer)
        → size j ≤ fuel
        → IsDocument j
        → Gives l (symbols j after) m
        → Read (parse_jvalue Engine lex fuel l) j l after m
    reads_value zero (jast k v c) after l m b d g = absurd (omega arith)
    reads_value (suc f) (jast array v c) after l m b d g =
        let (n, e, more, same) =
          reads_elements f c after (consume Engine lex l) m (omega arith) d.1 g.1 in
        (
          n,
          value_array Engine lex f l (kind_lem l _ g.0)
              ∙ ap (λ r. (jast array [] r.0, r.1)) e
              ∙ ap (λ w. (jast array w c, n)) (sym d.0),
          more,
          same ∙ consume_fail l,
        )
    reads_value (suc f) (jast object v c) after l m b d g =
        let (n, e, more, same) =
          reads_members f c after (consume Engine lex l) m (omega arith) d.1 g.1 in
        (
          n,
          value_object Engine lex f l (kind_lem l _ g.0)
              ∙ ap (λ r. (jast object [] r.0, r.1)) e
              ∙ ap (λ w. (jast object w c, n)) (sym d.0),
          more,
          same ∙ consume_fail l,
        )
    reads_value (suc f) (jast nullval v c) after l m b d g =
        read_word f nullval v c after l m refl d g
    reads_value (suc f) (jast true_symbol v c) after l m b d g =
        read_word f true_symbol v c after l m refl d g
    reads_value (suc f) (jast false_symbol v c) after l m b d g =
        read_word f false_symbol v c after l m refl d g
    reads_value (suc f) (jast nan v c) after l m b d g = read_word f nan v c after l m refl d g
    reads_value (suc f) (jast integer v c) after l m b d g =
        read_text f integer v c after l m refl d g
    reads_value (suc f) (jast double v c) after l m b d g =
        read_text f double v c after l m refl d g
    reads_value (suc f) (jast infinity v c) after l m b d g =
        read_text f infinity v c after l m refl d g
    reads_value (suc f) (jast str v c) after l m b d g = read_text f str v c after l m refl d g
    reads_value (suc f) (jast k v c) after l m b d g = absurd d

    pub reads_elements :
        (fuel : ℕ) (c : JChildren) (after : List JSymbol) (l m : Lexer)
        → size_children c ≤ fuel
        → AreElements c
        → Gives l (elements c after) m
        → Read (parse_jarray Engine lex fuel l) c l after m
    reads_elements zero c after l m b d g = absurd (omega (arith, size_children_positive c))
    reads_elements (suc f) no_children after l m b d g =
        (consume Engine lex l, array_closed Engine lex f l (kind_lem l _ g.0), g.1, consume_fail l)
    reads_elements (suc f) (child k v no_children) after l m b d g =
        let (n, e, more, same) = reads_value f v (sign sclose ∷ after) l m (omega arith) d.1 g in
        (
          consume Engine lex n,
          array_last Engine lex f l (symbols-opens v _ l m d.1 g)
                (ap (λ r. r.1.next.kind) e ∙ kind_lem n _ more.0)
              ∙ ap (λ r. (child [] r.0 no_children, consume Engine lex r.1)) e
              ∙ ap (λ w. (child w v no_children, consume Engine lex n)) (sym d.0),
          more.1,
          consume_fail n ∙ same,
        )
    reads_elements (suc f) (child k v (child k' w rest)) after l m b d g =
        let (n, e, more, same) =
          reads_value f v (sign comma ∷ elements (child k' w rest) after) l m
            (omega (arith, size_positive w)) d.1 g in
        let (o, e', more', same') =
          reads_elements f (child k' w rest) after (consume Engine lex n) m
            (omega (arith, size_positive v)) d.2 more.1 in
        (
          o,
          array_more Engine lex f l (symbols-opens v _ l m d.1 g)
                (ap (λ r. r.1.next.kind) e ∙ kind_lem n _ more.0)
              ∙ ap
                  (λ r. (
                    child [] r.0 (parse_jarray Engine lex f (consume Engine lex r.1)).0,
                    (parse_jarray Engine lex f (consume Engine lex r.1)).1,
                  ))
                  e
              ∙ ap (λ r. (child [] v r.0, r.1)) e'
              ∙ ap (λ u. (child u v (child k' w rest), o)) (sym d.0),
          more',
          same' ∙ consume_fail n ∙ same,
        )

    pub reads_members :
        (fuel : ℕ) (c : JChildren) (after : List JSymbol) (l m : Lexer)
        → size_children c ≤ fuel
        → AreMembers c
        → Gives l (members c after) m
        → Read (parse_jobject Engine lex fuel l) c l after m
    reads_members zero c after l m b d g = absurd (omega (arith, size_children_positive c))
    reads_members (suc f) no_children after l m b d g =
        (consume Engine lex l, object_closed Engine lex f l (kind_lem l _ g.0), g.1, consume_fail l)
    reads_members (suc f) (child k v no_children) after l m b d g =
        let (n, e, more, same) =
          reads_value f v (sign bclose ∷ after) (behind_key Engine lex l) m (omega arith) d.0
            g.1.1 in
        (
          consume Engine lex n,
          object_last Engine lex f l (kind_lem l _ g.0) (kind_lem (consume Engine lex l) _ g.1.0)
                (ap (λ r. r.1.next.kind) e ∙ kind_lem n _ more.0)
              ∙ ap (λ r. (child l.next.value r.0 no_children, consume Engine lex r.1)) e
              ∙ ap (λ t. (child t.value v no_children, consume Engine lex n)) g.0,
          more.1,
          consume_fail n ∙ same ∙ consume_fail (consume Engine lex l) ∙ consume_fail l,
        )
    reads_members (suc f) (child k v (child k' w rest)) after l m b d g =
        let (n, e, more, same) =
          reads_value f v (sign comma ∷ members (child k' w rest) after) (behind_key Engine lex l) m
            (omega (arith, size_positive w)) d.0 g.1.1 in
        let (o, e', more', same') =
          reads_members f (child k' w rest) after (consume Engine lex n) m
            (omega (arith, size_positive v)) d.1 more.1 in
        (
          o,
          object_more Engine lex f l (kind_lem l _ g.0) (kind_lem (consume Engine lex l) _ g.1.0)
                (ap (λ r. r.1.next.kind) e ∙ kind_lem n _ more.0)
              ∙ ap
                  (λ r. (
                    child l.next.value r.0 (parse_jobject Engine lex f (consume Engine lex r.1)).0,
                    (parse_jobject Engine lex f (consume Engine lex r.1)).1,
                  ))
                  e
              ∙ ap (λ r. (child l.next.value v r.0, r.1)) e'
              ∙ ap (λ t. (child t.value v (child k' w rest), o)) g.0,
          more',
          same' ∙ consume_fail n ∙ same ∙ consume_fail (consume Engine lex l) ∙ consume_fail l,
        )

  -- With a lexer that has not failed, and gives the symbols of a document (`IsDocument`) and then the
  -- end, `JAST::parse` returns the document and reports no error, with fuel for the document's size.
  pub parse-symbols :
      (fuel : ℕ) (j : Jast) (l m : Lexer)
      → size j ≤ fuel
      → IsDocument j
      → Gives l (symbols j (sign end ∷ [])) m
      → l.fail ≡ false
      → parse Engine lex fuel l ≡ (j, true)
  unfolding parse
  parse-symbols fuel j l m b d g f =
      let (n, e, more, same) = reads_value fuel j (sign end ∷ []) l m b d g in
      ap (λ r. (r.0, not (expect_end Engine lex r.1).fail)) e
      ∙ ap (λ o. (j, not o.fail)) (expect_end_met Engine lex n (kind_lem n _ more.0))
      ∙ ap (λ x. (j, not x)) (same ∙ f)
