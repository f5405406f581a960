-- ===== src/Json/Parser/Steps.antt =====
-- The rounds of the parser's loops.
use wake.Prelude.{ℕ, suc, [], Bool, true, false, ◌≡◌, refl, ap}
use wake.Json.Ast.{
  SymbolJson, nullval, true_symbol, false_symbol, nan, integer, double, infinity, str, object,
  array, end, sopen, sclose, bopen, bclose, colon, comma, jast, no_children, child, JSymbol,
}
use wake.Json.Parser.{
  key_at, colon_at, end_at, expect_end, JLexer, consume, expect_colon, key_of, parse_jvalue,
  parse_jarray, parse_jobject,
}

-- The symbols that a value starts with.
unfoldable pub opens : SymbolJson → Bool
opens nullval = true
opens true_symbol = true
opens false_symbol = true
opens nan = true
opens integer = true
opens double = true
opens infinity = true
opens str = true
opens bopen = true
opens sopen = true
opens k = false

-- The literals, and the symbols whose text is kept.
unfoldable pub is_word : SymbolJson → Bool
is_word nullval = true
is_word true_symbol = true
is_word false_symbol = true
is_word nan = true
is_word k = false

unfoldable pub has_text : SymbolJson → Bool
has_text integer = true
has_text double = true
has_text infinity = true
has_text str = true
has_text k = false

sclose_opens_nothing : opens sclose ≡ true → ⊥
unfolding opens
sclose_opens_nothing e = cc e

module _ (Engine : Type 0) (lex : Engine → JSymbol × Engine) where
  abbrev Lexer : Type 0
  Lexer = JLexer Engine lex

  pub array_closed :
      (fuel : ℕ) (l : Lexer)
      → l.next.kind ≡ sclose
      → parse_jarray Engine lex (suc fuel) l ≡ (no_children, consume Engine lex l)
  unfolding parse_jarray
  array_closed fuel l e = rw e refl

  pub array_last :
      (fuel : ℕ) (l : Lexer)
      → opens l.next.kind ≡ true
      → (parse_jvalue Engine lex fuel l).1.next.kind ≡ sclose
      → parse_jarray Engine lex (suc fuel) l ≡ (
        child [] (parse_jvalue Engine lex fuel l).0 no_children,
        consume Engine lex (parse_jvalue Engine lex fuel l).1,
      )
  unfolding parse_jarray
  array_last fuel l o e = go l.next.kind refl o
    where
      go :
          (k : SymbolJson)
          → l.next.kind ≡ k
          → opens k ≡ true
          → parse_jarray Engine lex (suc fuel) l ≡ (
            child [] (parse_jvalue Engine lex fuel l).0 no_children,
            consume Engine lex (parse_jvalue Engine lex fuel l).1,
          )
      go sclose q o = absurd (sclose_opens_nothing o)
      go _ q o = simp (q, e)

  pub array_more :
      (fuel : ℕ) (l : Lexer)
      → opens l.next.kind ≡ true
      → (parse_jvalue Engine lex fuel l).1.next.kind ≡ comma
      → parse_jarray Engine lex (suc fuel) l ≡ (
        child []
            (parse_jvalue Engine lex fuel l).0
            (parse_jarray Engine lex fuel
              (consume Engine lex (parse_jvalue Engine lex fuel l).1)).0,
        (parse_jarray Engine lex fuel (consume Engine lex (parse_jvalue Engine lex fuel l).1)).1,
      )
  unfolding parse_jarray
  array_more fuel l o e = go l.next.kind refl o
    where
      go :
          (k : SymbolJson)
          → l.next.kind ≡ k
          → opens k ≡ true
          → parse_jarray Engine lex (suc fuel) l ≡ (
            child []
                (parse_jvalue Engine lex fuel l).0
                (parse_jarray Engine lex fuel
                  (consume Engine lex (parse_jvalue Engine lex fuel l).1)).0,
            (parse_jarray Engine lex fuel
                (consume Engine lex (parse_jvalue Engine lex fuel l).1)).1,
          )
      go sclose q o = absurd (sclose_opens_nothing o)
      go _ q o = simp (q, e)

  pub object_closed :
      (fuel : ℕ) (l : Lexer)
      → l.next.kind ≡ bclose
      → parse_jobject Engine lex (suc fuel) l ≡ (no_children, consume Engine lex l)
  unfolding parse_jobject
  object_closed fuel l e = rw e refl

  -- The lexer behind a key and a colon.
  abbrev pub behind_key : Lexer → Lexer
  behind_key l = consume Engine lex (consume Engine lex l)

  key_of_str :
      (l : Lexer)
      → l.next.kind ≡ str
      → key_of Engine lex l ≡ (true, l.next.value, consume Engine lex l)
  unfolding key_of
  key_of_str l k = ap (λ t. key_at Engine lex t l) k

  expect_colon_met : (l : Lexer) → l.next.kind ≡ colon → expect_colon Engine lex l ≡ l
  unfolding expect_colon
  expect_colon_met l c = ap (λ t. colon_at Engine lex t l) c

  pub expect_end_met : (l : Lexer) → l.next.kind ≡ end → expect_end Engine lex l ≡ l
  unfolding expect_end
  expect_end_met l e = ap (λ t. end_at Engine lex t l) e

  pub object_last :
      (fuel : ℕ) (l : Lexer)
      → l.next.kind ≡ str
      → (consume Engine lex l).next.kind ≡ colon
      → (parse_jvalue Engine lex fuel (behind_key l)).1.next.kind ≡ bclose
      → parse_jobject Engine lex (suc fuel) l ≡ (
        child l.next.value (parse_jvalue Engine lex fuel (behind_key l)).0 no_children,
        consume Engine lex (parse_jvalue Engine lex fuel (behind_key l)).1,
      )
  unfolding parse_jobject
  object_last fuel l k c e = simp (k, key_of_str l k, expect_colon_met (consume Engine lex l) c, e)

  pub object_more :
      (fuel : ℕ) (l : Lexer)
      → l.next.kind ≡ str
      → (consume Engine lex l).next.kind ≡ colon
      → (parse_jvalue Engine lex fuel (behind_key l)).1.next.kind ≡ comma
      → parse_jobject Engine lex (suc fuel) l ≡ (
        child l.next.value
            (parse_jvalue Engine lex fuel (behind_key l)).0
            (parse_jobject Engine lex fuel
              (consume Engine lex (parse_jvalue Engine lex fuel (behind_key l)).1)).0,
        (parse_jobject Engine lex fuel
            (consume Engine lex (parse_jvalue Engine lex fuel (behind_key l)).1)).1,
      )
  unfolding parse_jobject
  object_more fuel l k c e = simp (k, key_of_str l k, expect_colon_met (consume Engine lex l) c, e)

  pub value_array :
      (fuel : ℕ) (l : Lexer)
      → l.next.kind ≡ sopen
      → parse_jvalue Engine lex (suc fuel) l ≡ (
        jast array [] (parse_jarray Engine lex fuel (consume Engine lex l)).0,
        (parse_jarray Engine lex fuel (consume Engine lex l)).1,
      )
  unfolding parse_jvalue
  value_array fuel l e = rw e refl

  pub value_object :
      (fuel : ℕ) (l : Lexer)
      → l.next.kind ≡ bopen
      → parse_jvalue Engine lex (suc fuel) l ≡ (
        jast object [] (parse_jobject Engine lex fuel (consume Engine lex l)).0,
        (parse_jobject Engine lex fuel (consume Engine lex l)).1,
      )
  unfolding parse_jvalue
  value_object fuel l e = rw e refl

  pub value_word :
      (fuel : ℕ) (l : Lexer) (k : SymbolJson)
      → is_word k ≡ true
      → l.next.kind ≡ k
      → parse_jvalue Engine lex (suc fuel) l ≡ (jast k [] no_children, consume Engine lex l)
  unfolding parse_jvalue is_word
  value_word fuel l nullval w e = simp e
  value_word fuel l true_symbol w e = simp e
  value_word fuel l false_symbol w e = simp e
  value_word fuel l nan w e = simp e
  value_word fuel l k w e = absurd (cc w)

  pub value_text :
      (fuel : ℕ) (l : Lexer) (k : SymbolJson)
      → has_text k ≡ true
      → l.next.kind ≡ k
      → parse_jvalue Engine lex (suc fuel) l
        ≡ (jast k l.next.value no_children, consume Engine lex l)
  unfolding parse_jvalue has_text
  value_text fuel l integer w e = simp e
  value_text fuel l double w e = simp e
  value_text fuel l infinity w e = simp e
  value_text fuel l str w e = simp e
  value_text fuel l k w e = absurd (cc w)
