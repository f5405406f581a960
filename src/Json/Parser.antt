-- ===== src/Json/Parser.antt =====
-- The parser of src/json/jparser.cpp over the symbols of a lexer. The lexer's engine, which re2c
-- generates, is a parameter: a state and the step that reads the next symbol. What goes to the
-- stream of messages is left out. The fuel bounds the rounds of the loops and the depth of the calls.
pub mod Reads
pub mod Steps
pub mod Tests
use wake.Prelude.{ℕ, zero, suc, ◌+◌, Bytes, [], ◌∷◌, Bool, true, false, not, Option, none, some}
use wake.Json.Ast.{
  SymbolJson, nullval, true_symbol, false_symbol, nan, integer, double, infinity, str, object,
  array, error, end, sopen, sclose, bopen, bclose, colon, id, comma, Jast, jast, JChildren,
  no_children, child, JSymbol,
}

module _ (Engine : Type 0) (lex : Engine → JSymbol × Engine) where
  pub record JLexer : Type 0 where
    pub engine : Engine
    pub next : JSymbol
    pub fail : Bool

  unfoldable pub consume : JLexer → JLexer
  consume l = record { engine = (lex l.engine).1; next = (lex l.engine).0; fail = l.fail }

  unfoldable pub refuse : JLexer → JLexer
  refuse l = record { engine = l.engine; next = l.next; fail = true }

  colon_at : SymbolJson → JLexer → JLexer
  unfolding refuse
  colon_at colon l = l
  colon_at k l = refuse l

  -- expect(JSON_COLON, ...)
  unfoldable pub expect_colon : JLexer → JLexer
  unfolding colon_at
  expect_colon l = colon_at l.next.kind l

  key_at : SymbolJson → JLexer → Bool × Bytes × JLexer
  unfolding consume refuse
  key_at id l = (true, l.next.value, consume l)
  key_at str l = (true, l.next.value, consume l)
  key_at k l = (false, [], refuse l)

  -- The key of a member, and whether the loop goes on behind the member.
  unfoldable pub key_of : JLexer → Bool × Bytes × JLexer
  unfolding key_at
  key_of l = key_at l.next.kind l

  unfoldable mutual
    unfolding consume refuse expect_colon key_of

    pub parse_jvalue : ℕ → JLexer → Jast × JLexer
    parse_jvalue zero l = (jast error [] no_children, refuse l)
    parse_jvalue (suc fuel) l = elim l.next.kind [
      | nullval ↦ (jast nullval [] no_children, consume l)
      | true_symbol ↦ (jast true_symbol [] no_children, consume l)
      | false_symbol ↦ (jast false_symbol [] no_children, consume l)
      | nan ↦ (jast nan [] no_children, consume l)
      | integer ↦ (jast integer l.next.value no_children, consume l)
      | double ↦ (jast double l.next.value no_children, consume l)
      | infinity ↦ (jast infinity l.next.value no_children, consume l)
      | str ↦ (jast str l.next.value no_children, consume l)
      | bopen ↦ let (children, m) = parse_jobject fuel (consume l) in (jast object [] children, m)
      | sopen ↦ let (children, m) = parse_jarray fuel (consume l) in (jast array [] children, m)
      | _ ↦ (jast error [] no_children, refuse l)
    ]

    -- The loop of parse_jarray, behind the bracket.
    pub parse_jarray : ℕ → JLexer → JChildren × JLexer
    parse_jarray zero l = (no_children, refuse l)
    parse_jarray (suc fuel) l = elim l.next.kind [
      | sclose ↦ (no_children, consume l)
      | _ ↦
          let (value, m) = parse_jvalue fuel l in
          let behind : JChildren × JLexer = elim m.next.kind [
            | comma ↦ parse_jarray fuel (consume m)
            | sclose ↦ (no_children, consume m)
            | _ ↦ (no_children, refuse m)
          ] in
          (child [] value behind.0, behind.1)
    ]

    -- The loop of parse_jobject, behind the brace.
    pub parse_jobject : ℕ → JLexer → JChildren × JLexer
    parse_jobject zero l = (no_children, refuse l)
    parse_jobject (suc fuel) l = elim l.next.kind [
      | bclose ↦ (no_children, consume l)
      | _ ↦
          let (repeat, key, a) = key_of l in
          let (value, m) = parse_jvalue fuel (consume (expect_colon a)) in
          let behind : JChildren × JLexer = elim m.next.kind [
            | comma ↦ elim repeat [
              | true ↦ parse_jobject fuel (consume m)
              | false ↦ (no_children, consume m)
            ]
            | bclose ↦ (no_children, consume m)
            | _ ↦ (no_children, refuse m)
          ] in
          (child key value behind.0, behind.1)
    ]

  end_at : SymbolJson → JLexer → JLexer
  unfolding refuse
  end_at end l = l
  end_at k l = refuse l

  -- expect(JSON_END, ...)
  unfoldable pub expect_end : JLexer → JLexer
  unfolding end_at
  expect_end l = end_at l.next.kind l

  -- JAST::parse on a lexer that has read its first symbol: the document, and whether it is one.
  unfoldable pub parse : ℕ → JLexer → Jast × Bool
  unfolding parse_jvalue expect_end
  parse fuel l = let (out, m) = parse_jvalue fuel l in (out, not (expect_end m).fail)
