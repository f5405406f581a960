-- ===== src/Json/Escape.antt =====
-- `json_escape`, the printing of documents, and `JAST::get` and `add` of src/json/json5.cpp.
pub mod Reading
pub mod Children
pub mod Tests
use Prim.Native.Nat.{bit_and}
use wake.Prelude.{
  ℕ, ◌+◌, ◌-◌, ◌/◌, ◌<◌, Bytes, List, [], ◌∷◌, ◌++◌, codes, Bool, true, false, Option, none, some,
  ltb, leb, ◌==◌, bytes_eq, if◌then◌else◌,
}
use wake.Json.Ast.{
  SymbolJson, nullval, true_symbol, false_symbol, nan, integer, double, infinity, str, object,
  array, Jast, jast, JChildren, no_children, child,
}

unfoldable pub hex : ℕ → ℕ
hex x = if ltb x 10 then b'0' + x else b'a' + x - 10

-- One round of the loop of json_escape: what it writes for a byte.
unfoldable pub escape_byte : ℕ → Bytes
unfolding hex
escape_byte c =
    if c == b'"'
    then codes "\\\""
    else if c == b'\\'
    then codes "\\\\"
    else if leb 0x20 c
    then c ∷ []
    else if c == 8
    then codes "\\b"
    else if c == 12
    then codes "\\f"
    else if c == b'\n'
    then codes "\\n"
    else if c == b'\r'
    then codes "\\r"
    else if c == b'\t'
    then codes "\\t"
    else codes "\\u00" ++ (hex (c / 16) ∷ hex (bit_and c 0xf) ∷ [])

unfoldable pub json_escape : Bytes → Bytes
unfolding escape_byte
json_escape [] = []
json_escape (c ∷ s) = escape_byte c ++ json_escape s

-- operator<<, formatObject and formatArray; a comma stands before every child but the first.
unfoldable mutual
  unfolding json_escape

  pub print : Jast → Bytes
  print (jast nullval v c) = codes "null"
  print (jast true_symbol v c) = codes "true"
  print (jast false_symbol v c) = codes "false"
  print (jast nan v c) = codes "NaN"
  print (jast integer v c) = v
  print (jast double v c) = v
  print (jast infinity v c) = v ++ codes "Infinity"
  print (jast str v c) = b'"' ∷ (json_escape v ++ b'"' ∷ [])
  print (jast object v c) = b'{' ∷ (format_object true c ++ b'}' ∷ [])
  print (jast array v c) = b'[' ∷ (format_array true c ++ b']' ∷ [])
  print (jast k v c) = codes "corrupt"

  pub format_object : Bool → JChildren → Bytes
  format_object is_first no_children = []
  format_object is_first (child k v rest) =
      (if is_first then [] else b',' ∷ [])
      ++ b'"' ∷ (json_escape k ++ (codes "\":" ++ (print v ++ format_object false rest)))

  pub format_array : Bool → JChildren → Bytes
  format_array is_first no_children = []
  format_array is_first (child k v rest) =
      (if is_first then [] else b',' ∷ []) ++ (print v ++ format_array false rest)

-- The loop over the children: the first of the key.
unfoldable pub find_child : Bytes → JChildren → Option Jast
find_child key no_children = none
find_child key (child k v rest) =
    let later = find_child key rest in if bytes_eq k key then some v else later

-- Nothing stands for the static null document, which get returns and get_opt recognises.
unfoldable pub get_opt : Bytes → Jast → Option Jast
unfolding find_child
get_opt key (jast object v c) = find_child key c
get_opt key (jast k v c) = none

unfoldable pub get : Bytes → Jast → Jast
unfolding get_opt
get key j = elim (get_opt key j) [ none ↦ jast nullval [] no_children | some item ↦ item ]

unfoldable pub emplace_back : JChildren → Bytes → Jast → JChildren
emplace_back no_children key value = child key value no_children
emplace_back (child k v rest) key value = child k v (emplace_back rest key value)

unfoldable pub add : Bytes → SymbolJson → Bytes → Jast → Jast
unfolding emplace_back
add key kind value (jast k v c) = jast k v (emplace_back c key (jast kind value no_children))
