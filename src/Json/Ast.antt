-- ===== src/Json/Ast.antt =====
-- `SymbolJSON`, `JAST` and `JSymbol` of src/json/json5.h; locations are left out.
use wake.Prelude.{Bytes}

pub data SymbolJson : Type 0 where
  nullval true_symbol false_symbol nan integer double infinity str : SymbolJson
  object array : SymbolJson
  error end sopen sclose bopen bclose colon id comma : SymbolJson

-- A vector of children holds pairs of a key and a document.
mutual
  pub data Jast : Type 0 where
    jast : SymbolJson → Bytes → JChildren → Jast

  pub data JChildren : Type 0 where
    no_children : JChildren
    child : Bytes → Jast → JChildren → JChildren

pub record JSymbol : Type 0 where
  pub kind : SymbolJson
  pub value : Bytes
