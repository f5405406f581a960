-- ===== src/Optimizer.antt =====
-- src/optimizer/ssa.h and ssa.cpp: the terms that the optimizer rewrites, and the scopes it rewrites
-- them with. Arguments are positions in the enclosing functions, counted from the outermost term.
pub mod Usage
pub mod Sweep
pub mod Scope
pub mod Scoped
pub mod Tests
use wake.Prelude.{
  ℕ, zero, suc, ◌+◌, ◌-◌, ◌^◌, List, [], ◌∷◌, ◌++◌, Bytes, Bool, Option, none, some, length,
  get_elem?, take, drop, ltb, if◌then◌else◌, map,
}

-- Term::invalid, all bits of a size_t.
abbrev pub invalid : ℕ
invalid = 2 ^ 64 - 1

-- The flags of a term, one by one; a size_t holds them as its bits.
pub record Flags : Type 0 where
  pub recursive : Bool
  pub ordered : Bool
  pub effect : Bool
  pub used : Bool
  pub singleton : Bool
  pub frcon : Bool
  pub moved : Bool

-- Term
pub record Info : Type 0 where
  pub label : Bytes
  pub flags : Flags
  pub meta : ℕ

-- The subclasses of Redux, with what they hold beside their arguments: a primitive its name, which
-- stands for its function and data, and its flags, a Get its index, a Con its constructor's name.
pub data Redux : Type 0 where
  app : Redux
  prim : Bytes → ℕ → Redux
  get : ℕ → Redux
  des : Redux
  con : Bytes → Redux

-- RArg, RLit with the handle of its value, the subclasses of Redux, and RFun with its output. The
-- fragment, hash and escapes of a function are left out.
mutual
  pub data Term : Type 0 where
    arg : Info → Term
    lit : Info → ℕ → Term
    redux : Info → Redux → List ℕ → Term
    fun : Info → ℕ → Terms → Term

  pub data Terms : Type 0 where
    no_terms : Terms
    term : Term → Terms → Terms

abbrev pub info : Term → Info
info (arg i) = i
info (lit i v) = i
info (redux i kind args) = i
info (fun i output terms) = i

abbrev pub with_info : Term → Info → Term
with_info (arg i) j = arg j
with_info (lit i v) j = lit j v
with_info (redux i kind args) j = redux j kind args
with_info (fun i output terms) j = fun j output terms

abbrev pub is_used : Term → Bool
is_used t = (info t).flags.used

abbrev pub has_effect : Term → Bool
has_effect t = (info t).flags.effect

abbrev pub terms_length : Terms → ℕ
terms_length no_terms = 0
terms_length (term t ts) = suc (terms_length ts)

abbrev pub terms_of : List Term → Terms
terms_of [] = no_terms
terms_of (t ∷ ts) = term t (terms_of ts)

-- SourceMap: the first `start` positions stay, the others have an entry.
pub record SourceMap : Type 0 where
  pub start : ℕ
  pub entries : List ℕ

abbrev pub or_invalid : Option ℕ → ℕ
or_invalid none = invalid
or_invalid (some at) = at

-- SourceMap::operator[]; behind the end, where the source reads out of bounds, it is `invalid`.
unfoldable pub lookup : SourceMap → ℕ → ℕ
lookup m index =
    if ltb index m.start then index else or_invalid (get_elem? m.entries (index - m.start))

abbrev pub place : ℕ → SourceMap → SourceMap
place at m = record m { entries = m.entries ++ at ∷ [] }

-- TermStream, with the terms of its TargetScope.
pub record TermStream : Type 0 where
  pub target : List Term
  pub source : SourceMap

abbrev pub transfer : Term → TermStream → TermStream
transfer t s = record { target = s.target ++ t ∷ []; source = place (length s.target) s.source }

abbrev pub discard : TermStream → TermStream
discard s = record s { source = place invalid s.source }

-- CheckPoint: the ends of the target and of the source.
abbrev pub begin_stream : TermStream → ℕ × ℕ
begin_stream s = (length s.target, s.source.start + length s.source.entries)

-- What `end` leaves of the stream, and the terms that it returns.
abbrev pub unwind : ℕ × ℕ → TermStream → TermStream
unwind cp s = record {
  target = take cp.0 s.target;
  source = record s.source { entries = take (cp.1 - s.source.start) s.source.entries };
}

abbrev pub unwound : ℕ × ℕ → TermStream → List Term
unwound cp s = drop cp.0 s.target

-- Redux::update
abbrev pub update : SourceMap → List ℕ → List ℕ
update m [] = []
update m (x ∷ args) = lookup m x ∷ update m args
