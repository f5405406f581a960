-- ===== src/Types/Dsu.antt =====
-- src/types/dsu.h: disjoint sets with a payload for each set. A shared pointer to an Imp is an
-- address, and a DSU object is the address that it holds; the store has the fields at each address.
-- Owners are not counted: an Imp that nobody can reach stays in the store.
pub mod Chains
pub mod Compress
pub mod Union
pub mod Tests
use wake.Prelude.{ℕ, zero, suc, ◌+◌, Bool, true, false, Option, none, some, ◌==◌, if◌then◌else◌}

module _ {ℓ} {A : Type ℓ} where
  -- A store with one value changed.
  abbrev pub update_at : ℕ → A → (ℕ → A) → ℕ → A
  update_at x v f y = if y == x then v else f y

-- The fields of the Imps, and the next address.
pub record Store (T : Type 0) : Type 0 where
  pub parent : ℕ → Option ℕ
  pub payload : ℕ → Option T
  pub next : ℕ

module _ (T : Type 0) where
  abbrev pub set_parent : ℕ → Option ℕ → Store T → Store T
  set_parent x p s = record s { parent = update_at x p s.parent }

  abbrev pub set_payload : ℕ → Option T → Store T → Store T
  set_payload x v s = record s { payload = update_at x v s.payload }

  -- DSU::DSU
  abbrev pub make : T → Store T → Store T × ℕ
  make v s = (
    record {
      parent = update_at s.next none s.parent;
      payload = update_at s.next (some v) s.payload;
      next = suc s.next;
    },
    s.next,
  )

  -- The loop of DSU::compress: x is the Imp behind, whose parent was moved out, and p the one ahead.
  unfoldable pub compress_loop : ℕ → ℕ → ℕ → Store T → Store T × ℕ
  compress_loop zero x p s = (s, x)
  compress_loop (suc fuel) x p s = elim (s.parent p) [
    | none ↦ (set_parent x (some p) s, p)
    | some pp ↦ compress_loop fuel p pp (set_parent x (some pp) (set_parent p none s))
  ]

  -- DSU::compress, with the address that the object holds behind it.
  unfoldable pub compress : ℕ → ℕ → Store T → Store T × ℕ
  unfolding compress_loop
  compress fuel imp s = elim (s.parent imp) [
    | none ↦ (s, imp)
    | some p ↦ compress_loop fuel imp p (set_parent imp none s)
  ]

  -- DSU::get
  unfoldable pub get : ℕ → ℕ → Store T → Store T × Option T
  unfolding compress
  get fuel imp s = let c = compress fuel imp s in (c.0, c.0.payload c.1)

  -- The sets of the Imps at a and b, whose objects are compressed, are joined.
  abbrev pub join_sets : ℕ → ℕ → Store T → Store T
  join_sets a b s = if a == b then s else set_parent b (some a) (set_payload b none s)

  -- DSU::union_consume
  unfoldable pub union_consume : ℕ → ℕ → ℕ → Store T → Store T
  unfolding compress
  union_consume fuel imp other s =
      let c = compress fuel imp s in let d = compress fuel other c.0 in join_sets c.1 d.1 d.0
