-- ===== src/Wcl/FilePath/Common.antt =====
-- The names of an absolute path, and what `skip_common` leaves of two of them.
use wake.Prelude.{
  ℕ, zero, suc, List, [], ◌∷◌, ◌++◌, Bool-cases, inl, inr, true, Bytes, bytes_eq, bytes_eq→eq, All,
  ◌≡◌, refl, ap, ◌∙◌,
}
use wake.Wcl.FilePath.Iterator.{slash, FilepathIterator, next}
use wake.Wcl.FilePath.Canonical.{is_absolute, make_canonical, finish}
use wake.Wcl.FilePath.Relative.{skip_common}
use wake.Wcl.FilePath.Tokens.{resolve, ups_text, render, scan_at, make_canonical-render}
use wake.Wcl.FilePath.Places.{IsName, resolve-IsPlace}
use wake.Wcl.FilePath.Render.{render_names}
use wake.Wcl.FilePath.Walk.{Directory, walk, reach, up, down, origin, walk-reach}
use wake.Wcl.FilePath.Parts.{
  joined, IsBefore, next-IsBefore, part-IsBefore, at_end-nil, at_end-cons,
}

-- The names of an absolute path: its canonical form spells them, and a walk takes them in order.
pub record Names (x : Bytes) : Type 0 where
  pub names : List Bytes
  pub are_names : All IsName names
  pub spelled : make_canonical x ≡ slash ∷ joined names
  pub walked : (dir : Directory) → walk dir x ≡ down [] names

render-joined : (ns : List Bytes) → render true (record { ups = 0; names = ns }) ≡ slash ∷ joined ns
unfolding joined ups_text
render-joined [] = unfold render finish scan_at in refl
render-joined (t ∷ ts) = render_names true 0 t ts

pub Names-of : (x : Bytes) → is_absolute x ≡ true → Names x
Names-of x h =
    let place = resolve-IsPlace true x in
    let ns = (resolve true x).names in
    let e : resolve true x ≡ record { ups = 0; names = ns } =
      λ i. record { ups = place.at_root refl i; names = ns } in
    record {
      names = ns;
      are_names = place.are_names;
      spelled = make_canonical-render x ∙ rw (h, e) (render-joined ns);
      walked = λ dir. walk-reach dir x ∙ rw (h, e) (unfold origin reach up in refl);
    }

-- What `skip_common` leaves: the rests behind a shared front.
pub record Skipped (path relative : Bytes) (ps rs : List Bytes)
    (its : FilepathIterator × FilepathIterator) : Type 0 where
  pub shared : List Bytes
  pub path_rest : List Bytes
  pub relative_rest : List Bytes
  pub path_names : ps ≡ shared ++ path_rest
  pub relative_names : rs ≡ shared ++ relative_rest
  pub path_before : IsBefore path its.0 path_rest
  pub relative_before : IsBefore relative its.1 relative_rest

stays :
    (path relative : Bytes) (p r : FilepathIterator) (ps rs : List Bytes)
    → IsBefore path p ps
    → IsBefore relative r rs
    → Skipped path relative ps rs (p, r)
stays path relative p r ps rs bp br = record {
  shared = [];
  path_rest = ps;
  relative_rest = rs;
  path_names = refl;
  relative_names = refl;
  path_before = bp;
  relative_before = br;
}

pub skip_common-Skipped :
    (fuel : ℕ) (path relative : Bytes) (p r : FilepathIterator) (ps rs : List Bytes)
    → All IsName ps
    → All IsName rs
    → IsBefore path p ps
    → IsBefore relative r rs
    → Skipped path relative ps rs (skip_common fuel path relative p r)
unfolding skip_common
skip_common-Skipped zero path relative p r ps rs hp hr bp br = stays path relative p r ps rs bp br
skip_common-Skipped (suc fuel) path relative p r [] rs hp hr bp br =
    rw (at_end-nil path p bp) (stays path relative p r [] rs bp br)
skip_common-Skipped (suc fuel) path relative p r (n ∷ ps) [] hp hr bp br =
    rw (at_end-nil relative r br, at_end-cons path p n ps hp.0 bp)
      (stays path relative p r (n ∷ ps) [] bp br)
skip_common-Skipped (suc fuel) path relative p r (n ∷ ps) (m ∷ rs) hp hr bp br =
    rw
      (
        at_end-cons path p n ps hp.0 bp,
        at_end-cons relative r m rs hr.0 br,
        part-IsBefore path p n ps hp.0 bp,
        part-IsBefore relative r m rs hr.0 br,
      )
      (elim (Bool-cases (bytes_eq n m)) [
        | inr e ↦ rw e (stays path relative p r (n ∷ ps) (m ∷ rs) bp br)
        | inl e ↦ rw e (
            longer n m (bytes_eq→eq n m e) (
              skip_common-Skipped fuel path relative (next path p) (next relative r) ps rs hp.1 hr.1
                (next-IsBefore path p n ps hp.0 bp) (next-IsBefore relative r m rs hr.0 br)))
      ])
  where
    longer :
        {its : FilepathIterator × FilepathIterator} (a b : Bytes)
        → a ≡ b
        → Skipped path relative ps rs its
        → Skipped path relative (a ∷ ps) (b ∷ rs) its
    longer a b e s = record {
      shared = a ∷ s.shared;
      path_rest = s.path_rest;
      relative_rest = s.relative_rest;
      path_names = ap (λ t. a ∷ t) s.path_names;
      relative_names = cc (e, s.relative_names);
      path_before = s.path_before;
      relative_before = s.relative_before;
    }
