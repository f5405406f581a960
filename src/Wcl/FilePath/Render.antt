-- ===== src/Wcl/FilePath/Render.antt =====
-- The canonical path that is written for a place, and what it resolves to.
use wake.Prelude.{
  ℕ, zero, suc, ◌-◌, List, [], ◌∷◌, ◌++◌, append_assoc, Bool, true, false, Bytes, codes, length,
  take, length-append, All, ◌≡◌, refl, ◌∙◌, sym, arith, if◌then◌else◌,
}
use wake.Wcl.FilePath.Canonical.{is_absolute, empty, finish, make_canonical}
use wake.Wcl.FilePath.Tokens.{
  cut, add_to_first, Resolved, resolve_token, resolve, ups_text, render, scan_at,
  make_canonical-render,
}
use wake.Wcl.FilePath.Places.{
  IsName, IsPlace, resolve-IsPlace, push_names, after_slash, write_tokens-after_slash, cut_names,
  climb_ups,
}

take_whole : (xs ys : Bytes) → take (length xs) (xs ++ ys) ≡ xs
take_whole [] ys = refl
take_whole (x ∷ xs) ys = rw (take_whole xs ys)

take_init : (xs : Bytes) (c : ℕ) → take (length (xs ++ c ∷ []) - 1) (xs ++ c ∷ []) ≡ xs
take_init xs c =
    let e : length (xs ++ c ∷ []) - 1 ≡ length xs = omega (arith, length-append xs (c ∷ [])) in
    rw e (take_whole xs (c ∷ []))

render_up : (n : ℕ) → render false (record { ups = suc n; names = [] }) ≡ ups_text n ++ codes ".."
unfolding render finish scan_at ups_text
render_up n =
    rw (← append_assoc (ups_text n) (codes "..") (codes "/"))
      (take_init (ups_text n ++ codes "..") b'/')

pub render_names :
    (abs : Bool) (u : ℕ) (t : Bytes) (ts : List Bytes)
    → render abs (record { ups = u; names = t ∷ ts })
      ≡ (if abs then codes "/" else []) ++ (ups_text u ++ (t ++ after_slash ts))
unfolding render finish scan_at
render_names abs u t ts = simp (write_tokens-after_slash, append_assoc)

resolve-render_rooted :
    (ns : List Bytes)
    → All IsName ns
    → resolve true (render true (record { ups = 0; names = ns })) ≡ record { ups = 0; names = ns }
unfolding cut add_to_first resolve_token ups_text
resolve-render_rooted [] h = unfold render finish scan_at in refl
resolve-render_rooted (t ∷ ts) h =
    rw (render_names true 0 t ts, cut_names t ts h.0 h.1) (push_names true 0 [] (t ∷ ts) h)

resolve-render_loose :
    (u : ℕ) (ns : List Bytes)
    → All IsName ns
    → resolve false (render false (record { ups = u; names = ns })) ≡ record { ups = u; names = ns }
resolve-render_loose zero [] h =
    unfold render finish scan_at cut add_to_first resolve_token ups_text in refl
resolve-render_loose (suc n) [] h =
    rw (render_up n)
      (climb_ups n (codes "..") ∙ (unfold cut add_to_first resolve_token empty in refl))
resolve-render_loose u (t ∷ ts) h = rw (render_names false u t ts) (
    climb_ups u (t ++ after_slash ts)
    ∙ rw (cut_names t ts h.0 h.1) (push_names false u [] (t ∷ ts) h))

-- The canonical path of a place resolves to that place.
pub resolve-render : (abs : Bool) (r : Resolved) → IsPlace abs r → resolve abs (render abs r) ≡ r
resolve-render false r h = resolve-render_loose r.ups r.names h.are_names
resolve-render true r h =
    let e : r ≡ record { ups = 0; names = r.names } =
      λ i. record { ups = h.at_root refl i; names = r.names } in
    rw e (resolve-render_rooted r.names h.are_names)

loose_ups :
    (u : ℕ) (rest : Bytes) → is_absolute rest ≡ false → is_absolute (ups_text u ++ rest) ≡ false
unfolding ups_text
loose_ups zero rest h = h
loose_ups (suc u) rest h =
    rw (append_assoc (ups_text u) (codes "../") rest)
      (loose_ups u (codes "../" ++ rest) (unfold is_absolute in refl))

pub loose_name : (t rest : Bytes) → IsName t → is_absolute (t ++ rest) ≡ false
unfolding is_absolute
loose_name [] rest h = absurd (h.some_byte refl)
loose_name (c ∷ t) rest h = ground (arith, h.no_slash.0)

is_absolute-render_loose :
    (u : ℕ) (ns : List Bytes)
    → All IsName ns
    → is_absolute (render false (record { ups = u; names = ns })) ≡ false
is_absolute-render_loose zero [] h = unfold render finish scan_at ups_text is_absolute in refl
is_absolute-render_loose (suc n) [] h =
    rw (render_up n) (loose_ups n (codes "..") (unfold is_absolute in refl))
is_absolute-render_loose u (t ∷ ts) h =
    rw (render_names false u t ts) (loose_ups u (t ++ after_slash ts) (loose_name t _ h.0))

is_absolute-render_rooted :
    (u : ℕ) (ns : List Bytes) → is_absolute (render true (record { ups = u; names = ns })) ≡ true
is_absolute-render_rooted u [] = unfold render finish scan_at is_absolute in refl
is_absolute-render_rooted u (t ∷ ts) = rw (render_names true u t ts) (unfold is_absolute in refl)

-- The canonical path of a place is absolute exactly when the place is seen from the root.
pub is_absolute-render :
    (abs : Bool) (r : Resolved) → IsPlace abs r → is_absolute (render abs r) ≡ abs
is_absolute-render false r h = is_absolute-render_loose r.ups r.names h.are_names
is_absolute-render true r h = is_absolute-render_rooted r.ups r.names

pub is_absolute-make_canonical : (x : Bytes) → is_absolute (make_canonical x) ≡ is_absolute x
is_absolute-make_canonical x =
    rw (make_canonical-render x) (is_absolute-render _ _ (resolve-IsPlace (is_absolute x) x))

pub resolve-make_canonical :
    (x : Bytes) → resolve (is_absolute x) (make_canonical x) ≡ resolve (is_absolute x) x
resolve-make_canonical x =
    rw (make_canonical-render x) (resolve-render _ _ (resolve-IsPlace (is_absolute x) x))

-- A canonical path is its own canonical path, whatever path it was made from.
pub make_canonical_idempotent : (x : Bytes) → make_canonical (make_canonical x) ≡ make_canonical x
make_canonical_idempotent x =
    make_canonical-render (make_canonical x)
    ∙ rw (is_absolute-make_canonical x, resolve-make_canonical x) (sym (make_canonical-render x))
