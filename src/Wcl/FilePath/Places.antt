-- ===== src/Wcl/FilePath/Places.antt =====
-- Where the tokens of a path lead: names, and levels up in front of them.
use mathlib.Core.List.{foldl}
use wake.Prelude.{
  ℕ, zero, suc, List, [], ◌∷◌, ◌++◌, append-nil, append_assoc, Bool, true, false, not, Bool-cases,
  inl, inr, Bytes, codes, bytes_eq, bytes_eq-false, bytes_eq_refl, All, All-append, ◌==◌, ◌≡◌, ◌≢◌,
  refl, ap, ◌∙◌, arith, if◌then◌else◌,
}
use wake.Wcl.FilePath.Iterator.{slash}
use wake.Wcl.FilePath.Canonical.{pop_back, empty, write_tokens}
use wake.Wcl.FilePath.Tokens.{cut, add_to_first, Resolved, resolve_token, resolve, ups_text, here}

abbrev pub Lacks : Bytes → Type 0
Lacks = All (λ c. c ≢ slash)

-- The name of an entry of a directory.
pub record IsName (t : Bytes) : Type 0 where
  pub some_byte : t ≢ []
  pub not_dot : t ≢ codes "."
  pub not_dots : t ≢ codes ".."
  pub no_slash : Lacks t

pub record IsPlace (abs : Bool) (r : Resolved) : Type 0 where
  pub are_names : All IsName r.names
  pub at_root : abs ≡ true → r.ups ≡ 0

add_to_first-Lacks :
    (c : ℕ) (ts : List Bytes) → c ≢ slash → All Lacks ts → All Lacks (add_to_first c ts)
unfolding add_to_first
add_to_first-Lacks c [] h hs = ((h, tt), tt)
add_to_first-Lacks c (t ∷ ts) h hs = ((h, hs.0), hs.1)

cut-Lacks : (x : Bytes) → All Lacks (cut x)
unfolding cut add_to_first
cut-Lacks [] = (tt, tt)
cut-Lacks (c ∷ x) = elim (Bool-cases (c == slash)) [
  | inl e ↦ rw e (tt, cut-Lacks x)
  | inr e ↦ rw e (add_to_first-Lacks c (cut x) (ground arith) (cut-Lacks x))
]

pop_back-All : (ts : List Bytes) → All IsName ts → All IsName (pop_back ts)
unfolding pop_back
pop_back-All [] h = tt
pop_back-All (t ∷ []) h = tt
pop_back-All (t ∷ u ∷ ts) h = (h.0, pop_back-All (u ∷ ts) h.1)

unequal : {s t : Bytes} → bytes_eq s t ≡ false → s ≢ t
unequal {s} {t} h e = cc (h, bytes_eq_refl t, ap (λ u. bytes_eq u t) e)

-- What ".." does.
leave-IsPlace :
    (abs : Bool) (r : Resolved)
    → IsPlace abs r
    → IsPlace abs (
        if not (empty r.names)
        then record r { names = pop_back r.names }
        else if not abs
        then record r { ups = suc r.ups }
        else r)
leave-IsPlace abs r h = elim (Bool-cases (empty r.names)) [
  | inr e ↦ rw e (record { are_names = pop_back-All r.names h.are_names; at_root = h.at_root })
  | inl e ↦ elim (Bool-cases abs) [
    | inl rooted ↦ rw (e, rooted) (rw (← rooted) h)
    | inr loose ↦ rw (e, loose) (record { are_names = h.are_names; at_root = λ q. cc })
  ]
]

resolve_token-IsPlace :
    (abs : Bool) (r : Resolved) (t : Bytes)
    → Lacks t
    → IsPlace abs r
    → IsPlace abs (resolve_token abs r t)
unfolding resolve_token
resolve_token-IsPlace abs r t l h = elim (Bool-cases (bytes_eq t (codes ".."))) [
  | inl up ↦ rw up (leave-IsPlace abs r h)
  | inr e ↦ elim (Bool-cases (bytes_eq t [])) [
    | inl no_name ↦ rw (e, no_name) h
    | inr some_byte ↦ elim (Bool-cases (bytes_eq t (codes "."))) [
      | inl dot ↦ rw (e, some_byte, dot) h
      | inr other ↦
          rw (e, some_byte, other)
            (record {
              are_names = All-append IsName r.names (t ∷ []) h.are_names (
                record {
                  some_byte = unequal some_byte;
                  not_dot = unequal other;
                  not_dots = unequal e;
                  no_slash = l;
                },
                tt,
              );
              at_root = h.at_root;
            })
    ]
  ]
]

resolve-All-IsPlace :
    (abs : Bool) (r : Resolved) (ts : List Bytes)
    → All Lacks ts
    → IsPlace abs r
    → IsPlace abs (foldl (resolve_token abs) r ts)
resolve-All-IsPlace abs r [] l h = h
resolve-All-IsPlace abs r (t ∷ ts) l h =
    resolve-All-IsPlace abs (resolve_token abs r t) ts l.1 (resolve_token-IsPlace abs r t l.0 h)

pub resolve-IsPlace : (abs : Bool) (x : Bytes) → IsPlace abs (resolve abs x)
resolve-IsPlace abs x =
    resolve-All-IsPlace abs here (cut x) (cut-Lacks x)
      (record { are_names = tt; at_root = λ _. refl })

push_name :
    (abs : Bool) (u : ℕ) (ms : List Bytes) (t : Bytes)
    → IsName t
    → resolve_token abs (record { ups = u; names = ms }) t
      ≡ record { ups = u; names = ms ++ t ∷ [] }
unfolding resolve_token
push_name abs u ms t h =
    rw (bytes_eq-false t _ h.not_dots, bytes_eq-false t _ h.some_byte, bytes_eq-false t _ h.not_dot)

pub push_names :
    (abs : Bool) (u : ℕ) (ms ns : List Bytes)
    → All IsName ns
    → foldl (resolve_token abs) (record { ups = u; names = ms }) ns
      ≡ record { ups = u; names = ms ++ ns }
push_names abs u ms [] h = rw append-nil
push_names abs u ms (t ∷ ns) h = rw (push_name abs u ms t h.0) (
    push_names abs u (ms ++ t ∷ []) ns h.1
    ∙ ap (λ all. record { ups = u; names = all }) (append_assoc ms (t ∷ []) ns))

unfoldable pub after_slash : List Bytes → Bytes
after_slash [] = []
after_slash (t ∷ ts) = slash ∷ (t ++ after_slash ts)

pub write_tokens-after_slash :
    (str : Bytes) (ts : List Bytes) → write_tokens str ts ≡ str ++ after_slash ts
unfolding write_tokens after_slash
write_tokens-after_slash str [] = rw append-nil
write_tokens-after_slash str (t ∷ ts) =
    rw (write_tokens-after_slash (str ++ slash ∷ t) ts, append_assoc)

cut_name : (t : Bytes) → Lacks t → cut t ≡ t ∷ []
unfolding cut add_to_first
cut_name [] h = refl
cut_name (c ∷ t) h = ground (arith, cut_name t h.1)

cut_name_slash : (t rest : Bytes) → Lacks t → cut (t ++ slash ∷ rest) ≡ t ∷ cut rest
unfolding cut add_to_first
cut_name_slash [] rest h = refl
cut_name_slash (c ∷ t) rest h = ground (arith, cut_name_slash t rest h.1)

pub cut_names :
    (t : Bytes) (ts : List Bytes) → IsName t → All IsName ts → cut (t ++ after_slash ts) ≡ t ∷ ts
unfolding after_slash
cut_names t [] h hs = rw append-nil (cut_name t h.no_slash)
cut_names t (u ∷ ts) h hs =
    cut_name_slash t (u ++ after_slash ts) h.no_slash
    ∙ ap (λ rest. t ∷ rest) (cut_names u ts hs.0 hs.1)

-- Levels up at the front of a path.
pub climb_ups :
    (u : ℕ) (rest : Bytes)
    → foldl (resolve_token false) here (cut (ups_text u ++ rest))
      ≡ foldl (resolve_token false) (record { ups = u; names = [] }) (cut rest)
unfolding ups_text
climb_ups zero rest = refl
climb_ups (suc u) rest = rw (append_assoc (ups_text u) (codes "../") rest) (
    climb_ups u (codes "../" ++ rest)
    ∙ (unfold cut add_to_first resolve_token pop_back empty in refl))
