-- ===== src/Optimizer/Scope/Resolves.antt =====
-- What the arguments of src/optimizer/scope.cpp name.
use wake.Prelude.{
  ℕ, suc, ◌+◌, ◌-◌, ◌^◌, ◌≤◌, ◌<◌, List, [], ◌∷◌, ◌++◌, length, get_elem?, Option, none, some, true,
  false, Bool-cases, inl, inr, ltb, ltb→lt, ◌==◌, ==_iff, if◌then◌else◌, ◌≡◌, refl, sym, ◌∙◌, ap,
  ap₂, arith,
}
use wake.Optimizer.Scope.{
  make_arg, arg_depth, arg_offset, find_escape, add_escape, find_frame, Scoping, scope_arg,
}
use wake.Optimizer.Scope.Words.{make_arg_lem}

abbrev pub plus : Option ℕ → ℕ → Option ℕ
plus none n = none
plus (some s) n = some (s + n)

-- The term that an argument names, by the starts of the frames.
abbrev pub resolve : List ℕ → ℕ → Option ℕ
resolve starts arg = plus (get_elem? starts (arg_depth arg)) (arg_offset arg)

-- The term that a code of a frame names, by its start and its escapes.
abbrev pub resolve_code : ℕ → List ℕ → ℕ → Option ℕ
resolve_code start escapes code =
    if arg_depth code == 0
    then some (start + arg_offset code)
    else get_elem? escapes (arg_offset code)

-- The outermost frame starts at 0.
abbrev pub EndsAtZero : List ℕ → Type 0
EndsAtZero [] = ⊥
EndsAtZero (s ∷ []) = s ≡ 0
EndsAtZero (s ∷ t ∷ starts) = EndsAtZero (t ∷ starts)

not_below : (a b : ℕ) → ltb a b ≡ false → b ≤ a
not_below a b e = ground arith

find_frame-found :
    (input depth s : ℕ) (starts : List ℕ)
    → EndsAtZero (s ∷ starts)
    → (k t : ℕ) × (find_frame input depth (s ∷ starts) ≡ some (suc (depth + k), t))
      × (get_elem? (s ∷ starts) k ≡ some t)
      × (t ≤ input)
      × (k ≤ length starts)
find_frame-found input depth s [] z = elim (Bool-cases (ltb input s)) [
  | inl b ↦ absurd (none_below (ltb→lt input s b))
  | inr b ↦
      (0, s, rw b (ap (λ n. some (suc n, s)) (omega arith)), refl, not_below input s b, omega arith)
]
  where
    none_below : input < s → ⊥
    none_below l = omega arith
find_frame-found input depth s (t ∷ starts) z = elim (Bool-cases (ltb input s)) [
  | inl b ↦
      let i = find_frame-found input (suc depth) t starts z in
      (suc i.0, i.1, rw b (i.2 ∙ ap (λ n. some (suc n, i.1)) (omega arith)), i.3, i.4, omega arith)
  | inr b ↦
      (0, s, rw b (ap (λ n. some (suc n, s)) (omega arith)), refl, not_below input s b, omega arith)
]

find_escape_le : (input : ℕ) (escapes : List ℕ) → find_escape input escapes ≤ length escapes
find_escape_le input [] = omega arith
find_escape_le input (x ∷ escapes) = elim (Bool-cases (x == input)) [
  | inl b ↦ rw b (omega arith)
  | inr b ↦ rw b (let i = find_escape_le input escapes in omega arith)
]

-- Behind add_escape the list has the input at the position that was found.
get_elem?-add_escape :
    (input : ℕ) (escapes : List ℕ)
    → get_elem? (add_escape input escapes) (find_escape input escapes) ≡ some input
get_elem?-add_escape input escapes =
    elim (Bool-cases (find_escape input escapes == length escapes)) [
      | inl b ↦ rw b (new escapes ((==_iff _ _).0 b))
      | inr b ↦ rw b (old escapes b)
    ]
  where
    at_end : (l : List ℕ) → get_elem? (l ++ input ∷ []) (length l) ≡ some input
    at_end [] = refl
    at_end (x ∷ l) = at_end l

    new :
        (l : List ℕ)
        → find_escape input l ≡ length l
        → get_elem? (l ++ input ∷ []) (find_escape input l) ≡ some input
    new l e = ap (get_elem? (l ++ input ∷ [])) e ∙ at_end l

    old :
        (l : List ℕ)
        → (find_escape input l == length l) ≡ false
        → get_elem? l (find_escape input l) ≡ some input
    old [] e = absurd (cc e)
    old (x ∷ l) e = elim (Bool-cases (x == input)) [
      | inl b ↦ rw b (ap some ((==_iff x input).0 b))
      | inr b ↦ rw b (old l (further (find_escape input l) (length l) (sym (first b) ∙ e)))
    ]
      where
        first :
            (x == input) ≡ false
            → (find_escape input (x ∷ l) == suc (length l))
              ≡ (suc (find_escape input l) == suc (length l))
        first b = rw b refl

        further : (n m : ℕ) → (suc n == suc m) ≡ false → (n == m) ≡ false
        further n m h = ground arith

resolve-make_arg :
    (starts : List ℕ) (depth offset s : ℕ)
    → depth < 2 ^ 16
    → offset < 2 ^ 48
    → get_elem? starts depth ≡ some s
    → resolve starts (make_arg depth offset) ≡ some (s + offset)
resolve-make_arg starts depth offset s h k e =
    let m = make_arg_lem depth offset h k in
    ap₂ (λ d o. plus (get_elem? starts d) o) m.1 m.2 ∙ ap (λ g. plus g offset) e

-- What scope_arg is to return.
abbrev IsResolved : ℕ → ℕ → List ℕ → List ℕ → Option Scoping → Type 0
IsResolved start input outer codes o =
    (r : Scoping) × (code : ℕ) × (o ≡ some r)
    × (resolve (start ∷ outer) r.arg ≡ some input)
    × (r.codes ≡ codes ++ code ∷ [])
    × (resolve_code start r.escapes code ≡ some input)

scope_inside :
    (start input : ℕ) (outer escapes codes : List ℕ)
    → ltb input start ≡ false
    → input < 2 ^ 48
    → IsResolved start input outer codes (scope_arg start outer escapes codes input)
unfolding scope_arg
scope_inside start input outer escapes codes b k =
    let m = make_arg_lem 0 (input - start) (omega arith) (omega arith) in
    (
      record {
        arg = make_arg 0 (input - start);
        escapes = escapes;
        codes = codes ++ make_arg 0 (input - start) ∷ [];
      },
      make_arg 0 (input - start),
      rw b refl,
      resolve-make_arg (start ∷ outer) 0 (input - start) start (omega arith) (omega arith) refl
          ∙ ap some back,
      refl,
      ap₂ (λ d o. if d == 0 then some (start + o) else get_elem? escapes o) m.1 m.2 ∙ ap some back,
    )
  where
    back : start + (input - start) ≡ input
    back = let l = not_below input start b in omega arith

scope_outside :
    (start input s : ℕ) (starts escapes codes : List ℕ)
    → ltb input start ≡ true
    → EndsAtZero (s ∷ starts)
    → length starts < 2 ^ 16 - 2
    → input < 2 ^ 48
    → length escapes < 2 ^ 48
    → IsResolved start input (s ∷ starts) codes (scope_arg start (s ∷ starts) escapes codes input)
unfolding scope_arg
scope_outside start input s starts escapes codes b z h k l =
    let f = find_frame-found input 0 s starts z in
    let at : ℕ = find_escape input escapes in
    let e : at ≤ length escapes = find_escape_le input escapes in
    let m = make_arg_lem 1 at (omega arith) (omega arith) in
    (
      record {
        arg = make_arg (suc (0 + f.0)) (input - f.1);
        escapes = add_escape input escapes;
        codes = codes ++ make_arg 1 at ∷ [];
      },
      make_arg 1 at,
      rw (b, f.2) refl,
      resolve-make_arg (start ∷ s ∷ starts) (suc (0 + f.0)) (input - f.1) f.1 (omega arith)
            (omega arith) (step f.0 ∙ f.3)
          ∙ ap some (back f.1 f.4),
      refl,
      ap₂ (λ d o. if d == 0 then some (start + o) else get_elem? (add_escape input escapes) o) m.1
            m.2
          ∙ get_elem?-add_escape input escapes,
    )
  where
    step : (n : ℕ) → get_elem? (start ∷ s ∷ starts) (suc (0 + n)) ≡ get_elem? (s ∷ starts) n
    step n = ap (get_elem? (s ∷ starts)) (omega arith)

    back : (t : ℕ) → t ≤ input → t + (input - t) ≡ input
    back t q = omega arith

-- Where the frames are fewer than 2 ^ 16 and the positions and escapes fewer than 2 ^ 48, a term
-- inside the outermost frame gets an argument whose depth and offset lead back to it, and the code
-- that is pushed, with the escapes that the frame has then, leads to it as well.
pub scope_arg-resolve :
    (start input : ℕ) (outer escapes codes : List ℕ)
    → EndsAtZero (start ∷ outer)
    → length outer < 2 ^ 16 - 1
    → input < 2 ^ 48
    → length escapes < 2 ^ 48
    → (r : Scoping) × (code : ℕ) × (scope_arg start outer escapes codes input ≡ some r)
      × (resolve (start ∷ outer) r.arg ≡ some input)
      × (r.codes ≡ codes ++ code ∷ [])
      × (resolve_code start r.escapes code ≡ some input)
scope_arg-resolve start input [] escapes codes z h k l =
    scope_inside start input [] escapes codes (first_frame z) k
  where
    first_frame : start ≡ 0 → ltb input start ≡ false
    first_frame e = ground arith
scope_arg-resolve start input (s ∷ starts) escapes codes z h k l =
    elim (Bool-cases (ltb input start)) [
      | inl b ↦ scope_outside start input s starts escapes codes b z (omega arith) k l
      | inr b ↦ scope_inside start input (s ∷ starts) escapes codes b k
    ]
