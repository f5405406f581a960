-- ===== src/Wcl/FilePath/Parts.antt =====
-- The iterator over a canonical path meets the names of the path, in order.
use wake.Prelude.{
  ℕ, zero, suc, ◌+◌, ◌-◌, ◌≤◌, ◌<◌, List, [], ◌∷◌, ◌++◌, append_assoc, true, false, Bytes, length,
  length-append, take, drop, All, ◌≡◌, ◌≢◌, refl, ap, ◌∙◌, sym, arith,
}
use wake.Wcl.FilePath.Iterator.{
  slash, FilepathIterator, at_slash, run_length, next, iterator_at, begin, end, same_position, part,
  parts_from,
}
use wake.Wcl.FilePath.Places.{IsName, Lacks, after_slash}

unfoldable pub joined : List Bytes → Bytes
unfolding after_slash
joined [] = []
joined (t ∷ ts) = t ++ after_slash ts

-- The iterator stands before these names, which are the rest of its string.
pub record IsBefore (str : Bytes) (it : FilepathIterator) (ns : List Bytes) : Type 0 where
  pub passed : Bytes
  pub spells : str ≡ passed ++ joined ns
  pub starts : it.start ≡ length passed
  pub ends : it.final ≡ length passed + run_length (joined ns)

drop_passed : (pre rest : Bytes) → drop (length pre) (pre ++ rest) ≡ rest
drop_passed [] rest = refl
drop_passed (c ∷ pre) rest = drop_passed pre rest

take_first : (t rest : Bytes) → take (length t) (t ++ rest) ≡ t
take_first [] rest = refl
take_first (c ∷ t) rest = rw (take_first t rest)

at_passed : (pre rest : Bytes) → at_slash (pre ++ rest) (length pre) ≡ at_slash rest 0
unfolding at_slash
at_passed [] rest = refl
at_passed (c ∷ pre) rest = at_passed pre rest

run_length-name :
    (t : Bytes) (ts : List Bytes) → Lacks t → run_length (t ++ after_slash ts) ≡ length t
unfolding run_length after_slash
run_length-name [] [] h = refl
run_length-name [] (u ∷ ts) h = refl
run_length-name (c ∷ t) ts h = ground (arith, run_length-name t ts h.1)

at_slash_end : (str : Bytes) → at_slash str (length str) ≡ false
unfolding at_slash
at_slash_end [] = refl
at_slash_end (c ∷ str) = at_slash_end str

end_start : (str : Bytes) → (end str).start ≡ length str
unfolding iterator_at next
end_start str = rw (at_slash_end str)

moved :
    (str q : Bytes) (it : FilepathIterator) (ns : List Bytes)
    → str ≡ q ++ joined ns
    → it.start ≡ length q
    → it.final ≡ it.start + run_length (drop it.start str)
    → IsBefore str it ns
moved str q it ns e s f = record {
  passed = q;
  spells = e;
  starts = s;
  ends = f ∙ rw (s, e) (ap (λ r. length q + run_length r) (drop_passed q (joined ns)));
}

-- Where `next` goes from the end of a part.
next_start :
    (str q : Bytes) (it : FilepathIterator) (ns : List Bytes)
    → str ≡ q ++ after_slash ns
    → it.final ≡ length q
    → at_slash str it.final ≡ at_slash (after_slash ns) 0
next_start str q it ns e f = rw (e, f) (at_passed q (after_slash ns))

pub next-IsBefore :
    (str : Bytes) (it : FilepathIterator) (n : Bytes) (ns : List Bytes)
    → IsName n
    → IsBefore str it (n ∷ ns)
    → IsBefore str (next str it) ns
unfolding next joined after_slash
next-IsBefore str it n ns name b = go ns whole final
  where
    whole : str ≡ (b.passed ++ n) ++ after_slash ns
    whole = b.spells ∙ sym (append_assoc b.passed n (after_slash ns))

    final : it.final ≡ length (b.passed ++ n)
    final =
        b.ends
        ∙ ap (λ k. length b.passed + k) (run_length-name n ns name.no_slash)
        ∙ sym (length-append b.passed n)

    go :
        (ms : List Bytes)
        → str ≡ (b.passed ++ n) ++ after_slash ms
        → it.final ≡ length (b.passed ++ n)
        → IsBefore str (next str it) ms
    go [] e f =
        moved str (b.passed ++ n) (next str it) [] e
          (rw (next_start str (b.passed ++ n) it [] e f) (unfold at_slash in f)) refl
    go (u ∷ us) e f =
        moved str ((b.passed ++ n) ++ slash ∷ []) (next str it) (u ∷ us)
          (e ∙ sym (append_assoc (b.passed ++ n) (slash ∷ []) (u ++ after_slash us)))
          (rw (next_start str (b.passed ++ n) it (u ∷ us) e f)
            (unfold at_slash in omega (arith, f, length-append (b.passed ++ n) (slash ∷ []))))
          refl

pub part-IsBefore :
    (str : Bytes) (it : FilepathIterator) (n : Bytes) (ns : List Bytes)
    → IsName n
    → IsBefore str it (n ∷ ns)
    → part str it ≡ n
unfolding joined
part-IsBefore str it n ns name b =
    let width : it.final - it.start ≡ length n =
      omega (arith, b.starts, b.ends, run_length-name n ns name.no_slash) in
    let rest : drop it.start str ≡ n ++ after_slash ns =
      ap (λ k. drop k str) b.starts ∙ rw b.spells (drop_passed b.passed _) in
    rw (width, rest) (take_first n (after_slash ns))

pub length-pos : (n : Bytes) → n ≢ [] → 0 < length n
length-pos [] h = absurd (h refl)
length-pos (c ∷ n) h = omega arith

pub at_end-nil :
    (str : Bytes) (it : FilepathIterator) → IsBefore str it [] → same_position it (end str) ≡ true
unfolding joined
at_end-nil str it b =
    ground (arith, end_start str, ap length b.spells, length-append b.passed [], b.starts)

pub at_end-cons :
    (str : Bytes) (it : FilepathIterator) (n : Bytes) (ns : List Bytes)
    → IsName n
    → IsBefore str it (n ∷ ns)
    → same_position it (end str) ≡ false
unfolding joined
at_end-cons str it n ns name b = ground (
  arith,
  end_start str,
  ap length b.spells,
  length-append b.passed (n ++ after_slash ns),
  length-append n (after_slash ns),
  length-pos n name.some_byte,
  b.starts,
)

-- `begin` of a canonical absolute path stands before its names, past the first slash.
pub begin-IsBefore : (ns : List Bytes) → IsBefore (slash ∷ joined ns) (begin (slash ∷ joined ns)) ns
unfolding iterator_at next at_slash
begin-IsBefore ns = moved (slash ∷ joined ns) (slash ∷ []) _ ns refl refl refl

pub parts_from-IsBefore :
    (fuel : ℕ) (str : Bytes) (it : FilepathIterator) (ns : List Bytes)
    → All IsName ns
    → IsBefore str it ns
    → length ns ≤ fuel
    → parts_from fuel str it ≡ ns
unfolding parts_from
parts_from-IsBefore zero str it [] names b h = refl
parts_from-IsBefore zero str it (n ∷ ns) names b h = absurd (omega arith)
parts_from-IsBefore (suc fuel) str it [] names b h = rw (at_end-nil str it b)
parts_from-IsBefore (suc fuel) str it (n ∷ ns) names b h =
    rw (at_end-cons str it n ns names.0 b, part-IsBefore str it n ns names.0 b)
      (ap (λ r. n ∷ r)
        (parts_from-IsBefore fuel str (next str it) ns names.1 (next-IsBefore str it n ns names.0 b)
          (omega arith)))
