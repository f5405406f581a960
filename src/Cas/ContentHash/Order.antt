-- ===== src/Cas/ContentHash/Order.antt =====
-- `operator==` and `operator<` of hashes: equality, and a strict total order.
use wake.Prelude.{
  ℕ, zero, suc, ◌+◌, ◌*◌, ◌<◌, List, [], ◌∷◌, ◌++◌, true, false, Bytes, length, take, drop,
  take-append-drop, length-drop, All, ◌≡◌, ◌↔◌, ◌≢◌, ◌⊎◌, inl, inr, refl, ap, ap₂, sym, ◌∙◌, arith,
}
use wake.Cas.ContentHash.{ContentHash, IsHash, word, words, equal, lexicographical_less, same, less}

word_injective :
    (s t : Bytes)
    → All (λ b. b < 256) s
    → All (λ b. b < 256) t
    → length s ≡ length t
    → word s ≡ word t
    → s ≡ t
unfolding word
word_injective [] [] hs ht l e = refl
word_injective [] (b ∷ t) hs ht l e = absurd (omega arith)
word_injective (a ∷ s) [] hs ht l e = absurd (omega arith)
word_injective (a ∷ s) (b ∷ t) (ha, hs) (hb, ht) l e =
    ap₂ (λ x r. x ∷ r) (omega arith) (word_injective s t hs ht (omega arith) (omega arith))

All-take : (n : ℕ) (s : Bytes) → All (λ b. b < 256) s → All (λ b. b < 256) (take n s)
All-take zero s h = tt
All-take (suc n) [] h = tt
All-take (suc n) (b ∷ s) h = (h.0, All-take n s h.1)

All-drop : (n : ℕ) (s : Bytes) → All (λ b. b < 256) s → All (λ b. b < 256) (drop n s)
All-drop zero s h = h
All-drop (suc n) [] h = tt
All-drop (suc n) (b ∷ s) h = All-drop n s h.1

length-take_le : (k : ℕ) (s : Bytes) (m : ℕ) → length s ≡ k + m → length (take k s) ≡ k
length-take_le zero s m h = refl
length-take_le (suc k) [] m h = absurd (omega arith)
length-take_le (suc k) (b ∷ s) m h = ap suc (length-take_le k s m (omega arith))

words_injective :
    (n : ℕ) (s t : Bytes)
    → All (λ b. b < 256) s
    → All (λ b. b < 256) t
    → length s ≡ 8 * n
    → length t ≡ 8 * n
    → words n s ≡ words n t
    → s ≡ t
unfolding words
words_injective zero [] [] hs ht ls lt e = refl
words_injective zero [] (b ∷ t) hs ht ls lt e = absurd (omega arith)
words_injective zero (a ∷ s) t hs ht ls lt e = absurd (omega arith)
words_injective (suc n) s t hs ht ls lt e =
    let front : take 8 s ≡ take 8 t =
      word_injective (take 8 s) (take 8 t) (All-take 8 s hs) (All-take 8 t ht)
        (omega (arith, length-take_le 8 s (8 * n), length-take_le 8 t (8 * n))) (cc e) in
    let back : drop 8 s ≡ drop 8 t =
      words_injective n (drop 8 s) (drop 8 t) (All-drop 8 s hs) (All-drop 8 t ht)
        (omega (arith, length-drop 8 s)) (omega (arith, length-drop 8 t)) (cc e) in
    sym (take-append-drop 8 s) ∙ ap₂ (λ a b. a ++ b) front back ∙ take-append-drop 8 t

equal_iff : (s t : List ℕ) → (equal s t ≡ true) ↔ (s ≡ t)
unfolding equal
equal_iff [] [] = (λ e. refl, λ e. refl)
equal_iff [] (b ∷ t) = (λ e. cc, λ e. cc)
equal_iff (a ∷ s) [] = (λ e. cc, λ e. cc)
equal_iff (a ∷ s) (b ∷ t) =
    let (to, from) = equal_iff s t in (λ e. ground (arith, to), λ e. ground (arith, from))

less_irreflexive : (s : List ℕ) → lexicographical_less s s ≡ false
unfolding lexicographical_less
less_irreflexive [] = refl
less_irreflexive (a ∷ s) = ground (arith, less_irreflexive s)

less_transitive :
    (s t u : List ℕ)
    → lexicographical_less s t ≡ true
    → lexicographical_less t u ≡ true
    → lexicographical_less s u ≡ true
unfolding lexicographical_less
less_transitive [] [] u h k = cc
less_transitive [] (b ∷ t) [] h k = cc
less_transitive [] (b ∷ t) (c ∷ u) h k = refl
less_transitive (a ∷ s) [] u h k = cc
less_transitive (a ∷ s) (b ∷ t) [] h k = cc
less_transitive (a ∷ s) (b ∷ t) (c ∷ u) h k = ground (arith, less_transitive s t u)

less_connected :
    (s t : List ℕ) → (lexicographical_less s t ≡ true) ⊎ (lexicographical_less t s ≡ true) ⊎ (s ≡ t)
unfolding lexicographical_less
less_connected [] [] = inr (inr refl)
less_connected [] (b ∷ t) = inl refl
less_connected (a ∷ s) [] = inr (inl refl)
less_connected (a ∷ s) (b ∷ t) = elim (less_connected s t) [
  | inl h ↦ ground arith
  | inr (inl h) ↦ ground arith
  | inr (inr h) ↦ ground arith
]

same_content : (a b : ContentHash) → a.content ≡ b.content → a ≡ b
same_content a b e = λ i. record { content = e i }

hash_of_words :
    (a b : ContentHash) → IsHash a → IsHash b → words 4 a.content ≡ words 4 b.content → a ≡ b
hash_of_words a b ha hb e = same_content a b (
    words_injective 4 a.content b.content ha.bytes hb.bytes (omega (arith, ha.full))
      (omega (arith, hb.full)) e)

-- `operator==`, which compares words, holds exactly of hashes with the same 32 bytes.
pub same_iff : (a b : ContentHash) → IsHash a → IsHash b → (same a b ≡ true) ↔ (a ≡ b)
unfolding same
same_iff a b ha hb = (
  λ e. hash_of_words a b ha hb ((equal_iff _ _).0 e),
  λ e. (equal_iff _ _).1 (ap (λ (h : ContentHash). words 4 h.content) e),
)

-- `operator<` is a strict total order on hashes: no hash is below itself, it is transitive, and of two
-- different hashes one is below the other.
pub less_order :
    (a b c : ContentHash)
    → IsHash a
    → IsHash b
    → (less a a ≡ false)
      × (less a b ≡ true → less b c ≡ true → less a c ≡ true)
      × (a ≢ b → (less a b ≡ true) ⊎ (less b a ≡ true))
unfolding less
less_order a b c ha hb = (
  less_irreflexive (words 4 a.content),
  less_transitive (words 4 a.content) (words 4 b.content) (words 4 c.content),
  total,
)
  where
    total : a ≢ b → (less a b ≡ true) ⊎ (less b a ≡ true)
    total differ = elim (less_connected (words 4 a.content) (words 4 b.content)) [
      | inl h ↦ inl h
      | inr (inl h) ↦ inr h
      | inr (inr h) ↦ absurd (differ (hash_of_words a b ha hb h))
    ]
