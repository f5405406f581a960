-- ===== src/Cas/Store/Paths.antt =====
-- The paths of the store: blobs have paths of their own, and a temporary file is never a blob.
use Prim.Native.Nat.{bit_and}
use wake.Prelude.{
  ℕ, zero, suc, ◌/◌, ◌<◌, ◌≤◌, Bytes, [], ◌∷◌, ◌++◌, append_assoc, Bool, true, false, not, ◌&&◌,
  take, drop, length, length-append, take-append-drop, length-drop, All, ◌==◌, ◌≡◌, ◌≢◌, refl, ap,
  ap₂, sym, ◌∙◌, arith,
}
use wake.Wcl.FilePath.Iterator.{slash}
use wake.Wcl.FilePath.Canonical.{is_absolute, ends_open}
use wake.Cas.ContentHash.{ContentHash, IsHash, to_hex, write_pairs, nibble_to_hex, from_hex}
use wake.Cas.ContentHash.Hex.{passes, passes_each, length-write_pairs, from_hex-to_hex}
use wake.Cas.FileSystem.{FileSystem, IsFileSystem}
use wake.Cas.Store.{Cas, hash_prefix, hash_suffix, blob_path, temp_path}

abbrev dash : ℕ
dash = b'-'

-- Characters of a hash's text.
abbrev Plain : Bytes → Type 0
Plain = All (λ c. (c ≢ slash) × (c ≢ dash))

plain_byte : ℕ → Bool
plain_byte b =
    let high = nibble_to_hex (bit_and (b / 16) 0x0f) in
    let low = nibble_to_hex (bit_and b 0x0f) in
    not (high == slash) && not (high == dash) && not (low == slash) && not (low == dash)

plain_table : passes plain_byte 256 ≡ true
unfolding passes plain_byte nibble_to_hex
plain_table = refl

write_pairs-Plain : (bytes : Bytes) → All (λ b. b < 256) bytes → Plain (write_pairs bytes)
unfolding write_pairs plain_byte
write_pairs-Plain [] h = tt
write_pairs-Plain (b ∷ bytes) h =
    let good = passes_each plain_byte 256 b plain_table h.0 in
    ((ground arith, ground arith), ((ground arith, ground arith), write_pairs-Plain bytes h.1))

Plain-take : (n : ℕ) (s : Bytes) → Plain s → Plain (take n s)
Plain-take zero s h = tt
Plain-take (suc n) [] h = tt
Plain-take (suc n) (c ∷ s) h = (h.0, Plain-take n s h.1)

Plain-drop : (n : ℕ) (s : Bytes) → Plain s → Plain (drop n s)
Plain-drop zero s h = h
Plain-drop (suc n) [] h = tt
Plain-drop (suc n) (c ∷ s) h = Plain-drop n s h.1

Plain-relative : (s : Bytes) → Plain s → is_absolute s ≡ false
unfolding is_absolute
Plain-relative [] h = refl
Plain-relative (c ∷ s) h = ground (arith, h.0.0)

Plain-open : (s : Bytes) → Plain s → ends_open s ≡ true
unfolding ends_open
Plain-open [] h = refl
Plain-open (c ∷ []) h = ground (arith, h.0.0)
Plain-open (c ∷ d ∷ s) h = Plain-open (d ∷ s) h.1

open_behind : (p s : Bytes) → s ≢ [] → ends_open s ≡ true → ends_open (p ++ s) ≡ true
unfolding ends_open
open_behind [] s n h = h
open_behind (c ∷ []) [] n h = absurd (n refl)
open_behind (c ∷ []) (d ∷ s) n h = h
open_behind (c ∷ e ∷ p) s n h = open_behind (e ∷ p) s n h

length-to_hex : (h : ContentHash) → IsHash h → length (to_hex h) ≡ 64
unfolding to_hex
length-to_hex h v = omega (arith, length-write_pairs h.content, v.full)

length-take_le : (k : ℕ) (s : Bytes) → k ≤ length s → length (take k s) ≡ k
length-take_le zero s h = refl
length-take_le (suc k) [] h = absurd (omega arith)
length-take_le (suc k) (x ∷ s) h = ap suc (length-take_le k s (omega arith))

length-prefix : (h : ContentHash) → IsHash h → length (hash_prefix h) ≡ 2
unfolding hash_prefix
length-prefix h v = length-take_le 2 (to_hex h) (omega (arith, length-to_hex h v))

length-suffix : (h : ContentHash) → IsHash h → length (hash_suffix h) ≡ 62
unfolding hash_suffix
length-suffix h v = omega (arith, length-drop 2 (to_hex h), length-to_hex h v)

append_cancel : (a b c d : Bytes) → a ++ b ≡ c ++ d → length a ≡ length c → (a ≡ c) × (b ≡ d)
append_cancel [] b [] d e l = (refl, e)
append_cancel [] b (y ∷ c) d e l = absurd (omega arith)
append_cancel (x ∷ a) b [] d e l = absurd (omega arith)
append_cancel (x ∷ a) b (y ∷ c) d e l =
    let (p, q) = append_cancel a b c d (cc e) (omega arith) in (ap₂ (λ u r. u ∷ r) (cc e) p, q)

to_hex_injective : (g h : ContentHash) → IsHash g → IsHash h → to_hex g ≡ to_hex h → g ≡ h
to_hex_injective g h vg vh e = cc (from_hex-to_hex g vg, from_hex-to_hex h vh, ap from_hex e)

-- A directory's path as the code expects it.
pub record IsDirectoryPath (p : Bytes) : Type 0 where
  pub some_byte : p ≢ []
  pub no_end_slash : ends_open p ≡ true

-- How a store is set up: its directories' paths are not empty and do not end in a slash, the process id
-- is short, and its paths have one spelling and no links, so that two that differ name two places.
pub record IsSetUp (fs : FileSystem) (blake3 : Bytes → ContentHash) (pid : Bytes) (cas : Cas)
    : Type 0 where
  pub blobs_path : IsDirectoryPath cas.blobs_dir
  pub staging_path : IsDirectoryPath cas.staging_dir
  pub short_pid : length pid < 62
  pub temp_apart :
      (g h : ContentHash)
      → IsHash g
      → IsHash h
      → temp_path fs blake3 pid cas g ≢ blob_path fs blake3 pid cas h
      → fs.apart (temp_path fs blake3 pid cas g) (blob_path fs blake3 pid cas h)
  pub blob_apart :
      (g h : ContentHash)
      → IsHash g
      → IsHash h
      → blob_path fs blake3 pid cas g ≢ blob_path fs blake3 pid cas h
      → fs.apart (blob_path fs blake3 pid cas g) (blob_path fs blake3 pid cas h)
  pub shard_outside :
      (g h : ContentHash)
      → IsHash g
      → IsHash h
      → length (fs.path_join cas.blobs_dir (hash_prefix g)) < length (blob_path fs blake3 pid cas h)
      → fs.outside (fs.path_join cas.blobs_dir (hash_prefix g)) (blob_path fs blake3 pid cas h)

-- A dash near the end of a path that ends in a longer text without one.
dash_near_end : (p q pid s : Bytes) → p ++ dash ∷ pid ≡ q ++ s → Plain s → length pid < length s → ⊥
dash_near_end [] [] pid (c ∷ s) e h l = h.0.1 (cc e)
dash_near_end [] [] pid [] e h l = omega arith
dash_near_end [] (y ∷ q) pid s e h l = omega (arith, ap length e, length-append q s)
dash_near_end (x ∷ p) [] pid [] e h l = omega arith
dash_near_end (x ∷ p) [] pid (c ∷ s) e h l =
    dash_near_end p [] pid s (cc e) h.1 (omega (arith, ap length e, length-append p (dash ∷ pid)))
dash_near_end (x ∷ p) (y ∷ q) pid s e h l = dash_near_end p q pid s (cc e) h l

module _ (fs : FileSystem) (blake3 : Bytes → ContentHash) (pid : Bytes) (cas : Cas)
    (laws : IsFileSystem fs) (set_up : IsSetUp fs blake3 pid cas) where
  abbrev blob : ContentHash → Bytes
  blob = blob_path fs blake3 pid cas

  abbrev temp : ContentHash → Bytes
  temp = temp_path fs blake3 pid cas

  to_hex-Plain : (h : ContentHash) → IsHash h → Plain (to_hex h)
  unfolding to_hex
  to_hex-Plain h v = write_pairs-Plain h.content v.bytes

  prefix-Plain : (h : ContentHash) → IsHash h → Plain (hash_prefix h)
  unfolding hash_prefix
  prefix-Plain h v = Plain-take 2 (to_hex h) (to_hex-Plain h v)

  suffix-Plain : (h : ContentHash) → IsHash h → Plain (hash_suffix h)
  unfolding hash_suffix
  suffix-Plain h v = Plain-drop 2 (to_hex h) (to_hex-Plain h v)

  shard_path :
      (h : ContentHash)
      → IsHash h
      → fs.path_join cas.blobs_dir (hash_prefix h) ≡ cas.blobs_dir ++ slash ∷ hash_prefix h
  shard_path h v =
      laws.join_relative cas.blobs_dir (hash_prefix h) set_up.blobs_path.some_byte
        set_up.blobs_path.no_end_slash (Plain-relative _ (prefix-Plain h v))

  slash_prefix_open : (h : ContentHash) → IsHash h → ends_open (slash ∷ hash_prefix h) ≡ true
  slash_prefix_open h v = go (hash_prefix h) (length-prefix h v) (prefix-Plain h v)
    where
      go : (p : Bytes) → length p ≡ 2 → Plain p → ends_open (slash ∷ p) ≡ true
      go [] l plain = absurd (omega arith)
      go (c ∷ p) l plain = unfold ends_open in Plain-open (c ∷ p) plain

  shard_some_byte : (p q : Bytes) → p ++ slash ∷ q ≢ []
  shard_some_byte [] q e = cc e
  shard_some_byte (c ∷ p) q e = cc e

  blob_path_lem :
      (h : ContentHash)
      → IsHash h
      → blob h ≡ (cas.blobs_dir ++ slash ∷ hash_prefix h) ++ slash ∷ hash_suffix h
  unfolding blob_path
  blob_path_lem h v =
      ap (λ p. fs.path_join p (hash_suffix h)) (shard_path h v)
      ∙ laws.join_relative (cas.blobs_dir ++ slash ∷ hash_prefix h) (hash_suffix h)
          (shard_some_byte cas.blobs_dir (hash_prefix h))
          (open_behind cas.blobs_dir (slash ∷ hash_prefix h) (λ e. cc e) (slash_prefix_open h v))
          (Plain-relative _ (suffix-Plain h v))

  temp_path_lem :
      (h : ContentHash) → IsHash h → temp h ≡ cas.staging_dir ++ slash ∷ (to_hex h ++ dash ∷ pid)
  unfolding temp_path
  temp_path_lem h v =
      laws.join_relative cas.staging_dir (to_hex h ++ dash ∷ pid) set_up.staging_path.some_byte
        set_up.staging_path.no_end_slash (go (to_hex h) (length-to_hex h v) (to_hex-Plain h v))
    where
      go : (t : Bytes) → length t ≡ 64 → Plain t → is_absolute (t ++ dash ∷ pid) ≡ false
      go [] l plain = absurd (omega arith)
      go (c ∷ t) l plain = unfold is_absolute in ground (arith, plain.0.0)

  -- Different hashes of 32 bytes have different paths.
  -- The file system keeps its laws, and the store is set up with directories' paths without a slash
  -- at the end, a short process id, and paths of one spelling without links (`IsSetUp`).
  pub blob_path_injective : (g h : ContentHash) → IsHash g → IsHash h → blob g ≡ blob h → g ≡ h
  unfolding hash_prefix hash_suffix
  blob_path_injective g h vg vh e =
      let joined : (cas.blobs_dir ++ slash ∷ hash_prefix g) ++ slash ∷ hash_suffix g
          ≡ (cas.blobs_dir ++ slash ∷ hash_prefix h) ++ slash ∷ hash_suffix h =
        cc (blob_path_lem g vg, blob_path_lem h vh, e) in
      let front =
        append_cancel (cas.blobs_dir ++ slash ∷ hash_prefix g) (slash ∷ hash_suffix g)
          (cas.blobs_dir ++ slash ∷ hash_prefix h) (slash ∷ hash_suffix h) joined
          (omega (
            arith,
            length-append cas.blobs_dir (slash ∷ hash_prefix g),
            length-append cas.blobs_dir (slash ∷ hash_prefix h),
            length-prefix g vg,
            length-prefix h vh,
          )) in
      let prefixes =
        append_cancel cas.blobs_dir (slash ∷ hash_prefix g) cas.blobs_dir (slash ∷ hash_prefix h)
          front.0 refl in
      let same_prefix : hash_prefix g ≡ hash_prefix h = cc prefixes.1 in
      let same_suffix : hash_suffix g ≡ hash_suffix h = cc front.1 in
      to_hex_injective g h vg vh (
        sym (take-append-drop 2 (to_hex g))
        ∙ ap₂ (λ a b. a ++ b) same_prefix same_suffix
        ∙ take-append-drop 2 (to_hex h))

  -- No temporary file stands at the path of a blob, for hashes of 32 bytes.
  -- The file system keeps its laws, and the store is set up with directories' paths without a slash
  -- at the end, a short process id, and paths of one spelling without links (`IsSetUp`).
  pub temp-ne-blob : (g h : ContentHash) → IsHash g → IsHash h → temp g ≢ blob h
  temp-ne-blob g h vg vh e =
      dash_near_end ((cas.staging_dir ++ slash ∷ []) ++ to_hex g)
        ((cas.blobs_dir ++ slash ∷ hash_prefix h) ++ slash ∷ []) pid (hash_suffix h)
        (append_assoc (cas.staging_dir ++ slash ∷ []) (to_hex g) (dash ∷ pid)
          ∙ append_assoc cas.staging_dir (slash ∷ []) (to_hex g ++ dash ∷ pid)
          ∙ sym (temp_path_lem g vg)
          ∙ e
          ∙ blob_path_lem h vh
          ∙ sym
              (append_assoc (cas.blobs_dir ++ slash ∷ hash_prefix h) (slash ∷ []) (hash_suffix h)))
        (suffix-Plain h vh) (omega (arith, set_up.short_pid, length-suffix h vh))

  -- The directory of a shard has a shorter path than any blob.
  pub shard_shorter :
      (g h : ContentHash)
      → IsHash g
      → IsHash h
      → length (fs.path_join cas.blobs_dir (hash_prefix g)) < length (blob h)
  shard_shorter g h vg vh =
      rw (shard_path g vg, blob_path_lem h vh)
        (omega (
          arith,
          length-append cas.blobs_dir (slash ∷ hash_prefix g),
          length-append (cas.blobs_dir ++ slash ∷ hash_prefix h) (slash ∷ hash_suffix h),
          length-append cas.blobs_dir (slash ∷ hash_prefix h),
          length-prefix g vg,
          length-prefix h vh,
        ))
