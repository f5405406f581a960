-- ===== src/Cas/Store/Tests.antt =====
-- A disk in memory, and runs of the store on it.
use wake.Prelude.{
  ℕ, Bytes, [], ◌∷◌, ◌++◌, Bool, true, false, Bool-cases, inl, inr, none, some, ok, err, codes,
  length, replicate, bytes_eq, bytes_eq_refl, bytes_eq-false, if◌then◌else◌, ◌<◌, ◌≡◌, ◌≢◌, refl,
  ap, sym, ◌∙◌, arith,
}
use wake.Wcl.FilePath.Iterator.{slash}
use wake.Wcl.FilePath.Canonical.{ends_open}
use wake.Cas.ContentHash.{ContentHash, IsHash, to_hex}
use wake.Cas.FileSystem.{
  FileSystem, IsFileSystem, Entry, nothing, directory, file, WriteOutcome, failed, written,
  ReadOutcome, unopened, copied, RemoveOutcome, removed, absent, unremovable,
}
use wake.Cas.Store.{
  CasError, not_found, io_error, Cas, blob_path, has_blob, temp_path, store_blob, read_blob,
  remove_blob, sanitize_staging_prefix,
}
use wake.Cas.Store.Paths.{IsSetUp, IsDirectoryPath, blob_path_injective, temp-ne-blob}
use wake.Cas.Store.Blobs.{Durable}
use wake.Cas.Store.Keeps.{
  Fits, IsIntact, store_blob-IsIntact, store_blob-entry_other, store_blob_failed,
}
use wake.Cas.Store.Removal.{remove_blob_lem}

abbrev Memory : Type 0
Memory = Bytes → Entry

abbrev put : Bytes → Entry → Memory → Memory
put p e d = λ q. if bytes_eq p q then e else d q

put_same : (p : Bytes) (e : Entry) (d : Memory) → put p e d p ≡ e
put_same p e d = rw (bytes_eq_refl p) refl

put_other : (p q : Bytes) (e : Entry) (d : Memory) → p ≢ q → put p e d q ≡ d q
put_other p q e d n = rw (bytes_eq-false p q n) refl

abbrev move : Bytes → Bytes → Entry → Memory → Bool × Memory
move p q nothing d = (false, d)
move p q directory d = (true, put q directory (put p nothing d))
move p q (file c) d = (true, put q (file c) (put p nothing d))

abbrev unlink : Bytes → Entry → Memory → RemoveOutcome × Memory
unlink p nothing d = (absent, d)
unlink p directory d = (unremovable, d)
unlink p (file c) d = (removed, put p nothing d)

abbrev contents : Entry → ReadOutcome
contents nothing = unopened
contents directory = copied [] false
contents (file c) = copied c true

-- A write on a disk that may be full.
abbrev output : Bool → Bytes → Bytes → Memory → WriteOutcome × Memory
output false p c d = (written true, put p (file c) d)
output true p c d = (failed, put p (file []) d)

output_other : (full : Bool) (p q c : Bytes) (d : Memory) → p ≢ q → (output full p c d).1 q ≡ d q
output_other false p q c d n = put_other p q (file c) d n
output_other true p q c d n = put_other p q (file []) d n

output_flushed :
    (full : Bool) (p c : Bytes) (d : Memory)
    → (output full p c d).0 ≡ written true
    → (output full p c d).1 p ≡ file c
output_flushed false p c d e = put_same p (file c) d
output_flushed true p c d e = absurd (cc e)

-- Files in memory; a directory that has something in it cannot be told from one that has not.
abbrev memory : Bool → FileSystem
memory full = record {
  Disk = Memory;
  entry = λ d p. d p;
  create_directories = λ p d. (true, put p directory d);
  write_file = output full;
  rename = λ p q d. move p q (d p) d;
  remove = λ p d. unlink p (d p) d;
  read_file = λ p d. contents (d p);
  apart = λ p q. p ≢ q;
  outside = λ p q. length p < length q;
  path_join = λ p q. p ++ slash ∷ q;
}

move_moved :
    (p q : Bytes) (e : Entry) (d : Memory) → (move p q e d).0 ≡ true → (move p q e d).1 q ≡ e
move_moved p q nothing d h = absurd (cc h)
move_moved p q directory d h = put_same q directory (put p nothing d)
move_moved p q (file c) d h = put_same q (file c) (put p nothing d)

move_other : (p q r : Bytes) (e : Entry) (d : Memory) → p ≢ r → q ≢ r → (move p q e d).1 r ≡ d r
move_other p q r nothing d np nq = refl
move_other p q r directory d np nq =
    put_other q r directory (put p nothing d) nq ∙ put_other p r nothing d np
move_other p q r (file c) d np nq =
    put_other q r (file c) (put p nothing d) nq ∙ put_other p r nothing d np

move_failed :
    (p q r : Bytes) (e : Entry) (d : Memory) → (move p q e d).0 ≡ false → (move p q e d).1 r ≡ d r
move_failed p q r nothing d h = refl
move_failed p q r directory d h = absurd (cc h)
move_failed p q r (file c) d h = absurd (cc h)

unlink_other : (p q : Bytes) (e : Entry) (d : Memory) → p ≢ q → (unlink p e d).1 q ≡ d q
unlink_other p q nothing d n = refl
unlink_other p q directory d n = refl
unlink_other p q (file c) d n = put_other p q nothing d n

unlink_done :
    (p : Bytes) (e : Entry) (d : Memory) → (unlink p e d).0 ≡ removed → (unlink p e d).1 p ≡ nothing
unlink_done p nothing d h = absurd (cc h)
unlink_done p directory d h = absurd (cc h)
unlink_done p (file c) d h = put_same p nothing d

unlink_failed :
    (p : Bytes) (e : Entry) (d : Memory) → (unlink p e d).0 ≢ removed → (unlink p e d).1 p ≡ d p
unlink_failed p nothing d h = refl
unlink_failed p directory d h = refl
unlink_failed p (file c) d h = absurd (h refl)

contents_whole : (e : Entry) (c : Bytes) → contents e ≡ copied c true → e ≡ file c
contents_whole nothing c h = absurd (cc h)
contents_whole directory c h = absurd (cc h)
contents_whole (file x) c h = cc h

memory_laws : (full : Bool) → IsFileSystem (memory full)
memory_laws full = record {
  create_outside = λ p q d l. put_other p q directory d (λ e. omega (arith, ap length e));
  write_other = output_other full;
  write_flushed = output_flushed full;
  rename_moved = λ p q d e n. move_moved p q (d p) d e;
  rename_other = λ p q r d np nq. move_other p q r (d p) d np nq;
  rename_failed = λ p q r d e. move_failed p q r (d p) d e;
  remove_other = λ p q d n. unlink_other p q (d p) d n;
  remove_done = λ p d e. unlink_done p (d p) d e;
  remove_failed = λ p d n. unlink_failed p (d p) d n;
  read_whole = λ p c d e. contents_whole (d p) c e;
  read_missing = λ p d e. ap contents e;
  join_relative = λ p q np op rel. refl;
}

abbrev cas : Cas
cas = record { root = codes ".cas"; blobs_dir = codes ".cas/b"; staging_dir = codes ".cas/s" }

abbrev pid : Bytes
pid = codes "4711"

dir_lem : (p : Bytes) → p ≢ [] → ends_open p ≡ true → IsDirectoryPath p
dir_lem p n o = record { some_byte = n; no_end_slash = o }

abbrev data_a : Bytes
data_a = codes "hello"

abbrev hash_a : ContentHash
hash_a = record { content = replicate 32 0xa7 }

abbrev hash_b : ContentHash
hash_b = record { content = 1 ∷ replicate 31 0xa7 }

hash_a-IsHash : IsHash hash_a
hash_a-IsHash = omega arith

hash_b-IsHash : IsHash hash_b
hash_b-IsHash = omega arith

-- A hash function for the tests, which tells one text from all others.
abbrev toy : Bytes → ContentHash
toy c = if bytes_eq c data_a then hash_a else hash_b

toy-IsHash : (c : Bytes) → IsHash (toy c)
toy-IsHash c = elim (Bool-cases (bytes_eq c data_a)) [
  | inl e ↦ rw e hash_a-IsHash
  | inr e ↦ rw e hash_b-IsHash
]

hashes_differ : hash_b ≢ hash_a
hashes_differ e = omega (arith, ap first e)
  where
    first : ContentHash → ℕ
    first h = elim h.content [ [] ↦ 0 | b ∷ c ↦ b ]

open_b : ends_open (codes ".cas/b") ≡ true
unfolding ends_open
open_b = refl

open_s : ends_open (codes ".cas/s") ≡ true
unfolding ends_open
open_s = refl

set_up : (full : Bool) → IsSetUp (memory full) toy pid cas
set_up full = record {
  blobs_path = dir_lem (codes ".cas/b") (λ e. cc e) open_b;
  staging_path = dir_lem (codes ".cas/s") (λ e. cc e) open_s;
  short_pid = omega arith;
  temp_apart = λ g h vg vh n. n;
  blob_apart = λ g h vg vh n. n;
  shard_outside = λ g h vg vh l. l;
}

abbrev bare : Memory
bare = λ p. nothing

bare-IsIntact :
    (full : Bool)
    → IsIntact (memory full) toy pid cas (memory_laws full) (set_up full) toy-IsHash bare
unfolding Fits
bare-IsIntact full h v = tt

durable : (full : Bool) → Durable (memory full) toy pid cas (memory_laws full) (set_up full)
durable false p c d e = cc e
durable true p c d e = cc e

store_blob-IsIntact_example : Fits toy hash_a (
    (store_blob (memory false) toy pid cas data_a bare).1
      (blob_path (memory false) toy pid cas hash_a))
store_blob-IsIntact_example =
    store_blob-IsIntact (memory false) toy pid cas (memory_laws false) (set_up false) toy-IsHash
      (durable false) data_a bare (bare-IsIntact false) hash_a hash_a-IsHash

abbrev stored : Memory
stored = (store_blob (memory false) toy pid cas data_a bare).1

read_blob_runs : read_blob (memory false) toy pid cas hash_a stored ≡ ok data_a
unfolding read_blob store_blob temp_path to_hex blob_path
read_blob_runs = refl

-- Where a directory stands in the place of a blob, its read breaks off, and counts as an empty blob.
read_blob_broken :
    read_blob
      (memory false)
      toy
      pid
      cas
      hash_a
      (put (blob_path (memory false) toy pid cas hash_a) directory bare)
    ≡ ok []
unfolding read_blob to_hex blob_path
read_blob_broken = refl

store_blob-entry_other_example :
    (store_blob (memory false) toy pid cas data_a bare).1
      (blob_path (memory false) toy pid cas hash_b)
    ≡ nothing
store_blob-entry_other_example =
    store_blob-entry_other (memory false) toy pid cas (memory_laws false) (set_up false) toy-IsHash
      data_a bare hash_b hash_b-IsHash (λ e. hashes_differ (sym e))

store_blob_full : (store_blob (memory true) toy pid cas data_a bare).0 ≡ err io_error
unfolding store_blob temp_path to_hex
store_blob_full = refl

store_blob_failed_example :
    (io_error ≡ io_error)
    × ((g : ContentHash)
        → IsHash g
        → (store_blob (memory true) toy pid cas data_a bare).1
            (blob_path (memory true) toy pid cas g)
          ≡ nothing)
store_blob_failed_example =
    store_blob_failed (memory true) toy pid cas (memory_laws true) (set_up true) toy-IsHash
      (durable true) data_a bare io_error store_blob_full

abbrev holding_a : Memory
holding_a = put (blob_path (memory false) toy pid cas hash_a) (file data_a) bare

remove_blob_lem_example :
    ((remove_blob (memory false) toy pid cas hash_a holding_a).0 ≡ none
      → has_blob
          (memory false)
          toy
          pid
          cas
          hash_a
          (remove_blob (memory false) toy pid cas hash_a holding_a).1
        ≡ false)
    × ((x : CasError)
        → (remove_blob (memory false) toy pid cas hash_a holding_a).0 ≡ some x
        → (x ≡ not_found)
          × ((remove_blob (memory false) toy pid cas hash_a holding_a).1
                (blob_path (memory false) toy pid cas hash_a)
              ≡ holding_a (blob_path (memory false) toy pid cas hash_a)))
    × ((g : ContentHash)
        → IsHash g
        → hash_a ≢ g
        → (remove_blob (memory false) toy pid cas hash_a holding_a).1
            (blob_path (memory false) toy pid cas g)
          ≡ holding_a (blob_path (memory false) toy pid cas g))
remove_blob_lem_example =
    remove_blob_lem (memory false) toy pid cas (memory_laws false) (set_up false) toy-IsHash hash_a
      holding_a hash_a-IsHash

blob_path_injective_example : hash_a ≡ hash_a
blob_path_injective_example =
    blob_path_injective (memory false) toy pid cas (memory_laws false) (set_up false) hash_a hash_a
      hash_a-IsHash hash_a-IsHash refl

temp-ne-blob_example :
    temp_path (memory false) toy pid cas hash_a ≢ blob_path (memory false) toy pid cas hash_b
temp-ne-blob_example =
    temp-ne-blob (memory false) toy pid cas (memory_laws false) (set_up false) hash_a hash_b
      hash_a-IsHash hash_b-IsHash

sanitize_runs : sanitize_staging_prefix (codes "a/b.c") ≡ codes "a_b_c"
unfolding sanitize_staging_prefix
sanitize_runs = refl
