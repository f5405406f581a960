-- ===== src/Cas/Store.antt =====
-- src/cas/cas.cpp: the store of blobs, as far as it works on bytes in memory. `blake3` is the vendored
-- hash function, `pid` the decimal text of the process id.
pub mod Paths
pub mod Blobs
pub mod Keeps
pub mod Files
pub mod Removal
pub mod Tests
use wake.Prelude.{
  ℕ, ◌+◌, Bytes, List, [], ◌∷◌, ◌++◌, Bool, true, false, not, Option, none, some, Result, ok, err,
  take, drop, codes, ltb, leb, ◌==◌, ◌&&◌, ◌||◌, if◌then◌else◌, length,
}
use wake.Cas.ContentHash.{ContentHash, to_hex}
use wake.Cas.FileSystem.{
  FileSystem, Entry, nothing, directory, file, WriteOutcome, not_opened, failed, written,
  ReadOutcome, unopened, copied, RemoveOutcome, removed, absent, unremovable,
}

pub data CasError : Type 0 where
  not_found io_error corrupted_data already_exists invalid_hash : CasError

abbrev pub shard_len : ℕ
shard_len = 2

pub record Cas : Type 0 where
  pub root : Bytes
  pub blobs_dir : Bytes
  pub staging_dir : Bytes

unfoldable pub hash_prefix : ContentHash → Bytes
hash_prefix hash = take shard_len (to_hex hash)

unfoldable pub hash_suffix : ContentHash → Bytes
hash_suffix hash = drop shard_len (to_hex hash)

-- The characters that a staging name may keep.
keeps : ℕ → Bool
keeps c = leb 0x20 c && ltb c 0x7f

special : ℕ → Bool
special c = c == b'/' || c == b'\\' || c == 0 || c == b'.'

sanitize_loop : Bytes → Bytes → Bytes
unfolding keeps special
sanitize_loop [] out = out
sanitize_loop (c ∷ prefix) out =
    let out' = out ++ (if special c then b'_' else if keeps c then c else b'_') ∷ [] in
    let rest = sanitize_loop prefix out' in if leb 64 (length out') then out' else rest

unfoldable pub sanitize_staging_prefix : Bytes → Bytes
unfolding sanitize_loop
sanitize_staging_prefix prefix = elim (sanitize_loop prefix []) [
  | [] ↦ codes "job"
  | c ∷ out ↦ c ∷ out
]

-- fs::exists
unfoldable pub exists : Entry → Bool
exists nothing = false
exists directory = true
exists (file c) = true

-- The result of fs::remove, which is false on an error too, and whether it sets the error code.
unfoldable pub remove_result : RemoveOutcome → Bool
remove_result removed = true
remove_result absent = false
remove_result unremovable = false

unfoldable pub remove_error : RemoveOutcome → Bool
remove_error removed = false
remove_error absent = false
remove_error unremovable = true

-- The tests of remove_blob.
unfoldable pub removal_error : RemoveOutcome → Option CasError
unfolding remove_result remove_error
removal_error outcome =
    if not (remove_result outcome)
    then some not_found
    else if remove_error outcome
    then some io_error
    else none

module _ (fs : FileSystem) (blake3 : Bytes → ContentHash) (pid : Bytes) (cas : Cas) where
  open fs use {Disk, entry, create_directories, write_file, rename, remove, read_file, path_join}

  unfoldable pub blob_path : ContentHash → Bytes
  unfolding hash_prefix hash_suffix
  blob_path hash = path_join (path_join cas.blobs_dir (hash_prefix hash)) (hash_suffix hash)

  unfoldable pub has_blob : ContentHash → Disk → Bool
  unfolding exists
  has_blob hash d = exists (entry d (blob_path hash))

  unfoldable pub ensure_shard_dir : ContentHash → Disk → Result CasError Bool × Disk
  unfolding hash_prefix
  ensure_shard_dir hash d =
      let (made, d') = create_directories (path_join cas.blobs_dir (hash_prefix hash)) d in
      if made then (ok true, d') else (err io_error, d')

  unfoldable pub temp_path : ContentHash → Bytes
  temp_path hash = path_join cas.staging_dir (to_hex hash ++ (codes "-" ++ pid))

  -- The atomic insertion, and the cleanup behind a failed one.
  unfoldable pub insert_temp : ContentHash → Disk → Result CasError ContentHash × Disk
  insert_temp hash d =
      let (moved, d') = rename (temp_path hash) (blob_path hash) d in
      if moved then (ok hash, d') else (err io_error, (remove (temp_path hash) d').1)

  unfoldable pub after_write :
      ContentHash → WriteOutcome → Disk → Result CasError ContentHash × Disk
  unfolding insert_temp
  after_write hash not_opened d = (err io_error, d)
  after_write hash failed d = (err io_error, (remove (temp_path hash) d).1)
  after_write hash (written flushed) d = insert_temp hash d

  unfoldable pub write_blob : Bytes → ContentHash → Disk → Result CasError ContentHash × Disk
  unfolding after_write
  write_blob bytes hash d =
      let (outcome, d') = write_file (temp_path hash) bytes d in after_write hash outcome d'

  unfoldable pub after_shard :
      Bytes → ContentHash → Result CasError Bool × Disk → Result CasError ContentHash × Disk
  unfolding write_blob
  after_shard bytes hash (ok made, d) = write_blob bytes hash d
  after_shard bytes hash (err e, d) = (err e, d)

  -- known_hash.value_or(ContentHash::from_string(data))
  unfoldable pub chosen_hash : Bytes → Option ContentHash → ContentHash
  chosen_hash bytes none = blake3 bytes
  chosen_hash bytes (some hash) = hash

  unfoldable pub store_blob_impl :
      Bytes → Option ContentHash → Disk → Result CasError ContentHash × Disk
  unfolding chosen_hash exists ensure_shard_dir after_shard
  store_blob_impl bytes known_hash d =
      let hash = chosen_hash bytes known_hash in
      if exists (entry d (blob_path hash))
      then (ok hash, d)
      else after_shard bytes hash (ensure_shard_dir hash d)

  unfoldable pub store_blob : Bytes → Disk → Result CasError ContentHash × Disk
  unfolding store_blob_impl
  store_blob bytes d = store_blob_impl bytes none d

  unfoldable pub store_blob_with_hash : Bytes → ContentHash → Disk → Result CasError Bool × Disk
  unfolding store_blob_impl
  store_blob_with_hash bytes hash d =
      let (result, d') = store_blob_impl bytes (some hash) d in
      (elim result [ ok h ↦ ok true | err e ↦ err e ], d')

  -- The stream's state is tested again behind the copy, but it is the one that the stream opened with:
  -- the way out with `io_error` is not reached, whether all was copied or not.
  unfoldable pub read_blob : ContentHash → Disk → Result CasError Bytes
  read_blob hash d = elim (read_file (blob_path hash) d) [
    | unopened ↦ err not_found
    | copied c whole ↦ ok c
  ]

  unfoldable pub remove_blob : ContentHash → Disk → Option CasError × Disk
  unfolding removal_error
  remove_blob hash d = let (outcome, d') = remove (blob_path hash) d in (removal_error outcome, d')
