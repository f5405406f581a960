-- ===== src/Cas/Store/Files.antt =====
-- The operations of src/cas/cas.cpp that work on files: `store_blob_from_file_impl` and
-- `materialize_blob`, and the opening of a store. What they call besides Cas/FileSystem is a record of
-- parameters: the status and the copy of a file, its hash, its times, and the numbers of a path.
use wake.Prelude.{
  ◌%◌, ◌^◌, ℕ, ◌+◌, Bytes, ◌++◌, Bool, true, false, not, ◌||◌, Option, none, some, Result, ok, err,
  codes, ◌==◌, if◌then◌else◌,
}
use wake.Cas.ContentHash.{ContentHash}
use wake.Cas.FileSystem.{FileSystem}
use wake.Cas.Store.{
  CasError, not_found, io_error, corrupted_data, already_exists, invalid_hash, Cas, exists,
  blob_path, ensure_shard_dir, sanitize_staging_prefix,
}

-- wcl::CopyStrategy
pub data CopyStrategy : Type 0 where
  reflink copy : CopyStrategy

unfoldable pub cas_error_to_string : CasError → Bytes
cas_error_to_string not_found = codes "Not found"
cas_error_to_string io_error = codes "I/O error"
cas_error_to_string corrupted_data = codes "Corrupted data"
cas_error_to_string already_exists = codes "Already exists"
cas_error_to_string invalid_hash = codes "Invalid hash"

-- The members and the counters that the operations change.
pub record Counters : Type 0 where
  pub reflink_supported : Bool
  pub store_counter : ℕ
  pub alloc_staging_counter : ℕ

module _ (fs : FileSystem) where
  open fs use {Disk, entry, create_directories, rename, remove, path_join}

  pub record FileCalls : Type 0 where
    -- fs::status(path).permissions() & 07777
    pub mode_of : Bytes → Disk → Option ℕ
    -- wcl::reflink_or_copy_file
    pub reflink_or_copy_file : Bytes → Bytes → ℕ → Bool → Disk → Option CopyStrategy × Disk
    -- ContentHash::from_file
    pub hash_file : Bytes → Disk → Option ContentHash
    -- utimensat with the access time left alone
    pub set_mtime : Bytes → ℕ → ℕ → Disk → Bool × Disk
    -- fs::path's filename and parent_path, the latter if there is one
    pub filename : Bytes → Bytes
    pub parent_path : Bytes → Option Bytes
    -- fs::create_directory, chmod and fs::remove_all
    pub create_directory : Bytes → Disk → Bool × Disk
    pub chmod_755 : Bytes → Disk → Bool × Disk
    pub remove_all : Bytes → Disk → Disk
    -- std::to_string
    pub decimal : ℕ → Bytes

  -- Cas::open, with the two directories made.
  unfoldable pub open_cas : Bytes → Bytes → Bytes → Disk → Result CasError Cas × Disk
  open_cas root blobs_subdir staging_subdir d =
      let store : Cas = record {
        root = root;
        blobs_dir = path_join root blobs_subdir;
        staging_dir = path_join root staging_subdir;
      } in
      let (made, d') = create_directories store.blobs_dir d in
      let (made', d'') = create_directories store.staging_dir d' in
      if not made
      then (err io_error, d')
      else if not made'
      then (err io_error, d'')
      else (ok store, d'')

  module _ (calls : FileCalls) (blake3 : Bytes → ContentHash) (pid : Bytes) (cas : Cas) where
    open calls use {
      mode_of, reflink_or_copy_file, hash_file, set_mtime, filename, parent_path, create_directory,
      chmod_755, remove_all, decimal,
    }

    -- if (copy_result->strategy_used == wcl::CopyStrategy::Copy) reflink_supported_ = false
    unfoldable pub note_strategy : CopyStrategy → Counters → Counters
    note_strategy reflink k = k
    note_strategy copy k = record k { reflink_supported = false }

    abbrev pub file_temp : Bytes → ℕ → Bytes
    file_temp path n =
        path_join cas.staging_dir
          (filename path ++ (codes "." ++ (pid ++ (codes "." ++ decimal n))))

    -- A staged file that is not needed, or cannot be, is removed.
    abbrev pub give_up :
        Bytes
        → Result CasError ContentHash
        → Counters
        → Disk
        → Result CasError ContentHash × Counters × Disk
    give_up temp result k d = (result, k, (remove temp d).1)

    -- The rename of a staged file to its blob.
    unfoldable pub insert_staged :
        Bytes → ContentHash → Counters → Disk → Result CasError ContentHash × Counters × Disk
    insert_staged temp hash k d =
        let (moved, d') = rename temp (blob_path fs blake3 pid cas hash) d in
        if moved then (ok hash, k, d') else give_up temp (err io_error) k d'

    unfoldable pub shard_staged :
        Bytes → ContentHash → Counters → Disk → Result CasError ContentHash × Counters × Disk
    unfolding insert_staged
    shard_staged temp hash k d =
        let (shard, d') = ensure_shard_dir fs blake3 pid cas hash d in
        elim shard [ ok made ↦ insert_staged temp hash k d' | err e ↦ give_up temp (err e) k d' ]

    -- The check for the blob, and what follows it.
    unfoldable pub place_staged :
        Bytes → ContentHash → Counters → Disk → Result CasError ContentHash × Counters × Disk
    unfolding shard_staged exists
    place_staged temp hash k d =
        if exists (entry d (blob_path fs blake3 pid cas hash))
        then give_up temp (ok hash) k d
        else shard_staged temp hash k d

    -- The hash of what was staged, unless it is known.
    unfoldable pub hash_staged :
        Bytes → Option ContentHash → Counters → Disk → Result CasError ContentHash × Counters × Disk
    unfolding place_staged
    hash_staged temp (some hash) k d = place_staged temp hash k d
    hash_staged temp none k d = elim (hash_file temp d) [
      | none ↦ give_up temp (err io_error) k d
      | some hash ↦ place_staged temp hash k d
    ]

    unfoldable pub stage_file :
        Bytes
        → ℕ
        → Option ContentHash
        → Counters
        → Disk
        → Result CasError ContentHash × Counters × Disk
    unfolding hash_staged note_strategy
    stage_file path mode known_hash k d =
        let temp = file_temp path k.store_counter in
        let k' = record k { store_counter = ((k.store_counter + 1) % 2 ^ 64) } in
        let (copied, d') = reflink_or_copy_file path temp mode k.reflink_supported d in
        elim copied [
          | none ↦ give_up temp (err io_error) k' d'
          | some strategy ↦ hash_staged temp known_hash (note_strategy strategy k') d'
        ]

    unfoldable pub store_blob_from_file_impl :
        Bytes → Option ContentHash → Counters → Disk → Result CasError ContentHash × Counters × Disk
    unfolding stage_file
    store_blob_from_file_impl path known_hash k d = elim (mode_of path d) [
      | none ↦ (err io_error, k, d)
      | some mode ↦ stage_file path mode known_hash k d
    ]

    unfoldable pub store_blob_from_file :
        Bytes → Counters → Disk → Result CasError ContentHash × Counters × Disk
    unfolding store_blob_from_file_impl
    store_blob_from_file path k d = store_blob_from_file_impl path none k d

    unfoldable pub store_blob_from_file_with_hash :
        Bytes → ContentHash → Counters → Disk → Result CasError Bool × Counters × Disk
    unfolding store_blob_from_file_impl
    store_blob_from_file_with_hash path hash k d =
        let (result, k', d') = store_blob_from_file_impl path (some hash) k d in
        (elim result [ ok h ↦ ok true | err e ↦ err e ], k', d')

    unfoldable pub alloc_staging_dir :
        Bytes → Counters → Disk → Result CasError Bytes × Counters × Disk
    unfolding sanitize_staging_prefix
    alloc_staging_dir prefix k d =
        let name =
          sanitize_staging_prefix prefix
          ++ (codes "." ++ (pid ++ (codes "." ++ decimal k.alloc_staging_counter))) in
        let k' = record k { alloc_staging_counter = ((k.alloc_staging_counter + 1) % 2 ^ 64) } in
        let path = path_join cas.staging_dir name in
        let (made, d') = create_directory path d in
        let (changed, d'') = chmod_755 path d' in
        if not made
        then (err io_error, k', d')
        else if not changed
        then (err io_error, k', remove_all path d'')
        else (ok path, k', d'')

    -- The rename over the destination.
    unfoldable pub put_in_place :
        Bytes → Bytes → Counters → Disk → Result CasError Bool × Counters × Disk
    put_in_place temp dest k d =
        let (moved, d') = rename temp dest d in
        if moved then (ok true, k, d') else (err io_error, k, (remove temp d').1)

    -- The timestamp, which 0 and 0 leave alone.
    unfoldable pub stamp :
        Bytes → Bytes → ℕ → ℕ → Counters → Disk → Result CasError Bool × Counters × Disk
    unfolding put_in_place
    stamp temp dest sec nsec k d =
        let (set, d') = set_mtime temp sec nsec d in
        if not (sec == 0) || not (nsec == 0)
        then (if set then put_in_place temp dest k d' else (err io_error, k, (remove temp d').1))
        else put_in_place temp dest k d

    unfoldable pub copy_out :
        Bytes → Bytes → ℕ → ℕ → ℕ → Counters → Disk → Result CasError Bool × Counters × Disk
    unfolding stamp note_strategy
    copy_out source dest mode sec nsec k d =
        let temp = dest ++ (codes "." ++ pid) in
        let (copied, d') = reflink_or_copy_file source temp mode k.reflink_supported d in
        elim copied [
          | none ↦ (err io_error, k, (remove temp d').1)
          | some strategy ↦ stamp temp dest sec nsec (note_strategy strategy k) d'
        ]

    unfoldable pub materialize_blob :
        ContentHash → Bytes → ℕ → ℕ → ℕ → Counters → Disk → Result CasError Bool × Counters × Disk
    unfolding copy_out exists
    materialize_blob hash dest mode sec nsec k d =
        let source = blob_path fs blake3 pid cas hash in
        if exists (entry d source)
        then elim (parent_path dest) [
          | none ↦ copy_out source dest mode sec nsec k d
          | some parent ↦
              let (made, d') = create_directories parent d in
              if made then copy_out source dest mode sec nsec k d' else (err io_error, k, d')
        ]
        else (err not_found, k, d)
