-- ===== src/Cas/Store/Blobs.antt =====
-- The blobs of the store under src/cas/cas.cpp's store_blob, read_blob and remove_blob.
use wake.Prelude.{Bytes, true, false, Bool-cases, Result, ok, err, ◌≡◌, ◌≢◌, refl, ◌∙◌, inl, inr}
use wake.Cas.ContentHash.{ContentHash, IsHash}
use wake.Cas.FileSystem.{FileSystem, IsFileSystem, file, WriteOutcome, not_opened, failed, written}
use wake.Cas.Store.{
  CasError, io_error, Cas, hash_prefix, blob_path, ensure_shard_dir, temp_path, insert_temp,
  after_write, write_blob, after_shard,
}
use wake.Cas.Store.Paths.{IsSetUp, temp-ne-blob, shard_shorter}

module _ (fs : FileSystem) (blake3 : Bytes → ContentHash) (pid : Bytes) (cas : Cas)
    (laws : IsFileSystem fs) (set_up : IsSetUp fs blake3 pid cas) where
  open fs use {Disk, entry, create_directories, write_file, rename, remove, read_file, path_join}

  abbrev blob : ContentHash → Bytes
  blob = blob_path fs blake3 pid cas

  abbrev temp : ContentHash → Bytes
  temp = temp_path fs blake3 pid cas

  abbrev shard : ContentHash → Bytes
  shard h = path_join cas.blobs_dir (hash_prefix h)

  -- The steps of a store leave a path alone that is apart from the temporary file and the blob, and
  -- outside of the directory.
  insert_temp-entry :
      (h : ContentHash) (d : Disk) (q : Bytes)
      → fs.apart (temp h) q
      → fs.apart (blob h) q
      → entry (insert_temp fs blake3 pid cas h d).1 q ≡ entry d q
  unfolding insert_temp
  insert_temp-entry h d q nt nb = elim (Bool-cases (rename (temp h) (blob h) d).0) [
    | inl e ↦ rw e (laws.rename_other (temp h) (blob h) q d nt nb)
    | inr e ↦ rw e (laws.remove_other (temp h) q _ nt ∙ laws.rename_failed (temp h) (blob h) q d e)
  ]

  after_write-entry :
      (h : ContentHash) (o : WriteOutcome) (d : Disk) (q : Bytes)
      → fs.apart (temp h) q
      → fs.apart (blob h) q
      → entry (after_write fs blake3 pid cas h o d).1 q ≡ entry d q
  unfolding after_write
  after_write-entry h not_opened d q nt nb = refl
  after_write-entry h failed d q nt nb = laws.remove_other (temp h) q d nt
  after_write-entry h (written flushed) d q nt nb = insert_temp-entry h d q nt nb

  write_blob-entry :
      (bytes : Bytes) (h : ContentHash) (d : Disk) (q : Bytes)
      → fs.apart (temp h) q
      → fs.apart (blob h) q
      → entry (write_blob fs blake3 pid cas bytes h d).1 q ≡ entry d q
  unfolding write_blob
  write_blob-entry bytes h d q nt nb =
      after_write-entry h _ _ q nt nb ∙ laws.write_other (temp h) q bytes d nt

  -- The two ways that a file system answers the request for the directory of a shard.
  after_shard-made :
      (bytes : Bytes) (h : ContentHash) (d : Disk)
      → (create_directories (shard h) d).0 ≡ true
      → after_shard fs blake3 pid cas bytes h (ensure_shard_dir fs blake3 pid cas h d)
        ≡ write_blob fs blake3 pid cas bytes h (create_directories (shard h) d).1
  unfolding ensure_shard_dir after_shard
  after_shard-made bytes h d e = rw e refl

  after_shard-unmade :
      (bytes : Bytes) (h : ContentHash) (d : Disk)
      → (create_directories (shard h) d).0 ≡ false
      → after_shard fs blake3 pid cas bytes h (ensure_shard_dir fs blake3 pid cas h d)
        ≡ (err io_error, (create_directories (shard h) d).1)
  unfolding ensure_shard_dir after_shard
  after_shard-unmade bytes h d e = rw e refl

  pub after_shard-entry :
      (bytes : Bytes) (h : ContentHash) (d : Disk) (q : Bytes)
      → fs.apart (temp h) q
      → fs.apart (blob h) q
      → fs.outside (shard h) q
      → entry (after_shard fs blake3 pid cas bytes h (ensure_shard_dir fs blake3 pid cas h d)).1 q
        ≡ entry d q
  after_shard-entry bytes h d q nt nb l = elim (Bool-cases (create_directories (shard h) d).0) [
    | inl e ↦
        rw (after_shard-made bytes h d e)
          (write_blob-entry bytes h _ q nt nb ∙ laws.create_outside (shard h) q d l)
    | inr e ↦ rw (after_shard-unmade bytes h d e) (laws.create_outside (shard h) q d l)
  ]

  -- What a step that stores a blob returns, and makes of the path of the blob.
  unfoldable pub Stored : Bytes → ContentHash → Disk → Result CasError ContentHash × Disk → Type 0
  Stored bytes h d (ok g, d') = (g ≡ h) × (entry d' (blob h) ≡ file bytes)
  Stored bytes h d (err e, d') = (e ≡ io_error) × (entry d' (blob h) ≡ entry d (blob h))

  -- No write that the stream reports is lost behind it.
  abbrev pub Durable : Type 0
  Durable = (p c : Bytes) (d : Disk) → (write_file p c d).0 ≢ written false

  insert_temp-Stored :
      (bytes : Bytes) (h : ContentHash) (d : Disk)
      → fs.apart (temp h) (blob h)
      → entry d (temp h) ≡ file bytes
      → Stored bytes h d (insert_temp fs blake3 pid cas h d)
  unfolding insert_temp Stored
  insert_temp-Stored bytes h d n w = elim (Bool-cases (rename (temp h) (blob h) d).0) [
    | inl e ↦ rw e (refl, laws.rename_moved (temp h) (blob h) d e n ∙ w)
    | inr e ↦ rw e (
      refl,
      laws.remove_other (temp h) (blob h) _ n ∙ laws.rename_failed (temp h) (blob h) (blob h) d e,
    )
  ]

  Stored-before :
      (bytes : Bytes) (h : ContentHash) (c d : Disk) (r : Result CasError ContentHash × Disk)
      → entry d (blob h) ≡ entry c (blob h)
      → Stored bytes h d r
      → Stored bytes h c r
  unfolding Stored
  Stored-before bytes h c d (ok g, d') e s = s
  Stored-before bytes h c d (err x, d') e s = (s.0, s.1 ∙ e)

  after_write-Stored :
      (bytes : Bytes) (h : ContentHash) (o : WriteOutcome) (d : Disk)
      → fs.apart (temp h) (blob h)
      → o ≢ written false
      → (o ≡ written true → entry d (temp h) ≡ file bytes)
      → Stored bytes h d (after_write fs blake3 pid cas h o d)
  unfolding after_write Stored
  after_write-Stored bytes h not_opened d n f w = (refl, refl)
  after_write-Stored bytes h failed d n f w = (refl, laws.remove_other (temp h) (blob h) d n)
  after_write-Stored bytes h (written true) d n f w = insert_temp-Stored bytes h d n (w refl)
  after_write-Stored bytes h (written false) d n f w = absurd (f refl)

  write_blob-Stored :
      Durable
      → (bytes : Bytes) (h : ContentHash) (d : Disk) → fs.apart (temp h) (blob h)
      → Stored bytes h d (write_blob fs blake3 pid cas bytes h d)
  unfolding write_blob
  write_blob-Stored durable bytes h d n =
      Stored-before bytes h d (write_file (temp h) bytes d).1 _
        (laws.write_other (temp h) (blob h) bytes d n)
        (after_write-Stored bytes h _ _ n (durable (temp h) bytes d)
          (laws.write_flushed (temp h) bytes d))

  pub after_shard-Stored :
      Durable
      → (bytes : Bytes) (h : ContentHash) (d : Disk) → IsHash h
      → Stored bytes h d
          (after_shard fs blake3 pid cas bytes h (ensure_shard_dir fs blake3 pid cas h d))
  after_shard-Stored durable bytes h d v =
      let same =
        laws.create_outside (shard h) (blob h) d
          (set_up.shard_outside h h v v (shard_shorter fs blake3 pid cas laws set_up h h v v)) in
      elim (Bool-cases (create_directories (shard h) d).0) [
        | inl e ↦ rw (after_shard-made bytes h d e) (
            Stored-before bytes h d _ _ same (
              write_blob-Stored durable bytes h _
                (set_up.temp_apart h h v v (temp-ne-blob fs blake3 pid cas laws set_up h h v v))))
        | inr e ↦ rw (after_shard-unmade bytes h d e) (unfold Stored in (refl, same))
      ]
