-- ===== src/Cas/Store/Keeps.antt =====
-- What the operations on blobs of src/cas/cas.cpp promise their callers.
use wake.Prelude.{
  Bytes, true, false, Bool-cases, Result, ok, err, bytes_eq, bytes_eq→eq, bytes_neq, ◌≡◌, ◌≢◌, refl,
  ap, sym, subst, inl, inr,
}
use wake.Cas.ContentHash.{ContentHash, IsHash}
use wake.Cas.FileSystem.{FileSystem, IsFileSystem, Entry, nothing, directory, file, copied}
use wake.Cas.Store.{
  CasError, io_error, Cas, exists, blob_path, ensure_shard_dir, after_shard, chosen_hash,
  store_blob_impl, store_blob,
}
use wake.Cas.Store.Paths.{IsSetUp, blob_path_injective, temp-ne-blob, shard_shorter}
use wake.Cas.Store.Blobs.{Durable, Stored, after_shard-entry, after_shard-Stored}

-- An entry that a blob's path may have.
unfoldable pub Fits : (Bytes → ContentHash) → ContentHash → Entry → Type 0
Fits blake3 h nothing = Unit
Fits blake3 h directory = ⊥
Fits blake3 h (file c) = blake3 c ≡ h

module _ (fs : FileSystem) (blake3 : Bytes → ContentHash) (pid : Bytes) (cas : Cas)
    (laws : IsFileSystem fs) (set_up : IsSetUp fs blake3 pid cas)
    (hashes : (c : Bytes) → IsHash (blake3 c)) where
  open fs use {Disk, entry, create_directories, write_file, rename, remove, read_file, path_join}

  abbrev blob : ContentHash → Bytes
  blob = blob_path fs blake3 pid cas

  -- Every blob is a file of its hash.
  abbrev pub IsIntact : Disk → Type 0
  IsIntact d = (h : ContentHash) → IsHash h → Fits blake3 h (entry d (blob h))

  store_blob-new :
      (bytes : Bytes) (d : Disk)
      → exists (entry d (blob (blake3 bytes))) ≡ false
      → store_blob fs blake3 pid cas bytes d
        ≡ after_shard fs blake3 pid cas bytes
            (blake3 bytes)
            (ensure_shard_dir fs blake3 pid cas (blake3 bytes) d)
  unfolding store_blob store_blob_impl chosen_hash
  store_blob-new bytes d e = rw e refl

  store_blob-old :
      (bytes : Bytes) (d : Disk)
      → exists (entry d (blob (blake3 bytes))) ≡ true
      → store_blob fs blake3 pid cas bytes d ≡ (ok (blake3 bytes), d)
  unfolding store_blob store_blob_impl chosen_hash
  store_blob-old bytes d e = rw e refl

  blob-neq : (g h : ContentHash) → IsHash g → IsHash h → g ≢ h → blob g ≢ blob h
  blob-neq g h vg vh n e = n (blob_path_injective fs blake3 pid cas laws set_up g h vg vh e)

  -- `store_blob`, whatever it returns, leaves the entry of every other blob as it was.
  -- The file system keeps its laws, the store is set up with directories' paths without a slash at
  -- the end, a short process id, and paths of one spelling without links (`IsSetUp`), and hashes
  -- have 32 bytes.
  pub store_blob-entry_other :
      (bytes : Bytes) (d : Disk) (g : ContentHash)
      → IsHash g
      → blake3 bytes ≢ g
      → entry (store_blob fs blake3 pid cas bytes d).1 (blob g) ≡ entry d (blob g)
  store_blob-entry_other bytes d g vg n =
      let h = blake3 bytes in
      elim (Bool-cases (exists (entry d (blob h)))) [
        | inl e ↦ rw (store_blob-old bytes d e) refl
        | inr e ↦ rw (store_blob-new bytes d e) (
            after_shard-entry fs blake3 pid cas laws set_up bytes h d (blob g)
              (set_up.temp_apart h g (hashes bytes) vg
                (temp-ne-blob fs blake3 pid cas laws set_up h g (hashes bytes) vg))
              (set_up.blob_apart h g (hashes bytes) vg (blob-neq h g (hashes bytes) vg n))
              (set_up.shard_outside h g (hashes bytes) vg
                (shard_shorter fs blake3 pid cas laws set_up h g (hashes bytes) vg)))
      ]

  Fits-Stored :
      (bytes : Bytes) (d : Disk) (r : Result CasError ContentHash × Disk)
      → Stored fs blake3 pid cas laws set_up bytes (blake3 bytes) d r
      → Fits blake3 (blake3 bytes) (entry d (blob (blake3 bytes)))
      → Fits blake3 (blake3 bytes) (entry r.1 (blob (blake3 bytes)))
  unfolding Stored
  Fits-Stored bytes d (ok g, d') s f =
      subst (Fits blake3 (blake3 bytes)) (sym s.1) (unfold Fits in refl)
  Fits-Stored bytes d (err e, d') s f = subst (Fits blake3 (blake3 bytes)) (sym s.1) f

  store_blob-Fits :
      Durable fs blake3 pid cas laws set_up
      → (bytes : Bytes) (d : Disk) → Fits blake3 (blake3 bytes) (entry d (blob (blake3 bytes)))
      → Fits blake3
          (blake3 bytes)
          (entry (store_blob fs blake3 pid cas bytes d).1 (blob (blake3 bytes)))
  store_blob-Fits durable bytes d f = elim (Bool-cases (exists (entry d (blob (blake3 bytes))))) [
    | inl e ↦ rw (store_blob-old bytes d e) f
    | inr e ↦ rw (store_blob-new bytes d e) (
        Fits-Stored bytes d _
          (after_shard-Stored fs blake3 pid cas laws set_up durable bytes (blake3 bytes) d
            (hashes bytes))
          f)
  ]

  -- A store in which every blob is a file of its hash stays so through `store_blob`, whatever it
  -- returns, on a file system that loses no write it reports.
  -- The file system keeps its laws, the store is set up with directories' paths without a slash at
  -- the end, a short process id, and paths of one spelling without links (`IsSetUp`), and hashes
  -- have 32 bytes.
  pub store_blob-IsIntact :
      Durable fs blake3 pid cas laws set_up
      → (bytes : Bytes) (d : Disk) → IsIntact d
      → IsIntact (store_blob fs blake3 pid cas bytes d).1
  store_blob-IsIntact durable bytes d intact g vg =
      elim (Bool-cases (bytes_eq (blob (blake3 bytes)) (blob g))) [
        | inl e ↦
            subst (λ h. Fits blake3 h (entry (store_blob fs blake3 pid cas bytes d).1 (blob h)))
              (blob_path_injective fs blake3 pid cas laws set_up (blake3 bytes) g (hashes bytes) vg
                (bytes_eq→eq _ _ e))
              (store_blob-Fits durable bytes d (intact (blake3 bytes) (hashes bytes)))
        | inr e ↦
            subst (Fits blake3 g)
              (sym (store_blob-entry_other bytes d g vg (λ p. bytes_neq _ _ e (ap blob p))))
              (intact g vg)
      ]

  -- No read of a file breaks off.
  abbrev pub ReadsWhole : Type 0
  ReadsWhole = (p c x : Bytes) (d : Disk) → entry d p ≡ file x → read_file p d ≢ copied c false

  Stored-err :
      (bytes : Bytes) (d : Disk) (x : CasError) (r : Result CasError ContentHash × Disk)
      → Stored fs blake3 pid cas laws set_up bytes (blake3 bytes) d r
      → r.0 ≡ err x
      → (x ≡ io_error) × (entry r.1 (blob (blake3 bytes)) ≡ entry d (blob (blake3 bytes)))
  unfolding Stored
  Stored-err bytes d x (ok g, d') s e = absurd (cc e)
  Stored-err bytes d x (err y, d') s e = (cc (e, s.0), s.1)

  store_blob_failed_own :
      Durable fs blake3 pid cas laws set_up
      → (bytes : Bytes) (d : Disk) (x : CasError) → (store_blob fs blake3 pid cas bytes d).0 ≡ err x
      → (x ≡ io_error)
        × (entry (store_blob fs blake3 pid cas bytes d).1 (blob (blake3 bytes))
            ≡ entry d (blob (blake3 bytes)))
  store_blob_failed_own durable bytes d x =
      elim (Bool-cases (exists (entry d (blob (blake3 bytes))))) [
        | inl e ↦ rw (store_blob-old bytes d e) (λ q. absurd (cc q))
        | inr e ↦ rw (store_blob-new bytes d e) (
            Stored-err bytes d x _ (
              after_shard-Stored fs blake3 pid cas laws set_up durable bytes (blake3 bytes) d
                (hashes bytes)))
      ]

  -- A `store_blob` that fails returns `io_error` and changes the entry of no blob, on a file system
  -- that loses no write it reports.
  -- The file system keeps its laws, the store is set up with directories' paths without a slash at
  -- the end, a short process id, and paths of one spelling without links (`IsSetUp`), and hashes
  -- have 32 bytes.
  pub store_blob_failed :
      Durable fs blake3 pid cas laws set_up
      → (bytes : Bytes) (d : Disk) (x : CasError) → (store_blob fs blake3 pid cas bytes d).0 ≡ err x
      → (x ≡ io_error)
        × ((g : ContentHash)
            → IsHash g
            → entry (store_blob fs blake3 pid cas bytes d).1 (blob g) ≡ entry d (blob g))
  store_blob_failed durable bytes d x q =
      let own = store_blob_failed_own durable bytes d x q in
      (
        own.0,
        λ g vg. elim (Bool-cases (bytes_eq (blob (blake3 bytes)) (blob g))) [
          | inl e ↦
              subst (λ p. entry (store_blob fs blake3 pid cas bytes d).1 p ≡ entry d p)
                (bytes_eq→eq _ _ e) own.1
          | inr e ↦ store_blob-entry_other bytes d g vg (λ p. bytes_neq _ _ e (ap blob p))
        ],
      )
