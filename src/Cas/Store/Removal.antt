-- ===== src/Cas/Store/Removal.antt =====
-- remove_blob of src/cas/cas.cpp.
use wake.Prelude.{Bytes, false, none, some, ◌≡◌, ◌≢◌, refl, ap}
use wake.Cas.ContentHash.{ContentHash, IsHash}
use wake.Cas.FileSystem.{FileSystem, IsFileSystem, RemoveOutcome, removed, absent, unremovable}
use wake.Cas.Store.{
  CasError, not_found, Cas, exists, remove_result, remove_error, removal_error, blob_path, has_blob,
  remove_blob,
}
use wake.Cas.Store.Paths.{IsSetUp, blob_path_injective}

absent-ne-removed : absent ≢ removed
absent-ne-removed p = cc p

unremovable-ne-removed : unremovable ≢ removed
unremovable-ne-removed p = cc p

removal_error-none : (o : RemoveOutcome) → removal_error o ≡ none → o ≡ removed
unfolding removal_error remove_result remove_error
removal_error-none removed e = refl
removal_error-none absent e = absurd (cc e)
removal_error-none unremovable e = absurd (cc e)

removal_error-some :
    (o : RemoveOutcome) (x : CasError) → removal_error o ≡ some x → (x ≡ not_found) × (o ≢ removed)
unfolding removal_error remove_result remove_error
removal_error-some removed x e = absurd (cc e)
removal_error-some absent x e = (cc e, λ p. cc p)
removal_error-some unremovable x e = (cc e, λ p. cc p)

module _ (fs : FileSystem) (blake3 : Bytes → ContentHash) (pid : Bytes) (cas : Cas)
    (laws : IsFileSystem fs) (set_up : IsSetUp fs blake3 pid cas)
    (hashes : (c : Bytes) → IsHash (blake3 c)) where
  open fs use {Disk, entry, remove}

  abbrev blob : ContentHash → Bytes
  blob = blob_path fs blake3 pid cas

  -- A `remove_blob` that returns no error leaves no blob of the hash. One that returns an error
  -- returns `not_found`, whatever the file system's outcome was, and leaves the blob's entry as it
  -- was. Either leaves the entry of every other blob as it was.
  -- The file system keeps its laws, the store is set up with directories' paths without a slash at
  -- the end, a short process id, and paths of one spelling without links (`IsSetUp`), and hashes
  -- have 32 bytes.
  pub remove_blob_lem :
      (h : ContentHash) (d : Disk)
      → IsHash h
      → ((remove_blob fs blake3 pid cas h d).0 ≡ none
          → has_blob fs blake3 pid cas h (remove_blob fs blake3 pid cas h d).1 ≡ false)
        × ((x : CasError)
            → (remove_blob fs blake3 pid cas h d).0 ≡ some x
            → (x ≡ not_found)
              × (entry (remove_blob fs blake3 pid cas h d).1 (blob h) ≡ entry d (blob h)))
        × ((g : ContentHash)
            → IsHash g
            → h ≢ g
            → entry (remove_blob fs blake3 pid cas h d).1 (blob g) ≡ entry d (blob g))
  unfolding remove_blob has_blob exists
  remove_blob_lem h d v = (
    λ e. ap exists (laws.remove_done (blob h) d (removal_error-none _ e)),
    (λ x e.
        let (which, kept) = removal_error-some _ x e in
        (which, laws.remove_failed (blob h) d kept)),
    (λ g vg n. laws.remove_other (blob h) (blob g) d (
        set_up.blob_apart h g v vg
          (λ p. n (blob_path_injective fs blake3 pid cas laws set_up h g v vg p)))),
  )
