-- ===== src/Cas/FileSystem.antt =====
-- What src/cas/cas.cpp uses of std::filesystem and of file streams: operations on a disk, and what
-- their documentation says of them. An operation returns what the code can see of its outcome, and
-- the disk.
use wake.Prelude.{Bytes, [], ◌++◌, ◌∷◌, Bool, true, false, ◌≡◌, ◌≢◌}
use wake.Wcl.FilePath.Iterator.{slash}
use wake.Wcl.FilePath.Canonical.{is_absolute, ends_open}

pub data Entry : Type 0 where
  nothing directory : Entry
  file : Bytes → Entry

-- A write through an output stream: the stream may not open, or show a failure. Its last bytes leave
-- the buffer when it is destroyed; what becomes of them the code does not see.
pub data WriteOutcome : Type 0 where
  not_opened failed : WriteOutcome
  written : Bool → WriteOutcome

-- A read through the buffer of an input stream: the stream may not open. Whether the buffer came to
-- the end of the file or broke off at an error the code does not see, since the copy of a buffer
-- leaves the state of the stream that owns it as it was.
pub data ReadOutcome : Type 0 where
  unopened : ReadOutcome
  copied : Bytes → Bool → ReadOutcome

pub data RemoveOutcome : Type 0 where
  removed absent unremovable : RemoveOutcome

pub record FileSystem : Type 1 where
  pub Disk : Type 0
  pub entry : Disk → Bytes → Entry
  pub create_directories : Bytes → Disk → Bool × Disk
  pub write_file : Bytes → Bytes → Disk → WriteOutcome × Disk
  pub rename : Bytes → Bytes → Disk → Bool × Disk
  pub remove : Bytes → Disk → RemoveOutcome × Disk
  pub read_file : Bytes → Disk → ReadOutcome
  -- Two paths of files name different places: neither leads to the other by its spelling, by a link, or
  -- through the other, and neither is a directory.
  pub apart : Bytes → Bytes → Type 0
  -- A directory, and a path that is neither it nor above it, in any spelling.
  pub outside : Bytes → Bytes → Type 0
  -- path operator/
  pub path_join : Bytes → Bytes → Bytes

-- `create_directories` makes a path and its ancestors. `rename` moves a file, or changes nothing.
-- `entry` is total: a status that cannot be read, for which `exists` throws, is left out.
module _ (fs : FileSystem) where
  open fs use {
    Disk, entry, create_directories, write_file, rename, remove, read_file, path_join, apart,
    outside,
  }

  pub record IsFileSystem : Type 0 where
    pub create_outside :
        (p q : Bytes) (d : Disk) → outside p q → entry (create_directories p d).1 q ≡ entry d q
    pub write_other :
        (p q c : Bytes) (d : Disk) → apart p q → entry (write_file p c d).1 q ≡ entry d q
    pub write_flushed :
        (p c : Bytes) (d : Disk)
        → (write_file p c d).0 ≡ written true
        → entry (write_file p c d).1 p ≡ file c
    pub rename_moved :
        (p q : Bytes) (d : Disk)
        → (rename p q d).0 ≡ true
        → apart p q
        → entry (rename p q d).1 q ≡ entry d p
    pub rename_other :
        (p q r : Bytes) (d : Disk) → apart p r → apart q r → entry (rename p q d).1 r ≡ entry d r
    pub rename_failed :
        (p q r : Bytes) (d : Disk) → (rename p q d).0 ≡ false → entry (rename p q d).1 r ≡ entry d r
    pub remove_other : (p q : Bytes) (d : Disk) → apart p q → entry (remove p d).1 q ≡ entry d q
    pub remove_done :
        (p : Bytes) (d : Disk) → (remove p d).0 ≡ removed → entry (remove p d).1 p ≡ nothing
    pub remove_failed :
        (p : Bytes) (d : Disk) → (remove p d).0 ≢ removed → entry (remove p d).1 p ≡ entry d p
    pub read_whole : (p c : Bytes) (d : Disk) → read_file p d ≡ copied c true → entry d p ≡ file c
    pub read_missing : (p : Bytes) (d : Disk) → entry d p ≡ nothing → read_file p d ≡ unopened
    pub join_relative :
        (p q : Bytes)
        → p ≢ []
        → ends_open p ≡ true
        → is_absolute q ≡ false
        → path_join p q ≡ p ++ slash ∷ q
