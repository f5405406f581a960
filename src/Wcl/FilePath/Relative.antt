-- ===== src/Wcl/FilePath/Relative.antt =====
-- `relative_to` of src/wcl/filepath.h.
use wake.Prelude.{ℕ, zero, suc, [], ◌++◌, not, ◌&&◌, Bytes, codes, length, bytes_eq, if◌then◌else◌}
use wake.Wcl.FilePath.Iterator.{
  FilepathIterator, next, begin, end, same_position, part, parts_from, join, slash,
}
use wake.Wcl.FilePath.Canonical.{make_canonical, is_absolute}

-- Moves both iterators past the parts that the two paths share.
unfoldable pub skip_common :
    ℕ → Bytes → Bytes → FilepathIterator → FilepathIterator → FilepathIterator × FilepathIterator
unfolding next
skip_common zero path relative p r = (p, r)
skip_common (suc fuel) path relative p r =
    let moved = skip_common fuel path relative (next path p) (next relative r) in
    if not (same_position p (end path))
      && not (same_position r (end relative))
      && bytes_eq (part path p) (part relative r)
    then moved
    else (p, r)

-- "../" for each part that is left.
unfoldable pub climb : ℕ → Bytes → FilepathIterator → Bytes
unfolding next
climb zero relative r = []
climb (suc fuel) relative r =
    let rest = climb fuel relative (next relative r) in
    if same_position r (end relative) then [] else codes "../" ++ rest

unfoldable pub relative_to : Bytes → Bytes → Bytes
unfolding make_canonical is_absolute skip_common climb parts_from join
relative_to relative_arg path_arg =
    let path = make_canonical path_arg in
    let relative = make_canonical relative_arg in
    let moved = skip_common (length path) path relative (begin path) (begin relative) in
    if is_absolute path
    then climb (length relative) relative moved.1
      ++ join slash (parts_from (length path) path moved.0)
    else path
