-- ===== src/Wcl/FilePath/Tests.antt =====
-- Runs and instances for paths.
use wake.Prelude.{[], codes, ◌∷◌, ◌≡◌, refl}
use wake.Wcl.FilePath.Iterator.{slash, join, split_path, iterator_at}
use wake.Wcl.FilePath.Canonical.{is_absolute, make_canonical, join_paths, drop_slash}
use wake.Wcl.FilePath.Relative.{relative_to}
use wake.Wcl.FilePath.Render.{make_canonical_idempotent}
use wake.Wcl.FilePath.Walk.{Directory, walk, walk-make_canonical}
use wake.Wcl.FilePath.JoinPaths.{walk-join_paths}
use wake.Wcl.FilePath.RelativeWalk.{walk-relative_to, join-split_path}

split_path_runs :
    (split_path (codes "foo/bar/baz") ≡ codes "foo" ∷ codes "bar" ∷ codes "baz" ∷ [])
    × (split_path (codes "/a//b/") ≡ codes "a" ∷ [] ∷ codes "b" ∷ [])
    × (split_path (codes "/") ≡ [])
unfolding split_path iterator_at
split_path_runs = (refl, refl, refl)

join_paths_runs :
    (join_paths (codes "a/b") (codes "../c") ≡ codes "a/c")
    × (join_paths (codes "/") (codes "/x") ≡ codes "/x")
unfolding join_paths
join_paths_runs = (refl, refl)

abbrev home : Directory
home = codes "wake" ∷ codes "src" ∷ []

make_canonical_idempotent_example :
    make_canonical (make_canonical (codes "a/../..//b/.")) ≡ make_canonical (codes "a/../..//b/.")
make_canonical_idempotent_example = make_canonical_idempotent (codes "a/../..//b/.")

walk-make_canonical_example :
    walk home (make_canonical (codes "../x/./y/..")) ≡ walk home (codes "../x/./y/..")
walk-make_canonical_example = walk-make_canonical home (codes "../x/./y/..")

walk-join_paths_example :
    walk home (join_paths (codes "a/b/") (codes "/../c"))
    ≡ walk (walk home (codes "a/b/")) (drop_slash (codes "/../c"))
walk-join_paths_example =
    walk-join_paths home (codes "a/b/") (codes "/../c") (λ e. cc)
      (unfold drop_slash is_absolute in refl)

walk-relative_to_example :
    walk (walk home (codes "/a/b")) (relative_to (codes "/a/b") (codes "/a/./c/d"))
    ≡ walk home (codes "/a/./c/d")
walk-relative_to_example =
    walk-relative_to home (codes "/a/b") (codes "/a/./c/d") (unfold is_absolute in refl)
      (unfold is_absolute in refl)

join-split_path_example :
    make_canonical (codes "/x/../y/z")
    ≡ slash ∷ join slash (split_path (make_canonical (codes "/x/../y/z")))
join-split_path_example = join-split_path (codes "/x/../y/z") (unfold is_absolute in refl)

canonical_runs :
    (make_canonical (codes ".") ≡ codes ".")
    × (make_canonical (codes "hax/") ≡ codes "hax")
    × (make_canonical (codes "foo/.././bar.z") ≡ codes "bar.z")
    × (make_canonical (codes "foo/../../bar.z") ≡ codes "../bar.z")
    × (make_canonical (codes "/../a//b") ≡ codes "/a/b")
    × (make_canonical (codes "a/../..") ≡ codes "..")
unfolding make_canonical
canonical_runs = (refl, refl, refl, refl, refl, refl)

relative_to_runs :
    (relative_to (codes "/a/b") (codes "/a/c/d") ≡ codes "../c/d")
    × (relative_to (codes "/a/b") (codes "/a") ≡ codes "../")
    × (relative_to (codes "/") (codes "/x") ≡ codes "x")
    × (relative_to (codes "/a/b") (codes "x/./y") ≡ codes "x/y")
unfolding relative_to iterator_at
relative_to_runs = (refl, refl, refl, refl)
