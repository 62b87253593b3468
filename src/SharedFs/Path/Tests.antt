-- ===== src/SharedFs/Path/Tests.antt =====
-- Paths of concrete texts.
use Prim.Native.Char.{code}
use Prim.Native.String.{String}
use peerbit_examples.Prelude.{◌≡◌, refl, [], ◌∷◌, All}
use peerbit_examples.SharedFs.Path.Split.{Text, split, join, same_text}
use peerbit_examples.SharedFs.Path.{
  normalize_fs_path, normalized_segments, path_segments, dirname, basename, join_fs_path,
  real_parts, resolve, to_slash,
}
use peerbit_examples.SharedFs.Path.Laws.{
  IsSegment, normalized_segments-IsSegment, normalize_fs_path_idempotent,
  path_segments-normalized_segments, join_fs_path-dirname-basename,
}

abbrev codes : String → Text
codes String.[] = []
codes (String.◌∷◌ c s) = code c ∷ codes s

normalize_tests :
    (normalize_fs_path (codes "/a/../../b/./c//") ≡ codes "/b/c")
    × (normalize_fs_path (codes "") ≡ codes "/")
    × (dirname (codes "/b/c") ≡ codes "/b")
    × (basename (codes "/b/c") ≡ codes "c")
unfolding normalize_fs_path normalized_segments path_segments dirname basename real_parts resolve
    to_slash split join same_text
normalize_tests = (refl, refl, refl, refl)

normalized_segments-IsSegment_example : All IsSegment (normalized_segments (codes "/a/../.."))
normalized_segments-IsSegment_example = normalized_segments-IsSegment (codes "/a/../..")

normalize_fs_path_idempotent_example :
    normalize_fs_path (normalize_fs_path (codes "a/../b")) ≡ normalize_fs_path (codes "a/../b")
normalize_fs_path_idempotent_example = normalize_fs_path_idempotent (codes "a/../b")

path_segments-normalized_segments_example :
    path_segments (codes "a/../b") ≡ normalized_segments (codes "a/../b")
path_segments-normalized_segments_example = path_segments-normalized_segments (codes "a/../b")

join_fs_path-dirname-basename_example :
    join_fs_path (dirname (codes "a/b") ∷ basename (codes "a/b") ∷ [])
    ≡ normalize_fs_path (codes "a/b")
join_fs_path-dirname-basename_example = join_fs_path-dirname-basename (codes "a/b")
