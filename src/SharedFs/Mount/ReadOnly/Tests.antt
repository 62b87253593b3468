-- ===== src/SharedFs/Mount/ReadOnly/Tests.antt =====
-- Calls beside a concrete conflict directory.
use peerbit_examples.Prelude.{◌≡◌, refl, List, [], ◌∷◌, false, none, All}
use peerbit_examples.SharedFs.Path.Split.{Text, split, join, same_text, slash}
use peerbit_examples.SharedFs.Path.{
  normalize_fs_path, normalized_segments, path_segments, real_parts, resolve, to_slash,
}
use peerbit_examples.SharedFs.Mount.Buffer.{ok}
use peerbit_examples.SharedFs.Mount.Commit.{written}
use peerbit_examples.SharedFs.Mount.Target.{Target, is_conflict_path, conflicts_dir}
use peerbit_examples.SharedFs.Mount.Handles.{State}
use peerbit_examples.SharedFs.Mount.Directory.{
  make_directory, remove_directory, unlink, rename, moved,
}
use peerbit_examples.SharedFs.Mount.Memory.{own_hash}
use peerbit_examples.SharedFs.Mount.ReadOnly.{IsKept, path_calls-kept}

-- A target that writes down the paths that it is asked to change.
abbrev logging : Target (List Text)
logging = record {
  read_file = λ w p. ok none;
  read_version = λ w p v. ok none;
  write_file = λ w p content ids. (p ∷ w, written none none);
  make_directory = λ w p. (p ∷ w, ok tt);
  remove = λ w p. (p ∷ w, ok tt);
  move = λ w p q. (p ∷ q ∷ w, ok tt);
  list = λ w p. ok [];
  conflicts = λ w p. ok [];
  stat = none;
}

abbrev AllOutside : List Text → Type 0
AllOutside = All (λ path. is_conflict_path path ≡ false)

logging-IsKept : IsKept logging AllOutside
logging-IsKept = record {
  makes = λ w path e p. (e, p);
  removes = λ w path e p. (e, p);
  moves = λ w a b e f p. (e, (f, p));
}

abbrev quiet : State (List Text)
quiet = record { handles = []; next_handle = 1; world = [] }

abbrev plain_path : Text
plain_path = b'a' ∷ []

-- What reaches the target: a move between plain paths does, one onto the conflict directory does not.
moves_seen :
    ((rename logging own_hash quiet plain_path plain_path).0.world
      ≡ (slash ∷ plain_path) ∷ (slash ∷ plain_path) ∷ [])
    × ((rename logging own_hash quiet plain_path conflicts_dir).0.world ≡ [])
unfolding rename is_conflict_path normalize_fs_path path_segments normalized_segments real_parts
    resolve to_slash split join same_text moved
moves_seen = (refl, refl)

path_calls-kept_example :
    AllOutside (make_directory logging own_hash quiet plain_path).0.world
    × AllOutside (remove_directory logging own_hash quiet plain_path).0.world
    × AllOutside (unlink logging own_hash quiet plain_path).0.world
    × AllOutside (rename logging own_hash quiet plain_path conflicts_dir).0.world
path_calls-kept_example =
    path_calls-kept logging own_hash AllOutside logging-IsKept quiet tt plain_path conflicts_dir
