-- ===== src/SharedFs/Mount/Memory.antt =====
-- A target that keeps one file in memory, to run mounts on.
use peerbit_examples.Prelude.{ℕ, List, [], ◌∷◌, none, some}
use peerbit_examples.SharedFs.Path.Split.{Text}
use peerbit_examples.SharedFs.Mount.Buffer.{ok}
use peerbit_examples.SharedFs.Mount.Commit.{written}
use peerbit_examples.SharedFs.Mount.Target.{Target}
use peerbit_examples.SharedFs.Mount.Handles.{State}

abbrev pub memory : Target (List ℕ)
memory = record {
  read_file = λ w p. ok (some w);
  read_version = λ w p v. ok none;
  write_file = λ w p content ids. (content, written (some (b'v' ∷ [])) none);
  make_directory = λ w p. (w, ok tt);
  remove = λ w p. ([], ok tt);
  move = λ w p q. (w, ok tt);
  list = λ w p. ok [];
  conflicts = λ w p. ok [];
  stat = none;
}

abbrev pub own_hash : List ℕ → Text
own_hash content = content

abbrev pub empty_mount : State (List ℕ)
empty_mount = record { handles = []; next_handle = 1; world = [] }
