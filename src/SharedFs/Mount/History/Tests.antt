-- ===== src/SharedFs/Mount/History/Tests.antt =====
-- Histories of a concrete mount.
use peerbit_examples.Prelude.{List, [], ◌∷◌}
use peerbit_examples.SharedFs.Mount.Buffer.{start, nat}
use peerbit_examples.SharedFs.Mount.Flags.{words, linux}
use peerbit_examples.SharedFs.Mount.Memory.{memory, own_hash, empty_mount}
use peerbit_examples.SharedFs.Mount.Lawful.{AllLawful}
use peerbit_examples.SharedFs.Mount.History.{
  Call, opens, writes, truncates_handle, flushes, releases, run, run-AllLawful,
}

abbrev calls : List Call
calls =
    opens (b'a' ∷ []) (words (b'w' ∷ [])) linux
    ∷ writes 1 (7 ∷ 8 ∷ []) (start 0)
    ∷ flushes 1
    ∷ truncates_handle 1 (nat 5)
    ∷ releases 1
    ∷ []

empty_mount-AllLawful : AllLawful empty_mount
unfolding AllLawful
empty_mount-AllLawful = tt

run-AllLawful_example : AllLawful (run memory own_hash calls empty_mount)
run-AllLawful_example = run-AllLawful memory own_hash calls empty_mount empty_mount-AllLawful
