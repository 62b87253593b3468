-- ===== src/SharedFs/Store/Cycles/Calls.antt =====
-- Cycles of parents under sequences of calls.
use peerbit_examples.Prelude.{List, [], ◌∷◌}
use peerbit_examples.SharedFs.Mount.Buffer.{Outcome, ok, fail}
use peerbit_examples.SharedFs.Store.Documents.{IsIndex}
use peerbit_examples.SharedFs.Store.Nodes.Acyclic.{IsAcyclic}
use peerbit_examples.SharedFs.Store.Peer.{Peer, documents}
use peerbit_examples.SharedFs.Store.Peer.Rules.{Ending}
use peerbit_examples.SharedFs.Store.Calls.{
  Call, making, writing, resolving, removing, renaming, step, run,
}
use peerbit_examples.SharedFs.Store.Cycles.{HasFreshIds, Acyclic}
use peerbit_examples.SharedFs.Store.Cycles.Saves.{
  mkdir_rule, write_file_rule, resolve_conflict_rule,
}
use peerbit_examples.SharedFs.Store.Cycles.Moves.{remove_rule, rename_rule}

-- What holds however a call ends, holds.
either_way : {S A : Type 0} (I : S → Type 0) (x : S × Outcome A) → Ending (λ a. I) I x → I x.0
either_way I (s, ok a) h = h
either_way I (s, fail e) h = h

step-IsAcyclic :
    {S : Type 0} (peer : Peer S)
    → IsIndex peer.index
    → HasFreshIds peer
    → (c : Call) (s : S) → IsAcyclic (documents peer s)
    → IsAcyclic (documents peer (step peer c s))
unfolding step
step-IsAcyclic peer law fresh (making path) s h =
    either_way (Acyclic peer law) _ ((mkdir_rule peer law fresh path).run s h)
step-IsAcyclic peer law fresh (writing path bytes options) s h =
    either_way (Acyclic peer law) _ ((write_file_rule peer law fresh path bytes options).run s h)
step-IsAcyclic peer law fresh (resolving path version_id) s h =
    either_way (Acyclic peer law) _ ((resolve_conflict_rule peer law fresh path version_id).run s h)
step-IsAcyclic peer law fresh (removing path) s h =
    either_way (Acyclic peer law) _ ((remove_rule peer law fresh path).run s h)
step-IsAcyclic peer law fresh (renaming from to) s h =
    either_way (Acyclic peer law) _ ((rename_rule peer law fresh from to).run s h)

-- After any calls that make, write, resolve, remove and rename, whatever each of them answers or throws
-- on the way, the walk up from every id ends, if it did before. The index keeps one document to an id
-- and answers what was put, and an id that is made stands for nothing yet.
pub run-IsAcyclic :
    {S : Type 0} (peer : Peer S)
    → IsIndex peer.index
    → HasFreshIds peer
    → (calls : List Call) (s : S) → IsAcyclic (documents peer s)
    → IsAcyclic (documents peer (run peer calls s))
unfolding run
run-IsAcyclic peer law fresh [] s h = h
run-IsAcyclic peer law fresh (c ∷ calls) s h =
    run-IsAcyclic peer law fresh calls (step peer c s) (step-IsAcyclic peer law fresh c s h)
