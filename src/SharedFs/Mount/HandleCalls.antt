-- ===== src/SharedFs/Mount/HandleCalls.antt =====
-- Lawful handles under the calls on an open handle.
use peerbit_examples.Prelude.{bool_split, ℕ, ◌≡◌, true, List, arith, All-append}
use peerbit_examples.SharedFs.Path.Split.{Text}
use peerbit_examples.SharedFs.Mount.Buffer.{OpenHandle, Offset, Number, resize_handle, write_handle}
use peerbit_examples.SharedFs.Mount.Commit.{begin_commit}
use peerbit_examples.SharedFs.Mount.Target.{Target}
use peerbit_examples.SharedFs.Mount.Handles.{
  State, get_handle, pending_writable_handle, add_handle, store_handle, write,
}
use peerbit_examples.SharedFs.Mount.Files.{
  commit, resize_open, remove_handle, truncate_handle, flush, release,
}
use peerbit_examples.SharedFs.Mount.Rights.{
  IsLawful, write_handle-IsLawful, resize_handle-IsLawful, unchanged-IsLawful, writing-IsLawful,
}
use peerbit_examples.SharedFs.Mount.Lawful.{
  AfterLawful, AllLawful, IsFound, IsFoundPending, get_handle-lawful, change_handle-lawful,
  delete_handle-lawful, one_more, pending-lawful,
}
use peerbit_examples.SharedFs.Mount.Splits.{found_split, outcome_split, begun_split}

module _ {W : Type 0} (target : Target W) (sha256 : List ℕ → Text) where
  pub get_handle-IsFound : (s : State W) (k : ℕ) → AllLawful s → IsFound (get_handle s.handles k)
  unfolding AllLawful
  get_handle-IsFound s k l = get_handle-lawful s.handles s.next_handle k l

  pub world-lawful : (s : State W) (w : W) → AllLawful s → AllLawful (record s { world = w })
  unfolding AllLawful
  world-lawful s w l = l

  pub found_pending :
      (s : State W) (path : Text)
      → AllLawful s
      → IsFoundPending (pending_writable_handle s.handles path)
  unfolding AllLawful
  found_pending s path l = pending-lawful s.handles s.next_handle path l

  pub stored-lawful :
      (s : State W) (k : ℕ) (g : OpenHandle)
      → AllLawful s
      → IsLawful g
      → AllLawful (store_handle target sha256 s k g)
  unfolding AllLawful store_handle
  stored-lawful s k g l i = change_handle-lawful s.handles s.next_handle k g l i

  pub removed-lawful :
      (s : State W) (k : ℕ) → AllLawful s → AllLawful (remove_handle target sha256 s k)
  unfolding AllLawful remove_handle
  removed-lawful s k l = delete_handle-lawful s.handles s.next_handle k l

  pub added-lawful :
      (s : State W) (h : OpenHandle)
      → AllLawful s
      → IsLawful h
      → AllLawful (add_handle target sha256 s h).0
  unfolding AllLawful add_handle
  added-lawful s h l i =
      All-append _ s.handles _ (one_more s.handles s.next_handle l) ((omega arith, i), tt)

  pub write-lawful :
      (s : State W) (k : ℕ) (chunk : List ℕ) (o : Offset)
      → AllLawful s
      → AllLawful (write target sha256 s k chunk o).0
  unfolding write
  write-lawful s k chunk o l =
      found_split AfterLawful (get_handle s.handles k) (get_handle-IsFound s k l) l (λ h i.
        outcome_split AfterLawful (write_handle h chunk o) (λ e q. l)
          (λ r q. stored-lawful s k r.0 l (write_handle-IsLawful h chunk o r.0 r.1 i q)))

  pub commit-lawful :
      (s : State W) (k : ℕ) (h : OpenHandle)
      → AllLawful s
      → IsLawful h
      → AllLawful (commit target sha256 s k h).0
  unfolding commit
  commit-lawful s k h l i =
      begun_split AfterLawful (begin_commit sha256 h) l l
        (λ g q. stored-lawful s k g l (unchanged-IsLawful sha256 h g i q))
        (λ g hash q.
          stored-lawful _ k _ (world-lawful s _ l) (writing-IsLawful sha256 h g hash _ i q))

  pub resize_open-lawful :
      (s : State W) (k : ℕ) (h : OpenHandle) (size : Number)
      → AllLawful s
      → IsLawful h
      → h.write ≡ true
      → AllLawful (resize_open target sha256 s k h size).0
  unfolding resize_open
  resize_open-lawful s k h size l i w =
      outcome_split AfterLawful (resize_handle h size) (λ e q. l)
        (λ g q. stored-lawful s k g l (resize_handle-IsLawful h size g i w q))

  pub flush-lawful : (s : State W) (k : ℕ) → AllLawful s → AllLawful (flush target sha256 s k).0
  unfolding flush
  flush-lawful s k l =
      found_split AfterLawful (get_handle s.handles k) (get_handle-IsFound s k l) l
        (λ h i. commit-lawful s k h l i)

  pub release-lawful : (s : State W) (k : ℕ) → AllLawful s → AllLawful (release target sha256 s k).0
  unfolding release
  release-lawful s k l =
      found_split AfterLawful (get_handle s.handles k) (get_handle-IsFound s k l) l
        (λ h i. removed-lawful _ k (commit-lawful s k h l i))

  pub truncate_handle-lawful :
      (s : State W) (k : ℕ) (size : Number)
      → AllLawful s
      → AllLawful (truncate_handle target sha256 s k size).0
  unfolding truncate_handle
  truncate_handle-lawful s k size l =
      found_split AfterLawful (get_handle s.handles k) (get_handle-IsFound s k l) l
        (λ h i. bool_split AfterLawful h.write (λ w. resize_open-lawful s k h size l i w) (λ w. l))
