-- ===== src/SharedFs/Store/Cycles/Moves.antt =====
-- Cycles of parents under `rm` and `rename`.
use peerbit_examples.Prelude.{
  subst, ◌≡◌, refl, ap, ◌∙◌, inl, inr, Bool, true, false, ◌||◌, ◌&&◌, List, [], ◌∷◌, Option, arith,
  none, some, Bool-cases,
}
use peerbit_examples.SharedFs.Path.Split.{Text, same_text}
use peerbit_examples.SharedFs.Path.{normalize_fs_path}
use peerbit_examples.SharedFs.Mount.Buffer.{coded, einval, enotempty, ok}
use peerbit_examples.SharedFs.Mount.Target.{directory}
use peerbit_examples.SharedFs.Store.Documents.{
  NodeRecord, Document, node, get_document, IsIndex, IsUnique, Metadata,
}
use peerbit_examples.SharedFs.Store.Nodes.{
  root_node_id, ResolvedPath, at_root, at_directory, at_file, is_directory_record, resolve_path,
  is_within_subtree,
}
use peerbit_examples.SharedFs.Store.Nodes.Tree.{is_within_subtree-IsBelow}
use peerbit_examples.SharedFs.Store.Nodes.Resolved.{
  AreDirectories, IsPlaced, fail_or_ok, ok_injective, resolve_path-IsResolved,
  resolve_parent-AreDirectories,
}
use peerbit_examples.SharedFs.Store.Infos.{SharedFsEntryInfo}
use peerbit_examples.SharedFs.Store.Peer.{Peer, documents, pure, raise, put}
use peerbit_examples.SharedFs.Store.Peer.Rules.{
  Triple, pure_rule, raise_rule, gets_rule, asks_rule, bind_rule, if_rule, seq_rule, weaken_rule,
  after_rule,
}
use peerbit_examples.SharedFs.Store.Records.{is_root_path, record_of, resolved}
use peerbit_examples.SharedFs.Store.Moves.{
  moved_node, Destination, itself, vacant, taken, into_itself, or_true, remove_directory,
  remove_file, remove_resolved, rm, move_node, rename_to, rename,
}
use peerbit_examples.SharedFs.Store.Cycles.{
  IsApart, IsStored, root-IsApart, file-IsApart, HasFreshIds, Acyclic, Ready, put_node_rule,
  put_head_rule, put_again_rule, metadata_rule,
}

-- A directory that does not come below itself is not above its new parent.
into_itself-IsApart :
    (ds : List Document) (r : NodeRecord) (parent : Text)
    → is_directory_record r ≡ true
    → into_itself ds r parent ≡ false
    → IsApart ds parent r.node_id
unfolding into_itself
into_itself-IsApart ds r parent d e below =
    blocked (is_directory_record r) (same_text parent r.node_id)
      (or_true (is_within_subtree ds parent r.node_id)) d e
      (ap or_true ((is_within_subtree-IsBelow ds parent r.node_id).1.1 below))
  where
    blocked : (a b c : Bool) → a ≡ true → a && (b || c) ≡ false → c ≡ true → ⊥
    blocked a b c f g h = absurd (ground arith)

moved-IsPlaced :
    (before : Text → Text → Bool) (ds : List Document)
    → IsUnique ds
    → (path : Text) (r : NodeRecord) → moved_node (resolve_path before ds path) ≡ ok r
    → IsPlaced ds r
moved-IsPlaced before ds unique path r e = go (resolve_path before ds path) refl e
  where
    go :
        (o : Option ResolvedPath)
        → resolve_path before ds path ≡ o
        → moved_node o ≡ ok r
        → IsPlaced ds r
    go none f g = fail_or_ok g
    go (some at_root) f g = fail_or_ok g
    go (some (at_directory q p)) f g =
        subst (IsPlaced ds) (ok_injective g)
          (resolve_path-IsResolved before ds unique path (at_directory q p) f).0
    go (some (at_file q p)) f g =
        subst (IsPlaced ds) (ok_injective g)
          (resolve_path-IsResolved before ds unique path (at_file q p) f).0

module _ {S : Type 0} (peer : Peer S) (law : IsIndex peer.index) (fresh : HasFreshIds peer) where
  remove_directory_rule :
      (normalized : Text) (r : NodeRecord) (x y : Text)
      → Triple
          (λ s. Ready peer law x y s × IsStored (documents peer s) r)
          (remove_directory peer normalized r)
          (λ u. Ready peer law x y)
          (Acyclic peer law)
  unfolding remove_directory
  remove_directory_rule normalized r x y =
      bind_rule _ _
        (metadata_rule peer law {Q = λ m s. Ready peer law x y s × IsStored (documents peer s) r}
          (λ s m p. p))
        (λ m.
          bind_rule _ _
            (asks_rule {Q = λ children s. Ready peer law x y s × IsStored (documents peer s) r} _
              (λ s a e p. p) (λ s p. p.0.0))
            (λ children. last_rule m children))
    where
      last_rule :
          (m : Metadata) (children : List SharedFsEntryInfo)
          → Triple
              (λ s. Ready peer law x y s × IsStored (documents peer s) r)
              (elim children [
                | c ∷ cs ↦ raise (coded enotempty)
                | [] ↦ put peer (
                    node
                      (record_of directory r.node_id r.parent_id r.name none r.created_at true m))
              ])
              (λ u. Ready peer law x y)
              (Acyclic peer law)
      last_rule m [] = put_again_rule peer law _ r x y refl refl
      last_rule m (c ∷ cs) = raise_rule (coded enotempty) (λ s p. p.0.0)

  remove_file_rule :
      (r : NodeRecord) (x y : Text)
      → Triple
          (λ s. Ready peer law x y s × IsStored (documents peer s) r)
          (remove_file peer r)
          (λ u. Ready peer law x y)
          (Acyclic peer law)
  unfolding remove_file
  remove_file_rule r x y =
      bind_rule _ _
        (metadata_rule peer law {Q = λ m s. Ready peer law x y s × IsStored (documents peer s) r}
          (λ s m p. p))
        (λ m.
          bind_rule _ _
            (gets_rule {Q = λ heads s. Ready peer law x y s × IsStored (documents peer s) r} _
              (λ s p. p))
            (λ heads.
              bind_rule _ _
                (gets_rule
                  {Q = λ id s.
                    Ready peer law x y s
                    × IsStored (documents peer s) r
                    × (get_document (documents peer s) id ≡ none)}
                  _ (λ s p. (p.0, p.1, fresh.fresh s _)))
                (λ id.
                  seq_rule _ _ (put_head_rule peer law _ r x y)
                    (put_again_rule peer law _ r x y refl refl))))

  rm_rule :
      (path x y : Text)
      → Triple (Ready peer law x y) (rm peer path) (λ u. Ready peer law x y) (Acyclic peer law)
  unfolding rm
  rm_rule path x y =
      if_rule (is_root_path (normalize_fs_path path)) _ _
        (λ e. raise_rule (coded einval) (λ s p. p.0))
        (λ e.
          bind_rule _ _
            (gets_rule
              {Q = λ found s.
                Ready peer law x y s × (resolved peer (normalize_fs_path path) s ≡ found)}
              _ (λ s p. (p, refl)))
            found_rule)
    where
      stored_directory :
          (r : NodeRecord) (p : Text) (s : S)
          → resolved peer (normalize_fs_path path) s ≡ some (at_directory r p)
          → IsStored (documents peer s) r
      stored_directory r p s e =
          (resolve_path-IsResolved peer.before (documents peer s) (law.unique s)
            (normalize_fs_path path) (at_directory r p) e).0.stored

      stored_file :
          (r : NodeRecord) (p : Text) (s : S)
          → resolved peer (normalize_fs_path path) s ≡ some (at_file r p)
          → IsStored (documents peer s) r
      stored_file r p s e =
          (resolve_path-IsResolved peer.before (documents peer s) (law.unique s)
            (normalize_fs_path path) (at_file r p) e).0.stored

      found_rule :
          (found : Option ResolvedPath)
          → Triple
              (λ s. Ready peer law x y s × (resolved peer (normalize_fs_path path) s ≡ found))
              (remove_resolved peer (normalize_fs_path path) found)
              (λ u. Ready peer law x y)
              (Acyclic peer law)
      found_rule none = pure_rule tt (λ s p. p.0)
      found_rule (some at_root) = raise_rule (coded einval) (λ s p. p.0.0)
      found_rule (some (at_directory r p)) =
          weaken_rule _ (λ s h. (h.0, stored_directory r p s h.1))
            (remove_directory_rule (normalize_fs_path path) r x y)
      found_rule (some (at_file r p)) =
          weaken_rule _ (λ s h. (h.0, stored_file r p s h.1)) (remove_file_rule r x y)

  move_node_rule :
      (r : NodeRecord) (to_path parent : Text) (replaces : Bool)
      → Triple
          (Ready peer law parent r.node_id)
          (move_node peer r to_path parent replaces)
          (λ u. Acyclic peer law)
          (Acyclic peer law)
  unfolding move_node
  move_node_rule r to_path parent replaces =
      seq_rule _ _
        (if_rule replaces _ _ (λ e. rm_rule to_path parent r.node_id)
          (λ e. pure_rule tt (λ s p. p)))
        (bind_rule _ _ (metadata_rule peer law (λ s m p. p)) (λ m. put_node_rule peer law _))

  rename_to_rule :
      (r : NodeRecord) (to_path : Text) (replaces : Bool)
      → Triple
          (λ s. Acyclic peer law s × IsPlaced (documents peer s) r)
          (rename_to peer r to_path replaces)
          (λ u. Acyclic peer law)
          (Acyclic peer law)
  rename_to_rule r to_path replaces =
      bind_rule _ _
        (asks_rule
          {Q = λ parent s.
            (Acyclic peer law s × IsPlaced (documents peer s) r)
            × AreDirectories (documents peer s) parent}
          _
          (λ s parent g p. (
            p,
            resolve_parent-AreDirectories peer.before (documents peer s) (law.unique s) _ parent g,
          ))
          (λ s p. p.0))
        (λ parent.
          bind_rule _ _
            (gets_rule
              {Q = λ blocked s.
                ((Acyclic peer law s × IsPlaced (documents peer s) r)
                  × AreDirectories (documents peer s) parent)
                × (into_itself (documents peer s) r parent ≡ blocked)}
              _ (λ s p. (p, refl)))
            (λ blocked.
              if_rule blocked _ _ (λ e. raise_rule (coded einval) (λ s p. p.0.0.0))
                (λ e.
                  weaken_rule _
                    (λ s p. (p.0.0.0, may_move (documents peer s) parent p.0.1 p.0.0.1 (p.1 ∙ e)))
                    (move_node_rule r to_path parent replaces))))
    where
      may_move :
          (ds : List Document) (parent : Text)
          → AreDirectories ds parent
          → IsPlaced ds r
          → into_itself ds r parent ≡ false
          → IsApart ds parent r.node_id
      may_move ds parent above placed e = elim (Bool-cases (is_directory_record r)) [
        | inl d ↦ into_itself-IsApart ds r parent d e
        | inr f ↦ file-IsApart ds parent r above placed f
      ]

  pub rename_rule :
      (from to : Text)
      → Triple (Acyclic peer law) (rename peer from to) (λ u. Acyclic peer law) (Acyclic peer law)
  unfolding rename
  rename_rule from to =
      if_rule (same_text (normalize_fs_path from) (normalize_fs_path to)) _ _
        (λ e. pure_rule tt (λ s p. p))
        (λ e.
          bind_rule _ _
            (asks_rule {Q = λ r s. Acyclic peer law s × IsPlaced (documents peer s) r} _
              (λ s r e p. (p, moved-IsPlaced peer.before (documents peer s) (law.unique s) _ r e))
              (λ s p. p))
            (λ r.
              bind_rule _ _
                (asks_rule {Q = λ destination s. Acyclic peer law s × IsPlaced (documents peer s) r}
                  _ (λ s a e p. p) (λ s p. p.0))
                (λ destination. destination_rule r destination)))
    where
      destination_rule :
          (r : NodeRecord) (destination : Destination)
          → Triple
              (λ s. Acyclic peer law s × IsPlaced (documents peer s) r)
              (elim destination [
                | itself ↦ pure tt
                | vacant ↦ rename_to peer r (normalize_fs_path to) false
                | taken ↦ rename_to peer r (normalize_fs_path to) true
              ])
              (λ u. Acyclic peer law)
              (Acyclic peer law)
      destination_rule r itself = pure_rule tt (λ s p. p.0)
      destination_rule r vacant = rename_to_rule r _ false
      destination_rule r taken = rename_to_rule r _ true

  pub remove_rule :
      (path : Text)
      → Triple (Acyclic peer law) (rm peer path) (λ u. Acyclic peer law) (Acyclic peer law)
  remove_rule path =
      after_rule _ (λ u s h. h.0)
        (weaken_rule _ (λ s p. (p, root-IsApart (documents peer s) root_node_id))
          (rm_rule path root_node_id root_node_id))
