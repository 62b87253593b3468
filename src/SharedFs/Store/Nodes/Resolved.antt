-- ===== src/SharedFs/Store/Nodes/Resolved.antt =====
-- Lemmas on the node that a path leads to.
use peerbit_examples.Prelude.{
  subst, zero, suc, ◌≡◌, refl, sym, ap, ◌∙◌, inl, inr, Bool, true, false, List, [], ◌∷◌, Option,
  none, some, arith, if◌then◌else◌, if-true, if-false, Bool-cases, Option-cases,
}
use peerbit_examples.SharedFs.Path.Split.{Text, slash, same_text, same_text_iff}
use peerbit_examples.SharedFs.Path.{normalize_fs_path, path_segments, dirname, join_fs_path}
use peerbit_examples.SharedFs.Mount.Buffer.{Outcome, ok, fail, Fault}
use peerbit_examples.SharedFs.Store.Documents.{
  NodeRecord, Document, node, get_document, nodes_where, IsUnique,
}
use peerbit_examples.SharedFs.Store.Order.{sort, first-In, In-sort}
use peerbit_examples.SharedFs.Store.Query.{same_text_refl, some_injective, In-nodes_where}
use peerbit_examples.SharedFs.Store.Nodes.{
  root_node_id, as_node, node_record, is_child_named, is_directory_record, ResolvedPath, at_root,
  at_directory, at_file, oldest_first, child_by_name, resolve_from, parent_of, resolve_path,
  resolve_parent,
}
use peerbit_examples.SharedFs.Store.Nodes.Tree.{Reaches, IsBelow, same_record}
use peerbit_examples.SharedFs.Store.Nodes.Acyclic.{none_or_some, node_record-inner}

-- The node, and all above it below the root, are directories that are there.
abbrev pub AreDirectories : List Document → Text → Type 0
AreDirectories ds id =
    (a : Text)
    → IsBelow ds id a
    → (q : NodeRecord) × (node_record ds a ≡ some q) × (is_directory_record q ≡ true)

-- A record that is stored, not deleted, and below directories.
pub record IsPlaced (ds : List Document) (r : NodeRecord) : Type 0 where
  pub stored : get_document ds r.node_id ≡ some (node r)
  pub live : r.deleted ≡ false
  pub above : AreDirectories ds r.parent_id

abbrev pub IsResolved : List Document → ResolvedPath → Type 0
IsResolved ds at_root = Unit
IsResolved ds (at_directory r p) = IsPlaced ds r × (is_directory_record r ≡ true)
IsResolved ds (at_file r p) = IsPlaced ds r × (is_directory_record r ≡ false)

named_parent :
    (parent name : Text) (r : NodeRecord)
    → is_child_named parent name r ≡ true
    → (r.parent_id ≡ parent) × (r.deleted ≡ false)
named_parent parent name r h = ((same_text_iff r.parent_id parent).0 (ground arith), ground arith)

root_directories :
    (ds : List Document) (id : Text) → same_text id root_node_id ≡ true → AreDirectories ds id
unfolding Reaches
root_directories ds id s a (zero, h) = cc
root_directories ds id s a (suc k, h) = cc

directories_below :
    (ds : List Document) (r : NodeRecord)
    → IsPlaced ds r
    → is_directory_record r ≡ true
    → AreDirectories ds r.node_id
unfolding Reaches
directories_below ds r placed d a (zero, h) = (
  r,
  subst (λ x. node_record ds x ≡ some r) ((same_text_iff _ _).0 h.1)
      (node_record-inner ds r.node_id h.0 ∙ ap as_node placed.stored),
  d,
)
directories_below ds r placed d a (suc k, h) =
    let here : node_record ds r.node_id ≡ some r =
      node_record-inner ds r.node_id h.0 ∙ ap as_node placed.stored in
    placed.above a
      (k, subst (λ (q : NodeRecord). Reaches ds a k q.parent_id) (same_record h.2.1 here) h.2.2)

pub fail_or_ok : {A : Type 0} {B : Type 0} {f : Fault} {a : A} → fail f ≡ ok a → B
fail_or_ok e = cc

pub ok_injective : {A : Type 0} {a b : A} → ◌≡◌ {A = Outcome A} (ok a) (ok b) → a ≡ b
ok_injective e = cc

module _ (before : Text → Text → Bool) (ds : List Document) (unique : IsUnique ds) where
  child_by_name-IsPlaced :
      (parent name : Text) (r : NodeRecord)
      → AreDirectories ds parent
      → child_by_name before ds parent name ≡ some r
      → IsPlaced ds r
  unfolding child_by_name
  child_by_name-IsPlaced parent name r above e =
      let found = (In-nodes_where (is_child_named parent name) r ds unique).0 (
        (In-sort (oldest_first before) r (nodes_where (is_child_named parent name) ds)).0 (
          first-In (sort (oldest_first before) (nodes_where (is_child_named parent name) ds)) r
            e)) in
      let (p, live) = named_parent parent name r found.1 in
      record { stored = found.0; live = live; above = subst (AreDirectories ds) (sym p) above }

  last_step :
      (parent path name : Text) (r : NodeRecord)
      → child_by_name before ds parent name ≡ some r
      → resolve_from before ds parent path (name ∷ [])
        ≡ some (
            if is_directory_record r
            then at_directory r (join_fs_path (path ∷ name ∷ []))
            else at_file r (join_fs_path (path ∷ name ∷ [])))
  unfolding resolve_from
  last_step parent path name r e = rw (e, resolve_from) refl

  step :
      (parent path name next : Text) (rest : List Text) (r : NodeRecord)
      → child_by_name before ds parent name ≡ some r
      → resolve_from before ds parent path (name ∷ next ∷ rest) ≡ (
          if is_directory_record r
          then resolve_from before ds r.node_id (join_fs_path (path ∷ name ∷ [])) (next ∷ rest)
          else none)
  unfolding resolve_from
  step parent path name next rest r e = rw (e, resolve_from) refl

  no_step :
      (parent path name : Text) (rest : List Text)
      → child_by_name before ds parent name ≡ none
      → resolve_from before ds parent path (name ∷ rest) ≡ none
  unfolding resolve_from
  no_step parent path name [] e = rw (e, resolve_from) refl
  no_step parent path name (x ∷ rest) e = rw (e, resolve_from) refl

  no_segments : (parent path : Text) → resolve_from before ds parent path [] ≡ none
  unfolding resolve_from
  no_segments parent path = refl

  resolve_from-IsResolved :
      (segments : List Text) (parent path : Text) (found : ResolvedPath)
      → AreDirectories ds parent
      → resolve_from before ds parent path segments ≡ some found
      → IsResolved ds found
  resolve_from-IsResolved [] parent path found above e = cc (no_segments parent path)
  resolve_from-IsResolved (name ∷ []) parent path found above e =
      elim (Option-cases (child_by_name before ds parent name)) [
        | inl n ↦ cc (no_step parent path name [] n)
        | inr c ↦
            let placed = child_by_name-IsPlaced parent name c.0 above c.1 in
            elim (Bool-cases (is_directory_record c.0)) [
              | inl d ↦
                  subst (IsResolved ds)
                    (some_injective (
                      sym (ap some (if-true _ _ _ d))
                      ∙ sym (last_step parent path name c.0 c.1)
                      ∙ e))
                    (placed, d)
              | inr d ↦
                  subst (IsResolved ds)
                    (some_injective (
                      sym (ap some (if-false _ _ _ d))
                      ∙ sym (last_step parent path name c.0 c.1)
                      ∙ e))
                    (placed, d)
            ]
      ]
  resolve_from-IsResolved (name ∷ next ∷ rest) parent path found above e =
      elim (Option-cases (child_by_name before ds parent name)) [
        | inl n ↦ cc (no_step parent path name (next ∷ rest) n)
        | inr c ↦
            let placed = child_by_name-IsPlaced parent name c.0 above c.1 in
            let onward = sym (step parent path name next rest c.0 c.1) ∙ e in
            elim (Bool-cases (is_directory_record c.0)) [
              | inl d ↦
                  resolve_from-IsResolved (next ∷ rest) c.0.node_id
                    (join_fs_path (path ∷ name ∷ [])) found (directories_below ds c.0 placed d)
                    (sym (if-true _ _ _ d) ∙ onward)
              | inr d ↦ none_or_some refl (sym (if-false _ _ _ d) ∙ onward)
            ]
      ]

  -- What a path resolves to is stored and not deleted, and directories lead to it.
  pub resolve_path-IsResolved :
      (path : Text) (found : ResolvedPath)
      → resolve_path before ds path ≡ some found
      → IsResolved ds found
  unfolding resolve_path
  resolve_path-IsResolved path found e =
      elim (Bool-cases (same_text (normalize_fs_path path) (slash ∷ []))) [
        | inl s ↦ subst (IsResolved ds) (some_injective (sym (if-true _ _ _ s) ∙ e)) tt
        | inr s ↦
            resolve_from-IsResolved (path_segments (normalize_fs_path path)) root_node_id
              (slash ∷ []) found (root_directories ds root_node_id (same_text_refl root_node_id))
              (sym (if-false _ _ _ s) ∙ e)
      ]

  -- A parent that a path resolves to is the root, or a directory that is there.
  pub resolve_parent-AreDirectories :
      (path parent : Text) → resolve_parent before ds path ≡ ok parent → AreDirectories ds parent
  unfolding resolve_parent
  resolve_parent-AreDirectories path parent e = go (resolve_path before ds (dirname path)) refl e
    where
      go :
          (o : Option ResolvedPath)
          → resolve_path before ds (dirname path) ≡ o
          → parent_of o ≡ ok parent
          → AreDirectories ds parent
      go none f g = fail_or_ok g
      go (some at_root) f g =
          subst (AreDirectories ds) (ok_injective g)
            (root_directories ds root_node_id (same_text_refl root_node_id))
      go (some (at_directory r p)) f g =
          let placed = resolve_path-IsResolved (dirname path) (at_directory r p) f in
          subst (AreDirectories ds) (ok_injective g) (directories_below ds r placed.0 placed.1)
      go (some (at_file r p)) f g = fail_or_ok g
