-- ===== src/SharedFs/Store/Nodes/Same.antt =====
-- `resolvePath` on two peers that hold the same documents.
use peerbit_examples.Prelude.{
  ◌≡◌, refl, sym, ap, ◌∙◌, ◌↔◌, Bool, false, List, [], ◌∷◌, Option, none, some, if◌then◌else◌, ◌==◌,
  ltb,
}
use peerbit_examples.SharedFs.Path.Split.{Text, slash, same_text}
use peerbit_examples.SharedFs.Path.{normalize_fs_path, path_segments, join_fs_path}
use peerbit_examples.SharedFs.Store.Documents.{
  NodeRecord, Document, node, get_document, IsUnique, nodes_where,
}
use peerbit_examples.SharedFs.Store.Order.{
  In, IsStrict, IsComparison, earlier, earlier-asym, earlier_no_later, earlier_ties,
  first-sort_same,
}
use peerbit_examples.SharedFs.Store.Query.{In-nodes_where}
use peerbit_examples.SharedFs.Store.Nodes.{
  ResolvedPath, at_root, root_node_id, is_child_named, is_directory_record, oldest_first,
  child_by_name, resolve_from, resolve_path,
}

-- The same documents stand under the same ids.
abbrev pub SameDocuments : List Document → List Document → Type 0
SameDocuments ds es = (id : Text) → get_document ds id ≡ get_document es id

node_injective : {a b : NodeRecord} → some (node a) ≡ some (node b) → a ≡ b
node_injective e = cc

-- The document of the id is a node.
abbrev pub IsNode : List Document → Text → Type 0
IsNode ds id = (r : NodeRecord) × (get_document ds id ≡ some (node r))

-- No two ids of nodes tie.
abbrev pub IsApart : (Text → Text → Bool) → List Document → Type 0
IsApart before ds =
    (a b : Text) → IsNode ds a → IsNode ds b → before a b ≡ false → before b a ≡ false → a ≡ b

-- Two comparisons agree on the ids of nodes.
abbrev pub IsShared : (Text → Text → Bool) → (Text → Text → Bool) → List Document → Type 0
IsShared before theirs ds = (a b : Text) → IsNode ds a → IsNode ds b → before a b ≡ theirs a b

pub oldest_first-IsStrict :
    (before : Text → Text → Bool) → IsComparison before → IsStrict (oldest_first before)
unfolding oldest_first
oldest_first-IsStrict before c = record {
  asym = λ a b. earlier-asym before c a.created_at b.created_at a.node_id b.node_id;
  no_later = λ a b d.
      earlier_no_later before c a.created_at b.created_at d.created_at a.node_id b.node_id
        d.node_id;
}

-- Nodes of an index that tie are one node.
pub oldest_first_ties :
    (before : Text → Text → Bool) (ds : List Document)
    → IsApart before ds
    → (a b : NodeRecord) → get_document ds a.node_id ≡ some (node a)
    → get_document ds b.node_id ≡ some (node b)
    → oldest_first before a b ≡ false
    → oldest_first before b a ≡ false
    → a ≡ b
unfolding oldest_first
oldest_first_ties before ds apart a b h g e f =
    let (x, y) = earlier_ties before a.created_at b.created_at a.node_id b.node_id e f in
    node_injective (sym h ∙ ap (get_document ds) (apart a.node_id b.node_id (a, h) (b, g) x y) ∙ g)

module _ (before theirs : Text → Text → Bool) (ds es : List Document) where
  oldest_first_agrees :
      IsShared before theirs ds
      → (a b : NodeRecord) → get_document ds a.node_id ≡ some (node a)
      → get_document ds b.node_id ≡ some (node b)
      → oldest_first before a b ≡ oldest_first theirs a b
  unfolding oldest_first earlier
  oldest_first_agrees shared a b h g =
      ap (λ (x : Bool). if a.created_at == b.created_at then x else ltb a.created_at b.created_at)
        (shared a.node_id b.node_id (a, h) (b, g))

  module _ (c : IsComparison before) (d : IsComparison theirs) (u : IsUnique ds) (v : IsUnique es)
      (same : SameDocuments ds es) (shared : IsShared before theirs ds)
      (apart : IsApart before ds) where
    nodes_where_same :
        (test : NodeRecord → Bool) (r : NodeRecord)
        → In r (nodes_where test ds) ↔ In r (nodes_where test es)
    nodes_where_same test r = (
      λ h.
          let (p, t) = (In-nodes_where test r ds u).0 h in
          (In-nodes_where test r es v).1 (sym (same r.node_id) ∙ p, t),
      λ h.
          let (p, t) = (In-nodes_where test r es v).0 h in
          (In-nodes_where test r ds u).1 (same r.node_id ∙ p, t),
    )

    pub child_by_name_converges :
        (parent_id name : Text)
        → child_by_name before ds parent_id name ≡ child_by_name theirs es parent_id name
    unfolding child_by_name
    child_by_name_converges parent_id name =
        let test = is_child_named parent_id name in
        let found = λ (r : NodeRecord) (i : In r (nodes_where test ds)).
          ((In-nodes_where test r ds u).0 i).0 in
        first-sort_same (oldest_first before) (oldest_first theirs) (oldest_first-IsStrict before c)
          (oldest_first-IsStrict theirs d) (nodes_where test ds) (nodes_where test es)
          (nodes_where_same test)
          (λ a b i j. oldest_first_agrees shared a b (found a i) (found b j))
          (λ a b i j. oldest_first_ties before ds apart a b (found a i) (found b j))

    each_child :
        {R : Type 0} (o p : Option NodeRecord) (f g : NodeRecord → Option R)
        → o ≡ p
        → ((r : NodeRecord) → f r ≡ g r)
        → (elim o [ none ↦ none | some r ↦ f r ]) ≡ (elim p [ none ↦ none | some r ↦ g r ])
    each_child {R} o p f g e h =
        ap (λ (x : Option NodeRecord). elim x as (λ x. Option R) [ none ↦ none | some r ↦ f r ]) e
        ∙ on p
      where
        on :
            (x : Option NodeRecord)
            → (elim x as (λ x. Option R) [ none ↦ none | some r ↦ f r ])
              ≡ (elim x as (λ x. Option R) [ none ↦ none | some r ↦ g r ])
        on none = refl
        on (some r) = h r

    resolve_from_converges :
        (parent_id path : Text) (segments : List Text)
        → resolve_from before ds parent_id path segments
          ≡ resolve_from theirs es parent_id path segments
    unfolding resolve_from
    resolve_from_converges parent_id path [] = refl
    resolve_from_converges parent_id path (name ∷ []) =
        each_child _ _ _ _ (child_by_name_converges parent_id name) (λ r. refl)
    resolve_from_converges parent_id path (name ∷ next ∷ rest) =
        each_child _ _ _ _ (child_by_name_converges parent_id name) (λ r.
          ap (λ (o : Option ResolvedPath). if is_directory_record r then o else none)
            (resolve_from_converges r.node_id (join_fs_path (path ∷ name ∷ [])) (next ∷ rest)))

    -- Two peers with the same documents, one to an id, resolve every path to the same node, in whatever
    -- order their indices hold the documents.  Each sorts by a comparison of its own; the two agree on
    -- the ids of the nodes, and no two of these ids tie.
    pub resolve_path_converges :
        (path : Text) → resolve_path before ds path ≡ resolve_path theirs es path
    unfolding resolve_path
    resolve_path_converges path =
        let normalized = normalize_fs_path path in
        ap
          (λ (o : Option ResolvedPath).
            if same_text normalized (slash ∷ []) then some at_root else o)
          (resolve_from_converges root_node_id (slash ∷ []) (path_segments normalized))
