-- ===== src/SharedFs/Store/Documents.antt =====
-- packages/shared-fs/library/src/model.ts: the documents, and the index that holds them.  The index
-- is a parameter: it holds documents, one to an id, in an order of its own, and a put replaces the
-- document of its id.
use peerbit_examples.Prelude.{
  ℕ, ◌≡◌, Bool, false, ◌||◌, List, [], ◌∷◌, Option, none, some, if◌then◌else◌,
}
use peerbit_examples.SharedFs.Path.Split.{Text, same_text}
use peerbit_examples.SharedFs.Mount.Target.{Kind}

-- A `DirectoryRecord` or a `FileRecord`; only the latter has a current version.
pub record NodeRecord : Type 0 where
  pub kind : Kind
  pub node_id : Text
  pub parent_id : Text
  pub name : Text
  pub current_version_id : Option Text
  pub created_at : ℕ
  pub updated_at : ℕ
  pub author_key : Text
  pub machine_label : Text
  pub deleted : Bool

-- What a `FileVersion` has and a `DeleteMarker` has not.
pub record VersionBody : Type 0 where
  pub content_hash : Text
  pub size : ℕ
  pub chunk_ids : List Text
  pub conflict_resolution : Bool

pub record FileHead : Type 0 where
  pub id : Text
  pub node_id : Text
  pub parent_id : Text
  pub name : Text
  pub parent_version_ids : List Text
  pub created_at : ℕ
  pub author_key : Text
  pub machine_label : Text
  pub body : Option VersionBody

pub record FileChunk : Type 0 where
  pub id : Text
  pub hash : Text
  pub bytes : List ℕ

pub data Document : Type 0 where
  node : NodeRecord → Document
  head : FileHead → Document
  chunk : FileChunk → Document

abbrev pub document_id : Document → Text
document_id (node r) = r.node_id
document_id (head h) = h.id
document_id (chunk c) = c.id

unfoldable pub get_document : List Document → Text → Option Document
get_document [] id = none
get_document (d ∷ ds) id = if same_text (document_id d) id then some d else get_document ds id

-- The local index.
pub record Index (S : Type 0) : Type 0 where
  pub documents : S → List Document
  pub put : S → Document → S

-- No two documents have one id.
abbrev pub IsUnique : List Document → Type 0
IsUnique [] = Unit
IsUnique (d ∷ ds) = (get_document ds (document_id d) ≡ none) × IsUnique ds

-- What the file system relies on.
pub record IsIndex {S : Type 0} (index : Index S) : Type 0 where
  pub unique : (s : S) → IsUnique (index.documents s)
  pub get-put :
      (s : S) (d : Document) (id : Text)
      → get_document (index.documents (index.put s d)) id
        ≡ (if same_text (document_id d) id then some d else get_document (index.documents s) id)

-- What a writer signs an entry with.
pub record Metadata : Type 0 where
  pub author_key : Text
  pub machine_label : Text
  pub timestamp : ℕ

unfoldable pub contains_text : List Text → Text → Bool
contains_text [] t = false
contains_text (x ∷ xs) t = same_text x t || contains_text xs t

-- The documents that a query asks for, with what it makes of each.
unfoldable pub pick : {A : Type 0} → (Document → Option A) → List Document → List A
pick of [] = []
pick of (d ∷ ds) = elim (of d) [ none ↦ pick of ds | some a ↦ a ∷ pick of ds ]

abbrev pub node_if : (NodeRecord → Bool) → Document → Option NodeRecord
node_if test (node r) = if test r then some r else none
node_if test (head h) = none
node_if test (chunk c) = none

abbrev pub head_if : (FileHead → Bool) → Document → Option FileHead
head_if test (node r) = none
head_if test (head h) = if test h then some h else none
head_if test (chunk c) = none

abbrev pub nodes_where : (NodeRecord → Bool) → List Document → List NodeRecord
nodes_where test documents = pick (node_if test) documents

abbrev pub heads_where : (FileHead → Bool) → List Document → List FileHead
heads_where test documents = pick (head_if test) documents
