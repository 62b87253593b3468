-- ===== src/SharedFs/Store/Reads/Answers.antt =====
-- Lemmas on `readFile` of a path.
use peerbit_examples.Prelude.{ℕ, ◌≡◌, refl, ap, Bool, List, Option, none, some}
use peerbit_examples.SharedFs.Path.Split.{Text}
use peerbit_examples.SharedFs.Path.{normalize_fs_path}
use peerbit_examples.SharedFs.Mount.Buffer.{Outcome, ok, fail}
use peerbit_examples.SharedFs.Store.Documents.{NodeRecord, FileHead, VersionBody, Document}
use peerbit_examples.SharedFs.Store.Query.{some_injective}
use peerbit_examples.SharedFs.Store.Nodes.{
  ResolvedPath, at_root, at_directory, at_file, resolve_path,
}
use peerbit_examples.SharedFs.Store.Nodes.Acyclic.{none_or_some}
use peerbit_examples.SharedFs.Store.Nodes.Resolved.{fail_or_ok, ok_injective}
use peerbit_examples.SharedFs.Store.Heads.{visible_file_head}
use peerbit_examples.SharedFs.Store.Reads.{answered, read_body, read_head, read_resolved, read_file}
use peerbit_examples.SharedFs.Store.Reads.Parents.{ComesFrom}
use peerbit_examples.SharedFs.Store.Reads.Candidates.{
  read_file_version_hash, read_visible_total, read_visible-IsOrigin,
}

module _ (sha256 : List ℕ → Text) (documents : List Document)
    (remote : Option (Text → Option Document)) where
  answered_total :
      (x : Option (Outcome (List ℕ)))
      → ((o : Outcome (List ℕ)) × (x ≡ some o))
      → (o : Outcome (Option (List ℕ))) × (answered x ≡ some o)
  answered_total none h = none_or_some refl h.1
  answered_total (some (ok bytes)) h = (ok (some bytes), refl)
  answered_total (some (fail f)) h = (fail f, refl)

  answered_ok :
      (x : Option (Outcome (List ℕ))) (bytes : List ℕ)
      → answered x ≡ some (ok (some bytes))
      → x ≡ some (ok bytes)
  answered_ok none bytes e = none_or_some refl e
  answered_ok (some (ok b)) bytes e =
      ap (λ x. some (ok x)) (some_injective (ok_injective (some_injective e)))
  answered_ok (some (fail f)) bytes e = fail_or_ok (some_injective e)

  -- What is said of what a read gives, where it gives bytes.
  module _ (before : Text → Text → Bool) where
    pub IsContentOf : Text → List ℕ → Type 0
    IsContentOf path bytes =
        (r : NodeRecord) × (p : Text) × (h : FileHead) × (v : FileHead) × (b : VersionBody)
        × (resolve_path before documents (normalize_fs_path path) ≡ some (at_file r p))
        × (visible_file_head before documents r.node_id ≡ some h)
        × ComesFrom documents h v
        × (v.body ≡ some b)
        × (sha256 bytes ≡ b.content_hash)

    Answers : Text → Option (Outcome (Option (List ℕ))) → Type 0
    Answers path answer =
        ((o : Outcome (Option (List ℕ))) × (answer ≡ some o))
        × ((bytes : List ℕ) → answer ≡ some (ok (some bytes)) → IsContentOf path bytes)

    nothing : (path : Text) → Answers path (some (ok none))
    unfolding Answers
    nothing path = ((ok none, refl), λ bytes e. none_or_some refl (ok_injective (some_injective e)))

    -- A read always ends; and the bytes that it gives have the hash of a version, which is the visible one
    -- of the file at the path or one that it comes from by the ids that versions name as their parents,
    -- of whatever file that is, and whatever remote peers answer.
    pub read_file-IsContentOf :
        (path : Text)
        → ((o : Outcome (Option (List ℕ))) × (read_file sha256 documents remote before path
              ≡ some o))
          × ((bytes : List ℕ)
              → read_file sha256 documents remote before path ≡ some (ok (some bytes))
              → IsContentOf path bytes)
    unfolding read_file Answers IsContentOf
    read_file-IsContentOf path =
        of_resolved (resolve_path before documents (normalize_fs_path path)) refl
      where
        of_body :
            (r : NodeRecord) (p : Text) (h : FileHead)
            → resolve_path before documents (normalize_fs_path path) ≡ some (at_file r p)
            → visible_file_head before documents r.node_id ≡ some h
            → (b : Option VersionBody) → h.body ≡ b
            → Answers path (read_body sha256 documents remote h b)
        of_body r p h e f none g = nothing path
        of_body r p h e f (some b) g = (
          answered_total _ (read_visible_total sha256 documents remote h b),
          λ bytes q.
              let (v, from, read) =
                read_visible-IsOrigin sha256 documents remote h b bytes g (answered_ok _ bytes q) in
              (
                r,
                p,
                h,
                v.0,
                v.1,
                e,
                f,
                from.0,
                from.1,
                read_file_version_hash sha256 documents remote v.1 bytes read,
              ),
        )

        of_head :
            (r : NodeRecord) (p : Text)
            → resolve_path before documents (normalize_fs_path path) ≡ some (at_file r p)
            → (o : Option FileHead) → visible_file_head before documents r.node_id ≡ o
            → Answers path (read_head sha256 documents remote o)
        of_head r p e none f = nothing path
        of_head r p e (some h) f = of_body r p h e f h.body refl

        of_resolved :
            (o : Option ResolvedPath)
            → resolve_path before documents (normalize_fs_path path) ≡ o
            → Answers path (read_resolved sha256 documents remote before o)
        of_resolved none e = nothing path
        of_resolved (some at_root) e = nothing path
        of_resolved (some (at_directory r p)) e = nothing path
        of_resolved (some (at_file r p)) e =
            of_head r p e (visible_file_head before documents r.node_id) refl
