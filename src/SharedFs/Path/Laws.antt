-- ===== src/SharedFs/Path/Laws.antt =====
-- Lemmas on normalised paths and their parts.
use mathlib.Core.List.{reverse, reverse-cons, append-nil, append_assoc}
use peerbit_examples.Prelude.{
  ◌≡◌, refl, sym, ap, ◌∙◌, ◌⊎◌, true, false, not, ◌&&◌, List, [], ◌∷◌, ◌++◌, map, arith,
  if◌then◌else◌, Bool-cases, inl, inr, All, All-append,
}
use peerbit_examples.SharedFs.Path.Split.{
  Text, slash, split, join, same_text, HasNo, split-HasNo, split-HasNo_of, split-join,
}
use peerbit_examples.SharedFs.Path.{
  backslash, dot_text, dot_dot_text, is_nil, or_root, to_slash, real_parts, pop, resolve,
  normalized_segments, normalize_fs_path, nonempty_parts, path_segments, dirname, basename,
  drop_last, last_or_empty, join_fs_path,
}

-- A part without slashes of either kind.
abbrev IsPart : Text → Type 0
IsPart p = HasNo slash p × HasNo backslash p

-- A segment of a normalised path: not empty, ".", or "..", and without slashes of either kind.
pub record IsSegment (p : Text) : Type 0 where
  pub no_slash : HasNo slash p
  pub no_backslash : HasNo backslash p
  pub not_nil : is_nil p ≡ false
  pub not_dot : same_text p dot_text ≡ false
  pub not_dot_dot : same_text p dot_dot_text ≡ false

record IsReal (p : Text) : Type 0 where
  part : IsPart p
  not_nil : is_nil p ≡ false
  not_dot : same_text p dot_text ≡ false

map-to_slash-HasNo : (cs : Text) → HasNo backslash (map to_slash cs)
unfolding to_slash
map-to_slash-HasNo [] = tt
map-to_slash-HasNo (c ∷ cs) = (ground arith, map-to_slash-HasNo cs)

All-both {ℓ} :
    {A : Type ℓ} (P Q : A → Type 0) (xs : List A) → All P xs → All Q xs → All (λ x. P x × Q x) xs
All-both P Q [] h g = tt
All-both P Q (x ∷ xs) h g = ((h.0, g.0), All-both P Q xs h.1 g.1)

real_parts-IsReal : (ps : List Text) → All IsPart ps → All IsReal (real_parts ps)
unfolding real_parts
real_parts-IsReal [] h = tt
real_parts-IsReal (p ∷ ps) h = elim (Bool-cases (not (is_nil p) && not (same_text p dot_text))) [
  | inl e ↦ rw e (
    record { part = h.0; not_nil = ground arith; not_dot = ground arith },
    real_parts-IsReal ps h.1,
  )
  | inr e ↦ rw e (real_parts-IsReal ps h.1)
]

All-reverse {ℓ} : {A : Type ℓ} (P : A → Type 0) (xs : List A) → All P xs → All P (reverse xs)
All-reverse P [] h = tt
All-reverse P (x ∷ xs) h =
    rw (reverse-cons x xs) (All-append P (reverse xs) (x ∷ []) (All-reverse P xs h.1) (h.0, tt))

pop-IsSegment : (stack : List Text) → All IsSegment stack → All IsSegment (pop stack)
unfolding pop
pop-IsSegment [] h = tt
pop-IsSegment (p ∷ ps) h = h.1

resolve-IsSegment :
    (ps stack : List Text) → All IsReal ps → All IsSegment stack → All IsSegment (resolve stack ps)
unfolding resolve
resolve-IsSegment [] stack h g = All-reverse IsSegment stack g
resolve-IsSegment (p ∷ ps) stack h g =
    resolve-IsSegment ps _ h.1 (pushed (Bool-cases (same_text p dot_dot_text)))
  where
    pushed :
        ((same_text p dot_dot_text ≡ true) ⊎ (same_text p dot_dot_text ≡ false))
        → All IsSegment (if same_text p dot_dot_text then pop stack else p ∷ stack)
    pushed (inl e) = rw e (pop-IsSegment stack g)
    pushed (inr e) = rw e (
      record {
        no_slash = h.0.part.0;
        no_backslash = h.0.part.1;
        not_nil = h.0.not_nil;
        not_dot = h.0.not_dot;
        not_dot_dot = e;
      },
      g,
    )

-- A normalised path is "/" and segments with "/" between them, none of which is empty, "." or ".." or
-- holds a slash of either kind: it does not lead out of the root.
pub normalized_segments-IsSegment : (input : Text) → All IsSegment (normalized_segments input)
unfolding normalized_segments
normalized_segments-IsSegment input =
    let raw = map to_slash (or_root input) in
    resolve-IsSegment (real_parts (split raw)) []
      (real_parts-IsReal (split raw) (
        All-both (HasNo slash) (HasNo backslash) (split raw) (split-HasNo raw)
          (split-HasNo_of backslash raw (map-to_slash-HasNo (or_root input)))))
      tt

-- On segments nothing is dropped and nothing popped.
real_parts-segments : (ps : List Text) → All IsSegment ps → real_parts ps ≡ ps
unfolding real_parts
real_parts-segments [] h = refl
real_parts-segments (p ∷ ps) h = rw (h.0.not_nil, h.0.not_dot, real_parts-segments ps h.1)

resolve-segments :
    (ps stack : List Text) → All IsSegment ps → resolve stack ps ≡ reverse stack ++ ps
unfolding resolve
resolve-segments [] stack h = sym (append-nil (reverse stack))
resolve-segments (p ∷ ps) stack h = rw (h.0.not_dot_dot) (
    resolve-segments ps (p ∷ stack) h.1
    ∙ ap (λ (xs : List Text). xs ++ ps) (reverse-cons p stack)
    ∙ append_assoc (reverse stack) (p ∷ []) ps)

map-to_slash-fixed : (cs : Text) → HasNo backslash cs → map to_slash cs ≡ cs
unfolding to_slash
map-to_slash-fixed [] h = refl
map-to_slash-fixed (c ∷ cs) h = rw (h.0, map-to_slash-fixed cs h.1)

HasNo-join : (ps : List Text) → All IsSegment ps → HasNo backslash (join ps)
unfolding join
HasNo-join [] h = tt
HasNo-join (p ∷ []) h = h.0.no_backslash
HasNo-join (p ∷ q ∷ ps) h =
    All-append _ p (slash ∷ join (q ∷ ps)) h.0.no_backslash (refl, HasNo-join (q ∷ ps) h.1)

segments-no_slash : (ps : List Text) → All IsSegment ps → All (HasNo slash) ps
segments-no_slash [] h = tt
segments-no_slash (p ∷ ps) h = (h.0.no_slash, segments-no_slash ps h.1)

split-slash-join : (ps : List Text) → All IsSegment ps → real_parts (split (slash ∷ join ps)) ≡ ps
unfolding split real_parts join
split-slash-join [] h = refl
split-slash-join (p ∷ ps) h =
    ap real_parts (split-join p ps (segments-no_slash (p ∷ ps) h)) ∙ real_parts-segments (p ∷ ps) h

-- Segments joined to a path are the segments of that path.
normalized_segments-join :
    (ps : List Text) → All IsSegment ps → normalized_segments (slash ∷ join ps) ≡ ps
unfolding normalized_segments to_slash
normalized_segments-join ps h =
    ap (λ (cs : Text). resolve [] (real_parts (split (slash ∷ cs))))
      (map-to_slash-fixed (join ps) (HasNo-join ps h))
    ∙ ap (resolve []) (split-slash-join ps h)
    ∙ resolve-segments ps [] h

-- Normalising a normalised path changes nothing.
pub normalize_fs_path_idempotent :
    (input : Text) → normalize_fs_path (normalize_fs_path input) ≡ normalize_fs_path input
unfolding normalize_fs_path
normalize_fs_path_idempotent input =
    ap (λ (ps : List Text). slash ∷ join ps)
      (normalized_segments-join (normalized_segments input) (normalized_segments-IsSegment input))

nonempty_parts-segments : (ps : List Text) → All IsSegment ps → nonempty_parts ps ≡ ps
unfolding nonempty_parts
nonempty_parts-segments [] h = refl
nonempty_parts-segments (p ∷ ps) h = rw (h.0.not_nil, nonempty_parts-segments ps h.1)

join-ne-nil : (p : Text) (ps : List Text) → is_nil p ≡ false → same_text (join (p ∷ ps)) [] ≡ false
unfolding join same_text is_nil
join-ne-nil [] ps e = cc
join-ne-nil (c ∷ p) [] e = refl
join-ne-nil (c ∷ p) (q ∷ ps) e = refl

-- `pathSegments` gives the segments of which the normalised path is made.
pub path_segments-normalized_segments :
    (input : Text) → path_segments input ≡ normalized_segments input
unfolding path_segments normalize_fs_path
path_segments-normalized_segments input =
    parts (normalized_segments input) (normalized_segments-IsSegment input)
  where
    parts :
        (ps : List Text)
        → All IsSegment ps
        → (if same_text (slash ∷ join ps) (slash ∷ [])
            then []
            else nonempty_parts (split (join ps)))
          ≡ ps
    parts [] h = unfold join same_text in refl
    parts (p ∷ ps) h =
        let e : same_text (slash ∷ join (p ∷ ps)) (slash ∷ []) ≡ false =
          unfold same_text in join-ne-nil p ps h.0.not_nil in
        rw e (
          ap nonempty_parts (split-join p ps (segments-no_slash (p ∷ ps) h))
          ∙ nonempty_parts-segments (p ∷ ps) h)

drop_last-append :
    (p : Text) (ps : List Text) → drop_last (p ∷ ps) ++ last_or_empty (p ∷ ps) ∷ [] ≡ p ∷ ps
unfolding drop_last last_or_empty
drop_last-append p [] = refl
drop_last-append p (q ∷ ps) = ap (◌∷◌ p) (drop_last-append q ps)

join-append :
    (p : Text) (ps : List Text) (q : Text) → join ((p ∷ ps) ++ q ∷ []) ≡ join (p ∷ ps) ++ slash ∷ q
unfolding join
join-append p [] q = refl
join-append p (x ∷ ps) q =
    ap (λ (cs : Text). p ++ slash ∷ cs) (join-append x ps q)
    ∙ sym (append_assoc p (slash ∷ join (x ∷ ps)) (slash ∷ q))

rejoined :
    (ps : List Text)
    → All IsSegment ps
    → normalized_segments (join ((slash ∷ join (drop_last ps)) ∷ last_or_empty ps ∷ [])) ≡ ps
unfolding normalized_segments join drop_last last_or_empty resolve real_parts split to_slash
    same_text
rejoined [] h = refl
rejoined (p ∷ []) h = normalized_segments-join (p ∷ []) h
rejoined (p ∷ q ∷ ps) h =
    ap normalized_segments (
      ap (◌∷◌ slash) (
        sym (join-append p (drop_last (q ∷ ps)) (last_or_empty (q ∷ ps)))
        ∙ ap join (drop_last-append p (q ∷ ps))))
    ∙ normalized_segments-join (p ∷ q ∷ ps) h

-- The directory and the base name of a path, joined, are the normalised path.
pub join_fs_path-dirname-basename :
    (input : Text) → join_fs_path (dirname input ∷ basename input ∷ []) ≡ normalize_fs_path input
unfolding join_fs_path normalize_fs_path dirname basename
join_fs_path-dirname-basename input = rw (path_segments-normalized_segments input) (
    ap (λ (ps : List Text). slash ∷ join ps)
      (rejoined (normalized_segments input) (normalized_segments-IsSegment input)))
