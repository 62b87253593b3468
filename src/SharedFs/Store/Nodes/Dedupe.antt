-- ===== src/SharedFs/Store/Nodes/Dedupe.antt =====
-- Lemmas on `dedupeByName`, as a map from names to nodes.
use peerbit_examples.Prelude.{
  ◌≡◌, refl, sym, ap, ◌∙◌, inl, inr, Bool, true, false, not, ◌&&◌, List, [], ◌∷◌, Option, none,
  some, if◌then◌else◌, if-true, if-false, Bool-cases,
}
use peerbit_examples.SharedFs.Path.Split.{Text, same_text, same_text_iff}
use peerbit_examples.SharedFs.Store.Documents.{
  NodeRecord, Document, node, head, chunk, pick, nodes_where,
}
use peerbit_examples.SharedFs.Store.Nodes.{
  is_live_child, is_child_named, oldest_first, keep_oldest, dedupe_from,
}

-- The first record of a name.
unfoldable pub find_named : List NodeRecord → Text → Option NodeRecord
find_named [] name = none
find_named (r ∷ rs) name = if same_text r.name name then some r else find_named rs name

-- The records of a name.
unfoldable pub named : List NodeRecord → Text → List NodeRecord
named [] name = []
named (r ∷ rs) name = let rest = named rs name in if same_text r.name name then r ∷ rest else rest

-- No two records have one name.
unfoldable pub IsDistinct : List NodeRecord → Type 0
IsDistinct [] = Unit
IsDistinct (r ∷ rs) = (find_named rs r.name ≡ none) × IsDistinct rs

nodes_where-node :
    (test : NodeRecord → Bool) (r : NodeRecord) (ds : List Document)
    → nodes_where test (node r ∷ ds)
      ≡ (if test r then r ∷ nodes_where test ds else nodes_where test ds)
unfolding pick
nodes_where-node test r ds = go (test r) (nodes_where test ds)
  where
    go :
        (b : Bool) (rest : List NodeRecord)
        → (elim (if b then some r else none) as (λ x. List NodeRecord) [
          | none ↦ rest
          | some a ↦ a ∷ rest
        ])
          ≡ (if b then r ∷ rest else rest)
    go true rest = refl
    go false rest = refl

pub named-nodes_where :
    (ds : List Document) (parent name : Text)
    → named (nodes_where (is_live_child parent) ds) name
      ≡ nodes_where (is_child_named parent name) ds
unfolding named pick
named-nodes_where [] parent name = refl
named-nodes_where (head h ∷ ds) parent name = named-nodes_where ds parent name
named-nodes_where (chunk c ∷ ds) parent name = named-nodes_where ds parent name
named-nodes_where (node r ∷ ds) parent name =
    ap (λ x. named x name) (nodes_where-node (is_live_child parent) r ds)
    ∙ both (same_text r.parent_id parent) (same_text r.name name) (not r.deleted)
        (nodes_where (is_live_child parent) ds) (nodes_where (is_child_named parent name) ds) refl
        (named-nodes_where ds parent name)
    ∙ sym (nodes_where-node (is_child_named parent name) r ds)
  where
    both :
        (a b c : Bool) (xs ys : List NodeRecord)
        → same_text r.name name ≡ b
        → named xs name ≡ ys
        → named (if a && c then r ∷ xs else xs) name ≡ (if a && b && c then r ∷ ys else ys)
    both true true true xs ys e h = if-true _ _ _ e ∙ ap (λ l. r ∷ l) h
    both true false true xs ys e h = if-false _ _ _ e ∙ h
    both true true false xs ys e h = h
    both true false false xs ys e h = h
    both false b c xs ys e h = h

same_text_flip : (x y : Text) → same_text x y ≡ false → same_text y x ≡ false
same_text_flip x y e = elim (Bool-cases (same_text y x)) [
  | inl s ↦ cc ((same_text_iff x y).1 (sym ((same_text_iff y x).0 s)))
  | inr s ↦ s
]

module _ (before : Text → Text → Bool) where
  abbrev pub older : NodeRecord → NodeRecord → NodeRecord
  older x r = if oldest_first before r x then r else x

  unfoldable pub best : Option NodeRecord → List NodeRecord → Option NodeRecord
  best o [] = o
  best none (r ∷ rs) = best (some r) rs
  best (some x) (r ∷ rs) = best (some (older x r)) rs

  abbrev pub or_older : Option NodeRecord → NodeRecord → NodeRecord
  or_older none r = r
  or_older (some x) r = older x r

  older_name : (x r : NodeRecord) → same_text x.name r.name ≡ true → (older x r).name ≡ r.name
  older_name x r e = elim (Bool-cases (oldest_first before r x)) [
    | inl b ↦ rw b refl
    | inr b ↦ rw b ((same_text_iff x.name r.name).0 e)
  ]

  other_name : (a b n : Text) → same_text a b ≡ false → same_text a n ≡ true → same_text b n ≡ false
  other_name a b n e f = elim (Bool-cases (same_text b n)) [
    | inl g ↦ cc ((same_text_iff a b).1 ((same_text_iff a n).0 f ∙ sym ((same_text_iff b n).0 g)))
    | inr g ↦ g
  ]

  find_named-keep_oldest :
      (acc : List NodeRecord) (r : NodeRecord) (name : Text)
      → find_named (keep_oldest before acc r) name ≡ (
          if same_text r.name name
          then some (or_older (find_named acc r.name) r)
          else find_named acc name)
  unfolding find_named keep_oldest
  find_named-keep_oldest [] r name = refl
  find_named-keep_oldest (x ∷ xs) r name =
      let ih = find_named-keep_oldest xs r name in
      elim (Bool-cases (same_text x.name r.name)) [
        | inl e ↦ rw e (replaced x r xs name e)
        | inr e ↦ rw e (kept x r xs name e ih)
      ]
    where
      replaced :
          (x r : NodeRecord) (xs : List NodeRecord) (name : Text)
          → same_text x.name r.name ≡ true
          → find_named (older x r ∷ xs) name
            ≡ (if same_text r.name name then some (older x r) else find_named (x ∷ xs) name)
      replaced x r xs name e =
          ap (λ n. if same_text n name then some (older x r) else find_named xs name)
            (older_name x r e)
          ∙ elim (Bool-cases (same_text r.name name)) [
            | inl f ↦ rw f refl
            | inr f ↦
                rw (f, ap (λ n. same_text n name) ((same_text_iff x.name r.name).0 e) ∙ f) refl
          ]

      kept :
          (x r : NodeRecord) (xs : List NodeRecord) (name : Text)
          → same_text x.name r.name ≡ false
          → find_named (keep_oldest before xs r) name ≡ (
              if same_text r.name name
              then some (or_older (find_named xs r.name) r)
              else find_named xs name)
          → find_named (x ∷ keep_oldest before xs r) name ≡ (
              if same_text r.name name
              then some (or_older (find_named xs r.name) r)
              else find_named (x ∷ xs) name)
      kept x r xs name e h = elim (Bool-cases (same_text x.name name)) [
        | inl f ↦ rw (f, other_name x.name r.name name e f) refl
        | inr f ↦ rw f h
      ]

  best_step :
      (o : Option NodeRecord) (r : NodeRecord) (rs : List NodeRecord)
      → best o (r ∷ rs) ≡ best (some (or_older o r)) rs
  unfolding best
  best_step none r rs = refl
  best_step (some x) r rs = refl

  pub find_named-dedupe_from :
      (acc rs : List NodeRecord) (name : Text)
      → find_named (dedupe_from before acc rs) name ≡ best (find_named acc name) (named rs name)
  unfolding dedupe_from best named
  find_named-dedupe_from acc [] name = refl
  find_named-dedupe_from acc (r ∷ rs) name =
      find_named-dedupe_from (keep_oldest before acc r) rs name
      ∙ elim (Bool-cases (same_text r.name name)) [
        | inl e ↦
            ap (λ o. best o (named rs name))
              (find_named-keep_oldest acc r name
                ∙ if-true _ _ _ e
                ∙ ap (λ n. some (or_older (find_named acc n) r)) ((same_text_iff r.name name).0 e))
            ∙ sym (best_step (find_named acc name) r (named rs name))
            ∙ ap (best (find_named acc name)) (sym (if-true _ _ _ e))
        | inr e ↦
            ap (λ o. best o (named rs name)) (find_named-keep_oldest acc r name ∙ if-false _ _ _ e)
            ∙ ap (best (find_named acc name)) (sym (if-false _ _ _ e))
      ]

  keep_oldest-IsDistinct :
      (acc : List NodeRecord) (r : NodeRecord)
      → IsDistinct acc
      → IsDistinct (keep_oldest before acc r)
  unfolding IsDistinct keep_oldest find_named
  keep_oldest-IsDistinct [] r h = (refl, tt)
  keep_oldest-IsDistinct (x ∷ xs) r h = elim (Bool-cases (same_text x.name r.name)) [
    | inl e ↦
        rw e (
          ap (find_named xs) (older_name x r e ∙ sym ((same_text_iff x.name r.name).0 e)) ∙ h.0,
          h.1,
        )
    | inr e ↦ rw e (
      find_named-keep_oldest xs r x.name ∙ if-false _ _ _ (same_text_flip x.name r.name e) ∙ h.0,
      keep_oldest-IsDistinct xs r h.1,
    )
  ]

  pub dedupe_from-IsDistinct :
      (acc rs : List NodeRecord) → IsDistinct acc → IsDistinct (dedupe_from before acc rs)
  unfolding dedupe_from
  dedupe_from-IsDistinct acc [] h = h
  dedupe_from-IsDistinct acc (r ∷ rs) h =
      dedupe_from-IsDistinct (keep_oldest before acc r) rs (keep_oldest-IsDistinct acc r h)
