-- ===== src/SharedFs/Store/Sample.antt =====
-- A peer to try the calls on: its index is the list of what was put, its ids are longer than all before,
-- and its hash is the bytes themselves.
use peerbit_examples.Prelude.{
  ℕ, zero, suc, ◌+◌, ◌≤◌, ◌≡◌, refl, sym, ap, ◌∙◌, inl, inr, ◌⊎◌, Bool, true, false, List, [], ◌∷◌,
  ◌++◌, Option, none, some, arith, ltb, ◌==◌, length, length-append, if◌then◌else◌, if-true,
  if-false, Bool-cases,
}
use peerbit_examples.SharedFs.Path.Split.{Text, same_text, same_text_iff}
use peerbit_examples.SharedFs.Store.Documents.{
  Document, document_id, get_document, IsUnique, IsIndex,
}
use peerbit_examples.SharedFs.Store.Query.{same_text_refl}
use peerbit_examples.SharedFs.Store.Order.{IsCollation}
use peerbit_examples.SharedFs.Store.Peer.{Peer, create_id}
use peerbit_examples.SharedFs.Store.Cycles.{HasFreshIds}

-- The order of the bytes.
unfoldable pub lexicographic : Text → Text → Bool
lexicographic a [] = false
lexicographic [] (d ∷ ds) = true
lexicographic (c ∷ cs) (d ∷ ds) = let rest = lexicographic cs ds in if c == d then rest else ltb c d

lexicographic_asym : (a b : Text) → lexicographic a b ≡ true → lexicographic b a ≡ false
unfolding lexicographic
lexicographic_asym [] [] h = refl
lexicographic_asym (c ∷ cs) [] h = cc
lexicographic_asym [] (d ∷ ds) h = refl
lexicographic_asym (c ∷ cs) (d ∷ ds) h = ground (arith, lexicographic_asym cs ds)

lexicographic_trans :
    (a b c : Text) → lexicographic a b ≡ true → lexicographic b c ≡ true → lexicographic a c ≡ true
unfolding lexicographic
lexicographic_trans a [] c h g = cc
lexicographic_trans a (x ∷ b) [] h g = cc
lexicographic_trans [] (x ∷ b) (y ∷ c) h g = refl
lexicographic_trans (z ∷ a) (x ∷ b) (y ∷ c) h g = ground (arith, lexicographic_trans a b c)

lexicographic_total : (a b : Text) → lexicographic a b ≡ false → lexicographic b a ≡ false → a ≡ b
unfolding lexicographic
lexicographic_total [] [] h g = refl
lexicographic_total (c ∷ cs) [] h g = cc
lexicographic_total [] (d ∷ ds) h g = cc
lexicographic_total (c ∷ cs) (d ∷ ds) h g = ground (arith, lexicographic_total cs ds)

pub lexicographic-IsCollation : IsCollation lexicographic
lexicographic-IsCollation = record {
  asym = lexicographic_asym;
  trans = lexicographic_trans;
  total = lexicographic_total;
}

unfoldable pub without : Text → List Document → List Document
without id [] = []
without id (d ∷ ds) =
    let rest = without id ds in if same_text (document_id d) id then rest else d ∷ rest

unfoldable pub latest : List Document → List Document
latest [] = []
latest (d ∷ ds) = d ∷ without (document_id d) (latest ds)

get_document-without :
    (ds : List Document) (k id : Text)
    → get_document (without k ds) id ≡ (if same_text k id then none else get_document ds id)
unfolding without get_document
get_document-without [] k id = ground arith
get_document-without (d ∷ ds) k id =
    let ih = get_document-without ds k id in
    elim (Bool-cases (same_text (document_id d) k)) [
      | inl e ↦ rw e (
          ih ∙ elim (Bool-cases (same_text k id)) [
            | inl f ↦ rw f refl
            | inr f ↦
                rw (f, ap (λ x. same_text x id) ((same_text_iff (document_id d) k).0 e) ∙ f) refl
          ])
      | inr e ↦ rw e (elim (Bool-cases (same_text (document_id d) id)) [
        | inl f ↦ rw (f, apart e f) refl
        | inr f ↦ rw f ih
      ])
    ]
  where
    apart :
        same_text (document_id d) k ≡ false
        → same_text (document_id d) id ≡ true
        → same_text k id ≡ false
    apart e f = elim (Bool-cases (same_text k id)) [
      | inl g ↦ cc (
          (same_text_iff (document_id d) k).1
            ((same_text_iff (document_id d) id).0 f ∙ sym ((same_text_iff k id).0 g)))
      | inr g ↦ g
    ]

without-IsUnique : (ds : List Document) (k : Text) → IsUnique ds → IsUnique (without k ds)
unfolding without
without-IsUnique [] k h = tt
without-IsUnique (d ∷ ds) k h = elim (Bool-cases (same_text (document_id d) k)) [
  | inl e ↦ rw e (without-IsUnique ds k h.1)
  | inr e ↦ rw e (
    get_document-without ds k (document_id d) ∙ none_both (same_text k (document_id d)) h.0,
    without-IsUnique ds k h.1,
  )
]
  where
    none_both : (b : Bool) {o : Option Document} → o ≡ none → (if b then none else o) ≡ none
    none_both true e = refl
    none_both false e = e

latest-IsUnique : (ds : List Document) → IsUnique (latest ds)
unfolding latest
latest-IsUnique [] = tt
latest-IsUnique (d ∷ ds) = (
  get_document-without (latest ds) (document_id d) (document_id d)
      ∙ if-true _ _ _ (same_text_refl (document_id d)),
  without-IsUnique (latest ds) (document_id d) (latest-IsUnique ds),
)

unfoldable pub lengths : List Document → ℕ
lengths [] = 0
lengths (d ∷ ds) = suc (length (document_id d) + lengths ds)

unfoldable pub repeat : ℕ → Text
repeat zero = []
repeat (suc n) = b'x' ∷ repeat n

abbrev pub sample : Peer (List Document)
sample = record {
  index = record { documents = latest; put = λ ds d. d ∷ ds };
  before = lexicographic;
  sha256 = λ bytes. bytes;
  clock = lengths;
  random = λ ds. repeat (lengths ds);
  author_key = b'm' ∷ b'e' ∷ [];
  machine_label = b'p' ∷ b'c' ∷ [];
  is_full_replica = true;
  trust = none;
  remote = none;
}

pub sample-IsIndex : IsIndex sample.index
unfolding latest get_document
sample-IsIndex = record { unique = latest-IsUnique; get-put = λ s d id. put_lem s d id }
  where
    put_lem :
        (s : List Document) (d : Document) (id : Text)
        → get_document (latest (d ∷ s)) id
          ≡ (if same_text (document_id d) id then some d else get_document (latest s) id)
    put_lem s d id = elim (Bool-cases (same_text (document_id d) id)) [
      | inl e ↦ rw e refl
      | inr e ↦ rw e (get_document-without (latest s) (document_id d) id ∙ if-false _ _ _ e)
    ]

length-repeat : (n : ℕ) → length (repeat n) ≡ n
unfolding repeat
length-repeat zero = refl
length-repeat (suc n) = omega (arith, length-repeat n)

-- Nothing stands under an id that is longer than all.
longer_absent :
    (ds : List Document) (t : Text) → lengths ds ≤ length t → get_document (latest ds) t ≡ none
unfolding lengths latest get_document
longer_absent [] t h = refl
longer_absent (d ∷ ds) t h =
    let other : same_text (document_id d) t ≡ false =
      differ (Bool-cases (same_text (document_id d) t)) in
    if-false _ _ _ other
    ∙ get_document-without (latest ds) (document_id d) t
    ∙ if-false _ _ _ other
    ∙ longer_absent ds t (omega (arith, h))
  where
    differ :
        (same_text (document_id d) t ≡ true) ⊎ (same_text (document_id d) t ≡ false)
        → same_text (document_id d) t ≡ false
    differ (inl e) = absurd (omega (arith, h, ap length ((same_text_iff (document_id d) t).0 e)))
    differ (inr e) = e

pub sample-HasFreshIds : HasFreshIds sample
unfolding create_id
sample-HasFreshIds = record {
  fresh = λ s prefix.
      longer_absent s (prefix ++ b':' ∷ repeat (lengths s)) (
        omega (arith, length-append prefix (b':' ∷ repeat (lengths s)), length-repeat (lengths s)));
}
