-- ===== src/SharedFs/Conflicts.antt =====
-- packages/shared-fs/library/src/path.ts: `encodeConflictPathName` and `decodeConflictPathName`, with
-- `encodeURIComponent` and `decodeURIComponent` over UTF-8 bytes. That `decodeURIComponent` also
-- refuses percent-encoded bytes that are no UTF-8 is left out: the results are compared on bytes.
mod Tests
use mathlib.Core.Option
use mathlib.Core.List.{append-nil}
use peerbit_examples.Prelude.{
  ℕ, ◌+◌, ◌-◌, ◌*◌, ◌/◌, ◌%◌, ◌<◌, ◌≡◌, refl, ap, ap₂, sym, ◌∙◌, Bool, true, false, ◌&&◌, ◌||◌,
  List, [], ◌∷◌, ◌++◌, map, Option, none, some, arith, ltb, leb, ◌==◌, if◌then◌else◌, All,
  Bool-cases, inl, inr,
}
use peerbit_examples.SharedFs.Path.Split.{Text, HasNo}
use peerbit_examples.SharedFs.Path.{normalize_fs_path}
use peerbit_examples.SharedFs.Path.Laws.{normalize_fs_path_idempotent}

abbrev pub tilde : ℕ
tilde = 126

abbrev percent : ℕ
percent = 37

-- The characters that `encodeURIComponent` keeps.
is_unreserved : ℕ → Bool
is_unreserved c =
    leb b'a' c && leb c b'z'
    || leb b'A' c && leb c b'Z'
    || leb b'0' c && leb c b'9'
    || c == b'-'
    || c == b'_'
    || c == b'.'
    || c == b'!'
    || c == tilde
    || c == b'*'
    || c == 39
    || c == 40
    || c == 41

hex_digit : ℕ → ℕ
hex_digit n = if ltb n 10 then 48 + n else 55 + n

hex_value : ℕ → Option ℕ
hex_value d =
    if leb 48 d && leb d 57
    then some (d - 48)
    else if leb 65 d && leb d 70
    then some (d - 55)
    else if leb 97 d && leb d 102
    then some (d - 87)
    else none

pub encode_component : Text → Text
unfolding is_unreserved hex_digit
encode_component [] = []
encode_component (c ∷ cs) =
    let rest = encode_component cs in
    if is_unreserved c then c ∷ rest else percent ∷ hex_digit (c / 16) ∷ hex_digit (c % 16) ∷ rest

-- `%XX`; `none` is a `URIError`.
escaped : ℕ → ℕ → Option Text → Option Text
unfolding hex_value
escaped h l rest = elim (hex_value h) [
  | none ↦ none
  | some a ↦ elim (hex_value l) [ none ↦ none | some b ↦ Option.map (◌∷◌ (16 * a + b)) rest ]
]

pub decode_component : Text → Option Text
unfolding escaped
decode_component [] = some []
decode_component (c ∷ []) = if c == percent then none else some (c ∷ [])
decode_component (c ∷ h ∷ []) =
    let rest = decode_component (h ∷ []) in if c == percent then none else Option.map (◌∷◌ c) rest
decode_component (c ∷ h ∷ l ∷ cs) =
    let behind = decode_component cs in
    let rest = decode_component (h ∷ l ∷ cs) in
    if c == percent then escaped h l behind else Option.map (◌∷◌ c) rest

to_tilde : ℕ → ℕ
to_tilde c = if c == percent then tilde else c

to_percent : ℕ → ℕ
to_percent c = if c == tilde then percent else c

pub encode_conflict_path_name : Text → Text
unfolding to_tilde
encode_conflict_path_name path = map to_tilde (encode_component (normalize_fs_path path))

pub decode_conflict_path_name : Text → Option Text
unfolding to_percent
decode_conflict_path_name name =
    Option.map normalize_fs_path (decode_component (map to_percent name))

hex_value-hex_digit : (n : ℕ) → n < 16 → hex_value (hex_digit n) ≡ some n
unfolding hex_value hex_digit
hex_value-hex_digit n h = ground arith

escaped_values :
    (x y : ℕ) {a b : ℕ} (rest : Option Text)
    → hex_value x ≡ some a
    → hex_value y ≡ some b
    → escaped x y rest ≡ Option.map (◌∷◌ (16 * a + b)) rest
unfolding escaped
escaped_values x y rest e e' = rw (e, e', escaped)

escaped-hex :
    (c : ℕ) (rest : Option Text)
    → c < 256
    → escaped (hex_digit (c / 16)) (hex_digit (c % 16)) rest ≡ Option.map (◌∷◌ c) rest
escaped-hex c rest h =
    escaped_values _ _ rest (hex_value-hex_digit (c / 16) (omega arith))
      (hex_value-hex_digit (c % 16) (omega arith))
    ∙ ap (λ (k : ℕ). Option.map (◌∷◌ k) rest) (omega arith)

unreserved-ne-percent : (c : ℕ) → is_unreserved c ≡ true → (c == percent) ≡ false
unfolding is_unreserved
unreserved-ne-percent c e = ground arith

-- A character that stands for itself.
decode_component-plain :
    (c : ℕ) (cs : Text)
    → (c == percent) ≡ false
    → decode_component (c ∷ cs) ≡ Option.map (◌∷◌ c) (decode_component cs)
unfolding decode_component
decode_component-plain c [] e = rw e
decode_component-plain c (h ∷ []) e = rw e
decode_component-plain c (h ∷ l ∷ cs) e = rw e

decode_component-escaped :
    (c : ℕ) (cs : Text)
    → c < 256
    → decode_component (percent ∷ hex_digit (c / 16) ∷ hex_digit (c % 16) ∷ cs)
      ≡ Option.map (◌∷◌ c) (decode_component cs)
unfolding decode_component
decode_component-escaped c cs h = escaped-hex c (decode_component cs) h

abbrev pub IsBytes : Text → Type 0
IsBytes = All (λ c. c < 256)

map-prepend :
    (c : ℕ) (cs : Text) (o : Option Text)
    → Option.map (◌∷◌ c) (Option.map (◌++◌ cs) o) ≡ Option.map (◌++◌ (c ∷ cs)) o
map-prepend c cs none = refl
map-prepend c cs (some x) = refl

map_nothing : (o : Option Text) → o ≡ Option.map (◌++◌ []) o
map_nothing none = refl
map_nothing (some x) = refl

decode_component-append :
    (cs suffix : Text)
    → IsBytes cs
    → decode_component (encode_component cs ++ suffix)
      ≡ Option.map (◌++◌ cs) (decode_component suffix)
unfolding encode_component
decode_component-append [] suffix h = map_nothing (decode_component suffix)
decode_component-append (c ∷ cs) suffix h = elim (Bool-cases (is_unreserved c)) [
  | inl e ↦ rw e (
      decode_component-plain c _ (unreserved-ne-percent c e)
      ∙ ap (Option.map (◌∷◌ c)) (decode_component-append cs suffix h.1)
      ∙ map-prepend c cs _)
  | inr e ↦ rw e (
      decode_component-escaped c _ h.0
      ∙ ap (Option.map (◌∷◌ c)) (decode_component-append cs suffix h.1)
      ∙ map-prepend c cs _)
]

hex_digit_plain :
    (n : ℕ) → n < 16 → ((hex_digit n == tilde) ≡ false) × ((hex_digit n == percent) ≡ false)
unfolding hex_digit
hex_digit_plain n h = ground arith

to_percent-to_tilde : (c : ℕ) → (c == tilde) ≡ false → to_percent (to_tilde c) ≡ c
unfolding to_percent to_tilde
to_percent-to_tilde c e = ground arith

map-tilde_append :
    (cs suffix : Text)
    → IsBytes cs
    → HasNo tilde cs
    → map to_percent (map to_tilde (encode_component cs ++ suffix))
      ≡ encode_component cs ++ map to_percent (map to_tilde suffix)
unfolding encode_component
map-tilde_append [] suffix b h = refl
map-tilde_append (c ∷ cs) suffix b h = elim (Bool-cases (is_unreserved c)) [
  | inl e ↦ rw e (ap₂ ◌∷◌ (to_percent-to_tilde c h.0) (map-tilde_append cs suffix b.1 h.1))
  | inr e ↦ rw e (
      ap₂ ◌∷◌ (to_percent-to_tilde percent refl) (
        ap₂ ◌∷◌ (to_percent-to_tilde _ (hex_digit_plain (c / 16) (omega (arith, b.0))).0) (
          ap₂ ◌∷◌ (to_percent-to_tilde _ (hex_digit_plain (c % 16) (omega arith)).0)
            (map-tilde_append cs suffix b.1 h.1))))
]

encode_component-append :
    (cs ds : Text) → encode_component (cs ++ ds) ≡ encode_component cs ++ encode_component ds
unfolding encode_component
encode_component-append [] ds = refl
encode_component-append (c ∷ cs) ds = elim (Bool-cases (is_unreserved c)) [
  | inl e ↦ rw e (ap (◌∷◌ c) (encode_component-append cs ds))
  | inr e ↦ rw e (
      ap (λ (r : Text). percent ∷ hex_digit (c / 16) ∷ hex_digit (c % 16) ∷ r)
        (encode_component-append cs ds))
]

decode-encode_component : (p : Text) → IsBytes p → decode_component (encode_component p) ≡ some p
unfolding decode_component
decode-encode_component p b =
    ap decode_component (sym (append-nil (encode_component p)))
    ∙ decode_component-append p [] b
    ∙ ap some (append-nil p)

map-tilde-encode_component :
    (p : Text)
    → IsBytes p
    → HasNo tilde p
    → map to_percent (map to_tilde (encode_component p)) ≡ encode_component p
map-tilde-encode_component p b h =
    ap (λ (r : Text). map to_percent (map to_tilde r)) (sym (append-nil (encode_component p)))
    ∙ map-tilde_append p [] b h
    ∙ append-nil (encode_component p)

-- Where the normalised path holds no tilde, decoding the name of a conflict directory gives the
-- normalised path back.
pub decode-encode_conflict :
    (path : Text)
    → IsBytes (normalize_fs_path path)
    → HasNo tilde (normalize_fs_path path)
    → decode_conflict_path_name (encode_conflict_path_name path) ≡ some (normalize_fs_path path)
unfolding decode_conflict_path_name encode_conflict_path_name
decode-encode_conflict path b h =
    ap (λ (r : Text). Option.map normalize_fs_path (decode_component r))
      (map-tilde-encode_component (normalize_fs_path path) b h)
    ∙ ap (Option.map normalize_fs_path) (decode-encode_component (normalize_fs_path path) b)
    ∙ ap some (normalize_fs_path_idempotent path)

encoded_tilde :
    (stem : Text) → encode_component (stem ++ tilde ∷ []) ≡ encode_component stem ++ tilde ∷ []
unfolding encode_component is_unreserved
encoded_tilde stem = encode_component-append stem (tilde ∷ [])

-- Where the normalised path ends in its only tilde, decoding throws: `encodeURIComponent` keeps a
-- tilde, and the decoder takes it for the start of an escape.
pub decode_conflict-tilde :
    (path stem : Text)
    → normalize_fs_path path ≡ stem ++ tilde ∷ []
    → IsBytes stem
    → HasNo tilde stem
    → decode_conflict_path_name (encode_conflict_path_name path) ≡ none
unfolding decode_conflict_path_name encode_conflict_path_name decode_component
decode_conflict-tilde path stem e b h = ap (Option.map normalize_fs_path) (
    ap (λ (p : Text). decode_component (map to_percent (map to_tilde (encode_component p)))) e
    ∙ ap (λ (r : Text). decode_component (map to_percent (map to_tilde r))) (encoded_tilde stem)
    ∙ ap decode_component (map-tilde_append stem (tilde ∷ []) b h)
    ∙ decode_component-append stem (percent ∷ []) b)
