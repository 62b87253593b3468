-- ===== src/SharedFs/Mount/Commit/Laws.antt =====
-- Lemmas on the sessions of `commitNow`.
use peerbit_examples.Prelude.{
  ℕ, ◌+◌, max, length, ◌≡◌, refl, sym, ap, ◌∙◌, ◌⊎◌, inl, inr, Bool, true, false, List, Option,
  none, some, arith, Bool-cases, or_else,
}
use peerbit_examples.SharedFs.Path.Split.{Text, same_text_iff}
use peerbit_examples.SharedFs.Mount.Buffer.{
  OpenHandle, Bytes, grow_to, Outcome, ok, fail, Offset, start, negative, Number, nat, below_zero,
  not_finite, content_of, resize_handle, resized, write_handle, write_at, set,
}
use peerbit_examples.SharedFs.Mount.Commit.{
  Reply, written, refused, unchanged, writing, is_hash, begin_commit, finish_commit, Session,
  IsReport, Step, writes, resizes, keeps, begins, finishes, Steps, stay, go,
}

abbrev pub on_the_way : Option Text → Option Text → Option Text
on_the_way none base = base
on_the_way (some hash) base = some hash

-- The hash of the last version that the target took or is about to take.
unfoldable pub sent : Session → Option Text
sent s = on_the_way s.in_flight s.handle.base_content_hash

-- A handle that is not dirty has its content at the target, or on the way to it.
unfoldable pub IsSaved : (List ℕ → Text) → Session → Type 0
IsSaved sha256 s = s.handle.dirty ≡ false → sent s ≡ some (sha256 (content_of s.handle))

module _ (sha256 : List ℕ → Text) where
  pub dirty-IsSaved : (s : Session) → s.handle.dirty ≡ true → IsSaved sha256 s
  unfolding IsSaved
  dirty-IsSaved s e = λ f. ground arith

  is_hash-some : (base : Option Text) (hash : Text) → is_hash base hash ≡ true → base ≡ some hash
  unfolding is_hash
  is_hash-some none hash e = cc
  is_hash-some (some b) hash e = ap some ((same_text_iff b hash).0 e)

-- Whether the handle that a call leaves is dirty; an error counts as that.
abbrev dirty_of : Outcome OpenHandle → Bool
dirty_of (ok g) = g.dirty
dirty_of (fail e) = true

abbrev dirty_of_first : Outcome (OpenHandle × ℕ) → Bool
dirty_of_first (ok r) = r.0.dirty
dirty_of_first (fail e) = true

write_at-dirty :
    (h : OpenHandle) (chunk : List ℕ) (offset : ℕ) → dirty_of (write_at h chunk offset) ≡ true
unfolding write_at
write_at-dirty h chunk offset = set_then (set _ chunk offset)
  where
    set_then :
        (o : Outcome Bytes)
        → dirty_of (elim o [
          | fail e ↦ fail e
          | ok b ↦ ok (record (grow_to h (offset + length chunk)) {
            buffer = b;
            length = max (grow_to h (offset + length chunk)).length (offset + length chunk);
            dirty = true;
          })
        ])
          ≡ true
    set_then (ok b) = refl
    set_then (fail e) = refl

write_handle-dirty :
    (h : OpenHandle) (chunk : List ℕ) (offset : Offset)
    → dirty_of_first (write_handle h chunk offset) ≡ true
unfolding write_handle
write_handle-dirty h chunk (start o) = elim (Bool-cases h.write) [
  | inl w ↦ simp (w, counted (write_at h chunk o) (write_at-dirty h chunk o))
  | inr w ↦ simp w
]
  where
    counted :
        (r : Outcome OpenHandle)
        → dirty_of r ≡ true
        → dirty_of_first (elim r [ fail e ↦ fail e | ok g ↦ ok (g, length chunk) ]) ≡ true
    counted (ok g) e = e
    counted (fail f) e = refl
write_handle-dirty h chunk negative = ground arith

resize_handle-dirty :
    (h : OpenHandle) (size : Number) (g : OpenHandle) → resize_handle h size ≡ ok g → g.dirty ≡ true
unfolding resize_handle resized
resize_handle-dirty h (nat n) g e = sym (ap dirty_of e)
resize_handle-dirty h below_zero g e = cc
resize_handle-dirty h not_finite g e = cc

module _ (sha256 : List ℕ → Text) where
  unchanged-IsSaved :
      (s : Session) (g : OpenHandle)
      → s.in_flight ≡ none
      → begin_commit sha256 s.handle ≡ unchanged g
      → IsSaved sha256 (record s { handle = g })
  unfolding IsSaved sent begin_commit content_of
  unchanged-IsSaved s g q e =
      let k = is_hash-some sha256 s.handle.base_content_hash (sha256 (content_of s.handle)) in
      λ f. ground (arith, k)

  writing-IsSaved :
      (s : Session) (g : OpenHandle) (hash : Text)
      → begin_commit sha256 s.handle ≡ writing g hash
      → IsSaved sha256 (record s { handle = g; in_flight = some hash })
  unfolding IsSaved sent begin_commit content_of
  writing-IsSaved s g hash e = λ f. ground arith

  sent_flight : (s : Session) (hash : Text) → s.in_flight ≡ some hash → sent s ≡ some hash
  unfolding sent
  sent_flight s hash q = ap (λ (o : Option Text). on_the_way o s.handle.base_content_hash) q

  reported_hash :
      (reported : Option Text) (hash : Text)
      → (reported ≡ none) ⊎ (reported ≡ some hash)
      → some (or_else reported hash) ≡ some hash
  reported_hash reported hash (inl e) = rw e refl
  reported_hash reported hash (inr e) = rw e refl

  finish_commit-IsSaved :
      (s : Session) (hash : Text) (reply : Reply)
      → s.in_flight ≡ some hash
      → IsReport hash reply
      → IsSaved sha256 s
      → IsSaved sha256 (record s { handle = finish_commit hash s.handle reply; in_flight = none })
  unfolding IsSaved sent finish_commit content_of IsReport
  finish_commit-IsSaved s hash (refused e) q r i = λ f. cc
  finish_commit-IsSaved s hash (written id reported) q r i =
      λ f. reported_hash reported hash r ∙ sym (sent_flight s hash q) ∙ i f

  pub Step-IsSaved : (s t : Session) → Step sha256 s t → IsSaved sha256 s → IsSaved sha256 t
  Step-IsSaved _ _ (writes s chunk offset g n e) i =
      dirty-IsSaved sha256 _ (sym (ap dirty_of_first e) ∙ write_handle-dirty s.handle chunk offset)
  Step-IsSaved _ _ (resizes s size g e) i =
      dirty-IsSaved sha256 _ (resize_handle-dirty s.handle size g e)
  Step-IsSaved _ _ (keeps s g q e) i = unchanged-IsSaved s g q e
  Step-IsSaved _ _ (begins s g hash q e) i = writing-IsSaved s g hash e
  Step-IsSaved _ _ (finishes s hash reply q r) i = finish_commit-IsSaved s hash reply q r i

  Steps-IsSaved : (s t : Session) → Steps sha256 s t → IsSaved sha256 s → IsSaved sha256 t
  Steps-IsSaved _ _ (stay s) i = i
  Steps-IsSaved _ _ (go s t u x rest) i = Steps-IsSaved t u rest (Step-IsSaved s t x i)

  -- No write is lost, whatever writes, resizes and commits follow each other on a handle that is dirty
  -- at first, also writes that land while a commit awaits the target: when the handle is not dirty and
  -- no commit is on the way, the base hash is that of its content.  The target reports the hash of what
  -- it was sent, or none.
  pub no_write_lost :
      (s t : Session)
      → s.handle.dirty ≡ true
      → Steps sha256 s t
      → t.handle.dirty ≡ false
      → t.in_flight ≡ none
      → t.handle.base_content_hash ≡ some (sha256 (content_of t.handle))
  unfolding IsSaved sent
  no_write_lost s t d steps clean q =
      ap (λ (o : Option Text). on_the_way o t.handle.base_content_hash) (sym q)
      ∙ Steps-IsSaved s t steps (dirty-IsSaved sha256 s d) clean
