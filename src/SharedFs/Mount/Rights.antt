-- ===== src/SharedFs/Mount/Rights.antt =====
-- Lawful handles: the buffer, the length and the rights of an open file.
use peerbit_examples.Prelude.{
  ℕ, subst, ◌≡◌, refl, sym, ap, ◌∙◌, Bool, true, false, List, Option, arith, Bool-cases, inl, inr,
}
use peerbit_examples.SharedFs.Path.Split.{Text}
use peerbit_examples.SharedFs.Mount.Buffer.{
  OpenHandle, Outcome, ok, fail, Offset, start, negative, Number, nat, below_zero, not_finite,
  resize_handle, write_handle,
}
use peerbit_examples.SharedFs.Mount.Buffer.Laws.{
  IsFitting, IsWritten, write_handle-IsWritten, resize_handle-IsResized,
}
use peerbit_examples.SharedFs.Mount.Commit.{
  Reply, written, refused, unchanged, writing, begin_commit, finish_commit,
}
use peerbit_examples.SharedFs.Mount.Target.{Target, EntryInfo}
use peerbit_examples.SharedFs.Mount.Flags.{ParsedFlags}
use peerbit_examples.SharedFs.Mount.Handles.{bytes_of, conflict_handle, file_handle}

pub record IsLawful (h : OpenHandle) : Type 0 where
  pub fits : IsFitting h
  pub guarded : h.write ≡ false → h.dirty ≡ false
  pub one_right : h.read_only ≡ true → h.write ≡ false

abbrev first_or : OpenHandle → Outcome (OpenHandle × ℕ) → OpenHandle
first_or h (ok r) = r.0
first_or h (fail e) = h

abbrev got_or : OpenHandle → Outcome OpenHandle → OpenHandle
got_or h (ok g) = g
got_or h (fail e) = h

clash : {b c d : Bool} → b ≡ true → b ≡ false → c ≡ d
clash w f = cc

written-IsLawful :
    (h g : OpenHandle) (chunk : List ℕ) (o : ℕ)
    → h.write ≡ true
    → IsLawful h
    → IsWritten h chunk o g
    → IsLawful g
written-IsLawful h g chunk o w l i = record {
  fits = i.fits;
  guarded = λ e. clash w (sym i.same_rights.0 ∙ e);
  one_right = λ e. sym (sym (l.one_right (sym i.same_rights.1 ∙ e)) ∙ sym i.same_rights.0);
}

pub write_handle-IsLawful :
    (h : OpenHandle) (chunk : List ℕ) (offset : Offset) (g : OpenHandle) (n : ℕ)
    → IsLawful h
    → write_handle h chunk offset ≡ ok (g, n)
    → IsLawful g
write_handle-IsLawful h chunk (start o) g n l e = elim (Bool-cases h.write) [
  | inl w ↦
      let (g', e', i) = write_handle-IsWritten h chunk o w l.fits in
      subst IsLawful (ap (first_or h) (sym e' ∙ e)) (written-IsLawful h g' chunk o w l i)
  | inr w ↦ unfold write_handle in ground arith
]
write_handle-IsLawful h chunk negative g n l e = unfold write_handle in ground arith

pub resize_handle-IsLawful :
    (h : OpenHandle) (size : Number) (g : OpenHandle)
    → IsLawful h
    → h.write ≡ true
    → resize_handle h size ≡ ok g
    → IsLawful g
resize_handle-IsLawful h (nat n) g l w e =
    let (g', e', i) = resize_handle-IsResized h n l.fits in
    subst IsLawful (ap (got_or h) (sym e' ∙ e)) (record {
      fits = i.fits;
      guarded = λ f. clash w (sym i.same_rights.0 ∙ f);
      one_right = λ f. i.same_rights.0 ∙ l.one_right (sym i.same_rights.1 ∙ f);
    })
resize_handle-IsLawful h below_zero g l w e = unfold resize_handle in cc
resize_handle-IsLawful h not_finite g l w e = unfold resize_handle in cc

module _ (sha256 : List ℕ → Text) where
  settled-IsLawful : (h : OpenHandle) → IsLawful h → IsLawful (record h { dirty = false })
  unfolding IsFitting
  settled-IsLawful h l = record { fits = l.fits; guarded = λ f. refl; one_right = l.one_right }

  pub unchanged-IsLawful :
      (h g : OpenHandle) → IsLawful h → begin_commit sha256 h ≡ unchanged g → IsLawful g
  unfolding begin_commit
  unchanged-IsLawful h g l e =
      let same : record h { dirty = false } ≡ g = ground arith in
      subst IsLawful same (settled-IsLawful h l)

  finished-IsLawful :
      (h : OpenHandle) (hash : Text) (reply : Reply)
      → IsLawful h
      → h.dirty ≡ true
      → IsLawful (finish_commit hash (record h { dirty = false; committing = true }) reply)
  unfolding finish_commit IsFitting
  finished-IsLawful h hash (written id reported) l d = record {
    fits = l.fits;
    guarded = λ f. refl;
    one_right = l.one_right;
  }
  finished-IsLawful h hash (refused e) l d = record {
    fits = l.fits;
    guarded = λ f. clash d (l.guarded f);
    one_right = l.one_right;
  }

  pub writing-IsLawful :
      (h g : OpenHandle) (hash : Text) (reply : Reply)
      → IsLawful h
      → begin_commit sha256 h ≡ writing g hash
      → IsLawful (finish_commit hash g reply)
  unfolding begin_commit
  writing-IsLawful h g hash reply l e =
      let d : h.dirty ≡ true = ground arith in
      let same : record h { dirty = false; committing = true } ≡ g = ground arith in
      subst (λ k. IsLawful (finish_commit hash k reply)) same (finished-IsLawful h hash reply l d)

module _ {W : Type 0} (target : Target W) (sha256 : List ℕ → Text) where
  pub conflict_handle-IsLawful :
      (path : Text) (content : List ℕ) → IsLawful (conflict_handle target sha256 path content)
  unfolding conflict_handle bytes_of IsFitting
  conflict_handle-IsLawful path content = record {
    fits = omega arith;
    guarded = λ f. refl;
    one_right = λ f. refl;
  }

  pub file_handle-IsLawful :
      (path : Text) (flags : ParsedFlags) (entry : Option EntryInfo) (existing : List ℕ)
      → IsLawful (file_handle target sha256 path flags entry existing)
  unfolding file_handle bytes_of IsFitting
  file_handle-IsLawful path flags entry existing = record {
    fits = omega arith;
    guarded = λ f. rw f refl;
    one_right = λ f. cc;
  }
