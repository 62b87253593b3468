-- ===== src/SharedFs/Conflicts/Tests.antt =====
-- Names of conflict directories of concrete paths.
use peerbit_examples.Prelude.{arith, ◌≡◌, refl, none, some, [], ◌∷◌}
use peerbit_examples.SharedFs.Path.Split.{slash, split, join, same_text}
use peerbit_examples.SharedFs.Path.{
  normalize_fs_path, normalized_segments, real_parts, resolve, to_slash,
}
use peerbit_examples.SharedFs.Conflicts.{
  tilde, encode_conflict_path_name, decode_conflict_path_name, decode-encode_conflict,
  decode_conflict-tilde,
}

decode-encode_conflict_example :
    decode_conflict_path_name (encode_conflict_path_name (b'a' ∷ 32 ∷ []))
    ≡ some (normalize_fs_path (b'a' ∷ 32 ∷ []))
unfolding normalize_fs_path normalized_segments real_parts resolve to_slash split join same_text
decode-encode_conflict_example =
    decode-encode_conflict (b'a' ∷ 32 ∷ []) (omega arith, (omega arith, (omega arith, tt)))
      (refl, (refl, (refl, tt)))

decode_conflict-tilde_example :
    decode_conflict_path_name (encode_conflict_path_name (b'a' ∷ tilde ∷ [])) ≡ none
unfolding normalize_fs_path normalized_segments real_parts resolve to_slash split join same_text
decode_conflict-tilde_example =
    decode_conflict-tilde (b'a' ∷ tilde ∷ []) (slash ∷ b'a' ∷ []) refl
      (omega arith, (omega arith, tt)) (refl, (refl, tt))
