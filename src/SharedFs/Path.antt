-- ===== src/SharedFs/Path.antt =====
-- packages/shared-fs/library/src/path.ts. A text is the list of its UTF-8 bytes.
pub mod Split
pub mod Laws
mod Tests
use mathlib.Core.List.{reverse}
use peerbit_examples.Prelude.{
  ℕ, ◌+◌, Bool, true, false, not, ◌&&◌, List, [], ◌∷◌, ◌++◌, map, Option, none, some, ◌==◌,
  if◌then◌else◌,
}
use Split.{Text, slash, split, join, same_text}

abbrev pub backslash : ℕ
backslash = 92

abbrev pub dot : ℕ
dot = 46

abbrev pub dot_text : Text
dot_text = dot ∷ []

abbrev pub dot_dot_text : Text
dot_dot_text = dot ∷ dot ∷ []

unfoldable pub is_nil : Text → Bool
is_nil [] = true
is_nil (c ∷ cs) = false

-- `input || "/"`
unfoldable pub or_root : Text → Text
or_root [] = slash ∷ []
or_root (c ∷ cs) = c ∷ cs

-- `replaceAll("\\", "/")`
unfoldable pub to_slash : ℕ → ℕ
to_slash c = if c == backslash then slash else c

-- `filter((part) => part.length > 0 && part !== ".")`
unfoldable pub real_parts : List Text → List Text
unfolding is_nil
real_parts [] = []
real_parts (p ∷ ps) =
    if not (is_nil p) && not (same_text p dot_text) then p ∷ real_parts ps else real_parts ps

unfoldable pub pop : List Text → List Text
pop [] = []
pop (p ∷ ps) = ps

-- The loop over the parts; the end of the stack is the head of the list.
unfoldable pub resolve : List Text → List Text → List Text
unfolding pop
resolve stack [] = reverse stack
resolve stack (p ∷ ps) = resolve (if same_text p dot_dot_text then pop stack else p ∷ stack) ps

unfoldable pub normalized_segments : Text → List Text
unfolding or_root
normalized_segments input = resolve [] (real_parts (split (map to_slash (or_root input))))

unfoldable pub normalize_fs_path : Text → Text
normalize_fs_path input = slash ∷ join (normalized_segments input)

-- `filter(Boolean)`
unfoldable pub nonempty_parts : List Text → List Text
nonempty_parts [] = []
nonempty_parts (p ∷ ps) = if is_nil p then nonempty_parts ps else p ∷ nonempty_parts ps

unfoldable pub tail_text : Text → Text
tail_text [] = []
tail_text (c ∷ cs) = cs

unfoldable pub path_segments : Text → List Text
unfolding nonempty_parts tail_text
path_segments input =
    let normalized = normalize_fs_path input in
    if same_text normalized (slash ∷ []) then [] else nonempty_parts (split (tail_text normalized))

-- `segments.pop()`, on the front of the list.
unfoldable pub drop_last : List Text → List Text
drop_last [] = []
drop_last (p ∷ []) = []
drop_last (p ∷ q ∷ ps) = p ∷ drop_last (q ∷ ps)

unfoldable pub last_or_empty : List Text → Text
last_or_empty [] = []
last_or_empty (p ∷ []) = p
last_or_empty (p ∷ q ∷ ps) = last_or_empty (q ∷ ps)

unfoldable pub dirname : Text → Text
unfolding drop_last
dirname input = slash ∷ join (drop_last (path_segments input))

unfoldable pub basename : Text → Text
unfolding last_or_empty
basename input = last_or_empty (path_segments input)

unfoldable pub join_fs_path : List Text → Text
join_fs_path parts = normalize_fs_path (join parts)
