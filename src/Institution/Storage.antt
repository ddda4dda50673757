-- ===== src/Institution/Storage.antt =====
-- Object keys and the local storage adapter
-- (apps/institution-server/institution_server/storage.py, `validate_key` and `LocalObjectStorage`).
-- Paths are resolved by name: the directory holds no symbolic links. What the file system raises is an
-- argument.
use predixa_learn.Prelude.{
  ℕ, ◌≡◌, refl, Bool, true, false, not, ◌&&◌, ◌||◌, Option, none, some, List, [], ◌∷◌, ◌++◌, ◌==◌,
  if◌then◌else◌, Text, text, same, starts_with, occurs, map,
}
pub mod Paths
pub mod Normal
pub mod Files
mod Tests

abbrev pub slash : ℕ
slash = 47

abbrev pub dot : ℕ
dot = 46

-- `key.replace("\\", "/")`
unfoldable pub with_slashes : Text → Text
with_slashes = map (λ c. if c == 92 then slash else c)

-- `value.lstrip("/")`
unfoldable pub drop_slashes : Text → Text
drop_slashes [] = []
drop_slashes (c ∷ cs) = let rest = drop_slashes cs in if c == slash then rest else c ∷ cs

abbrev pub last_slash : ℕ → Text → Text
last_slash c [] = if c == slash then [] else c ∷ []
last_slash c (d ∷ ds) = c ∷ d ∷ ds

-- `value.rstrip("/")`
unfoldable pub drop_last_slashes : Text → Text
drop_last_slashes [] = []
drop_last_slashes (c ∷ cs) = last_slash c (drop_last_slashes cs)

-- `validate_key`, where `none` is the ValueError
unfoldable pub is_refused : Text → Bool
unfolding occurs starts_with
is_refused n =
    same n []
    || starts_with (dot ∷ []) n
    || occurs (dot ∷ dot ∷ slash ∷ []) (slash ∷ n ++ slash ∷ [])

unfoldable pub validate_key : Text → Option Text
validate_key key =
    let n = drop_last_slashes (drop_slashes (with_slashes key)) in
    if is_refused n then none else some n

-- The segments of a key: the text before the first slash, and those after it.
unfoldable pub segment : Text → Text
segment [] = []
segment (c ∷ cs) = let rest = segment cs in if c == slash then [] else c ∷ rest

unfoldable pub later_segments : Text → List Text
later_segments [] = []
later_segments (c ∷ cs) =
    let rest = later_segments cs in if c == slash then segment cs ∷ rest else rest

abbrev pub up : List Text → List Text
up [] = []
up (d ∷ ds) = ds

-- `Path.resolve`, which walks the segments from a directory; a directory is the list of its names,
-- innermost first.
unfoldable pub enter_segment : Text → List Text → List Text
enter_segment s here =
    if same s [] || same s (dot ∷ [])
    then here
    else if same s (dot ∷ dot ∷ [])
    then up here
    else s ∷ here

unfoldable pub walk : List Text → List Text → List Text
walk [] here = here
walk (s ∷ ss) here = walk ss (enter_segment s here)

abbrev pub same_names : List Text → List Text → Bool
same_names [] [] = true
same_names (x ∷ xs) (y ∷ ys) = same x y && same_names xs ys
same_names _ _ = false

-- `candidate.relative_to(root)`, which raises for a path that is not below the root
unfoldable pub is_below : List Text → List Text → Bool
is_below root [] = same_names root []
is_below root (d ∷ ds) = same_names root (d ∷ ds) || is_below root ds

-- `Path.resolve` raises for a key with the character NUL.
abbrev pub has_nul : Text → Bool
has_nul [] = false
has_nul (c ∷ cs) = c == 0 || has_nul cs

-- `_path`
abbrev pub located : List Text → Option Text → Option (List Text)
located root none = none
located root (some n) =
    let candidate = walk (segment n ∷ later_segments n) root in
    if has_nul n || not (is_below root candidate) then none else some candidate

unfoldable pub path : List Text → Text → Option (List Text)
path root key = located root (validate_key key)

-- The files below the root.
pub record LocalObjectStorage : Type 0 where
  pub root : List Text
  pub files : List Text → Option Text

unfoldable pub with_file : List Text → Option Text → LocalObjectStorage → LocalObjectStorage
with_file p content s = record s { files = λ q. if same_names p q then content else s.files q }

-- `path.with_suffix(path.suffix + ".part")`
abbrev pub part : List Text → List Text
part [] = text ".part" ∷ []
part (d ∷ ds) = (d ++ text ".part") ∷ ds

-- What the file system does in a `put`: nothing raises; `mkdir` raises; `write_bytes` raises and leaves
-- this content of the `.part` file; or `replace` raises.
pub data Disk : Type 0 where
  works no_directory : Disk
  write_fails : Option Text → Disk
  replace_fails : Disk

-- The storage afterwards, and whether the operation went through
abbrev pub put_at :
    LocalObjectStorage → Option (List Text) → Text → Disk → LocalObjectStorage × Bool
put_at s none bytes io = (s, false)
put_at s (some p) bytes works = (with_file p (some bytes) (with_file (part p) none s), true)
put_at s (some p) bytes no_directory = (s, false)
put_at s (some p) bytes (write_fails left) = (with_file (part p) left s, false)
put_at s (some p) bytes replace_fails = (with_file (part p) (some bytes) s, false)

abbrev pub read_at : LocalObjectStorage → Option (List Text) → Option Text
read_at s none = none
read_at s (some p) = s.files p

-- `unlink` raises where `raises` says so.
abbrev pub delete_at : LocalObjectStorage → Option (List Text) → Bool → LocalObjectStorage × Bool
delete_at s none raises = (s, false)
delete_at s (some p) true = (s, false)
delete_at s (some p) false = (with_file p none s, true)

-- `put`, `read` and `delete`
unfoldable pub put : LocalObjectStorage → Text → Text → Disk → LocalObjectStorage × Bool
put s key bytes io = put_at s (path s.root key) bytes io

unfoldable pub read : LocalObjectStorage → Text → Option Text
read s key = read_at s (path s.root key)

unfoldable pub delete : LocalObjectStorage → Text → Bool → LocalObjectStorage × Bool
delete s key raises = delete_at s (path s.root key) raises
