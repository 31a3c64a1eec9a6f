-- ===== src/Shared/Files.antt =====
-- The files that innernet writes: what `std::fs` does to a table of paths, and `ensure_dirs_exist` of
-- shared/src/lib.rs. Errors other than that a path is taken, or is not there, are left out.
use innernet.Prelude.{
  ℕ, String, ◌≡◌, ◌≢◌, inl, inr, Option, none, some, List, [], ◌∷◌, arith, if◌then◌else◌,
  Bool-cases, Option-cases, ◌==◌, nat_eq, string_eq, option_eq, beq_refl,
}

pub data Node : Type 0 where
  file : String → ℕ → Node
  dir : ℕ → Node

-- The modes are those that the umask leaves to new files and new directories.
pub record FileSystem : Type 0 where
  pub nodes : List (String × Node)
  pub file_mode : ℕ
  pub dir_mode : ℕ

unfoldable pub find_node : String → List (String × Node) → Option Node
find_node path [] = none
find_node path ((p, n) ∷ ns) = if p == path then some n else find_node path ns

unfoldable pub node_at : String → FileSystem → Option Node
unfolding find_node
node_at path fs = find_node path fs.nodes

-- `content` is written to a path; a file that is there keeps its mode.
unfoldable pub put_file : String → String → ℕ → FileSystem → FileSystem
put_file path content mode fs = record fs { nodes = (path, file content mode) ∷ fs.nodes }

-- The permissions that `ensure_dirs_exist` sets are those of a copy, which no call gives back to the
-- directory.
unfoldable pub ensure_dir : String → FileSystem → FileSystem
unfolding node_at
ensure_dir path fs = elim (node_at path fs) [
  | none ↦ record fs { nodes = (path, dir fs.dir_mode) ∷ fs.nodes }
  | some _ ↦ fs
]

unfoldable pub ensure_dirs_exist : List String → FileSystem → FileSystem
unfolding ensure_dir
ensure_dirs_exist [] fs = fs
ensure_dirs_exist (d ∷ ds) fs = ensure_dirs_exist ds (ensure_dir d fs)

pub node_at-put_file :
    (path content : String) (mode : ℕ) (fs : FileSystem)
    → node_at path (put_file path content mode fs) ≡ some (file content mode)
unfolding node_at put_file
node_at-put_file path content mode fs = ground (arith, beq_refl path)

-- A directory that was ensured is there, and stays when a file is written.
pub ensure_dir-there : (path : String) (fs : FileSystem) → node_at path (ensure_dir path fs) ≢ none
unfolding node_at ensure_dir
ensure_dir-there path fs e = elim (Option-cases (node_at path fs)) [
  | inl free ↦ ground (arith, free, e, beq_refl path)
  | inr (n, there) ↦ ground (arith, there, e)
]

pub put_file-keeps :
    (path content other : String) (mode : ℕ) (fs : FileSystem)
    → node_at other fs ≢ none
    → node_at other (put_file path content mode fs) ≢ none
unfolding node_at put_file
put_file-keeps path content other mode fs there e = elim (Bool-cases (path == other)) [
  | inl same ↦ ground (arith, same, e)
  | inr differ ↦ ground (arith, differ, e, there)
]
