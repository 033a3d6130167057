-- ===== src/Workspace.antt =====
-- src/ptlab/workspace.py: the folder that holds the repositories. What
-- the file system says is a parameter; it does not change meanwhile.
pub mod Discovery
pub mod Check
use pinetime_dev_tools.Prelude.{
  ℕ, List, [], ◌∷◌, ◌++◌, map, all, any, Option, none, some, Bool, true, false, not, ◌&&◌, ◌||◌,
  String, str_eq, if◌then◌else◌,
}
use pinetime_dev_tools.Prelude.Result.{Result, ok, err}
use pinetime_dev_tools.Sim.{FilePath, ◌/+◌, same_path}

abbrev pub repository_names : List String
repository_names = "InfiniTime" ∷ "InfiniSim" ∷ "PineTimeCompanion" ∷ "pinetime-dev-tools" ∷ []

-- The WorkspaceErrors; the first names the repositories that are missing.
pub data WorkspaceError : Type 0 where
  not_a_workspace : List String → WorkspaceError
  not_discovered : WorkspaceError

pub record Workspace : Type 0 where
  pub root : FilePath

abbrev pub infinitime : Workspace → FilePath
infinitime w = w.root /+ "InfiniTime"

abbrev pub infinisim : Workspace → FilePath
infinisim w = w.root /+ "InfiniSim"

abbrev pub companion : Workspace → FilePath
companion w = w.root /+ "PineTimeCompanion"

abbrev pub devtools : Workspace → FilePath
devtools w = w.root /+ "pinetime-dev-tools"

abbrev pub repositories : Workspace → List (String × FilePath)
repositories w = map (λ name. (name, w.root /+ name)) repository_names

-- path.name
abbrev pub last_part : FilePath → String
last_part [] = ""
last_part (x ∷ []) = x
last_part (x ∷ y ∷ path) = last_part (y ∷ path)

-- path.parent
abbrev pub parent : FilePath → FilePath
parent [] = []
parent (x ∷ []) = []
parent (x ∷ y ∷ path) = x ∷ parent (y ∷ path)

-- (path, *path.parents)
unfoldable pub with_parents : FilePath → List FilePath
with_parents [] = [] ∷ []
with_parents (x ∷ path) = map (◌∷◌ x) (with_parents path) ++ [] ∷ []

abbrev pub is_repository_name : String → Bool
is_repository_name name = any (str_eq name) repository_names

-- `resolve` is path.expanduser().resolve().
pub record FileSystem : Type 0 where
  pub resolve : FilePath → FilePath
  pub is_dir : FilePath → Bool

module _ (files : FileSystem) where
  unfoldable pub normalize_candidate : FilePath → FilePath
  normalize_candidate path =
      let resolved = files.resolve path in
      if is_repository_name (last_part resolved) then parent resolved else resolved

  unfoldable pub is_workspace : FilePath → Bool
  is_workspace path = all (λ name. files.is_dir (path /+ name)) repository_names

  unfoldable pub missing_names : FilePath → List String → List String
  missing_names path [] = []
  missing_names path (name ∷ names) =
      let rest = missing_names path names in
      if files.is_dir (path /+ name) then rest else name ∷ rest

  abbrev pub given_root : FilePath → Result WorkspaceError Workspace
  given_root root =
      let candidate = normalize_candidate root in
      if is_workspace candidate
      then ok (record { root = candidate })
      else err (not_a_workspace (missing_names candidate repository_names))

  abbrev pub found_or : Option FilePath → Result WorkspaceError Workspace
  found_or none = err not_discovered
  found_or (some candidate) = ok (record { root = candidate })

  -- The two loops, over the paths of all the starts; `checked` are the candidates that were tried.
  unfoldable pub search_paths : List FilePath → List FilePath → Option FilePath
  unfolding normalize_candidate is_workspace
  search_paths checked [] = none
  search_paths checked (path ∷ paths) =
      let candidate = normalize_candidate path in
      let rest = search_paths checked paths in
      let rest_checked = search_paths (candidate ∷ checked) paths in
      if any (same_path candidate) checked
      then rest
      else if is_workspace candidate
      then some candidate
      else rest_checked

  unfoldable pub paths_from : List FilePath → List FilePath
  unfolding with_parents
  paths_from [] = []
  paths_from (start ∷ starts) = with_parents (files.resolve start) ++ paths_from starts

  abbrev pub starts_or : List FilePath → List FilePath → List FilePath
  starts_or [] default = default
  starts_or (start ∷ starts) default = start ∷ starts

  -- `default` is (FilePath.cwd(), package_repo).
  unfoldable pub discover_workspace :
      Option FilePath → List FilePath → List FilePath → Result WorkspaceError Workspace
  unfolding normalize_candidate is_workspace missing_names search_paths paths_from
  discover_workspace (some root) search_from default = given_root root
  discover_workspace none search_from default =
      found_or (search_paths [] (paths_from (starts_or search_from default)))
