-- ===== src/Workspace/Discovery.antt =====
-- That the search of src/ptlab/workspace.py finds the first workspace there is.
use pinetime_dev_tools.Prelude.{
  List, [], ◌∷◌, any, All, Option, none, some, true, false, &&_elim, ◌≡◌, refl, sym, ap, ◌∙◌,
  Bool-cases, inl, inr, str_eq, eq_iff, if◌then◌else◌,
}
use pinetime_dev_tools.Sim.{FilePath, same_path}
use pinetime_dev_tools.Workspace.{
  FileSystem, normalize_candidate, is_workspace, search_paths, paths_from, starts_or, found_or,
  discover_workspace,
}

same_path-eq : (a b : FilePath) → same_path a b ≡ true → a ≡ b
same_path-eq [] [] h = refl
same_path-eq [] (d ∷ ds) h = cc
same_path-eq (c ∷ cs) [] h = cc
same_path-eq (c ∷ cs) (d ∷ ds) h =
    let (e, k) = &&_elim (str_eq c d) (same_path cs ds) h in
    rw ((eq_iff c d).0 e, same_path-eq cs ds k) refl

-- The first candidate that is a workspace, with no note of those that were tried.
unfoldable pub first_workspace : FileSystem → List FilePath → Option FilePath
first_workspace files [] = none
first_workspace files (path ∷ paths) =
    let candidate = normalize_candidate files path in
    let rest = first_workspace files paths in
    if is_workspace files candidate then some candidate else rest

module _ (files : FileSystem) where
  abbrev AreNone : List FilePath → Type 0
  AreNone checked = All (λ c. is_workspace files c ≡ false) checked

  checked-no :
      (c : FilePath) (checked : List FilePath)
      → any (same_path c) checked ≡ true
      → AreNone checked
      → is_workspace files c ≡ false
  checked-no c [] h a = cc
  checked-no c (x ∷ xs) h (a, b) = elim (Bool-cases (same_path c x)) [
    | inl same ↦ rw (same_path-eq c x same) a
    | inr other ↦ checked-no c xs (sym (rw other refl) ∙ h) b
  ]

  search-first :
      (checked paths : List FilePath)
      → AreNone checked
      → search_paths files checked paths ≡ first_workspace files paths
  unfolding search_paths first_workspace
  search-first checked [] h = refl
  search-first checked (path ∷ paths) h = elim (Bool-cases (any (same_path candidate) checked)) [
    | inl seen ↦ rw (seen, checked-no candidate checked seen h) (search-first checked paths h)
    | inr new ↦ rw new (elim (Bool-cases (is_workspace files candidate)) [
      | inl found ↦ rw found refl
      | inr missed ↦ rw missed (search-first (candidate ∷ checked) paths (missed, h))
    ])
  ]
    where
      candidate : FilePath
      candidate = normalize_candidate files path

-- With no root given, the workspace that is discovered is the first that is a workspace among the
-- candidates of the starting points and their parents, in this order, and it is an error exactly
-- when none is: not to look twice at a candidate changes nothing.
pub discover_workspace-first :
    (files : FileSystem) (search_from default : List FilePath)
    → discover_workspace files none search_from default
      ≡ found_or files
          (first_workspace files (paths_from files (starts_or files search_from default)))
unfolding discover_workspace
discover_workspace-first files search_from default =
    ap (found_or files)
      (search-first files [] (paths_from files (starts_or files search_from default)) tt)
