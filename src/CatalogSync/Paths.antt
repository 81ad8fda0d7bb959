-- ===== src/CatalogSync/Paths.antt =====
-- sync.py: validate_paths, _require_regular_outputs, _same_file, check_files, and write_files with its
-- checks of the paths. What the file system says of a path is a parameter.
pub mod Apart
pub mod Checks
use k8s_stack_tooling.Prelude.{
  String, Bool, true, false, Option, none, some, List, [], ◌∷◌, not, ◌&&◌, ◌||◌, if◌then◌else◌,
  str_eq, Result, ok, err, ◌>>=◌, map,
}
use k8s_stack_tooling.Value.{text_in}
use k8s_stack_tooling.CatalogSync.Files.{
  Bytes, bytes_eq, Files, Output, Answers, Outcome, write_files,
}

pub data Mismatch : Type 0 where
  is_missing out_of_date : String → Mismatch

-- CatalogSyncError, by what it reports.
pub data PathError : Type 0 where
  not_resolved not_compared must_differ must_not_contain not_regular : PathError
  not_read : String → PathError
  mismatches : List Mismatch → PathError

-- What is asked of the file system: `Path.resolve` and `samefile`, where `none` raises, `parents` of a
-- resolved path, `os.path.lexists`, `is_symlink` and `is_file`.
pub record PathSystem : Type 0 where
  pub resolve : String → Option String
  pub parents : String → List String
  pub lexists : String → Bool
  pub samefile : String → String → Option Bool
  pub is_symlink : String → Bool
  pub is_file : String → Bool

abbrev pub passed : Result PathError (Unit {0})
passed = ok tt

abbrev pub answer : {A : Type 0} → PathError → Option A → Result PathError A
answer e none = err e
answer e (some a) = ok a

module _ (sys : PathSystem) where
  -- _resolved
  unfoldable pub resolved : String → Result PathError String
  resolved path = answer not_resolved (sys.resolve path)

  -- _same_file
  unfoldable pub same_file : String → String → Result PathError Bool
  same_file left right =
      if not (sys.lexists left) || not (sys.lexists right)
      then ok false
      else answer not_compared (sys.samefile left right)

  -- `a == b or _same_file(left, right)`
  abbrev pub is_same : String → String → String → String → Result PathError Bool
  is_same left right a b = if str_eq a b then ok true else same_file left right

  abbrev pub is_nested : String → String → Bool
  is_nested a b = text_in a (sys.parents b) || text_in b (sys.parents a)

  -- The body of the loops of validate_paths.
  unfoldable pub require_apart : String → String → Result PathError (Unit {0})
  require_apart left right = resolved left >>= λ a. resolved right >>= λ b.
      is_same left right a b >>= λ same.
      if same then err must_differ else if is_nested a b then err must_not_contain else passed

  -- The loop over `paths[index + 1 :]`.
  unfoldable pub require_apart_from : String → List String → Result PathError (Unit {0})
  require_apart_from left [] = passed
  require_apart_from left (right ∷ rights) =
      require_apart left right >>= λ _. require_apart_from left rights

  unfoldable pub validate_paths : List String → Result PathError (Unit {0})
  validate_paths [] = passed
  validate_paths (path ∷ paths) = require_apart_from path paths >>= λ _. validate_paths paths

  abbrev is_irregular : String → Bool
  is_irregular path = sys.lexists path && (sys.is_symlink path || not (sys.is_file path))

  -- _require_regular_outputs
  unfoldable pub require_regular_outputs : List String → Result PathError (Unit {0})
  require_regular_outputs [] = passed
  require_regular_outputs (path ∷ paths) =
      if is_irregular path then err not_regular else require_regular_outputs paths

  abbrev destinations : List Output → List String
  destinations os = map (λ (o : Output). o.destination) os

  -- The first two calls of write_files and of check_files.
  unfoldable pub check_paths : List Output → Result PathError (Unit {0})
  check_paths os =
      validate_paths (destinations os) >>= λ _. require_regular_outputs (destinations os)

  -- write_files
  unfoldable pub write_checked_files :
      (String → Answers) → List Output → Files → Result PathError Outcome
  write_checked_files answers os fs = check_paths os >>= λ _. ok (write_files answers os fs)

module _ (readable : String → Bool) where
  abbrev pub with_mismatch :
      Mismatch → Result PathError (List Mismatch) → Result PathError (List Mismatch)
  with_mismatch x rest = rest >>= λ xs. ok (x ∷ xs)

  -- The body of the loop of check_files.
  abbrev pub compare_output :
      Output → Option Bytes → Result PathError (List Mismatch) → Result PathError (List Mismatch)
  compare_output o none rest = with_mismatch (is_missing o.destination) rest
  compare_output o (some actual) rest =
      if not (readable o.destination)
      then err (not_read o.destination)
      else if bytes_eq actual o.content
      then rest
      else with_mismatch (out_of_date o.destination) rest

  unfoldable pub find_mismatches : List Output → Files → Result PathError (List Mismatch)
  find_mismatches [] fs = ok []
  find_mismatches (o ∷ os) fs = compare_output o (fs o.destination) (find_mismatches os fs)

  abbrev pub report : List Mismatch → Result PathError (Unit {0})
  report [] = passed
  report (x ∷ xs) = err (mismatches (x ∷ xs))

  -- check_files
  unfoldable pub check_files : PathSystem → List Output → Files → Result PathError (Unit {0})
  check_files sys os fs = check_paths sys os >>= λ _. find_mismatches os fs >>= report
