-- ===== src/CatalogSync/Examples.antt =====
-- sync.py on small inputs.
use k8s_stack_tooling.Prelude.{
  false, ◌↔◌, ok, String, true, none, some, List, [], ◌∷◌, ◌≡◌, refl, ◌||◌, if◌then◌else◌, str_eq,
  ne_of_test,
}
use k8s_stack_tooling.CatalogSync.Files.{
  returned, clean_up, unlink_temporaries, unlink_backups, Files, Output, Answers, rolled_back,
  write_files, stage_outputs, backup_outputs, replace_outputs, rollback_outputs,
}
use k8s_stack_tooling.CatalogSync.Files.Names.{Kind, target, temporary, backup, IsNamed}
use k8s_stack_tooling.CatalogSync.Files.Rolled.{IsTransaction}
use k8s_stack_tooling.CatalogSync.Files.Transaction.{write_files-IsTransaction}
use k8s_stack_tooling.CatalogSync.Samples.{network}
use k8s_stack_tooling.CatalogSync.Fetch.{Fetched, fetch_models}
use k8s_stack_tooling.CatalogSync.Fetch.Loop.{IsFetched, fetch_models-IsFetched}
use k8s_stack_tooling.CatalogSync.Paths.{
  PathSystem, passed, resolved, same_file, require_apart, require_apart_from, validate_paths,
  require_regular_outputs, check_paths, check_files, write_checked_files,
}
use k8s_stack_tooling.CatalogSync.Paths.Apart.{AllApart, validate_paths_iff}
use k8s_stack_tooling.CatalogSync.Paths.Checks.{write_checked_files-check}

-- Two outputs; the second cannot be replaced.
abbrev catalog : Output
catalog = record {
  destination = "catalog";
  content = 1 ∷ [];
  temporary = "catalog.stage";
  backup = "catalog.backup";
}

abbrev pricing : Output
pricing = record {
  destination = "pricing";
  content = 2 ∷ [];
  temporary = "pricing.stage";
  backup = "pricing.backup";
}

abbrev outputs : List Output
outputs = catalog ∷ pricing ∷ []

abbrev sys : String → Answers
sys path = record {
  mkdir_ok = true;
  mkstemp_ok = true;
  write_ok = true;
  landed = if str_eq path "catalog" then 1 ∷ [] else 2 ∷ [];
  read_ok = true;
  backup_ok = true;
  copy_ok = true;
  copied = [];
  replace_ok = str_eq path "catalog";
  restore_ok = true;
  unlink_temporary_ok = true;
  unlink_backup_ok = true;
}

abbrev disk : Files
disk path = if str_eq path "catalog" then some (7 ∷ []) else none

abbrev kind : String → Kind
kind path =
    if str_eq path "catalog.stage" || str_eq path "pricing.stage"
    then temporary
    else if str_eq path "catalog.backup" || str_eq path "pricing.backup"
    then backup
    else target

outputs-IsNamed : IsNamed kind outputs
outputs-IsNamed = (
  refl,
  refl,
  refl,
  (ne_of_test "catalog" "pricing" refl, tt),
  (ne_of_test "catalog.stage" "pricing.stage" refl, tt),
  (ne_of_test "catalog.backup" "pricing.backup" refl, tt),
  (refl, refl, refl, tt, tt, tt, tt),
)

rolls_back : (write_files sys outputs disk).0 ≡ rolled_back
unfolding write_files stage_outputs backup_outputs replace_outputs rollback_outputs
rolls_back = refl

write_files-IsTransaction_example : IsTransaction kind disk outputs (write_files sys outputs disk)
write_files-IsTransaction_example = write_files-IsTransaction sys kind outputs disk outputs-IsNamed

fetch_models-IsFetched_example :
    (f : Fetched) × (fetch_models network "models" ≡ some f) × IsFetched network f
fetch_models-IsFetched_example = fetch_models-IsFetched network "models"

-- A file system where the outputs are where they are named.
abbrev paths : PathSystem
paths = record {
  resolve = λ (path : String). some path;
  parents = λ (path : String). "/" ∷ [];
  lexists = λ (path : String). true;
  samefile = λ (left right : String). some false;
  is_symlink = λ (path : String). false;
  is_file = λ (path : String). true;
}

validate_paths_iff_example :
    (validate_paths paths ("catalog" ∷ "pricing" ∷ []) ≡ passed)
    ↔ AllApart paths ("catalog" ∷ "pricing" ∷ [])
validate_paths_iff_example = validate_paths_iff paths ("catalog" ∷ "pricing" ∷ [])

abbrev sound : String → Answers
sound path = record (sys path) { replace_ok = true }

outputs_pass : check_paths paths outputs ≡ passed
unfolding check_paths validate_paths require_apart_from require_apart resolved same_file
    require_regular_outputs
outputs_pass = refl

writes :
    write_checked_files paths sound outputs disk ≡ ok (returned, (write_files sound outputs disk).1)
unfolding write_checked_files write_files stage_outputs backup_outputs replace_outputs clean_up
    unlink_temporaries unlink_backups check_paths validate_paths require_apart_from require_apart
    resolved same_file require_regular_outputs
writes = refl

write_checked_files-check_example :
    check_files (λ path. true) paths outputs (write_files sound outputs disk).1 ≡ passed
write_checked_files-check_example =
    write_checked_files-check paths paths sound (λ path. true) kind outputs disk
      (write_files sound outputs disk).1 outputs-IsNamed writes outputs_pass (refl, (refl, tt))
