-- ===== src/CatalogSync/Paths/Checks.antt =====
-- sync.py: what check_files accepts, and that it accepts what write_files has written.
use k8s_stack_tooling.Prelude.{
  String, Bool, true, Option, none, some, List, [], ◌∷◌, ◌≡◌, ◌≢◌, ◌↔◌, refl, ap, subst, ◌∙◌, arith,
  Result, ok, >>=-eq_ok, All, All-zip, Bool-cases, inl, inr, value_or,
}
use k8s_stack_tooling.CatalogSync.Files.{
  Bytes, bytes_eq, Files, Output, Answers, Outcome, write_files, returned,
}
use k8s_stack_tooling.CatalogSync.Files.Names.{Kind, IsNamed, bytes_eq_sound}
use k8s_stack_tooling.CatalogSync.Files.Rolled.{IsTransaction}
use k8s_stack_tooling.CatalogSync.Files.Transaction.{write_files-IsTransaction}
use k8s_stack_tooling.CatalogSync.Paths.{
  PathSystem, PathError, Mismatch, passed, check_paths, compare_output, find_mismatches, report,
  with_mismatch, check_files, write_checked_files,
}

bytes_eq_refl : (a : Bytes) → bytes_eq a a ≡ true
bytes_eq_refl [] = refl
bytes_eq_refl (x ∷ xs) = ground (arith, bytes_eq_refl xs)

module _ (readable : String → Bool) where
  -- The content of an output is there and can be read.
  abbrev IsUpToDate : Files → Output → Type 0
  IsUpToDate fs o = (readable o.destination ≡ true) × (fs o.destination ≡ some o.content)

  with_mismatch-some :
      (x : Mismatch) (rest : Result PathError (List Mismatch))
      → with_mismatch readable x rest ≢ ok []
  with_mismatch-some x rest h = let (xs, e, same) = >>=-eq_ok rest _ h in cc same

  compare_output_iff :
      (o : Output) (file : Option Bytes) (rest : Result PathError (List Mismatch))
      → (compare_output readable o file rest ≡ ok [])
        ↔ (((readable o.destination ≡ true) × (file ≡ some o.content)) × (rest ≡ ok []))
  compare_output_iff o none rest = (λ h. absurd (with_mismatch-some _ rest h), λ ((r, e), h). cc)
  compare_output_iff o (some actual) rest = (
    λ h. elim (Bool-cases (readable o.destination)) [
      | inr refused ↦ cc (rw refused at h)
      | inl may ↦ elim (Bool-cases (bytes_eq actual o.content)) [
        | inl same ↦ ((may, ap some (bytes_eq_sound actual o.content same)), rw (may, same) at h)
        | inr other ↦ absurd (with_mismatch-some _ rest (rw (may, other) at h))
      ]
    ],
    λ ((r, e), h).
        let same : bytes_eq actual o.content ≡ true =
          ap (λ (x : Option Bytes). bytes_eq (value_or actual x) o.content) e
          ∙ bytes_eq_refl o.content in
        rw (r, same) h,
  )

  find_mismatches_iff :
      (os : List Output) (fs : Files)
      → (find_mismatches readable os fs ≡ ok []) ↔ All (IsUpToDate fs) os
  unfolding find_mismatches
  find_mismatches_iff [] fs = (λ h. tt, λ h. refl)
  find_mismatches_iff (o ∷ os) fs =
      let first = compare_output_iff o (fs o.destination) (find_mismatches readable os fs) in
      let rest = find_mismatches_iff os fs in
      (λ h. let (x, e) = first.0 h in (x, rest.0 e), λ (x, xs). first.1 (x, rest.1 xs))

  -- check_files passes exactly when the paths pass the checks and each output can be read and has its
  -- generated content.
  check_files_iff :
      (sys : PathSystem) (os : List Output) (fs : Files)
      → (check_files readable sys os fs ≡ passed)
        ↔ ((check_paths sys os ≡ passed) × All (IsUpToDate fs) os)
  unfolding check_files
  check_files_iff sys os fs = (
    λ h.
        let (u, checked, h1) = >>=-eq_ok (check_paths sys os) _ h in
        let (found, e, h2) = >>=-eq_ok (find_mismatches readable os fs) _ h1 in
        (checked, (find_mismatches_iff os fs).0 (e ∙ ap ok (nothing found h2))),
    λ (checked, all). rw (checked, (find_mismatches_iff os fs).1 all) refl,
  )
    where
      nothing : (found : List Mismatch) → report readable found ≡ passed → found ≡ []
      nothing [] h = refl
      nothing (x ∷ xs) h = cc

-- What write_files has written when its body returned is what check_files accepts then, if the paths
-- still pass the checks, the outputs can be read, and the names that mkstemp gave are no outputs and
-- all different.
pub write_checked_files-check :
    (before after : PathSystem) (answers : String → Answers) (readable : String → Bool)
    (kind : String → Kind) (os : List Output) (fs fs' : Files)
    → IsNamed kind os
    → write_checked_files before answers os fs ≡ ok (returned, fs')
    → check_paths after os ≡ passed
    → All (λ (o : Output). readable o.destination ≡ true) os
    → check_files readable after os fs' ≡ passed
unfolding write_checked_files
write_checked_files-check before after answers readable kind os fs fs' n h checked may =
    let (u, valid, wrote) = >>=-eq_ok (check_paths before os) _ h in
    let same : write_files answers os fs ≡ (returned, fs') = cc wrote in
    let (written, others) =
      subst (λ (x : Outcome). IsTransaction kind fs os x) same
        (write_files-IsTransaction answers kind os fs n) in
    (check_files_iff readable after os fs').1 (
      checked,
      All-zip
          (λ (o : Output) (r : readable o.destination ≡ true)
              (w : fs' o.destination ≡ some o.content).
            (r, w))
          os may written,
    )
