-- ===== src/CatalogSync/Files/Transaction.antt =====
-- write_files as a transaction.
use k8s_stack_tooling.Prelude.{
  String, false, some, List, [], ◌∷◌, ◌≡◌, refl, sym, ◌∙◌, subst, All, All-zip, Bool-cases, inl,
  inr,
}
use k8s_stack_tooling.CatalogSync.Files.{
  Files, Output, Answers, Saved, Progress, stage_outputs, backup_outputs, replace_outputs,
  rollback_outputs, after_replace, after_backup, write_files,
}
use k8s_stack_tooling.CatalogSync.Files.Frames.{
  outputs_of, stage_outputs-frame, backup_outputs-frame, clean_up-frame,
}
use k8s_stack_tooling.CatalogSync.Files.Names.{
  Kind, target, IsNamed, target-NotTemporary, target-NotBackup, temporary-NotBackup, IsRestorable,
  AllStaged,
}
use k8s_stack_tooling.CatalogSync.Files.Steps.{
  stage_outputs-items, stage_outputs-AllStaged, stage_outputs-NotTemporary,
  backup_outputs-IsRestorable, backup_outputs-NotBackup,
}
use k8s_stack_tooling.CatalogSync.Files.Rollback.{replace_outputs-AllWritten}
use k8s_stack_tooling.CatalogSync.Files.Outputs.{of_kinds, clean_up-target}
use k8s_stack_tooling.CatalogSync.Files.Rolled.{
  IsTransaction, replaced_one, after_rollback-IsTransaction,
}

module _ (sys : String → Answers) (kind : String → Kind) where
  module _ (before f : Files) (os : List Saved) (n : IsNamed kind (outputs_of os))
      (r : All (IsRestorable before f) os)
      (same : (q : String) → kind q ≡ target → f q ≡ before q) where
    after_replace-IsTransaction :
        AllStaged f (outputs_of os)
        → IsTransaction kind before
            (outputs_of os)
            (after_replace sys (outputs_of os) os (replace_outputs sys os f))
    after_replace-IsTransaction staged = elim (Bool-cases (replace_outputs sys os f).whole) [
      | inl whole ↦ rw whole (
        All-zip
            (λ (o : Output) (t : kind o.destination ≡ target)
                (e : (replace_outputs sys os f).files o.destination ≡ some o.content).
              clean_up-target sys kind o.destination false os (replace_outputs sys os f).files t n
              ∙ e)
            (outputs_of os)
            (of_kinds sys kind (λ (o : Output). kind o.destination ≡ target) (outputs_of os)
              (λ o d z. d) n)
            (replace_outputs-AllWritten sys kind os f n staged whole),
        λ q t nd.
            clean_up-target sys kind q false os (replace_outputs sys os f).files t n
            ∙ replaced_one sys kind before f os n r same q t nd,
      )
      | inr broken ↦ rw broken (
          after_rollback-IsTransaction sys kind before f os n r same
            (rollback_outputs sys (replace_outputs sys os f).items (replace_outputs sys os f).files)
            refl)
    ]

  after_backup-IsTransaction :
      (before f : Files) (os : List Output)
      → IsNamed kind os
      → AllStaged f os
      → ((q : String) → kind q ≡ target → f q ≡ before q)
      → IsTransaction kind before os (after_backup sys os (backup_outputs sys os f))
  after_backup-IsTransaction before f os n staged same =
      elim (Bool-cases (backup_outputs sys os f).whole) [
        | inl whole ↦
            let (r, e) =
              backup_outputs-IsRestorable sys kind before f os n
                (of_kinds sys kind (λ (o : Output). f o.destination ≡ before o.destination) os
                  (λ o d z. same o.destination d) n)
                whole in
            rw whole (
              subst
                (λ (l : List Output).
                  IsTransaction kind before l
                    (after_replace sys l b.items (replace_outputs sys b.items b.files)))
                e
                (after_replace-IsTransaction before b.files b.items (subst (IsNamed kind) (sym e) n)
                  r
                  (λ q t.
                    backup_outputs-frame sys q os f (target-NotBackup kind q os t n) ∙ same q t)
                  (subst (AllStaged b.files) (sym e) (still_staged os n staged))))
        | inr broken ↦ rw broken (λ q t.
            clean_up-frame sys q false os b.items b.files (target-NotTemporary kind q os t n)
              (backup_outputs-NotBackup sys kind q os f (target-NotBackup kind q os t n))
            ∙ backup_outputs-frame sys q os f (target-NotBackup kind q os t n)
            ∙ same q t)
      ]
    where
      b : Progress Saved
      b = backup_outputs sys os f

      still_staged :
          (l : List Output)
          → IsNamed kind l
          → AllStaged f l
          → AllStaged (backup_outputs sys os f).files l
      still_staged [] m h = tt
      still_staged (o ∷ l) (d, x, z, nd, nt, nb, m) (e, h) = (
        backup_outputs-frame sys o.temporary os f (temporary-NotBackup kind o.temporary os x n) ∙ e,
        still_staged l m h,
      )

-- If the names that mkstemp gives are no outputs, and all these names differ: when the body of
-- write_files returns, each output has its content whole; when it raises after a rollback that went
-- through, no output has changed; after a rollback that failed, what each output held is under its
-- name or under its backup. No other name has changed in any case.
pub write_files-IsTransaction :
    (sys : String → Answers) (kind : String → Kind) (os : List Output) (fs : Files)
    → IsNamed kind os
    → IsTransaction kind fs os (write_files sys os fs)
unfolding write_files
write_files-IsTransaction sys kind os fs n = elim (Bool-cases s.whole) [
  | inr broken ↦ rw broken (λ q t.
      clean_up-frame sys q false s.items [] s.files
        (stage_outputs-NotTemporary sys kind q os fs (target-NotTemporary kind q os t n)) tt
      ∙ stage_outputs-frame sys q os fs (target-NotTemporary kind q os t n))
  | inl whole ↦ rw whole (
      subst
        (λ (l : List Output).
          IsTransaction kind fs os (after_backup sys l (backup_outputs sys l s.files)))
        (sym (stage_outputs-items sys kind os fs whole))
        (after_backup-IsTransaction sys kind fs s.files os n
          (stage_outputs-AllStaged sys kind os fs n whole)
          (λ q t. stage_outputs-frame sys q os fs (target-NotTemporary kind q os t n))))
]
  where
    s : Progress Output
    s = stage_outputs sys os fs
