-- ===== src/CatalogSync/Files/Rolled.antt =====
-- write_files: what its rollback leaves behind.
use k8s_stack_tooling.Prelude.{
  String, Bool, true, false, List, ◌≡◌, ◌≢◌, refl, ◌∙◌, subst, All, All-zip, inl, inr,
}
use k8s_stack_tooling.CatalogSync.Files.{
  Files, Output, Answers, Saved, replace_outputs, rollback_outputs, clean_up, returned, rolled_back,
  rollback_failed, Outcome, after_rollback,
}
use k8s_stack_tooling.CatalogSync.Files.Frames.{
  NotDestination, outputs_of, replace_outputs-frame, rollback_outputs-frame, clean_up-kept,
}
use k8s_stack_tooling.CatalogSync.Files.Names.{
  Kind, target, backup, IsNamed, target-NotTemporary, target-NotBackup, backup-NotTemporary,
  backup-NotDestination, IsRestorable, AllAsBefore, NotLost, AllWritten,
}
use k8s_stack_tooling.CatalogSync.Files.Steps.{
  All-items, All-outputs_of-items, items-IsNamed, replace_outputs-items,
}
use k8s_stack_tooling.CatalogSync.Files.Rollback.{
  rollback_outputs-AllAsBefore, rollback_outputs-NotLost, NotLost-frame,
}
use k8s_stack_tooling.CatalogSync.Files.Outputs.{
  of_kinds, split_items, output_or_not, All-IsRestorable, clean_up-target,
}

-- What write_files leaves behind, by how its body ended. `returned`: every output has its content,
-- and no other name has changed. `rolled_back`: no name has changed. `rollback_failed`: what an
-- output held is under its name or under its backup, and no other name has changed. The names are
-- those that mkstemp has not given.
abbrev pub IsTransaction : (String → Kind) → Files → List Output → Outcome → Type 0
IsTransaction kind before os (returned, fs) =
    AllWritten fs os × ((q : String) → kind q ≡ target → NotDestination q os → fs q ≡ before q)
IsTransaction kind before os (rolled_back, fs) = (q : String) → kind q ≡ target → fs q ≡ before q
IsTransaction kind before os (rollback_failed, fs) =
    All (NotLost before fs) os
    × ((q : String) → kind q ≡ target → NotDestination q os → fs q ≡ before q)

module _ (sys : String → Answers) (kind : String → Kind) where
  module _ (before f : Files) (os : List Saved) (n : IsNamed kind (outputs_of os))
      (r : All (IsRestorable before f) os)
      (same : (q : String) → kind q ≡ target → f q ≡ before q) where
    pub replaced_one :
        (q : String)
        → kind q ≡ target
        → NotDestination q (outputs_of os)
        → (replace_outputs sys os f).files q ≡ before q
    replaced_one q t nd =
        replace_outputs-frame sys q os f (target-NotTemporary kind q (outputs_of os) t n) nd
        ∙ same q t

    items-IsRestorable :
        All (IsRestorable before (replace_outputs sys os f).files) (replace_outputs sys os f).items
    items-IsRestorable =
        All-items sys kind (IsRestorable before (replace_outputs sys os f).files) os f (
          All-IsRestorable sys kind before f (replace_outputs sys os f).files os
            (λ q z.
              replace_outputs-frame sys q os f (backup-NotTemporary kind q (outputs_of os) z n)
                (backup-NotDestination kind q (outputs_of os) z n))
            n r)

    -- A target that the rollback does not put back is one that was not replaced.
    rolled_other :
        (q : String)
        → kind q ≡ target
        → NotDestination q (outputs_of (replace_outputs sys os f).items)
        → (rollback_outputs sys (replace_outputs sys os f).items (replace_outputs sys os f).files).1
            q
          ≡ before q
    rolled_other q t nd =
        rollback_outputs-frame sys q (replace_outputs sys os f).items
          (replace_outputs sys os f).files
          (target-NotBackup kind q (outputs_of (replace_outputs sys os f).items) t
            (items-IsNamed sys kind os f n))
          nd
        ∙ replace_outputs-items sys kind q os f t n nd
        ∙ same q t

    -- The end of write_files, when the backups are made.
    pub after_rollback-IsTransaction :
        (p : Bool × Files)
        → rollback_outputs sys (replace_outputs sys os f).items (replace_outputs sys os f).files ≡ p
        → IsTransaction kind before (outputs_of os) (after_rollback sys (outputs_of os) os p)
    after_rollback-IsTransaction (true, g) e =
        λ q t. clean_up-target sys kind q false os g t n ∙ back q t
      where
        named : IsNamed kind (outputs_of (replace_outputs sys os f).items)
        named = items-IsNamed sys kind os f n

        all_back : AllAsBefore before g (outputs_of (replace_outputs sys os f).items)
        all_back =
            subst
              (λ (x : Bool × Files).
                AllAsBefore before x.1 (outputs_of (replace_outputs sys os f).items))
              e
              (rollback_outputs-AllAsBefore sys kind before (replace_outputs sys os f).files
                (replace_outputs sys os f).items named items-IsRestorable (rw e refl))

        back : (q : String) → kind q ≡ target → g q ≡ before q
        back q t =
            elim (output_or_not sys kind q (outputs_of (replace_outputs sys os f).items) before g
              all_back) [
                | inl same_as ↦ same_as
                | inr other ↦
                    subst (λ (x : Bool × Files). x.1 q ≡ before q) e (rolled_other q t other)
              ]
    after_rollback-IsTransaction (false, g) e = (
      split_items sys kind (NotLost before kept) os f n
          (All-zip
            (λ (o : Output)
                (a : (kept o.destination ≡ g o.destination) × (kept o.backup ≡ g o.backup))
                (m : NotLost before g o).
              NotLost-frame sys kind before kept g o a.0 a.1 m)
            (outputs_of items)
            (of_kinds sys kind
              (λ (o : Output).
                (kept o.destination ≡ g o.destination) × (kept o.backup ≡ g o.backup))
              (outputs_of items) (λ o d z. (kept_target o.destination d, kept_backup o.backup z))
              named)
            lost)
          (of_kinds sys kind
            (λ (o : Output).
              NotDestination o.destination (outputs_of items) → NotLost before kept o)
            (outputs_of os)
            (λ o d z m. inl (kept_target o.destination d ∙ rolled o.destination d m)) n),
      λ q t nd.
          kept_target q t
          ∙ rolled q t (All-outputs_of-items sys kind (λ (o : Output). q ≢ o.destination) os f nd),
    )
      where
        items : List Saved
        items = (replace_outputs sys os f).items

        kept : Files
        kept = clean_up sys true (outputs_of os) os g

        named : IsNamed kind (outputs_of (replace_outputs sys os f).items)
        named = items-IsNamed sys kind os f n

        kept_target :
            (q : String) → kind q ≡ target → clean_up sys true (outputs_of os) os g q ≡ g q
        kept_target q t =
            clean_up-kept sys q (outputs_of os) os g
              (target-NotTemporary kind q (outputs_of os) t n)

        kept_backup :
            (q : String) → kind q ≡ backup → clean_up sys true (outputs_of os) os g q ≡ g q
        kept_backup q z =
            clean_up-kept sys q (outputs_of os) os g
              (backup-NotTemporary kind q (outputs_of os) z n)

        rolled :
            (q : String)
            → kind q ≡ target
            → NotDestination q (outputs_of (replace_outputs sys os f).items)
            → g q ≡ before q
        rolled q t m = subst (λ (x : Bool × Files). x.1 q ≡ before q) e (rolled_other q t m)

        lost : All (NotLost before g) (outputs_of (replace_outputs sys os f).items)
        lost =
            subst
              (λ (x : Bool × Files).
                All (NotLost before x.1) (outputs_of (replace_outputs sys os f).items))
              e
              (rollback_outputs-NotLost sys kind before (replace_outputs sys os f).files
                (replace_outputs sys os f).items (items-IsNamed sys kind os f n) items-IsRestorable)
