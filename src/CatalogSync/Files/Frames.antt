-- ===== src/CatalogSync/Files/Frames.antt =====
-- What each loop of write_files leaves alone.
use k8s_stack_tooling.Prelude.{
  String, Bool, true, false, Option, none, some, List, [], ◌∷◌, ◌≡◌, ◌≢◌, refl, ◌∙◌, arith, ◌&&◌,
  is_some, All, str_eq, eq_iff, eq_refl, Bool-cases, inl, inr,
}
use k8s_stack_tooling.CatalogSync.Files.{
  Bytes, Files, put, move, Output, Answers, Saved, stage_outputs, backup_outputs, replace_outputs,
  restore, rollback_outputs, unlink_temporaries, unlink_backups, and_backups, clean_up, is_staged,
}

str_eq-other : {q path : String} → q ≢ path → str_eq q path ≡ false
str_eq-other {q} {path} ne = ground (arith, eq_iff q path)

pub put-other :
    (fs : Files) (path q : String) (f : Option Bytes) → q ≢ path → put fs path f q ≡ fs q
put-other fs path q f ne = rw (str_eq-other ne)

pub put-same : (fs : Files) (path : String) (f : Option Bytes) → put fs path f path ≡ f
put-same fs path f = rw (eq_refl path)

pub move-other :
    (fs : Files) (source target q : String)
    → q ≢ source
    → q ≢ target
    → move fs source target q ≡ fs q
move-other fs source target q ns nt =
    put-other (put fs target (fs source)) source q none ns ∙ put-other fs target q (fs source) nt

pub move-target :
    (fs : Files) (source target : String)
    → target ≢ source
    → move fs source target target ≡ fs source
move-target fs source target ne =
    put-other (put fs target (fs source)) source target none ne ∙ put-same fs target (fs source)

-- The name is no temporary file of these outputs.
abbrev pub NotTemporary : String → List Output → Type 0
NotTemporary q os = All (λ (o : Output). q ≢ o.temporary) os

abbrev pub NotBackup : String → List Output → Type 0
NotBackup q os = All (λ (o : Output). q ≢ o.backup) os

abbrev pub outputs_of : List Saved → List Output
outputs_of [] = []
outputs_of ((o, b) ∷ os) = o ∷ outputs_of os

abbrev pub NotDestination : String → List Output → Type 0
NotDestination q os = All (λ (o : Output). q ≢ o.destination) os

module _ (sys : String → Answers) where
  pub stage_outputs-frame :
      (q : String) (os : List Output) (fs : Files)
      → NotTemporary q os
      → (stage_outputs sys os fs).files q ≡ fs q
  unfolding stage_outputs
  stage_outputs-frame q [] fs n = refl
  stage_outputs-frame q (o ∷ os) fs (ne, n) =
      let w = put-other fs o.temporary q (some (sys o.destination).landed) ne in
      let rest =
        stage_outputs-frame q os (put fs o.temporary (some (sys o.destination).landed)) n in
      elim (Bool-cases ((sys o.destination).mkdir_ok && (sys o.destination).mkstemp_ok)) [
        | inr bad ↦ rw bad refl
        | inl good ↦ elim (Bool-cases (is_staged sys o)) [
          | inr broken ↦ rw (good, broken) w
          | inl fine ↦ rw (good, fine) (rest ∙ w)
        ]
      ]

  pub backup_outputs-frame :
      (q : String) (os : List Output) (fs : Files)
      → NotBackup q os
      → (backup_outputs sys os fs).files q ≡ fs q
  unfolding backup_outputs
  backup_outputs-frame q [] fs n = refl
  backup_outputs-frame q (o ∷ os) fs (ne, n) = elim (Bool-cases (is_some (fs o.destination))) [
    | inr bare ↦ rw bare (backup_outputs-frame q os fs n)
    | inl old ↦ elim (Bool-cases (sys o.destination).backup_ok) [
      | inr bad ↦ rw (old, bad) refl
      | inl good ↦ elim (Bool-cases (sys o.destination).copy_ok) [
        | inr broken ↦
            rw (old, good, broken) (put-other fs o.backup q (some (sys o.destination).copied) ne)
        | inl fine ↦
            rw (old, good, fine)
              (backup_outputs-frame q os (put fs o.backup (fs o.destination)) n
                ∙ put-other fs o.backup q (fs o.destination) ne)
      ]
    ]
  ]

  pub replace_outputs-frame :
      (q : String) (os : List Saved) (fs : Files)
      → NotTemporary q (outputs_of os)
      → NotDestination q (outputs_of os)
      → (replace_outputs sys os fs).files q ≡ fs q
  unfolding replace_outputs
  replace_outputs-frame q [] fs nt nd = refl
  replace_outputs-frame q ((o, b) ∷ os) fs (tne, nt) (dne, nd) =
      elim (Bool-cases (sys o.destination).replace_ok) [
        | inr bad ↦ rw bad refl
        | inl good ↦ rw good (
            replace_outputs-frame q os (move fs o.temporary o.destination) nt nd
            ∙ move-other fs o.temporary o.destination q tne dne)
      ]

  pub restore-frame :
      (q : String) (o : Output) (b fine : Bool) (fs : Files)
      → q ≢ o.backup
      → q ≢ o.destination
      → (restore sys (o, b) (fine, fs)).1 q ≡ fs q
  restore-frame q o true fine fs nb nd = elim (Bool-cases (is_some (fs o.backup))) [
    | inr gone ↦ rw gone refl
    | inl here ↦ elim (Bool-cases (sys o.destination).restore_ok) [
      | inl good ↦ rw (here, good) (move-other fs o.backup o.destination q nb nd)
      | inr bad ↦ rw (here, bad) refl
    ]
  ]
  restore-frame q o false fine fs nb nd = elim (Bool-cases (is_some (fs o.destination))) [
    | inr gone ↦ rw gone refl
    | inl here ↦ elim (Bool-cases (sys o.destination).restore_ok) [
      | inl good ↦ rw (here, good) (put-other fs o.destination q none nd)
      | inr bad ↦ rw (here, bad) refl
    ]
  ]

  pub rollback_outputs-frame :
      (q : String) (os : List Saved) (fs : Files)
      → NotBackup q (outputs_of os)
      → NotDestination q (outputs_of os)
      → (rollback_outputs sys os fs).1 q ≡ fs q
  unfolding rollback_outputs
  rollback_outputs-frame q [] fs nb nd = refl
  rollback_outputs-frame q ((o, b) ∷ os) fs (bne, nb) (dne, nd) =
      restore-frame q o b (rollback_outputs sys os fs).0 (rollback_outputs sys os fs).1 bne dne
      ∙ rollback_outputs-frame q os fs nb nd

  unlink_temporaries-frame :
      (q : String) (os : List Output) (fs : Files)
      → NotTemporary q os
      → (unlink_temporaries sys os fs).1 q ≡ fs q
  unfolding unlink_temporaries
  unlink_temporaries-frame q [] fs n = refl
  unlink_temporaries-frame q (o ∷ os) fs (ne, n) =
      elim (Bool-cases (sys o.destination).unlink_temporary_ok) [
        | inr bad ↦ rw bad refl
        | inl good ↦ rw good (
            unlink_temporaries-frame q os (put fs o.temporary none) n
            ∙ put-other fs o.temporary q none ne)
      ]

  unlink_backups-frame :
      (q : String) (os : List Saved) (fs : Files)
      → NotBackup q (outputs_of os)
      → (unlink_backups sys os fs).1 q ≡ fs q
  unfolding unlink_backups
  unlink_backups-frame q [] fs n = refl
  unlink_backups-frame q ((o, false) ∷ os) fs (ne, n) = unlink_backups-frame q os fs n
  unlink_backups-frame q ((o, true) ∷ os) fs (ne, n) =
      elim (Bool-cases (sys o.destination).unlink_backup_ok) [
        | inr bad ↦ rw bad refl
        | inl good ↦
            rw good
              (unlink_backups-frame q os (put fs o.backup none) n ∙ put-other fs o.backup q none ne)
      ]

  pub clean_up-frame :
      (q : String) (preserve : Bool) (staged : List Output) (backups : List Saved) (fs : Files)
      → NotTemporary q staged
      → NotBackup q (outputs_of backups)
      → clean_up sys preserve staged backups fs q ≡ fs q
  unfolding clean_up
  clean_up-frame q preserve staged backups fs nt nb =
      go preserve (unlink_temporaries sys staged fs) ∙ unlink_temporaries-frame q staged fs nt
    where
      go : (p : Bool) (s : Bool × Files) → and_backups sys p backups s q ≡ s.1 q
      go p (false, f) = refl
      go true (true, f) = refl
      go false (true, f) = unlink_backups-frame q backups f nb

  -- With `preserve_backups` only the temporary files go.
  pub clean_up-kept :
      (q : String) (staged : List Output) (backups : List Saved) (fs : Files)
      → NotTemporary q staged
      → clean_up sys true staged backups fs q ≡ fs q
  unfolding clean_up
  clean_up-kept q staged backups fs nt =
      go (unlink_temporaries sys staged fs) ∙ unlink_temporaries-frame q staged fs nt
    where
      go : (s : Bool × Files) → and_backups sys true backups s q ≡ s.1 q
      go (false, f) = refl
      go (true, f) = refl
