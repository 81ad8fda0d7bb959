-- ===== src/CatalogSync/Files/Rollback.antt =====
-- What the replacement and the rollback of write_files reach.
use k8s_stack_tooling.Prelude.{
  String, Bool, true, false, Option, none, some, List, [], ◌∷◌, ◌≡◌, ◌≢◌, ◌⊎◌, refl, sym, ◌∙◌,
  subst, arith, is_some, All, All-zip, Bool-cases, inl, inr,
}
use k8s_stack_tooling.CatalogSync.Files.{
  Bytes, Files, move, Output, Answers, Saved, Progress, replace_outputs, restore, rollback_outputs,
  with_item,
}
use k8s_stack_tooling.CatalogSync.Files.Frames.{
  put-same, move-other, move-target, NotTemporary, outputs_of, replace_outputs-frame, restore-frame,
  rollback_outputs-frame,
}
use k8s_stack_tooling.CatalogSync.Files.Names.{
  Kind, target, backup, IsNamed, ne_of_kind, target-NotTemporary, backup-NotDestination,
  IsRestorable, AllAsBefore, NotLost, AllStaged, AllWritten,
}

-- A step of the rollback has put the output back, or has failed and changed nothing.
abbrev pub Own : Files → Output → Bool × Files → Bool × Files → Type 0
Own before o (fine, fs) (fine', fs') =
    ((fine' ≡ fine) × (fs' o.destination ≡ before o.destination)) ⊎ ((fine' ≡ false) × (fs' ≡ fs))

module _ (sys : String → Answers) (kind : String → Kind) where
  -- Every output has its content once all are replaced.
  AllStaged-move :
      (fs : Files) (source path : String) (os : List Output)
      → NotTemporary source os
      → NotTemporary path os
      → AllStaged fs os
      → AllStaged (move fs source path) os
  AllStaged-move fs source path [] a b h = tt
  AllStaged-move fs source path (o ∷ os) (a, ps) (b, qs) (e, h) = (
    move-other fs source path o.temporary (λ x. a (sym x)) (λ x. b (sym x)) ∙ e,
    AllStaged-move fs source path os ps qs h,
  )

  pub replace_outputs-AllWritten :
      (os : List Saved) (fs : Files)
      → IsNamed kind (outputs_of os)
      → AllStaged fs (outputs_of os)
      → (replace_outputs sys os fs).whole ≡ true
      → AllWritten (replace_outputs sys os fs).files (outputs_of os)
  unfolding replace_outputs
  replace_outputs-AllWritten [] fs n s h = tt
  replace_outputs-AllWritten ((o, b) ∷ os) fs (d, x, z, nd, nt, nb, n) (e, s) h =
      elim (Bool-cases (sys o.destination).replace_ok) [
        | inr bad ↦ cc
        | inl good ↦
            let f = move fs o.temporary o.destination in
            let step : replace_outputs sys ((o, b) ∷ os) fs
                ≡ with_item (o, b) (replace_outputs sys os f) =
              rw good refl in
            subst (λ (p : Progress Saved). AllWritten p.files (o ∷ outputs_of os)) (sym step)
              (
                replace_outputs-frame sys o.destination os f
                      (target-NotTemporary kind o.destination (outputs_of os) d n) nd
                    ∙ move-target fs o.temporary o.destination
                        (ne_of_kind kind o.destination o.temporary _ _ d x (λ e. cc))
                    ∙ e,
                replace_outputs-AllWritten os f n
                    (AllStaged-move fs o.temporary o.destination (outputs_of os) nt
                      (target-NotTemporary kind o.destination (outputs_of os) d n) s)
                    (rw good at h),
              )
      ]

  -- What `restore` does to its own output.
  restore-Own :
      (before fs : Files) (o : Output) (b fine : Bool)
      → kind o.destination ≡ target
      → kind o.backup ≡ backup
      → IsRestorable before fs (o, b)
      → Own before o (fine, fs) (restore sys (o, b) (fine, fs))
  restore-Own before fs o true fine d z (copy, old) =
      let here : is_some (fs o.backup) ≡ true = rw copy old in
      elim (Bool-cases (sys o.destination).restore_ok) [
        | inl good ↦ inl (
          rw (here, good) refl,
          rw (here, good)
              (move-target fs o.backup o.destination
                  (ne_of_kind kind o.destination o.backup _ _ d z (λ e. cc))
                ∙ copy),
        )
        | inr bad ↦ inr (rw (here, bad) refl, rw (here, bad) refl)
      ]
  restore-Own before fs o false fine d z nothing = elim (Bool-cases (is_some (fs o.destination))) [
    | inr gone ↦ inl (rw gone refl, rw gone (none_of (fs o.destination) gone ∙ sym nothing))
    | inl here ↦ elim (Bool-cases (sys o.destination).restore_ok) [
      | inl good ↦
          inl (rw (here, good) refl, rw (here, good) (put-same fs o.destination none ∙ sym nothing))
      | inr bad ↦ inr (rw (here, bad) refl, rw (here, bad) refl)
    ]
  ]
    where
      none_of : (f : Option Bytes) → is_some f ≡ false → f ≡ none
      none_of none e = refl
      none_of (some c) e = cc

  restore_fine :
      (o : Output) (b fine : Bool) (fs : Files)
      → (restore sys (o, b) (fine, fs)).0 ≡ true
      → fine ≡ true
  restore_fine o b fine fs h = ground arith

  -- The names of the other output are not those of this one.
  abbrev pub Apart : Output → Output → Type 0
  Apart o p =
      (p.destination ≢ o.backup)
      × (p.destination ≢ o.destination)
      × (p.backup ≢ o.backup)
      × (p.backup ≢ o.destination)

  pub others : (o : Output) (os : List Output) → IsNamed kind (o ∷ os) → All (Apart o) os
  others o [] n = tt
  others o (p ∷ os) (d, x, z, (nd, nds), (nt, nts), (nb, nbs), (pd, px, pz, pnd, pnt, pnb, n)) = (
    (
      ne_of_kind kind p.destination o.backup _ _ pd z (λ e. cc),
      λ e. nd (sym e),
      λ e. nb (sym e),
      ne_of_kind kind p.backup o.destination _ _ pz d (λ e. cc),
    ),
    others o os (d, x, z, nds, nts, nbs, n),
  )

  pub keeps_backup :
      (before f g : Files) (o : Output) (b : Bool)
      → f o.backup ≡ g o.backup
      → IsRestorable before g (o, b)
      → IsRestorable before f (o, b)
  keeps_backup before f g o true e (copy, old) = (e ∙ copy, old)
  keeps_backup before f g o false e nothing = nothing

  -- The first of the list still has its backup once the later ones are restored.
  IsRestorable-first :
      (before fs : Files) (o : Output) (b : Bool) (os : List Saved)
      → IsNamed kind (o ∷ outputs_of os)
      → IsRestorable before fs (o, b)
      → IsRestorable before (rollback_outputs sys os fs).1 (o, b)
  IsRestorable-first before fs o b os (d, x, z, nd, nt, nb, n) r =
      keeps_backup before (rollback_outputs sys os fs).1 fs o b
        (rollback_outputs-frame sys o.backup os fs nb
          (backup-NotDestination kind o.backup (outputs_of os) z n))
        r

  -- A rollback that went through has put every output back.
  pub rollback_outputs-AllAsBefore :
      (before fs : Files) (os : List Saved)
      → IsNamed kind (outputs_of os)
      → All (IsRestorable before fs) os
      → (rollback_outputs sys os fs).0 ≡ true
      → AllAsBefore before (rollback_outputs sys os fs).1 (outputs_of os)
  unfolding rollback_outputs
  rollback_outputs-AllAsBefore before fs [] n r h = tt
  rollback_outputs-AllAsBefore before fs ((o, b) ∷ os) (d, x, z, nd, nt, nb, n) (r, rs) h =
      let (fine, f) = rollback_outputs sys os fs in
      let ih = rollback_outputs-AllAsBefore before fs os n rs (restore_fine o b fine f h) in
      (
        own (
            restore-Own before f o b fine d z
              (IsRestorable-first before fs o b os (d, x, z, nd, nt, nb, n) r)),
        All-zip
            (λ (p : Output) (a : Apart o p) e.
              restore-frame sys p.destination o b fine f a.0 a.1 ∙ e)
            (outputs_of os) (others o (outputs_of os) (d, x, z, nd, nt, nb, n)) ih,
      )
    where
      own :
          Own before o
            (rollback_outputs sys os fs)
            (restore sys (o, b) (rollback_outputs sys os fs))
          → (restore sys (o, b) (rollback_outputs sys os fs)).1 o.destination ≡ before o.destination
      own (inl (a, e)) = e
      own (inr (a, e)) = cc

  pub NotLost-frame :
      (before f g : Files) (o : Output)
      → f o.destination ≡ g o.destination
      → f o.backup ≡ g o.backup
      → NotLost before g o
      → NotLost before f o
  NotLost-frame before f g o d b (inl e) = inl (d ∙ e)
  NotLost-frame before f g o d b (inr (inl e)) = inr (inl (b ∙ e))
  NotLost-frame before f g o d b (inr (inr e)) = inr (inr e)

  restorable-NotLost :
      (before f : Files) (o : Output) (b : Bool) → IsRestorable before f (o, b) → NotLost before f o
  restorable-NotLost before f o true (copy, old) = inr (inl copy)
  restorable-NotLost before f o false nothing = inr (inr nothing)

  pub rollback_outputs-NotLost :
      (before fs : Files) (os : List Saved)
      → IsNamed kind (outputs_of os)
      → All (IsRestorable before fs) os
      → All (NotLost before (rollback_outputs sys os fs).1) (outputs_of os)
  unfolding rollback_outputs
  rollback_outputs-NotLost before fs [] n r = tt
  rollback_outputs-NotLost before fs ((o, b) ∷ os) (d, x, z, nd, nt, nb, n) (r, rs) =
      let (fine, f) = rollback_outputs sys os fs in
      let first = IsRestorable-first before fs o b os (d, x, z, nd, nt, nb, n) r in
      let ih = rollback_outputs-NotLost before fs os n rs in
      (
        own (restore-Own before f o b fine d z first) (restorable-NotLost before f o b first),
        All-zip
            (λ (p : Output) (a : Apart o p) k.
              NotLost-frame before (restore sys (o, b) (fine, f)).1 f p
                (restore-frame sys p.destination o b fine f a.0 a.1)
                (restore-frame sys p.backup o b fine f a.2 a.3) k)
            (outputs_of os) (others o (outputs_of os) (d, x, z, nd, nt, nb, n)) ih,
      )
    where
      own :
          Own before o
            (rollback_outputs sys os fs)
            (restore sys (o, b) (rollback_outputs sys os fs))
          → NotLost before (rollback_outputs sys os fs).1 o
          → NotLost before (restore sys (o, b) (rollback_outputs sys os fs)).1 o
      own (inl (a, e)) k = inl e
      own (inr (a, e)) k = rw e k
