-- ===== src/CatalogSync/Files/Steps.antt =====
-- What the loops of write_files reach: staged contents, backups, and the prefix that was replaced.
use k8s_stack_tooling.Prelude.{
  String, true, false, Option, none, some, List, [], ◌∷◌, ◌≡◌, ◌≢◌, refl, sym, ap, ◌∙◌, subst,
  arith, ◌&&◌, is_some, All, Bool-cases, inl, inr,
}
use k8s_stack_tooling.CatalogSync.Files.{
  Bytes, Files, put, move, Output, Answers, Saved, Progress, stage_outputs, backup_outputs,
  replace_outputs, is_staged, with_item,
}
use k8s_stack_tooling.CatalogSync.Files.Frames.{
  put-other, put-same, move-other, NotTemporary, NotBackup, NotDestination, outputs_of,
  stage_outputs-frame, backup_outputs-frame,
}
use k8s_stack_tooling.CatalogSync.Files.Names.{
  Kind, target, IsNamed, bytes_eq_sound, ne_of_kind, backup-NotDestination, IsRestorable,
  AllAsBefore, AllStaged,
}

module _ (sys : String → Answers) (kind : String → Kind) where
  pub stage_outputs-items :
      (os : List Output) (fs : Files)
      → (stage_outputs sys os fs).whole ≡ true
      → (stage_outputs sys os fs).items ≡ os
  unfolding stage_outputs
  stage_outputs-items [] fs h = refl
  stage_outputs-items (o ∷ os) fs h =
      ground (arith, stage_outputs-items os (put fs o.temporary (some (sys o.destination).landed)))

  pub stage_outputs-AllStaged :
      (os : List Output) (fs : Files)
      → IsNamed kind os
      → (stage_outputs sys os fs).whole ≡ true
      → AllStaged (stage_outputs sys os fs).files os
  unfolding stage_outputs
  stage_outputs-AllStaged [] fs n h = tt
  stage_outputs-AllStaged (o ∷ os) fs (d, x, b, nd, nt, nb, n) h =
      elim (Bool-cases ((sys o.destination).mkdir_ok && (sys o.destination).mkstemp_ok)) [
        | inr bad ↦ cc (rw bad at h)
        | inl good ↦ elim (Bool-cases (is_staged sys o)) [
          | inr broken ↦ cc (rw (good, broken) at h)
          | inl fine ↦
              let f = put fs o.temporary (some (sys o.destination).landed) in
              let same : stage_outputs sys (o ∷ os) fs ≡ with_item o (stage_outputs sys os f) =
                rw (good, fine) refl in
              subst (λ (p : Progress Output). AllStaged p.files (o ∷ os)) (sym same)
                (
                  stage_outputs-frame sys o.temporary os f nt
                      ∙ put-same fs o.temporary (some (sys o.destination).landed)
                      ∙ ap some
                          (bytes_eq_sound (sys o.destination).landed o.content (ground arith)),
                  stage_outputs-AllStaged os f n (rw (good, fine) at h),
                )
        ]
      ]

  pub stage_outputs-NotTemporary :
      (q : String) (os : List Output) (fs : Files)
      → NotTemporary q os
      → NotTemporary q (stage_outputs sys os fs).items
  unfolding stage_outputs
  stage_outputs-NotTemporary q [] fs n = tt
  stage_outputs-NotTemporary q (o ∷ os) fs (ne, n) =
      let rest =
        stage_outputs-NotTemporary q os (put fs o.temporary (some (sys o.destination).landed)) n in
      elim (Bool-cases ((sys o.destination).mkdir_ok && (sys o.destination).mkstemp_ok)) [
        | inr bad ↦ rw bad tt
        | inl good ↦ elim (Bool-cases (is_staged sys o)) [
          | inr broken ↦ rw (good, broken) (ne, tt)
          | inl fine ↦ rw (good, fine) (ne, rest)
        ]
      ]

  AllAsBefore-put :
      (before fs : Files) (path : String) (f : Option Bytes) (os : List Output)
      → NotDestination path os
      → AllAsBefore before fs os
      → AllAsBefore before (put fs path f) os
  AllAsBefore-put before fs path f [] n h = tt
  AllAsBefore-put before fs path f (o ∷ os) (ne, n) (e, h) = (
    put-other fs path o.destination f (λ x. ne (sym x)) ∙ e,
    AllAsBefore-put before fs path f os n h,
  )

  pub backup_outputs-IsRestorable :
      (before fs : Files) (os : List Output)
      → IsNamed kind os
      → AllAsBefore before fs os
      → (backup_outputs sys os fs).whole ≡ true
      → All (IsRestorable before (backup_outputs sys os fs).files) (backup_outputs sys os fs).items
        × (outputs_of (backup_outputs sys os fs).items ≡ os)
  unfolding backup_outputs
  backup_outputs-IsRestorable before fs [] n same h = (tt, refl)
  backup_outputs-IsRestorable before fs (o ∷ os) (d, x, b, nd, nt, nb, n) (e, same) h =
      elim (Bool-cases (is_some (fs o.destination))) [
        | inr bare ↦
            let (ih, items) = backup_outputs-IsRestorable before fs os n same (rw bare at h) in
            rw bare ((sym e ∙ none_of (fs o.destination) bare, ih), ap (λ t. o ∷ t) items)
        | inl old ↦ elim (Bool-cases (sys o.destination).backup_ok) [
          | inr bad ↦ cc (rw (old, bad) at h)
          | inl good ↦ elim (Bool-cases (sys o.destination).copy_ok) [
            | inr broken ↦ cc (rw (old, good, broken) at h)
            | inl fine ↦
                let f = put fs o.backup (fs o.destination) in
                let step : backup_outputs sys (o ∷ os) fs
                    ≡ with_item (o, true) (backup_outputs sys os f) =
                  rw (old, good, fine) refl in
                let (ih, items) =
                  backup_outputs-IsRestorable before f os n
                    (AllAsBefore-put before fs o.backup (fs o.destination) os
                      (backup-NotDestination kind o.backup os b n) same)
                    (rw (old, good, fine) at h) in
                subst
                  (λ (p : Progress Saved).
                    All (IsRestorable before p.files) p.items × (outputs_of p.items ≡ o ∷ os))
                  (sym step)
                  (
                    (
                      (
                        backup_outputs-frame sys o.backup os f nb
                            ∙ put-same fs o.backup (fs o.destination)
                            ∙ e,
                        rw (sym e) old,
                      ),
                      ih,
                    ),
                    ap (λ t. o ∷ t) items,
                  )
          ]
        ]
      ]
    where
      none_of : (f : Option Bytes) → is_some f ≡ false → f ≡ none
      none_of none z = refl
      none_of (some c) z = cc

  -- The names of the outputs that `replaced` holds are those of a prefix.
  pub All-items :
      (P : Saved → Type 0) (os : List Saved) (fs : Files)
      → All P os
      → All P (replace_outputs sys os fs).items
  unfolding replace_outputs
  All-items P [] fs h = tt
  All-items P ((o, b) ∷ os) fs (h, hs) = elim (Bool-cases (sys o.destination).replace_ok) [
    | inl good ↦ rw good (h, All-items P os (move fs o.temporary o.destination) hs)
    | inr bad ↦ rw bad (h, tt)
  ]

  All-outputs_of :
      (P : Output → Type 0) (os : List Saved)
      → All P (outputs_of os)
      → All (λ (s : Saved). P s.0) os
  All-outputs_of P [] h = tt
  All-outputs_of P ((o, b) ∷ os) (h, hs) = (h, All-outputs_of P os hs)

  outputs_of-All :
      (P : Output → Type 0) (os : List Saved)
      → All (λ (s : Saved). P s.0) os
      → All P (outputs_of os)
  outputs_of-All P [] h = tt
  outputs_of-All P ((o, b) ∷ os) (h, hs) = (h, outputs_of-All P os hs)

  pub All-outputs_of-items :
      (P : Output → Type 0) (os : List Saved) (fs : Files)
      → All P (outputs_of os)
      → All P (outputs_of (replace_outputs sys os fs).items)
  All-outputs_of-items P os fs h =
      outputs_of-All P (replace_outputs sys os fs).items
        (All-items (λ (s : Saved). P s.0) os fs (All-outputs_of P os h))

  pub items-IsNamed :
      (os : List Saved) (fs : Files)
      → IsNamed kind (outputs_of os)
      → IsNamed kind (outputs_of (replace_outputs sys os fs).items)
  unfolding replace_outputs
  items-IsNamed [] fs n = tt
  items-IsNamed ((o, b) ∷ os) fs (d, x, z, nd, nt, nb, n) =
      let f = move fs o.temporary o.destination in
      elim (Bool-cases (sys o.destination).replace_ok) [
        | inr bad ↦ rw bad (d, x, z, tt, tt, tt, tt)
        | inl good ↦ rw good (
          d,
          x,
          z,
          All-outputs_of-items (λ (p : Output). o.destination ≢ p.destination) os f nd,
          All-outputs_of-items (λ (p : Output). o.temporary ≢ p.temporary) os f nt,
          All-outputs_of-items (λ (p : Output). o.backup ≢ p.backup) os f nb,
          items-IsNamed os f n,
        )
      ]

  -- A target that is not among the replaced ones is as it was.
  pub replace_outputs-items :
      (q : String) (os : List Saved) (fs : Files)
      → kind q ≡ target
      → IsNamed kind (outputs_of os)
      → NotDestination q (outputs_of (replace_outputs sys os fs).items)
      → (replace_outputs sys os fs).files q ≡ fs q
  unfolding replace_outputs
  replace_outputs-items q [] fs t n h = refl
  replace_outputs-items q ((o, b) ∷ os) fs t (d, x, z, nd, nt, nb, n) h =
      elim (Bool-cases (sys o.destination).replace_ok) [
        | inr bad ↦ rw bad refl
        | inl good ↦
            let (ne, rest) = rw good at h in
            rw good (
              replace_outputs-items q os (move fs o.temporary o.destination) t n rest
              ∙ move-other fs o.temporary o.destination q
                  (ne_of_kind kind q o.temporary _ _ t x (λ e. cc)) ne)
      ]

  pub backup_outputs-NotBackup :
      (q : String) (os : List Output) (fs : Files)
      → NotBackup q os
      → NotBackup q (outputs_of (backup_outputs sys os fs).items)
  unfolding backup_outputs
  backup_outputs-NotBackup q [] fs n = tt
  backup_outputs-NotBackup q (o ∷ os) fs (ne, n) = elim (Bool-cases (is_some (fs o.destination))) [
    | inr bare ↦ rw bare (ne, backup_outputs-NotBackup q os fs n)
    | inl old ↦ elim (Bool-cases (sys o.destination).backup_ok) [
      | inr bad ↦ rw (old, bad) tt
      | inl good ↦ elim (Bool-cases (sys o.destination).copy_ok) [
        | inr broken ↦ rw (old, good, broken) (ne, tt)
        | inl fine ↦
            rw (old, good, fine)
              (ne, backup_outputs-NotBackup q os (put fs o.backup (fs o.destination)) n)
      ]
    ]
  ]
