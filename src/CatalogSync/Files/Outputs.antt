-- ===== src/CatalogSync/Files/Outputs.antt =====
-- sync.py: what holds of every output of write_files once its loops are done.
use k8s_stack_tooling.Prelude.{
  String, Bool, List, [], ◌∷◌, ◌≡◌, ◌⊎◌, refl, sym, ◌∙◌, subst, All, str_eq, eq_iff, Bool-cases,
  inl, inr,
}
use k8s_stack_tooling.CatalogSync.Files.{
  Files, move, Output, Answers, Saved, Progress, replace_outputs, clean_up, stopped, with_item,
}
use k8s_stack_tooling.CatalogSync.Files.Frames.{NotDestination, outputs_of, clean_up-frame}
use k8s_stack_tooling.CatalogSync.Files.Names.{
  Kind, target, backup, IsNamed, target-NotTemporary, target-NotBackup, IsRestorable, AllAsBefore,
}
use k8s_stack_tooling.CatalogSync.Files.Rollback.{keeps_backup}

module _ (sys : String → Answers) (kind : String → Kind) where
  -- What follows from the kinds of an output's names holds of each output.
  pub of_kinds :
      (R : Output → Type 0) (os : List Output)
      → ((o : Output) → kind o.destination ≡ target → kind o.backup ≡ backup → R o)
      → IsNamed kind os
      → All R os
  of_kinds R [] f n = tt
  of_kinds R (o ∷ os) f (d, x, z, nd, nt, nb, n) = (f o d z, of_kinds R os f n)

  -- The property holds of each of these outputs that is none of the items.
  abbrev Unless : (Output → Type 0) → List Saved → List Output → Type 0
  Unless P items os = All (λ (p : Output). NotDestination p.destination (outputs_of items) → P p) os

  Unless-nothing : (P : Output → Type 0) (os : List Output) → Unless P [] os → All P os
  Unless-nothing P [] h = tt
  Unless-nothing P (o ∷ os) (h, hs) = (h tt, Unless-nothing P os hs)

  Unless-rest :
      (P : Output → Type 0) (o : Output) (b : Bool) (items : List Saved) (os : List Output)
      → NotDestination o.destination os
      → Unless P ((o, b) ∷ items) os
      → Unless P items os
  Unless-rest P o b items [] n h = tt
  Unless-rest P o b items (p ∷ os) (ne, n) (h, hs) =
      (λ m. h (λ e. ne (sym e), m), Unless-rest P o b items os n hs)

  -- A property of what was replaced, and of what cannot have been, is one of every output.
  pub split_items :
      (P : Output → Type 0) (os : List Saved) (fs : Files)
      → IsNamed kind (outputs_of os)
      → All P (outputs_of (replace_outputs sys os fs).items)
      → Unless P (replace_outputs sys os fs).items (outputs_of os)
      → All P (outputs_of os)
  unfolding replace_outputs
  split_items P [] fs n h k = tt
  split_items P ((o, b) ∷ os) fs (d, x, z, nd, nt, nb, n) h (k, ks) =
      let f = move fs o.temporary o.destination in
      elim (Bool-cases (sys o.destination).replace_ok) [
        | inr bad ↦
            let step : replace_outputs sys ((o, b) ∷ os) fs ≡ stopped fs ((o, b) ∷ []) =
              rw bad refl in
            let (own, rest) = rw bad at h in
            (
              own,
              Unless-nothing P (outputs_of os) (
                  Unless-rest P o b [] (outputs_of os) nd
                    (subst (λ (p : Progress Saved). Unless P p.items (outputs_of os)) step ks)),
            )
        | inl good ↦
            let step : replace_outputs sys ((o, b) ∷ os) fs
                ≡ with_item (o, b) (replace_outputs sys os f) =
              rw good refl in
            let (own, rest) = rw good at h in
            (
              own,
              split_items P os f n rest (
                  Unless-rest P o b (replace_outputs sys os f).items (outputs_of os) nd
                    (subst (λ (p : Progress Saved). Unless P p.items (outputs_of os)) step ks)),
            )
      ]

  -- A name is no output of the list, or as before if all of them are.
  pub output_or_not :
      (q : String) (os : List Output) (before fs : Files)
      → AllAsBefore before fs os
      → (fs q ≡ before q) ⊎ NotDestination q os
  output_or_not q [] before fs h = inr tt
  output_or_not q (o ∷ os) before fs (e, h) = elim (Bool-cases (str_eq q o.destination)) [
    | inl same ↦ inl (rw ((eq_iff q o.destination).0 same) e)
    | inr other ↦ elim (output_or_not q os before fs h) [
      | inl e2 ↦ inl e2
      | inr n ↦ inr (λ x. cc (sym other ∙ (eq_iff q o.destination).1 x), n)
    ]
  ]

  pub All-IsRestorable :
      (before f g : Files) (os : List Saved)
      → ((q : String) → kind q ≡ backup → g q ≡ f q)
      → IsNamed kind (outputs_of os)
      → All (IsRestorable before f) os
      → All (IsRestorable before g) os
  All-IsRestorable before f g [] same n h = tt
  All-IsRestorable before f g ((o, b) ∷ os) same (d, x, z, nd, nt, nb, n) (r, rs) = (
    keeps_backup sys kind before g f o b (same o.backup z) r,
    All-IsRestorable before f g os same n rs,
  )

  -- The files of the targets are not touched by the two loops of `finally`, nor the backups by the
  -- first.
  pub clean_up-target :
      (q : String) (preserve : Bool) (os : List Saved) (f : Files)
      → kind q ≡ target
      → IsNamed kind (outputs_of os)
      → clean_up sys preserve (outputs_of os) os f q ≡ f q
  clean_up-target q preserve os f t n =
      clean_up-frame sys q preserve (outputs_of os) os f
        (target-NotTemporary kind q (outputs_of os) t n)
        (target-NotBackup kind q (outputs_of os) t n)
