-- ===== src/Runtime/Changes/Pending.antt =====
-- pending.py: when an alias is pending.
use k8s_stack_tooling.Prelude.{
  String, true, false, Option, none, some, List, [], ◌∷◌, ◌≡◌, ◌≢◌, ◌↔◌, refl, sym, ap, ◌∙◌, subst,
  arith, str_eq, eq_iff, eq_refl, ok, Bool-cases, inl, inr, Dict, get_item, value_or, keys_of, All,
}
use k8s_stack_tooling.Value.{text_in}
use k8s_stack_tooling.Runtime.Assignments.{PackageData, Deployment}
use k8s_stack_tooling.Runtime.Changes.{
  Snapshot, unconfirmed, disabled, running, options_eq, snapshot_eq, ChangeState, load_changes,
  baseline_of, names_or, is_pending, pending_in, pending_of, pending_aliases, Settings, snapshots,
}
use k8s_stack_tooling.Runtime.Changes.Points.{
  Points, points, Event, edit, confirm, roll_back, save_all, step_points, step_all, points-save_all,
}

options_eq_iff : (o o' : Dict String) → (options_eq o o' ≡ true) ↔ (o ≡ o')
options_eq_iff [] [] = (λ h. refl, λ h. refl)
options_eq_iff [] ((j, w) ∷ e) = (λ h. cc, λ h. cc)
options_eq_iff ((k, v) ∷ d) [] = (λ h. cc, λ h. cc)
options_eq_iff ((k, v) ∷ d) ((j, w) ∷ e) = (
  λ h. ground (arith, eq_iff k j, eq_iff v w, options_eq_iff d e),
  λ h. ground (arith, eq_iff k j, eq_iff v w, options_eq_iff d e),
)

snapshot_eq_iff : (a b : Snapshot) → (snapshot_eq a b ≡ true) ↔ (a ≡ b)
unfolding snapshot_eq
snapshot_eq_iff unconfirmed unconfirmed = (λ h. refl, λ h. refl)
snapshot_eq_iff unconfirmed disabled = (λ h. cc, λ h. cc)
snapshot_eq_iff unconfirmed (running m v s o) = (λ h. cc, λ h. cc)
snapshot_eq_iff disabled unconfirmed = (λ h. cc, λ h. cc)
snapshot_eq_iff disabled disabled = (λ h. refl, λ h. refl)
snapshot_eq_iff disabled (running m v s o) = (λ h. cc, λ h. cc)
snapshot_eq_iff (running m v s o) unconfirmed = (λ h. cc, λ h. cc)
snapshot_eq_iff (running m v s o) disabled = (λ h. cc, λ h. cc)
snapshot_eq_iff (running m v s o) (running m' v' s' o') = (
  λ h. ground (arith, eq_iff m m', eq_iff v v', eq_iff s s', options_eq_iff o o'),
  λ h. ground (arith, eq_iff m m', eq_iff v v', eq_iff s s', options_eq_iff o o'),
)

-- The keys of a dict are all different.
abbrev IsDict : Dict Snapshot → Type 0
IsDict [] = Unit
IsDict ((k, v) ∷ d) = (text_in k (keys_of d) ≡ false) × IsDict d

-- The alias has a snapshot now, and it is not this one.
abbrev pub Differs : String → Dict Snapshot → Snapshot → Type 0
Differs a now base = (desired : Snapshot) × (get_item a now ≡ some desired) × (desired ≢ base)

not_in_pending :
    (a : String) (baseline now : Dict Snapshot)
    → text_in a (keys_of now) ≡ false
    → text_in a (pending_in baseline now) ≡ false
unfolding pending_in
not_in_pending a baseline [] h = refl
not_in_pending a baseline ((k, v) ∷ now) h = ground (arith, not_in_pending a baseline now)

not_in_keys :
    (a : String) (now : Dict Snapshot) → text_in a (keys_of now) ≡ false → get_item a now ≡ none
not_in_keys a [] h = refl
not_in_keys a ((k, v) ∷ now) h = ground (arith, not_in_keys a now, eq_iff a k, eq_iff k a)

-- The entry of the alias itself.
pending_in_here :
    (a : String) (baseline now : Dict Snapshot) (v base : Snapshot)
    → text_in a (keys_of now) ≡ false
    → get_item a baseline ≡ some base
    → (text_in a (pending_in baseline ((a, v) ∷ now)) ≡ true) ↔ (v ≢ base)
unfolding pending_in
pending_in_here a baseline now v base fresh h = rw h (elim (Bool-cases (snapshot_eq v base)) [
  | inl same ↦ rw same (
    λ p. λ e. cc (p, not_in_pending a baseline now fresh),
    λ ne. absurd (ne ((snapshot_eq_iff v base).0 same)),
  )
  | inr other ↦
      rw other (λ p. λ e. cc (other, (snapshot_eq_iff v base).1 e), λ ne. rw (eq_refl a) refl)
])

pending_in_there :
    (a k : String) (baseline now : Dict Snapshot) (v : Snapshot)
    → str_eq a k ≡ false
    → text_in a (pending_in baseline ((k, v) ∷ now)) ≡ text_in a (pending_in baseline now)
unfolding pending_in
pending_in_there a k baseline now v h = elim (Bool-cases (is_pending v (get_item k baseline))) [
  | inl listed ↦ rw listed (rw h refl)
  | inr unlisted ↦ rw unlisted refl
]

pending_in_iff :
    (a : String) (baseline now : Dict Snapshot) (base : Snapshot)
    → IsDict now
    → get_item a baseline ≡ some base
    → (text_in a (pending_in baseline now) ≡ true) ↔ Differs a now base
unfolding pending_in
pending_in_iff a baseline [] base d h = (λ p. absurd (ground arith), λ (v, e, ne). cc)
pending_in_iff a baseline ((k, v) ∷ now) base (fresh, d) h = elim (Bool-cases (str_eq k a)) [
  | inl same ↦
      let e = (eq_iff k a).0 same in
      let at_a =
        pending_in_here a baseline now v base
          (subst (λ (x : String). text_in x (keys_of now) ≡ false) e fresh) h in
      subst
        (λ (x : String).
          (text_in a (pending_in baseline ((x, v) ∷ now)) ≡ true) ↔ Differs a ((x, v) ∷ now) base)
        (sym e)
        (
          λ p. (v, rw (eq_refl a) refl, at_a.0 p),
          λ (w, is_w, ne). at_a.1 (λ v_base. ne (cc (is_w, v_base, eq_refl a))),
        )
  | inr other ↦
      rw (other, pending_in_there a k baseline now v (ground (arith, eq_iff a k, eq_iff k a)))
        (pending_in_iff a baseline now base d h)
]

abbrev IsEdit : Event → Type 0
IsEdit (edit target aliases current) = Unit
IsEdit (confirm target applied) = ⊥
IsEdit (roll_back target alias) = ⊥

step_points-edit :
    (e : Event) (p : Points) (t a : String) (v : Snapshot)
    → IsEdit e
    → p t a ≡ some v
    → step_points e p t a ≡ some v
step_points-edit (edit target aliases current) p t a v i h = rw h (ground arith)
step_points-edit (confirm target applied) p t a v i h = absurd i
step_points-edit (roll_back target alias) p t a v i h = absurd i

step_all-edit :
    (es : List Event) (p : Points) (t a : String) (v : Snapshot)
    → All IsEdit es
    → p t a ≡ some v
    → step_all es p t a ≡ some v
step_all-edit [] p t a v i h = h
step_all-edit (e ∷ es) p t a v (i, is) h =
    step_all-edit es (step_points e p) t a v is (step_points-edit e p t a v i h)

pending_in-empty : (now : Dict Snapshot) → [] ≡ pending_in [] now
unfolding pending_in
pending_in-empty [] = refl
pending_in-empty (x ∷ now) = pending_in-empty now

pending_of-ok : (b now : Dict Snapshot) → pending_of b (ok now) ≡ ok (pending_in b now)
unfolding pending_in
pending_of-ok [] [] = refl
pending_of-ok [] ((k, v) ∷ now) = ap (λ (n : List String). ok n) (pending_in-empty now)
pending_of-ok (x ∷ b) now = refl

module _ (pkg : PackageData) (settings : Settings) where
  -- An alias that has a point is named exactly when it has a snapshot that differs from the point.
  pending_aliases_iff :
      (file : Option Deployment) (state : Option ChangeState) (now : Dict Snapshot)
      (names : List String) (a : String) (base : Snapshot)
      → snapshots pkg settings file ≡ ok now
      → IsDict now
      → points state settings.docker_context a ≡ some base
      → pending_aliases pkg settings file state ≡ ok names
      → (text_in a names ≡ true) ↔ Differs a now base
  unfolding pending_aliases
  pending_aliases_iff file state now names a base loads d h p =
      let b = baseline_of settings.docker_context (load_changes state) in
      subst (λ (n : List String). (text_in a n ≡ true) ↔ Differs a now base)
        (cc (p, loads, pending_of-ok b now)) (pending_in_iff a b now base d h)

  -- An alias that an edit lists and that had no point before: after that edit and any further ones,
  -- pending_aliases names it exactly when it has a snapshot now which differs from the one before the
  -- first edit, or from `{"enabled": False}` if it had none then.
  pub pending_aliases-edits :
      (file : Option Deployment) (s : Option ChangeState) (aliases : Option (List String))
      (current now : Dict Snapshot) (es : List Event) (names : List String) (a : String)
      → points s settings.docker_context a ≡ none
      → text_in a (names_or aliases (keys_of current)) ≡ true
      → All IsEdit es
      → snapshots pkg settings file ≡ ok now
      → IsDict now
      → pending_aliases pkg settings file
          (save_all (edit settings.docker_context aliases current ∷ es) s)
        ≡ ok names
      → (text_in a names ≡ true) ↔ Differs a now (value_or disabled (get_item a current))
  pending_aliases-edits file s aliases current now es names a none_yet listed is loads d p =
      let t = settings.docker_context in
      let v = value_or disabled (get_item a current) in
      let e = edit t aliases current in
      let first : step_points e (points s) t a ≡ some v = rw (eq_refl t, listed, none_yet) refl in
      pending_aliases_iff file (save_all (e ∷ es) s) now names a v loads d
        (points-save_all (e ∷ es) s t a
          ∙ step_all-edit es (step_points e (points s)) t a v is first)
        p
