-- ===== src/OpenBao/Credentials/Handed.antt =====
-- credentials.py: that plan_bootstrap_passwords and reconcile_internal_credentials together hand out each
-- password once.
use k8s_stack_tooling.Prelude.{
  suc, String, Bool, true, false, Option, none, some, List, [], ◌∷◌, ◌≡◌, ◌⊎◌, inl, inr, refl, sym,
  ◌∙◌, ap, subst, if◌then◌else◌, str_eq, Bool-cases, Option-cases, Result, ok, ok_injective, Dict,
  get_item, set_item, get_item-set_item, is_some, All, All-map, All-zip, eq_refl,
}
use k8s_stack_tooling.Value.{str}
use k8s_stack_tooling.OpenBao.Kv.{SecretRecord, OpenBaoError, Server, IsLawful, Run, return, World}
use k8s_stack_tooling.OpenBao.Kv.Kept.{values_of, held_values, Keeps, Keeps-refl, Keeps-trans}
use k8s_stack_tooling.OpenBao.Kv.Settled.{continue-eq_ok, over-eq_ok, read_secret-eq_ok, IsReadable}
use k8s_stack_tooling.OpenBao.Upsert.{InternalResult}
use k8s_stack_tooling.OpenBao.Upsert.Steps.{is_some-kept}
use k8s_stack_tooling.OpenBao.Credentials.{
  Texts, BootstrapPassword, bootstrap_passwords, random_secret,
}
use k8s_stack_tooling.OpenBao.Credentials.Plan.{
  plan_random, plan_one, plan_all, plan_bootstrap_passwords,
}
use k8s_stack_tooling.OpenBao.Credentials.Reconcile.{reconcile_internal_credentials}
use k8s_stack_tooling.OpenBao.Credentials.Converged.{reconcile_internal_credentials-Keeps}
use k8s_stack_tooling.OpenBao.Credentials.Delivered.{reconcile_internal_credentials-AreDelivered}

module _ (texts : Texts) (server : Server) where
  -- The record of the password holds its field.
  abbrev IsHeld : World server → BootstrapPassword → Type 0
  IsHeld w p = is_some (get_item p.password_field (held_values server w p.path)) ≡ true

  -- The password is held, or planned.
  abbrev IsPlannedAt : server.State → Dict String → BootstrapPassword → Type 0
  IsPlannedAt s planned p =
      (is_some (get_item p.password_field (values_of (server.held s p.path))) ≡ true)
      ⊎ (is_some (get_item p.password_key planned) ≡ true)

  abbrev IsPlanned : World server → Dict String → BootstrapPassword → Type 0
  IsPlanned w = IsPlannedAt w.state

  -- No name is lost.
  abbrev HasMore : Dict String → Dict String → Type 0
  HasMore d e =
      (name : String) → is_some (get_item name d) ≡ true → is_some (get_item name e) ≡ true

  set_item-HasMore : (name t : String) (d : Dict String) → HasMore d (set_item name t d)
  set_item-HasMore name t d other h = elim (Bool-cases (str_eq name other)) [
    | inl same ↦ rw (get_item-set_item name other t d) (rw same refl)
    | inr different ↦ rw (get_item-set_item name other t d) (rw different h)
  ]

  abbrev answered : Dict String → World server → Result OpenBaoError (Dict String) × World server
  answered d w = (ok d, w)

  module _ (lawful : IsLawful server) where
    -- One round changes nothing that is held, and plans what is not.
    abbrev HasRound :
        BootstrapPassword → Dict String → World server → Dict String → World server → Type 0
    HasRound p d w e w1 = (w1.state ≡ w.state) × HasMore d e × IsPlanned w e p

    plan_one-HasRound :
        (p : BootstrapPassword) (d e : Dict String) (w w1 : World server)
        → plan_one texts server p d w ≡ (ok e, w1)
        → HasRound p d w e w1
    unfolding plan_one
    plan_one-HasRound p d e w w1 h =
        round (is_some (get_item p.password_field (held_values server w p.path))) refl
          (read_secret-eq_ok server lawful p.path after w w1 e h)
      where
        after : Option SecretRecord → Run (World server) (Dict String)
        after current =
            if is_some (get_item p.password_field (values_of current))
            then return d
            else plan_random texts server p.password_key d

        ends :
            (x : Dict String × World server)
            → answered x.0 x.1 ≡ (ok e, w1)
            → HasRound p d w x.0 x.1
            → HasRound p d w e w1
        ends x h r =
            let (same_result, same_end) = over-eq_ok (ok x.0) (ok e) x.1 w1 h in
            subst (λ (y : Dict String). HasRound p d w y w1) (ok_injective same_result)
              (subst (λ (v : World server). HasRound p d w x.0 v) same_end r)

        round :
            (b : Bool)
            → is_some (get_item p.password_field (held_values server w p.path)) ≡ b
            → (if b then return d else plan_random texts server p.password_key d) w ≡ (ok e, w1)
            → HasRound p d w e w1
        round true is_b h = ends (d, w) h (refl, λ name k. k, inl is_b)
        round false is_b h =
            let planned = set_item p.password_key (random_secret texts w.drawn) d in
            ends (planned, record { state = w.state; drawn = suc w.drawn }) h
              (
                refl,
                set_item-HasMore p.password_key (random_secret texts w.drawn) d,
                inr (
                    rw
                      (get_item-set_item p.password_key p.password_key (random_secret texts w.drawn)
                        d)
                      (rw (eq_refl p.password_key) refl)),
              )

    -- The loop changes nothing that is held, and plans whatever is not.
    plan_all-IsPlanned :
        (ps : List BootstrapPassword) (d e : Dict String) (w w1 : World server)
        → plan_all texts server ps d w ≡ (ok e, w1)
        → (w1.state ≡ w.state) × HasMore d e × All (IsPlanned w e) ps
    unfolding plan_all
    plan_all-IsPlanned [] d e w w1 h =
        let (same_result, same_end) = over-eq_ok (ok d) (ok e) w w1 h in
        (
          sym (ap (λ (v : World server). v.state) same_end),
          subst (HasMore d) (ok_injective same_result) (λ name k. k),
          tt,
        )
    plan_all-IsPlanned (p ∷ ps) d e w w1 h =
        let (c, (wa, one, two)) =
          continue-eq_ok (plan_one texts server p d w) (plan_all texts server ps) e w1 h in
        let (same, more, planned) = plan_one-HasRound p d c w wa one in
        let (same', more', all) = plan_all-IsPlanned ps c e wa w1 two in
        (
          same' ∙ same,
          λ name k. more' name (more name k),
          (
            later c more' planned,
            All-map (λ q x. subst (λ (s : server.State). IsPlannedAt s e q) same x) ps all,
          ),
        )
      where
        later : (c : Dict String) → HasMore c e → IsPlanned w c p → IsPlanned w e p
        later c more (inl held) = inl held
        later c more (inr there) = inr (more p.password_key there)

  -- Nothing is planned where all fields are held.
  plan_all-held :
      (ps : List BootstrapPassword) (d : Dict String) (w : World server)
      → IsReadable server w
      → All (IsHeld w) ps
      → plan_all texts server ps d w ≡ (ok d, w)
  unfolding plan_all plan_one
  plan_all-held [] d w readable held = refl
  plan_all-held (p ∷ ps) d w readable (one, held) =
      rw (readable p.path) (rw one (plan_all-held ps d w readable held))

  module _ (lawful : IsLawful server) where
    -- Once passwords were planned, and reconcile_internal_credentials has gone through with them on a state
    -- that kept all values, nothing is planned on any later state that still has the values of all
    -- records and on which no read is refused.
    pub plan_bootstrap_passwords-again :
        (docling : Bool) (email : Option String) (glitchtip : Bool) (passwords : Dict String)
        (r : InternalResult) (w w1 w2 w3 w4 : World server)
        → plan_bootstrap_passwords texts server none w ≡ (ok passwords, w1)
        → Keeps server w1 w2
        → reconcile_internal_credentials texts server passwords docling email glitchtip w2
          ≡ (ok r, w3)
        → Keeps server w3 w4
        → IsReadable server w4
        → plan_bootstrap_passwords texts server none w4 ≡ (ok [], w4)
    unfolding plan_bootstrap_passwords
    plan_bootstrap_passwords-again docling email glitchtip passwords r w w1 w2 w3 w4 plan kept done
          later readable =
        let (same, more, planned) =
          plan_all-IsPlanned lawful bootstrap_passwords [] passwords w w1 plan in
        let stored =
          reconcile_internal_credentials-AreDelivered texts server lawful passwords docling email
            glitchtip w2 w3 r done in
        let through =
          subst (λ (x : _ × World server). Keeps server w2 x.1) done
            (reconcile_internal_credentials-Keeps texts server lawful passwords docling email
              glitchtip w2) in
        let planning =
          subst (λ (x : server.State). Keeps server (record { state = x; drawn = w.drawn }) w1) same
            (Keeps-refl server w1) in
        let all =
          Keeps-trans server w w1 w4 planning
            (Keeps-trans server w1 w2 w4 kept (Keeps-trans server w2 w3 w4 through later)) in
        plan_all-held bootstrap_passwords [] w4 readable
          (All-zip (λ p x y. is_held p all x y) bootstrap_passwords planned stored)
      where
        is_held :
            (p : BootstrapPassword)
            → Keeps server w w4
            → IsPlanned w passwords p
            → ((t : String)
                → get_item p.password_key passwords ≡ some t
                → get_item p.password_field (held_values server w3 p.path) ≡ some (str t))
            → IsHeld w4 p
        is_held p all (inl held) stored =
            is_some-kept p.password_field (held_values server w p.path)
              (held_values server w4 p.path) (all p.path) held
        is_held p all (inr there) stored = elim (Option-cases (get_item p.password_key passwords)) [
          | inl missing ↦ cc (sym (ap is_some missing) ∙ there)
          | inr (t, given) ↦ ap is_some (later p.path p.password_field (str t) (stored t given))
        ]
