-- ===== src/Recovery/Accepted.antt =====
-- recovery.py: that the operations keep a kit one that load accepts, with the seal key it holds.
use k8s_stack_tooling.Prelude.{ℕ, List, Option, ◌≡◌, refl, ◌∙◌, ap, arith, ok}
use k8s_stack_tooling.Value.{Value}
use k8s_stack_tooling.Recovery.Kit.{RecoveryKit}
use k8s_stack_tooling.Recovery.Operations.{
  is_allowed, advance, with_checkpoint, with_pending_bootstrap_passwords,
  with_bootstrap_passwords_acknowledged, with_password_delivery_complete,
  with_initialization_material,
}
use k8s_stack_tooling.Recovery.Validity.{valid_values-IsLoadable, IsLoadable-valid_values}
use k8s_stack_tooling.Recovery.Load.{load_key, load_key_ok}
use k8s_stack_tooling.Recovery.Lifecycle.{
  Step, checkpointed, staged, acknowledged, delivered, material, Reach, here, next,
  Reach-IsLoadable,
}

-- No operation touches the seal key.
Step-static_seal_key : {k n : RecoveryKit} → Step k n → n.static_seal_key ≡ k.static_seal_key
unfolding with_checkpoint is_allowed advance with_pending_bootstrap_passwords
    with_bootstrap_passwords_acknowledged with_password_delivery_complete
    with_initialization_material
Step-static_seal_key (checkpointed target e) = ground arith
Step-static_seal_key (staged passwords bindings e) = ground arith
Step-static_seal_key (acknowledged e) = ground arith
Step-static_seal_key (delivered e) = ground arith
Step-static_seal_key (material token shares e) = ground arith

Reach-static_seal_key : {k n : RecoveryKit} → Reach k n → n.static_seal_key ≡ k.static_seal_key
Reach-static_seal_key here = refl
Reach-static_seal_key (next r st) = Step-static_seal_key st ∙ Reach-static_seal_key r

module _ (json_loads : List ℕ → Option Value) (b64decode : Value → Option (List ℕ)) where
  -- load accepts the kit: its tests of the decoded seal key and of the values pass.
  abbrev pub IsAccepted : RecoveryKit → Type 0
  IsAccepted kit = load_key json_loads b64decode kit (b64decode kit.static_seal_key) ≡ ok kit

  -- Every sequence of successful operations takes a kit that load accepts, with the seal key it holds,
  -- to a kit that load accepts with the seal key that this one holds.
  pub Reach-IsAccepted : {k n : RecoveryKit} → IsAccepted k → Reach k n → IsAccepted n
  unfolding load_key
  Reach-IsAccepted {k} {n} accepted r =
      let (key, decoded, _, valid) =
        load_key_ok json_loads b64decode k (b64decode k.static_seal_key) accepted in
      let values =
        IsLoadable-valid_values n key
          (Reach-IsLoadable key (valid_values-IsLoadable k key valid) r) in
      rw (ap b64decode (Reach-static_seal_key r) ∙ decoded) (rw values refl)
