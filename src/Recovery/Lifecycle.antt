-- ===== src/Recovery/Lifecycle.antt =====
-- The life of a kit: every sequence of the operations of recovery.py.
use k8s_stack_tooling.Prelude.{ℕ, ◌≤◌, String, true, false, List, ◌≡◌, ◌≢◌, arith, ok}
use k8s_stack_tooling.Value.{Value, Fields, is_none, truthy}
use k8s_stack_tooling.Recovery.Kit.{
  Checkpoint, seal_created, initialized, seeded, complete, other, RecoveryKit, is_seal_created,
  valid_custody_state,
}
use k8s_stack_tooling.Recovery.Operations.{
  is_allowed, advance, with_checkpoint, with_pending_bootstrap_passwords,
  with_bootstrap_passwords_acknowledged, with_password_delivery_complete,
  with_initialization_material,
}
use k8s_stack_tooling.Recovery.Validity.{
  IsLoadable, with_checkpoint-IsLoadable, with_pending_bootstrap_passwords-IsLoadable,
  with_bootstrap_passwords_acknowledged-IsLoadable, with_password_delivery_complete-IsLoadable,
  with_initialization_material-IsLoadable,
}

-- One call of an operation that did not raise.
pub data Step (k : RecoveryKit) (n : RecoveryKit) : Type 0 where
  checkpointed : (target : Checkpoint) → with_checkpoint k target ≡ ok n → Step k n
  staged :
      (passwords : Fields) (bindings : Value)
      → with_pending_bootstrap_passwords k passwords bindings ≡ ok n
      → Step k n
  acknowledged : with_bootstrap_passwords_acknowledged k ≡ ok n → Step k n
  delivered : with_password_delivery_complete k ≡ ok n → Step k n
  material :
      (root_token : String) (shares : List String)
      → with_initialization_material k root_token shares ≡ ok n
      → Step k n

pub data Reach (k : RecoveryKit) : RecoveryKit → Type 0 where
  here : Reach k k
  next : {m n : RecoveryKit} → Reach k m → Step m n → Reach k n

Step-IsLoadable :
    {k n : RecoveryKit} (key : List ℕ) → Step k n → IsLoadable k key → IsLoadable n key
Step-IsLoadable {k} key (checkpointed target e) v = with_checkpoint-IsLoadable k key v target e
Step-IsLoadable {k} key (staged passwords bindings e) v =
    with_pending_bootstrap_passwords-IsLoadable k key v passwords bindings e
Step-IsLoadable {k} key (acknowledged e) v =
    with_bootstrap_passwords_acknowledged-IsLoadable k key v e
Step-IsLoadable {k} key (delivered e) v = with_password_delivery_complete-IsLoadable k key v e
Step-IsLoadable {k} key (material token shares e) v =
    with_initialization_material-IsLoadable k key v token shares e

-- Whatever sequence of operations succeeds, the values pass the tests of `load` for the same key.
pub Reach-IsLoadable :
    {k n : RecoveryKit} (key : List ℕ) → IsLoadable k key → Reach k n → IsLoadable n key
Reach-IsLoadable key v here = v
Reach-IsLoadable key v (next r st) = Step-IsLoadable key st (Reach-IsLoadable key v r)

-- What remains of the secrets of the ceremony.
pub record HasNoSecrets (k : RecoveryKit) : Type 0 where
  pub public_keys : is_none k.custodian_public_keys ≡ true
  pub private_keys : is_none k.custodian_private_keys ≡ true
  pub root_token : is_none k.initialization_root_token ≡ true
  pub shares : is_none k.encrypted_recovery_shares ≡ true

IsLoadable-HasNoSecrets :
    (k : RecoveryKit) (key : List ℕ)
    → IsLoadable k key
    → is_seal_created k.checkpoint ≡ false
    → HasNoSecrets k
unfolding valid_custody_state
IsLoadable-HasNoSecrets k key v h = ground (arith, v.custody)

-- Once a kit that `load` accepts has passed the checkpoint "seal-created", by any sequence of
-- operations, it holds no root token, no recovery share and no key of a custodian.
pub Reach-HasNoSecrets :
    {k n : RecoveryKit} (key : List ℕ)
    → IsLoadable k key
    → Reach k n
    → n.checkpoint ≢ seal_created
    → HasNoSecrets n
Reach-HasNoSecrets {k} {n} key v r h =
    IsLoadable-HasNoSecrets n key (Reach-IsLoadable key v r) (ground arith)

-- How far a checkpoint has come.
abbrev pub rank : Checkpoint → ℕ
rank seal_created = 0
rank initialized = 1
rank seeded = 2
rank complete = 3
rank (other v) = 4

Step-rank : {k n : RecoveryKit} → Step k n → rank k.checkpoint ≤ rank n.checkpoint
unfolding with_checkpoint is_allowed advance with_pending_bootstrap_passwords
    with_bootstrap_passwords_acknowledged with_password_delivery_complete
    with_initialization_material
Step-rank (checkpointed target e) = ground arith
Step-rank (staged passwords bindings e) = ground arith
Step-rank (acknowledged e) = ground arith
Step-rank (delivered e) = ground arith
Step-rank (material token shares e) = ground arith

-- No sequence of operations takes the checkpoint back.
pub Reach-rank : {k n : RecoveryKit} → Reach k n → rank k.checkpoint ≤ rank n.checkpoint
Reach-rank here = omega arith
Reach-rank (next r st) = omega (arith, Reach-rank r, Step-rank st)

-- An operation that succeeds and drops staged passwords finds them acknowledged.
pub Step-drops_acknowledged :
    {k n : RecoveryKit}
    → Step k n
    → is_none k.pending_bootstrap_passwords ≡ false
    → is_none n.pending_bootstrap_passwords ≡ true
    → truthy k.bootstrap_passwords_acknowledged ≡ true
unfolding with_checkpoint is_allowed advance with_pending_bootstrap_passwords
    with_bootstrap_passwords_acknowledged with_password_delivery_complete
    with_initialization_material
Step-drops_acknowledged (checkpointed target e) p q = ground arith
Step-drops_acknowledged (staged passwords bindings e) p q = ground arith
Step-drops_acknowledged (acknowledged e) p q = ground arith
Step-drops_acknowledged (delivered e) p q = ground arith
Step-drops_acknowledged (material token shares e) p q = ground arith
