-- ===== src/Recovery/Validity.antt =====
-- What `load` accepts is closed under the operations of recovery.py.
use mathlib.Core.Path.{subst}
use k8s_stack_tooling.Prelude.{
  ℕ, String, true, false, List, [], ◌∷◌, ◌≡◌, arith, str_eq, length, any, ok,
}
use k8s_stack_tooling.Value.{Value, is_bool, null, str, tup, Fields, is_text}
use k8s_stack_tooling.Recovery.Kit.{
  Checkpoint, known_checkpoint, RecoveryKit, is_seal_created, valid_pending, valid_custody_state,
  text_triple,
}
use k8s_stack_tooling.Recovery.Operations.{
  is_allowed, advance, with_checkpoint, with_pending_bootstrap_passwords,
  with_bootstrap_passwords_acknowledged, with_password_delivery_complete,
  with_initialization_material, valid_values, texts_of, is_schema_4,
}

-- The tests of `load` one by one, for a kit whose seal key decodes to `key`.
pub record IsLoadable (kit : RecoveryKit) (key : List ℕ) : Type 0 where
  pub schema : is_schema_4 kit.schema_version ≡ true
  pub client : is_text kit.client ≡ true
  pub cluster : is_text kit.cluster_id ≡ true
  pub namespace : is_text kit.namespace_uid ≡ true
  pub key_id : is_text kit.static_seal_key_id ≡ true
  pub ceremony : is_text kit.ceremony_id ≡ true
  pub key_length : length key ≡ 32
  pub checkpoint : known_checkpoint kit.checkpoint ≡ true
  pub acknowledged : is_bool kit.bootstrap_passwords_acknowledged ≡ true
  pub pending :
      valid_pending kit.checkpoint kit.pending_bootstrap_passwords
        kit.bootstrap_passwords_acknowledged kit.pending_password_bindings
      ≡ true
  pub custody : valid_custody_state kit ≡ true

pub valid_values-IsLoadable :
    (kit : RecoveryKit) (key : List ℕ) → valid_values kit key ≡ true → IsLoadable kit key
unfolding valid_values
valid_values-IsLoadable kit key h = ground arith

pub IsLoadable-valid_values :
    (kit : RecoveryKit) (key : List ℕ) → IsLoadable kit key → valid_values kit key ≡ true
unfolding valid_values
IsLoadable-valid_values kit key v = rw (
  v.schema, v.client, v.cluster, v.namespace, v.key_id, v.ceremony, v.key_length, v.checkpoint,
  v.acknowledged, v.pending, v.custody,
)

module _ (kit : RecoveryKit) (target : Checkpoint) where
  advance-valid_custody_state :
      is_allowed kit.checkpoint target ≡ true
      → valid_custody_state kit ≡ true
      → valid_custody_state (advance kit target) ≡ true
  unfolding valid_custody_state advance is_allowed
  advance-valid_custody_state allowed h = ground arith

  advance-valid_pending :
      is_allowed kit.checkpoint target ≡ true
      → valid_pending kit.checkpoint kit.pending_bootstrap_passwords
          kit.bootstrap_passwords_acknowledged kit.pending_password_bindings
        ≡ true
      → let next = advance kit target in
        valid_pending next.checkpoint next.pending_bootstrap_passwords
          next.bootstrap_passwords_acknowledged next.pending_password_bindings
        ≡ true
  unfolding valid_pending advance is_allowed
  advance-valid_pending allowed h = ground arith

  advance-IsLoadable :
      (key : List ℕ)
      → is_allowed kit.checkpoint target ≡ true
      → IsLoadable kit key
      → IsLoadable (advance kit target) key
  advance-IsLoadable key allowed v = record {
    schema = unfold advance in v.schema;
    client = unfold advance in v.client;
    cluster = unfold advance in v.cluster;
    namespace = unfold advance in v.namespace;
    key_id = unfold advance in v.key_id;
    ceremony = unfold advance in v.ceremony;
    key_length = v.key_length;
    checkpoint = unfold advance is_allowed in ground arith;
    acknowledged = unfold advance is_bool in ground arith;
    pending = advance-valid_pending allowed v.pending;
    custody = advance-valid_custody_state allowed v.custody;
  }

module _ (kit : RecoveryKit) (key : List ℕ) {next : RecoveryKit} (v : IsLoadable kit key) where
  pub with_checkpoint-IsLoadable :
      (target : Checkpoint) → with_checkpoint kit target ≡ ok next → IsLoadable next key
  unfolding with_checkpoint
  with_checkpoint-IsLoadable target done = ground (arith, advance-IsLoadable kit target key)

  pub with_bootstrap_passwords_acknowledged-IsLoadable :
      with_bootstrap_passwords_acknowledged kit ≡ ok next → IsLoadable next key
  unfolding with_bootstrap_passwords_acknowledged valid_pending valid_custody_state is_bool
  with_bootstrap_passwords_acknowledged-IsLoadable done = ground arith

  pub with_password_delivery_complete-IsLoadable :
      with_password_delivery_complete kit ≡ ok next → IsLoadable next key
  unfolding with_password_delivery_complete valid_pending valid_custody_state is_bool
  with_password_delivery_complete-IsLoadable done = ground arith

  pub with_pending_bootstrap_passwords-IsLoadable :
      (passwords : Fields) (bindings : Value)
      → with_pending_bootstrap_passwords kit passwords bindings ≡ ok next
      → IsLoadable next key
  unfolding with_pending_bootstrap_passwords valid_pending valid_custody_state is_bool
  with_pending_bootstrap_passwords-IsLoadable passwords bindings done = ground arith

-- three texts that are not empty pass the test on a tuple of texts
text_triple-texts_of :
    (shares : List String)
    → length shares ≡ 3
    → any (λ s. str_eq s "") shares ≡ false
    → text_triple (tup (texts_of shares)) ≡ true
unfolding text_triple is_text
text_triple-texts_of (a ∷ b ∷ c ∷ []) n h = ground arith
text_triple-texts_of (a ∷ b ∷ c ∷ d ∷ r) n h = absurd (omega arith)
text_triple-texts_of (a ∷ b ∷ []) n h = absurd (omega arith)
text_triple-texts_of (a ∷ []) n h = absurd (omega arith)
text_triple-texts_of [] n h = absurd (omega arith)

-- What `with_initialization_material` changes.
abbrev with_material : RecoveryKit → String → List String → RecoveryKit
with_material kit root_token shares = record kit {
  pending_password_bindings = null;
  initialization_root_token = str root_token;
  encrypted_recovery_shares = tup (texts_of shares);
}

module _ (kit : RecoveryKit) (root_token : String) (shares : List String) where
  with_initialization_material_guard :
      {next : RecoveryKit}
      → with_initialization_material kit root_token shares ≡ ok next
      → (is_seal_created kit.checkpoint ≡ true)
        × (length shares ≡ 3)
        × (any (λ s. str_eq s "") shares ≡ false)
        × (with_material kit root_token shares ≡ next)
  unfolding with_initialization_material
  with_initialization_material_guard done = ground arith

  with_material-valid_custody_state :
      is_seal_created kit.checkpoint ≡ true
      → text_triple (tup (texts_of shares)) ≡ true
      → valid_custody_state kit ≡ true
      → valid_custody_state (with_material kit root_token shares) ≡ true
  unfolding valid_custody_state
  with_material-valid_custody_state at_start fits h = ground arith

  with_material-valid_pending :
      is_seal_created kit.checkpoint ≡ true
      → valid_pending kit.checkpoint kit.pending_bootstrap_passwords
          kit.bootstrap_passwords_acknowledged kit.pending_password_bindings
        ≡ true
      → valid_pending kit.checkpoint kit.pending_bootstrap_passwords
          kit.bootstrap_passwords_acknowledged null
        ≡ true
  unfolding valid_pending
  with_material-valid_pending at_start h = ground arith

pub with_initialization_material-IsLoadable :
    (kit : RecoveryKit) (key : List ℕ) {next : RecoveryKit}
    → IsLoadable kit key
    → (root_token : String) (shares : List String)
    → with_initialization_material kit root_token shares ≡ ok next
    → IsLoadable next key
with_initialization_material-IsLoadable kit key v root_token shares done =
    let (at_start, three, full, is_next) =
      with_initialization_material_guard kit root_token shares done in
    subst (λ k. IsLoadable k key) is_next
      (record {
        schema = v.schema;
        client = v.client;
        cluster = v.cluster;
        namespace = v.namespace;
        key_id = v.key_id;
        ceremony = v.ceremony;
        key_length = v.key_length;
        checkpoint = v.checkpoint;
        acknowledged = v.acknowledged;
        pending = with_material-valid_pending kit root_token shares at_start v.pending;
        custody =
            with_material-valid_custody_state kit root_token shares at_start
              (text_triple-texts_of shares three full) v.custody;
      })
