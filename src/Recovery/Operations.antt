-- ===== src/Recovery/Operations.antt =====
-- recovery.py: creating a kit, the steps that change one, and the test that `load` makes.
use k8s_stack_tooling.Prelude.{
  ℕ, String, Bool, true, false, List, [], ◌∷◌, ◌==◌, if◌then◌else◌, str_eq, not, ◌&&◌, ◌||◌, length,
  any, Result, ok, err,
}
use k8s_stack_tooling.Value.{
  Value, null, bool, num, str, tup, obj, Items, nil, cons, Fields, is_none, is_text, is_bool,
  truthy,
}
use k8s_stack_tooling.Recovery.Kit.{
  Checkpoint, seal_created, initialized, seeded, complete, RecoveryKit, is_seal_created,
  is_initialized, is_seeded, may_stage, known_checkpoint, valid_password_mapping, valid_pending,
  valid_custody_state,
}

-- RecoveryKitError, by its message.
pub data RecoveryKitError : Type 0 where
  bad_key_length invalid_transition material_not_durable passwords_not_acknowledged cannot_stage
        invalid_passwords not_awaiting delivery_not_pending definitions_changed
        delivery_not_acknowledged invalid_material :
      RecoveryKitError
  already_exists does_not_exist bad_permissions unreadable bad_schema bad_seal_key bad_values
        no_parent writable_parent not_written os_error :
      RecoveryKitError

abbrev pub KitResult : Type 0 → Type 0
KitResult A = Result RecoveryKitError A

abbrev pub triple : String → String → String → Value
triple a b c = tup (cons (str a) (cons (str b) (cons (str c) nil)))

-- A `tuple[str, str, str]` argument.
abbrev Triple : Type 0
Triple = String × String × String

abbrev triple_of : Triple → Value
triple_of (a, b, c) = triple a b c

-- new_kit; `encoded` is `base64.b64encode(key).decode("ascii")`, `ceremony` is `token_hex(16)`.
unfoldable pub new_kit :
    String
    → String
    → String
    → List ℕ
    → String
    → String
    → String
    → Triple
    → Triple
    → Triple
    → Triple
    → KitResult RecoveryKit
new_kit client cluster_id namespace_uid key encoded ceremony key_id names fingerprints public_keys
      private_keys =
    if not (length key == 32)
    then err bad_key_length
    else ok (record {
      schema_version = num 4;
      client = str client;
      cluster_id = str cluster_id;
      namespace_uid = str namespace_uid;
      static_seal_key = str encoded;
      static_seal_key_id = str key_id;
      checkpoint = seal_created;
      pending_bootstrap_passwords = null;
      bootstrap_passwords_acknowledged = bool false;
      ceremony_id = str ceremony;
      custodian_names = triple_of names;
      custodian_fingerprints = triple_of fingerprints;
      custodian_public_keys = triple_of public_keys;
      custodian_private_keys = triple_of private_keys;
      initialization_root_token = null;
      encrypted_recovery_shares = null;
      pending_password_bindings = null;
    })

-- `allowed.get(kit.checkpoint) == checkpoint`
unfoldable pub is_allowed : Checkpoint → Checkpoint → Bool
is_allowed seal_created target = is_initialized target
is_allowed initialized target = is_seeded target
is_allowed seeded complete = true
is_allowed seeded _ = false
is_allowed _ target = false

-- The `replace` at the end of with_checkpoint.
unfoldable pub advance : RecoveryKit → Checkpoint → RecoveryKit
advance kit target =
    let clear : Value → Value = λ v. if is_initialized target then null else v in
    record kit {
      checkpoint = target;
      pending_bootstrap_passwords =
          if is_seeded target && not (is_none kit.pending_bootstrap_passwords)
          then null
          else kit.pending_bootstrap_passwords;
      pending_password_bindings = if is_seeded target then null else kit.pending_password_bindings;
      bootstrap_passwords_acknowledged =
          if is_seeded target then bool false else kit.bootstrap_passwords_acknowledged;
      custodian_public_keys = clear kit.custodian_public_keys;
      custodian_private_keys = clear kit.custodian_private_keys;
      initialization_root_token = clear kit.initialization_root_token;
      encrypted_recovery_shares = clear kit.encrypted_recovery_shares;
    }

-- with_checkpoint
unfoldable pub with_checkpoint : RecoveryKit → Checkpoint → KitResult RecoveryKit
with_checkpoint kit target =
    if not (is_allowed kit.checkpoint target)
    then err invalid_transition
    else if is_initialized target
        && (is_none kit.initialization_root_token || is_none kit.encrypted_recovery_shares)
    then err material_not_durable
    else if is_seeded target
        && not (is_none kit.pending_bootstrap_passwords)
        && not (truthy kit.bootstrap_passwords_acknowledged)
    then err passwords_not_acknowledged
    else ok (advance kit target)

-- with_pending_bootstrap_passwords; `null` bindings are `bindings=None`.
unfoldable pub with_pending_bootstrap_passwords :
    RecoveryKit → Fields → Value → KitResult RecoveryKit
with_pending_bootstrap_passwords kit passwords bindings =
    if not (may_stage kit.checkpoint) || not (is_none kit.pending_bootstrap_passwords)
    then err cannot_stage
    else if not (valid_password_mapping passwords bindings)
    then err invalid_passwords
    else ok (record kit {
      pending_bootstrap_passwords = obj passwords;
      pending_password_bindings = bindings;
      bootstrap_passwords_acknowledged = bool false;
    })

-- with_bootstrap_passwords_acknowledged
unfoldable pub with_bootstrap_passwords_acknowledged : RecoveryKit → KitResult RecoveryKit
with_bootstrap_passwords_acknowledged kit =
    if is_none kit.pending_bootstrap_passwords || truthy kit.bootstrap_passwords_acknowledged
    then err not_awaiting
    else ok (record kit { bootstrap_passwords_acknowledged = bool true })

-- with_password_delivery_complete
unfoldable pub with_password_delivery_complete : RecoveryKit → KitResult RecoveryKit
with_password_delivery_complete kit =
    if is_none kit.pending_bootstrap_passwords || not (truthy kit.bootstrap_passwords_acknowledged)
    then err delivery_not_acknowledged
    else ok (record kit {
      pending_bootstrap_passwords = null;
      pending_password_bindings = null;
      bootstrap_passwords_acknowledged = bool false;
    })

abbrev pub texts_of : List String → Items
texts_of [] = nil
texts_of (s ∷ ss) = cons (str s) (texts_of ss)

-- with_initialization_material; `shares` is the tuple of encrypted shares, of any length.
unfoldable pub with_initialization_material :
    RecoveryKit → String → List String → KitResult RecoveryKit
with_initialization_material kit root_token shares =
    if not (is_seal_created kit.checkpoint)
      || not (is_none kit.initialization_root_token)
      || not (is_none kit.encrypted_recovery_shares)
      || str_eq root_token ""
      || not (length shares == 3)
      || any (λ s. str_eq s "") shares
    then err invalid_material
    else ok (record kit {
      pending_password_bindings = null;
      initialization_root_token = str root_token;
      encrypted_recovery_shares = tup (texts_of shares);
    })

unfoldable pub is_schema_4 : Value → Bool
is_schema_4 (num n) = n == 4
is_schema_4 _ = false

-- What the last test of `load` makes of a kit whose seal key decodes to `key`.
unfoldable pub valid_values : RecoveryKit → List ℕ → Bool
valid_values kit key =
    is_schema_4 kit.schema_version
    && is_text kit.client
    && is_text kit.cluster_id
    && is_text kit.namespace_uid
    && is_text kit.static_seal_key_id
    && is_text kit.ceremony_id
    && length key == 32
    && known_checkpoint kit.checkpoint
    && is_bool kit.bootstrap_passwords_acknowledged
    && valid_pending kit.checkpoint kit.pending_bootstrap_passwords
        kit.bootstrap_passwords_acknowledged kit.pending_password_bindings
    && valid_custody_state kit
