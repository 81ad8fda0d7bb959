-- ===== src/Recovery/Load.antt =====
-- recovery.py: load and validate_pending_password_bindings.
use k8s_stack_tooling.Prelude.{
  ℕ, ◌%◌, String, true, List, [], ◌∷◌, ◌==◌, ◌≡◌, Option, none, some, not, if◌then◌else◌, str_eq,
  ok, err, arith, refl,
}
use k8s_stack_tooling.Value.{
  Value, null, str, arr, tup, obj, Fields, field, get_field, has_key, keys_are,
}
use k8s_stack_tooling.Recovery.Kit.{
  Checkpoint, seal_created, initialized, seeded, complete, other, RecoveryKit,
}
use k8s_stack_tooling.Recovery.Operations.{
  KitResult, bad_permissions, unreadable, bad_schema, bad_seal_key, bad_values, valid_values,
}
use k8s_stack_tooling.Recovery.Files.{File, Files}

abbrev checkpoint_text : String → Checkpoint
checkpoint_text s =
    if str_eq s "seal-created"
    then seal_created
    else if str_eq s "initialized"
    then initialized
    else if str_eq s "seeded"
    then seeded
    else if str_eq s "complete"
    then complete
    else other (str s)

abbrev pub checkpoint_of : Value → Checkpoint
checkpoint_of (str s) = checkpoint_text s
checkpoint_of v = other v

abbrev pub field_names : List String
field_names =
    "schema_version" ∷ "client" ∷ "cluster_id" ∷ "namespace_uid" ∷ "static_seal_key"
    ∷ "static_seal_key_id" ∷ "checkpoint" ∷ "pending_bootstrap_passwords"
    ∷ "bootstrap_passwords_acknowledged" ∷ "ceremony_id" ∷ "custodian_names"
    ∷ "custodian_fingerprints" ∷ "custodian_public_keys" ∷ "custodian_private_keys"
    ∷ "initialization_root_token" ∷ "encrypted_recovery_shares" ∷ "pending_password_bindings" ∷ []

-- `values.setdefault(key, None)`
abbrev pub set_default : String → Fields → Fields
set_default key values = if has_key key values then values else field key null values

-- `values[key]`, of a key that is there
abbrev at_key : String → Fields → Value
at_key key values = elim (get_field key values) [ none ↦ null | some v ↦ v ]

-- a list becomes a tuple
abbrev pub as_tuple : Value → Value
as_tuple (arr xs) = tup xs
as_tuple v = v

-- RecoveryKit(**values)
unfoldable pub kit_of : Fields → RecoveryKit
kit_of d = record {
  schema_version = at_key "schema_version" d;
  client = at_key "client" d;
  cluster_id = at_key "cluster_id" d;
  namespace_uid = at_key "namespace_uid" d;
  static_seal_key = at_key "static_seal_key" d;
  static_seal_key_id = at_key "static_seal_key_id" d;
  checkpoint = checkpoint_of (at_key "checkpoint" d);
  pending_bootstrap_passwords = at_key "pending_bootstrap_passwords" d;
  bootstrap_passwords_acknowledged = at_key "bootstrap_passwords_acknowledged" d;
  ceremony_id = at_key "ceremony_id" d;
  custodian_names = as_tuple (at_key "custodian_names" d);
  custodian_fingerprints = as_tuple (at_key "custodian_fingerprints" d);
  custodian_public_keys = as_tuple (at_key "custodian_public_keys" d);
  custodian_private_keys = as_tuple (at_key "custodian_private_keys" d);
  initialization_root_token = at_key "initialization_root_token" d;
  encrypted_recovery_shares = as_tuple (at_key "encrypted_recovery_shares" d);
  pending_password_bindings = at_key "pending_password_bindings" d;
}

-- json.loads of the bytes of a file, and base64.b64decode(value, validate=True); `none` is an error
-- that the source catches.
module _ (json_loads : List ℕ → Option Value) (b64decode : Value → Option (List ℕ)) where
  unfoldable pub load_key : RecoveryKit → Option (List ℕ) → KitResult RecoveryKit
  load_key kit none = err bad_seal_key
  load_key kit (some key) = if valid_values kit key then ok kit else err bad_values

  unfoldable pub load_value : Option Value → KitResult RecoveryKit
  load_value none = err unreadable
  load_value (some (obj values)) =
      let d = set_default "pending_password_bindings" values in
      if not (keys_are field_names d)
      then err bad_schema
      else load_key (kit_of d) (b64decode (kit_of d).static_seal_key)
  load_value (some v) = err bad_schema

  unfoldable pub load_file : Option File → KitResult RecoveryKit
  load_file none = err unreadable
  load_file (some f) =
      if not (f.mode % 512 == 384) then err bad_permissions else load_value (json_loads f.content)

  unfoldable pub load : Files → String → KitResult RecoveryKit
  load fs path = load_file (fs path)

  pub load_key_ok :
      (kit : RecoveryKit) (decoded : Option (List ℕ)) {result : RecoveryKit}
      → load_key kit decoded ≡ ok result
      → (key : List ℕ) × (decoded ≡ some key) × (kit ≡ result) × (valid_values kit key ≡ true)
  unfolding load_key
  load_key_ok kit none h = cc
  load_key_ok kit (some key) h = (key, refl, ground arith, ground arith)
