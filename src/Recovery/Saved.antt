-- ===== src/Recovery/Saved.antt =====
-- recovery.py: that load reads back a kit which update has written. json.dumps is a parameter, as what
-- json.loads makes of its text.
use k8s_stack_tooling.Prelude.{
  Bool, ℕ, String, true, List, Option, none, some, ◌≡◌, ◌≢◌, inl, inr, refl, sym, ◌∙◌, ok, is_ok,
  length, ◌||◌, ◌&&◌, not, if◌then◌else◌, false,
}
use k8s_stack_tooling.Value.{
  Value, null, bool, num, str, arr, tup, obj, Fields, end, field, keys_are, is_none,
}
use k8s_stack_tooling.Recovery.Kit.{
  Checkpoint, seal_created, initialized, seeded, complete, other, RecoveryKit, known_checkpoint,
  is_seal_created, xor_bool, text_triple, valid_identity, valid_custody_state,
}
use k8s_stack_tooling.Recovery.Validity.{valid_values-IsLoadable}
use k8s_stack_tooling.Recovery.Files.{Files, System, private_file, update}
use k8s_stack_tooling.Recovery.Files.Durability.{update-AllOrNothing}
use k8s_stack_tooling.Recovery.Load.{
  as_tuple, checkpoint_of, kit_of, load, load_file, load_value, load_key_ok,
}
use k8s_stack_tooling.Recovery.Lifecycle.{Reach}
use k8s_stack_tooling.Recovery.Accepted.{IsAccepted, Reach-IsAccepted}

-- JSON has no tuples.
abbrev as_array : Value → Value
as_array (tup xs) = arr xs
as_array v = v

abbrev checkpoint_name : Checkpoint → Value
checkpoint_name seal_created = str "seal-created"
checkpoint_name initialized = str "initialized"
checkpoint_name seeded = str "seeded"
checkpoint_name complete = str "complete"
checkpoint_name (other v) = v

-- `json.dumps(asdict(kit), sort_keys=True)`, as the object that the text stands for
unfoldable pub saved_fields : RecoveryKit → Fields
saved_fields kit = field "bootstrap_passwords_acknowledged" kit.bootstrap_passwords_acknowledged (
    field "ceremony_id" kit.ceremony_id (
      field "checkpoint" (checkpoint_name kit.checkpoint) (
        field "client" kit.client (
          field "cluster_id" kit.cluster_id (
            field "custodian_fingerprints" (as_array kit.custodian_fingerprints) (
              field "custodian_names" (as_array kit.custodian_names) (
                field "custodian_private_keys" (as_array kit.custodian_private_keys) (
                  field "custodian_public_keys" (as_array kit.custodian_public_keys) (
                    field "encrypted_recovery_shares" (as_array kit.encrypted_recovery_shares) (
                      field "initialization_root_token" kit.initialization_root_token (
                        field "namespace_uid" kit.namespace_uid (
                          field "pending_bootstrap_passwords" kit.pending_bootstrap_passwords (
                            field "pending_password_bindings" kit.pending_password_bindings (
                              field "schema_version" kit.schema_version (
                                field "static_seal_key" kit.static_seal_key (
                                  field "static_seal_key_id" kit.static_seal_key_id
                                    end))))))))))))))))

checkpoint_of-name :
    (c : Checkpoint) → known_checkpoint c ≡ true → checkpoint_of (checkpoint_name c) ≡ c
checkpoint_of-name seal_created h = refl
checkpoint_of-name initialized h = refl
checkpoint_of-name seeded h = refl
checkpoint_of-name complete h = refl
checkpoint_of-name (other v) h = cc h

-- The two fields that are tuples of names, and the three that may be absent.
as_tuple-triple : (v : Value) → (is_none v || text_triple v) ≡ true → as_tuple (as_array v) ≡ v
unfolding text_triple
as_tuple-triple null h = refl
as_tuple-triple (tup xs) h = refl
as_tuple-triple (bool b) h = cc h
as_tuple-triple (num n) h = cc h
as_tuple-triple (str s) h = cc h
as_tuple-triple (arr xs) h = cc h
as_tuple-triple (obj d) h = cc h

as_tuple-identity : (v : Value) → valid_identity v ≡ true → as_tuple (as_array v) ≡ v
unfolding valid_identity
as_tuple-identity (tup xs) h = refl
as_tuple-identity null h = refl
as_tuple-identity (bool b) h = refl
as_tuple-identity (num n) h = refl
as_tuple-identity (str s) h = refl
as_tuple-identity (arr xs) h = cc h
as_tuple-identity (obj d) h = refl

-- What a chain of refusals that ends in three tests has passed.
guards_hold :
    (a b g1 g2 g3 t1 t2 t3 : Bool)
    → (if not (a && b)
        then false
        else if g1
        then false
        else if g2
        then false
        else if g3
        then false
        else t1 && t2 && t3)
      ≡ true
    → (a ≡ true) × (b ≡ true) × (t1 ≡ true) × (t2 ≡ true) × (t3 ≡ true)
guards_hold true true false false false true true true h = (refl, refl, refl, refl, refl)
guards_hold _ _ _ _ _ _ _ _ h = cc h

custody_parts :
    (kit : RecoveryKit)
    → valid_custody_state kit ≡ true
    → (valid_identity kit.custodian_names ≡ true)
      × (valid_identity kit.custodian_fingerprints ≡ true)
      × ((is_none kit.custodian_public_keys || text_triple kit.custodian_public_keys) ≡ true)
      × ((is_none kit.custodian_private_keys || text_triple kit.custodian_private_keys) ≡ true)
      × ((is_none kit.encrypted_recovery_shares || text_triple kit.encrypted_recovery_shares)
          ≡ true)
unfolding valid_custody_state
custody_parts kit h =
    let created = is_seal_created kit.checkpoint in
    guards_hold (valid_identity kit.custodian_names) (valid_identity kit.custodian_fingerprints)
      (created && (is_none kit.custodian_public_keys || is_none kit.custodian_private_keys))
      (created
        && xor_bool (is_none kit.initialization_root_token) (is_none kit.encrypted_recovery_shares))
      (not created
        && not (
            is_none kit.custodian_public_keys
            && is_none kit.custodian_private_keys
            && is_none kit.encrypted_recovery_shares
            && is_none kit.initialization_root_token))
      _ _ _ h

kit_of-saved_fields :
    (kit : RecoveryKit)
    → known_checkpoint kit.checkpoint ≡ true
    → valid_custody_state kit ≡ true
    → kit_of (saved_fields kit) ≡ kit
unfolding kit_of saved_fields
kit_of-saved_fields kit known custody =
    let (names, prints, public, private, shares) = custody_parts kit custody in
    rw
      (
        checkpoint_of-name kit.checkpoint known,
        as_tuple-identity kit.custodian_names names,
        as_tuple-identity kit.custodian_fingerprints prints,
        as_tuple-triple kit.custodian_public_keys public,
        as_tuple-triple kit.custodian_private_keys private,
        as_tuple-triple kit.encrypted_recovery_shares shares,
      )
      refl

module _ (json_loads : List ℕ → Option Value) (b64decode : Value → Option (List ℕ)) where
  load_value-saved :
      (kit : RecoveryKit)
      → IsAccepted json_loads b64decode kit
      → load_value json_loads b64decode (some (obj (saved_fields kit))) ≡ ok kit
  unfolding load_value saved_fields keys_are
  load_value-saved kit accepted =
      let (key, decoded, _, valid) =
        load_key_ok json_loads b64decode kit (b64decode kit.static_seal_key) accepted in
      let v = valid_values-IsLoadable kit key valid in
      let same = kit_of-saved_fields kit v.checkpoint v.custody in rw same accepted

  load-private_file :
      (fs : Files) (path : String) (payload : List ℕ) (kit : RecoveryKit)
      → fs path ≡ private_file payload
      → json_loads payload ≡ some (obj (saved_fields kit))
      → IsAccepted json_loads b64decode kit
      → load json_loads b64decode fs path ≡ ok kit
  unfolding load load_file
  load-private_file fs path payload kit there text accepted =
      rw there (rw text (load_value-saved kit accepted))

  -- A kit that load accepts is taken through any sequence of operations and written by update over a
  -- file, as JSON that json.loads reads back: when update has not raised, load returns this very kit.
  pub load-update :
      (sys : System) (path temporary : String) (payload : List ℕ) (fs : Files) {k n : RecoveryKit}
      → IsAccepted json_loads b64decode k
      → Reach k n
      → json_loads payload ≡ some (obj (saved_fields n))
      → path ≢ temporary
      → fs temporary ≡ none
      → is_ok (update sys (length payload) path temporary payload fs).0 ≡ true
      → load json_loads b64decode (update sys (length payload) path temporary payload fs).1 path
        ≡ ok n
  load-update sys path temporary payload fs {k} {n} accepted r text ne fresh done =
      let (written, _, _) = update-AllOrNothing sys path temporary payload fs ne fresh in
      elim written [
        | inl (_, raised) ↦ cc (sym raised ∙ done)
        | inr there ↦
            load-private_file (update sys (length payload) path temporary payload fs).1 path payload
              n there text (Reach-IsAccepted json_loads b64decode accepted r)
      ]
