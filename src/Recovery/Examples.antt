-- ===== src/Recovery/Examples.antt =====
-- The kit of a small ceremony, and the theorems of this folder at it.
use k8s_stack_tooling.Prelude.{
  ℕ, ◌≤◌, String, true, false, List, [], ◌∷◌, ◌≡◌, refl, ◌≢◌, ◌⊎◌, Option, none, some, ok, is_ok,
  is_some, str_eq, eq_iff, if◌then◌else◌,
}
use mathlib.Core.Bool.{false≢true}
use k8s_stack_tooling.Value.{
  Value, null, bool, num, str, arr, obj, nil, cons, Fields, end, field, is_text, is_bool, truthy,
  keys_are,
}
use k8s_stack_tooling.Recovery.Kit.{
  RecoveryKit, seal_created, initialized, seeded, valid_pending, valid_custody_state, text_triple,
  valid_identity,
}
use k8s_stack_tooling.Recovery.Operations.{
  triple, with_checkpoint, is_allowed, advance, with_initialization_material, valid_values,
  is_schema_4,
}
use k8s_stack_tooling.Recovery.Validity.{IsLoadable, valid_values-IsLoadable}
use k8s_stack_tooling.Recovery.Lifecycle.{
  checkpointed, material, Reach, here, next, HasNoSecrets, Reach-HasNoSecrets, rank, Reach-rank,
  Step-drops_acknowledged,
}
use k8s_stack_tooling.Recovery.Files.{
  Files, System, private_file, write_new, update, write_atomic, store_payload, write_all,
}
use k8s_stack_tooling.Recovery.Files.Durability.{update-AllOrNothing, write_new_never_overwrites}
use k8s_stack_tooling.Recovery.Accepted.{IsAccepted, Reach-IsAccepted}
use k8s_stack_tooling.Recovery.Load.{load, load_file, load_value, load_key, kit_of}
use k8s_stack_tooling.Recovery.Saved.{saved_fields, load-update}

abbrev list : String → String → String → Value
list a b c = arr (cons (str a) (cons (str b) (cons (str c) nil)))

abbrev key : List ℕ
key =
    0 ∷ 1 ∷ 2 ∷ 3 ∷ 4 ∷ 5 ∷ 6 ∷ 7 ∷ 8 ∷ 9 ∷ 10 ∷ 11 ∷ 12 ∷ 13 ∷ 14 ∷ 15 ∷ 16 ∷ 17 ∷ 18 ∷ 19 ∷ 20
    ∷ 21 ∷ 22 ∷ 23 ∷ 24 ∷ 25 ∷ 26 ∷ 27 ∷ 28 ∷ 29 ∷ 30 ∷ 31 ∷ []

abbrev fresh : RecoveryKit
fresh = record {
  schema_version = num 4;
  client = str "acme";
  cluster_id = str "c1";
  namespace_uid = str "u1";
  static_seal_key = str "AAECAwQFBgcICQoLDA0ODxAREhMUFRYXGBkaGxwdHh8=";
  static_seal_key_id = str "infra-openbao-static-seal-v1";
  checkpoint = seal_created;
  pending_bootstrap_passwords = null;
  bootstrap_passwords_acknowledged = bool false;
  ceremony_id = str "00ff";
  custodian_names = triple "a" "b" "c";
  custodian_fingerprints = triple "f" "g" "h";
  custodian_public_keys = triple "p" "q" "r";
  custodian_private_keys = triple "s" "t" "u";
  initialization_root_token = null;
  encrypted_recovery_shares = null;
  pending_password_bindings = null;
}

fresh-IsLoadable : IsLoadable fresh key
unfolding valid_values is_schema_4 is_text is_bool valid_pending valid_custody_state text_triple
    valid_identity
fresh-IsLoadable = valid_values-IsLoadable fresh key refl

fresh-IsAccepted : IsAccepted (λ _. none) (λ _. some key) fresh
unfolding load_key valid_values is_schema_4 is_text is_bool valid_pending valid_custody_state
    text_triple valid_identity
fresh-IsAccepted = refl

-- seal-created, the initialization material, then "initialized".
abbrev with_response : RecoveryKit
with_response = record fresh {
  initialization_root_token = str "root";
  encrypted_recovery_shares = triple "x" "y" "z";
}

abbrev initialized_kit : RecoveryKit
initialized_kit = record fresh {
  checkpoint = initialized;
  custodian_public_keys = null;
  custodian_private_keys = null;
}

fresh-Reach : Reach fresh initialized_kit
unfolding with_initialization_material with_checkpoint is_allowed advance
fresh-Reach =
    next (next here (material "root" ("x" ∷ "y" ∷ "z" ∷ []) refl)) (checkpointed initialized refl)

Reach-IsAccepted_example : IsAccepted (λ _. none) (λ _. some key) initialized_kit
Reach-IsAccepted_example = Reach-IsAccepted (λ _. none) (λ _. some key) fresh-IsAccepted fresh-Reach

Reach-HasNoSecrets_example : HasNoSecrets initialized_kit
Reach-HasNoSecrets_example = Reach-HasNoSecrets key fresh-IsLoadable fresh-Reach (λ e. cc)

Reach-rank_example : rank fresh.checkpoint ≤ rank initialized_kit.checkpoint
Reach-rank_example = Reach-rank fresh-Reach

abbrev passwords : Fields
passwords = field "grafana" (str "secret") end

abbrev acknowledged_kit : RecoveryKit
acknowledged_kit = record initialized_kit {
  pending_bootstrap_passwords = obj passwords;
  bootstrap_passwords_acknowledged = bool true;
}

abbrev seeded_kit : RecoveryKit
seeded_kit = record initialized_kit { checkpoint = seeded }

Step-drops_acknowledged_example : truthy acknowledged_kit.bootstrap_passwords_acknowledged ≡ true
unfolding with_checkpoint is_allowed advance
Step-drops_acknowledged_example =
    Step-drops_acknowledged {k = acknowledged_kit} {n = seeded_kit} (checkpointed seeded refl) refl
      refl

abbrev wide_system : System
wide_system = record {
  parent_is_dir = true;
  parent_mode = 448;
  create_ok = true;
  chmod_ok = true;
  writes = λ i. some 2;
  fsync_ok = true;
  close_ok = true;
  replace_ok = true;
  sync_directory_ok = false;
  unlink_ok = true;
}

abbrev old_files : Files
old_files q = if str_eq q "kit" then private_file (1 ∷ []) else none

update-AllOrNothing_example :
    let (result, after) = update wide_system 3 "kit" ".kit.tmp" (7 ∷ 8 ∷ 9 ∷ []) old_files in
    (((after "kit" ≡ old_files "kit") × (is_ok result ≡ false))
      ⊎ (after "kit" ≡ private_file (7 ∷ 8 ∷ 9 ∷ [])))
    × (wide_system.unlink_ok ≡ true → after ".kit.tmp" ≡ none)
    × ((q : String) → q ≢ "kit" → q ≢ ".kit.tmp" → after q ≡ old_files q)
update-AllOrNothing_example =
    update-AllOrNothing wide_system "kit" ".kit.tmp" (7 ∷ 8 ∷ 9 ∷ []) old_files
      (λ e. false≢true ((eq_iff "kit" ".kit.tmp").1 e)) refl

write_new_never_overwrites_example :
    let (result, after) = write_new wide_system 3 "other" (7 ∷ 8 ∷ 9 ∷ []) old_files in
    (is_some (old_files "other") ≡ true → (after ≡ old_files) × (is_ok result ≡ false))
    × (is_ok result ≡ true → after "other" ≡ private_file (7 ∷ 8 ∷ 9 ∷ []))
    × (old_files "other" ≡ none
        → is_ok result ≡ false
        → wide_system.unlink_ok ≡ true
        → after "other" ≡ none)
    × ((q : String) → q ≢ "other" → after q ≡ old_files q)
write_new_never_overwrites_example =
    write_new_never_overwrites wide_system "other" (7 ∷ 8 ∷ 9 ∷ []) old_files

-- The directory could not be synced: an error, over a kit that is in place.
update_reports_late_error :
    let (result, after) = update wide_system 3 "kit" ".kit.tmp" (7 ∷ 8 ∷ 9 ∷ []) old_files in
    (is_ok result ≡ false) × (after "kit" ≡ private_file (7 ∷ 8 ∷ 9 ∷ []))
unfolding update write_atomic store_payload write_all
update_reports_late_error = (refl, refl)

-- A file whose text is this kit, as the decoders of a test read it.
abbrev json_text : Fields
json_text = field "schema_version" (num 4) (
    field "client" (str "acme") (
      field "cluster_id" (str "c1") (
        field "namespace_uid" (str "u1") (
          field "static_seal_key" (str "AAEC") (
            field "static_seal_key_id" (str "infra-openbao-static-seal-v1") (
              field "checkpoint" (str "initialized") (
                field "pending_bootstrap_passwords" null (
                  field "bootstrap_passwords_acknowledged" (bool false) (
                    field "ceremony_id" (str "00ff") (
                      field "custodian_names" (list "a" "b" "c") (
                        field "custodian_fingerprints" (list "f" "g" "h") (
                          field "custodian_public_keys" null (
                            field "custodian_private_keys" null (
                              field "initialization_root_token" null
                                (field "encrypted_recovery_shares" null end)))))))))))))))

abbrev loaded_kit : RecoveryKit
loaded_kit = record initialized_kit { static_seal_key = str "AAEC" }

load-json_text : load (λ _. some (obj json_text)) (λ _. some key) old_files "kit" ≡ ok loaded_kit
unfolding load load_file load_value load_key kit_of valid_values is_schema_4 is_text is_bool
    valid_pending valid_custody_state text_triple valid_identity keys_are
load-json_text = refl

-- What update writes over the old kit, and load reads back. The decoder takes a text of three bytes for this kit.
abbrev synced_system : System
synced_system = record wide_system { sync_directory_ok = true }

abbrev decoder : List ℕ → Option Value
decoder (a ∷ b ∷ c ∷ []) = some (obj (saved_fields initialized_kit))
decoder _ = none

fresh-IsAccepted-decoder : IsAccepted decoder (λ _. some key) fresh
unfolding load_key valid_values is_schema_4 is_text is_bool valid_pending valid_custody_state
    text_triple valid_identity
fresh-IsAccepted-decoder = refl

update_synced : is_ok (update synced_system 3 "kit" ".kit.tmp" (7 ∷ 8 ∷ 9 ∷ []) old_files).0 ≡ true
unfolding update write_atomic store_payload write_all
update_synced = refl

load-update_example :
    load decoder
      (λ _. some key)
      (update synced_system 3 "kit" ".kit.tmp" (7 ∷ 8 ∷ 9 ∷ []) old_files).1
      "kit"
    ≡ ok initialized_kit
load-update_example =
    load-update decoder (λ _. some key) synced_system "kit" ".kit.tmp" (7 ∷ 8 ∷ 9 ∷ []) old_files
      fresh-IsAccepted-decoder fresh-Reach refl (λ e. false≢true ((eq_iff "kit" ".kit.tmp").1 e))
      refl update_synced
