-- ===== src/Recovery/Kit.antt =====
-- recovery.py: the kit, and the checks that `load` makes of one.
-- A field holds whatever the JSON file held there; the checks test its type, as the source does.
use Prim.Native.Char.{code}
use k8s_stack_tooling.Prelude.{
  ℕ, String, Bool, true, false, [], ◌∷◌, ◌==◌, leb, ltb, if◌then◌else◌, str_eq, not, ◌&&◌, ◌||◌,
}
use k8s_stack_tooling.Value.{
  Value, null, str, tup, obj, Items, nil, cons, Fields, is_none, is_text, truthy, items_all,
  count_items, fields_all, same_keys, text_in, keys_are,
}

-- The four strings that `checkpoint` may hold, and any other value.
pub data Checkpoint : Type 0 where
  seal_created initialized seeded complete : Checkpoint
  other : Value → Checkpoint

pub record RecoveryKit : Type 0 where
  pub schema_version : Value
  pub client : Value
  pub cluster_id : Value
  pub namespace_uid : Value
  pub static_seal_key : Value
  pub static_seal_key_id : Value
  pub checkpoint : Checkpoint
  pub pending_bootstrap_passwords : Value
  pub bootstrap_passwords_acknowledged : Value
  pub ceremony_id : Value
  pub custodian_names : Value
  pub custodian_fingerprints : Value
  pub custodian_public_keys : Value
  pub custodian_private_keys : Value
  pub initialization_root_token : Value
  pub encrypted_recovery_shares : Value
  pub pending_password_bindings : Value

-- The tests on `checkpoint`.
abbrev pub is_seal_created : Checkpoint → Bool
is_seal_created seal_created = true
is_seal_created _ = false

abbrev pub is_initialized : Checkpoint → Bool
is_initialized initialized = true
is_initialized _ = false

abbrev pub is_seeded : Checkpoint → Bool
is_seeded seeded = true
is_seeded _ = false

-- `in {"initialized", "complete"}`
abbrev pub may_stage : Checkpoint → Bool
may_stage initialized = true
may_stage complete = true
may_stage _ = false

abbrev pub known_checkpoint : Checkpoint → Bool
known_checkpoint (other v) = false
known_checkpoint _ = true

-- `str.isspace` of one character: what `strip` takes off.
unfoldable pub is_space : ℕ → Bool
is_space c =
    (leb 9 c && leb c 13)
    || (leb 28 c && leb c 32)
    || c == 0x85
    || c == 0xa0
    || c == 0x1680
    || (leb 0x2000 c && leb c 0x200a)
    || (leb 0x2028 c && leb c 0x2029)
    || c == 0x202f
    || c == 0x205f
    || c == 0x3000

-- `bool(value.strip())`
unfoldable pub has_ink : String → Bool
unfolding is_space
has_ink String.[] = false
has_ink (String.◌∷◌ c s) = not (is_space (code c)) || has_ink s

-- `any(ord(char) < 32 or ord(char) == 127 for char in value)`
unfoldable pub has_control : String → Bool
has_control String.[] = false
has_control (String.◌∷◌ c s) = ltb (code c) 32 || code c == 127 || has_control s

-- _safe_text
unfoldable pub safe_text : Value → Bool
unfolding has_ink has_control
safe_text (str s) = has_ink s && not (has_control s)
safe_text _ = false

-- _valid_password_binding
unfoldable pub valid_password_binding : Value → Bool
unfolding safe_text keys_are
valid_password_binding (obj b) =
    keys_are ("label" ∷ "path" ∷ "field" ∷ "definition" ∷ []) b && fields_all (λ _ v. safe_text v) b
valid_password_binding _ = false

-- the branch of _valid_password_mapping with no bindings
unfoldable pub valid_base_mapping : Fields → Bool
valid_base_mapping passwords =
    fields_all (λ k _. text_in k ("keycloak" ∷ "langfuse" ∷ "grafana" ∷ [])) passwords
    && truthy (obj passwords)
    && fields_all (λ _ v. is_text v) passwords

-- its branch with bindings
unfoldable pub valid_bound_mapping : Fields → Value → Bool
unfolding valid_password_binding safe_text same_keys
valid_bound_mapping passwords (obj bindings) =
    truthy (obj passwords)
    && same_keys bindings passwords
    && fields_all (λ _ b. valid_password_binding b) bindings
    && fields_all (λ k v. safe_text (str k) && safe_text v) passwords
valid_bound_mapping passwords _ = false

-- _valid_password_mapping
unfoldable pub valid_password_mapping : Fields → Value → Bool
unfolding valid_base_mapping valid_bound_mapping
valid_password_mapping passwords bindings =
    if is_none bindings
    then valid_base_mapping passwords
    else valid_bound_mapping passwords bindings

-- _valid_pending_bootstrap_passwords, on the fields that it reads
unfoldable pub valid_pending : Checkpoint → Value → Value → Value → Bool
valid_pending checkpoint null acknowledged bindings = not (truthy acknowledged) && is_none bindings
valid_pending checkpoint (obj pending) acknowledged bindings =
    may_stage checkpoint && valid_password_mapping pending bindings
valid_pending checkpoint _ acknowledged bindings = false

abbrev text_eq : Value → Value → Bool
text_eq (str a) (str b) = str_eq a b
text_eq _ _ = false

-- `len(set(values)) == 3` for three texts
unfoldable pub distinct_texts : Items → Bool
distinct_texts (cons a (cons b (cons c nil))) =
    not (text_eq a b) && not (text_eq a c) && not (text_eq b c)
distinct_texts _ = false

-- `isinstance(values, tuple) and len(values) == 3 and all(isinstance(v, str) and v for v in values)`
unfoldable pub text_triple : Value → Bool
text_triple (tup xs) = count_items xs == 3 && items_all is_text xs
text_triple _ = false

-- the test on `identity_values`
unfoldable pub valid_identity : Value → Bool
unfolding distinct_texts
valid_identity (tup xs) = count_items xs == 3 && items_all is_text xs && distinct_texts xs
valid_identity _ = false

abbrev absent_or_triple : Value → Bool
absent_or_triple v = is_none v || text_triple v

abbrev pub xor_bool : Bool → Bool → Bool
xor_bool true b = not b
xor_bool false b = b

-- _valid_custody_state
unfoldable pub valid_custody_state : RecoveryKit → Bool
valid_custody_state kit =
    if not (valid_identity kit.custodian_names && valid_identity kit.custodian_fingerprints)
    then false
    else if is_seal_created kit.checkpoint
        && (is_none kit.custodian_public_keys || is_none kit.custodian_private_keys)
    then false
    else if is_seal_created kit.checkpoint
        && xor_bool (is_none kit.initialization_root_token) (is_none kit.encrypted_recovery_shares)
    then false
    else if not (is_seal_created kit.checkpoint)
        && not (
            is_none kit.custodian_public_keys
            && is_none kit.custodian_private_keys
            && is_none kit.encrypted_recovery_shares
            && is_none kit.initialization_root_token)
    then false
    else absent_or_triple kit.custodian_public_keys
      && absent_or_triple kit.custodian_private_keys
      && absent_or_triple kit.encrypted_recovery_shares
