-- ===== src/OpenBao/Credentials.antt =====
-- credentials.py: its random values, its tests of fields and BOOTSTRAP_PASSWORDS.
pub mod Services
pub mod Reconcile
pub mod Checks
pub mod Records
pub mod Good
pub mod Contextforge
pub mod Glitchtip
pub mod Converged
pub mod Copies
pub mod Served
pub mod Shared
pub mod Delivered
pub mod Plan
pub mod Handed
use k8s_stack_tooling.Prelude.{
  ℕ, zero, suc, ◌+◌, String, Bool, true, false, Option, none, some, List, [], ◌∷◌, ◌++◌, map, not,
  ◌||◌, ◌&&◌, ◌==◌, any, if◌then◌else◌, str_eq, str_append, Result, ok, err, ◌>>=◌, Dict, get_item,
  set_item, is_some, keys_of,
}
use k8s_stack_tooling.Value.{Value, text_in}
use k8s_stack_tooling.OpenBao.Kv.{
  OpenBaoError, invalid, conflict, bad_passwords, SecretRecord, Server, Run, ◌>>=◌ as bind, return,
  lift, World, read_secret,
}
use k8s_stack_tooling.OpenBao.Kv.Kept.{values_of}
use k8s_stack_tooling.OpenBao.Upsert.{
  Generators, required_text, InternalResult, no_change, count_change, record_change, add_path,
  upsert, upsert_all,
}

-- The random texts of `secrets`, by their bytes and which one of the draws they are, and the tests of
-- a text: `not value.strip()`; a character below 32 or of 127; "\r" or "\n"; its characters.
pub record Texts : Type 0 where
  pub token_urlsafe : ℕ → ℕ → String
  pub token_hex : ℕ → ℕ → String
  pub is_blank : String → Bool
  pub has_control : String → Bool
  pub has_line_end : String → Bool
  pub characters : String → ℕ

-- BootstrapPassword, without its label and definition.
pub record BootstrapPassword : Type 0 where
  pub password_key : String
  pub path : String
  pub password_field : String

abbrev pub bootstrap_passwords : List BootstrapPassword
bootstrap_passwords =
    (record {
      password_key = "keycloak";
      path = "auth-keycloak/internal";
      password_field = "adminPassword";
    })
    ∷ (record {
      password_key = "langfuse";
      path = "monitor-langfuse/internal";
      password_field = "initUserPassword";
    })
    ∷ (record {
      password_key = "grafana";
      path = "monitor-kube-prometheus-stack/internal";
      password_field = "adminPassword";
    })
    ∷ []

-- _validate_bootstrap_passwords
unfoldable pub validate_bootstrap_passwords : Dict String → Result OpenBaoError (Unit {0})
validate_bootstrap_passwords [] = ok tt
validate_bootstrap_passwords ((k, text) ∷ rest) =
    let others = validate_bootstrap_passwords rest in
    if not (any (λ (p : BootstrapPassword). str_eq p.password_key k) bootstrap_passwords)
      || str_eq text ""
    then err bad_passwords
    else others

abbrev pub add_bootstrap_field :
    String → BootstrapPassword → Option String → Dict String → Dict String
add_bootstrap_field path p none fields = fields
add_bootstrap_field path p (some text) fields =
    if str_eq p.path path then set_item p.password_field text fields else fields

-- _bootstrap_password_fields
abbrev add_bootstrap_fields :
    String → Dict String → List BootstrapPassword → Dict String → Dict String
add_bootstrap_fields path passwords [] fields = fields
add_bootstrap_fields path passwords (p ∷ ps) fields =
    add_bootstrap_fields path passwords ps
      (add_bootstrap_field path p (get_item p.password_key passwords) fields)

unfoldable pub bootstrap_password_fields : String → Dict String → Dict String
bootstrap_password_fields path passwords =
    add_bootstrap_fields path passwords bootstrap_passwords []

-- The test of the loops over fields, for one that is there.
abbrev pub checked_text : (String → Bool) → Dict Value → String → Result OpenBaoError String
checked_text is_bad values name =
    required_text values name >>= λ text. if is_bad text then err invalid else ok text

unfoldable pub check_fields :
    (String → Bool) → Dict Value → List String → Result OpenBaoError (Unit {0})
check_fields is_bad values [] = ok tt
check_fields is_bad values (name ∷ names) =
    checked_text is_bad values name >>= λ _. check_fields is_bad values names

-- The same for the fields that are there.
unfoldable pub check_present :
    (String → Bool) → Dict Value → List String → Result OpenBaoError (Unit {0})
check_present is_bad values [] = ok tt
check_present is_bad values (name ∷ names) =
    (if is_some (get_item name values) then checked_text is_bad values name else ok "") >>= λ _.
    check_present is_bad values names

abbrev pub contextforge_fields : List String
contextforge_fields =
    "postgresqlPassword" ∷ "jwtSecretKey" ∷ "authEncryptionSecret" ∷ "platformAdminPassword"
    ∷ "defaultUserPassword" ∷ []

-- What the loop of _glitchtip_database_password adds for a field that is there.
abbrev pub checked_copy : (String → Bool) → Dict Value → String → Result OpenBaoError (List String)
checked_copy is_bad values name = checked_text is_bad values name >>= λ text. ok (text ∷ [])

module _ (texts : Texts) where
  -- `not value.strip()` or a control character
  abbrev pub is_unprintable : String → Bool
  is_unprintable s = texts.is_blank s || texts.has_control s

  -- `not value.strip()` or the end of a line
  abbrev pub is_broken : String → Bool
  is_broken s = texts.is_blank s || texts.has_line_end s

  -- _random_secret, _hex_64, _printable_32, _langfuse_public_key, _langfuse_secret_key
  abbrev pub random_secret : ℕ → String
  random_secret = texts.token_urlsafe 32

  abbrev pub hex_64 : ℕ → String
  hex_64 = texts.token_hex 32

  abbrev pub printable_32 : ℕ → String
  printable_32 = texts.token_urlsafe 24

  abbrev pub langfuse_public_key : ℕ → String
  langfuse_public_key n = str_append "lf_pk_" (texts.token_urlsafe 32 n)

  abbrev pub langfuse_secret_key : ℕ → String
  langfuse_secret_key n = str_append "lf_sk_" (texts.token_urlsafe 32 n)

  -- _random_fields
  abbrev pub random_fields : List String → Generators
  random_fields names = map (λ (name : String). (name, random_secret)) names

  -- _validate_opensearch_query_encryption_key
  unfoldable pub validate_opensearch_query_encryption_key :
      Dict Value → Result OpenBaoError (Unit {0})
  validate_opensearch_query_encryption_key values =
      required_text values "queryDatasourceEncryptionKey" >>= λ text.
      if not (texts.characters text == 32) then err invalid else ok tt
