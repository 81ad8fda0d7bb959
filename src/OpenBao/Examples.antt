-- ===== src/OpenBao/Examples.antt =====
-- credentials.py: runs against a server in memory.
use k8s_stack_tooling.Prelude.{
  ℕ, suc, String, Bool, true, false, none, some, [], ◌∷◌, ◌≡◌, inl, refl, ◌∙◌, ap, str_eq, eq_refl,
  ◌==◌, Result, ok, err, is_ok, Dict, get_item, set_item, get_item-set_item, length,
}
use k8s_stack_tooling.Value.{Value, num}
use k8s_stack_tooling.OpenBao.Kv.{SecretRecord, Holds, OpenBaoError, Server, IsLawful, World}
use k8s_stack_tooling.OpenBao.Kv.Kept.{Keeps, Keeps-refl}
use k8s_stack_tooling.OpenBao.Upsert.{
  InternalResult, no_change, generate, fix, upsert, upsert_all, required_text, version_of,
}
use k8s_stack_tooling.OpenBao.Credentials.{
  Texts, validate_bootstrap_passwords, bootstrap_password_fields, check_fields, check_present,
  validate_opensearch_query_encryption_key,
}
use k8s_stack_tooling.OpenBao.Credentials.Services.{
  upsert_contextforge, reconcile_contextforge, copy_of, glitchtip_database_password, upsert_checked,
  reconcile_glitchtip,
}
use k8s_stack_tooling.OpenBao.Credentials.Reconcile.{
  reconcile_services, reconcile_docling, upsert_postgres, reconcile_rest, reconcile_records,
  reconcile_internal_credentials,
}
use k8s_stack_tooling.OpenBao.Credentials.Good.{IsRandom}
use k8s_stack_tooling.OpenBao.Credentials.Shared.{
  AllShared, reconcile_internal_credentials-AreShared,
}
use k8s_stack_tooling.OpenBao.Credentials.Delivered.{
  AreDelivered, reconcile_internal_credentials-AreDelivered,
}
use k8s_stack_tooling.OpenBao.Credentials.Plan.{plan_one, plan_all, plan_bootstrap_passwords}
use k8s_stack_tooling.OpenBao.Credentials.Handed.{plan_bootstrap_passwords-again}
use k8s_stack_tooling.OpenBao.Credentials.Converged.{
  reconcile_internal_credentials-Keeps, reconcile_internal_credentials-again,
}

abbrev put : Dict SecretRecord → String → Dict Value → ℕ → Bool → Bool × Dict SecretRecord
put s path values cas true = (true, set_item path (record { values = values; version = suc cas }) s)
put s path values cas false = (false, s)

-- A server that stores a record if the version is the one before it.
abbrev memory : Server
memory = record {
  State = Dict SecretRecord;
  held = λ (s : Dict SecretRecord) (path : String). get_item path s;
  read = λ (s : Dict SecretRecord) (path : String). ok (get_item path s);
  write = λ (s : Dict SecretRecord) (path : String) (values : Dict Value) (cas : ℕ).
      put s path values cas (version_of (get_item path s) == cas);
}

get_item-put_other :
    (s : Dict SecretRecord) (path other : String) (values : Dict Value) (cas : ℕ) (b : Bool)
    → str_eq path other ≡ false
    → get_item other (put s path values cas b).1 ≡ get_item other s
get_item-put_other s path other values cas true different =
    get_item-set_item path other _ s ∙ rw different refl
get_item-put_other s path other values cas false different = refl

put-Holds :
    (s : Dict SecretRecord) (path : String) (values : Dict Value) (cas : ℕ) (b : Bool)
    → (put s path values cas b).0 ≡ true
    → Holds (get_item path (put s path values cas b).1) values
put-Holds s path values cas true h =
    (suc cas, get_item-set_item path path _ s ∙ rw (eq_refl path) refl)
put-Holds s path values cas false h = cc h

get_item-put_refused :
    (s : Dict SecretRecord) (path : String) (values : Dict Value) (cas : ℕ) (b : Bool)
    → (put s path values cas b).0 ≡ false
    → get_item path (put s path values cas b).1 ≡ get_item path s
get_item-put_refused s path values cas false h = refl
get_item-put_refused s path values cas true h = cc h

memory-IsLawful : IsLawful memory
memory-IsLawful = record {
  read_held = λ s path r h. cc h;
  write_other =
      λ s path values cas other different. get_item-put_other s path other values cas _ different;
  write_done = λ s path values cas h. put-Holds s path values cas _ h;
  write_refused = λ s path values cas h. inl (get_item-put_refused s path values cas _ h);
}

abbrev texts : Texts
texts = record {
  token_urlsafe = λ (bytes draw : ℕ). "token";
  token_hex = λ (bytes draw : ℕ). "hex";
  is_blank = λ (s : String). str_eq s "";
  has_control = λ (s : String). false;
  has_line_end = λ (s : String). false;
  characters = λ (s : String). 32;
}

texts-IsRandom : IsRandom texts
texts-IsRandom = record { nonempty = λ n. refl; unbroken = λ n. refl; printable = λ n. refl }

abbrev passwords : Dict String
passwords = ("keycloak", "first") ∷ []

-- A server that has one record, with a field of the operator's own.
abbrev start : World memory
start = record {
  state =
      ("infra-postgres-operations/internal", record { values = ("own", num 1) ∷ []; version = 3 })
      ∷ [];
  drawn = 0;
}

abbrev end_of_run : Result OpenBaoError InternalResult × World memory
end_of_run =
    reconcile_internal_credentials texts memory passwords true (some "admin@example.org") true start

abbrev result_of : Result OpenBaoError InternalResult → InternalResult
result_of (ok r) = r
result_of (err e) = no_change

ends_ok : is_ok end_of_run.0 ≡ true
unfolding reconcile_internal_credentials validate_bootstrap_passwords bootstrap_password_fields
    reconcile_records reconcile_rest reconcile_docling upsert_postgres reconcile_services
    reconcile_contextforge upsert_contextforge reconcile_glitchtip glitchtip_database_password
    copy_of upsert_checked check_fields check_present validate_opensearch_query_encryption_key
    upsert upsert_all generate fix required_text
ends_ok = refl

ok_of_test : (x : Result OpenBaoError InternalResult) → is_ok x ≡ true → x ≡ ok (result_of x)
ok_of_test (ok r) h = refl
ok_of_test (err e) h = cc h

goes_through : end_of_run ≡ (ok (result_of end_of_run.0), end_of_run.1)
goes_through =
    ap (λ (x : Result OpenBaoError InternalResult). (x, end_of_run.1))
      (ok_of_test end_of_run.0 ends_ok)

writes_all : length (result_of end_of_run.0).changed_paths ≡ 18
unfolding reconcile_internal_credentials validate_bootstrap_passwords bootstrap_password_fields
    reconcile_records reconcile_rest reconcile_docling upsert_postgres reconcile_services
    reconcile_contextforge upsert_contextforge reconcile_glitchtip glitchtip_database_password
    copy_of upsert_checked check_fields check_present validate_opensearch_query_encryption_key
    upsert upsert_all generate fix required_text
writes_all = refl

reconcile_internal_credentials-Keeps_example : Keeps memory start end_of_run.1
reconcile_internal_credentials-Keeps_example =
    reconcile_internal_credentials-Keeps texts memory memory-IsLawful passwords true
      (some "admin@example.org") true start

reconcile_internal_credentials-again_example :
    reconcile_internal_credentials texts memory passwords true
      (some "admin@example.org")
      true
      end_of_run.1
    ≡ (ok no_change, end_of_run.1)
reconcile_internal_credentials-again_example =
    reconcile_internal_credentials-again texts memory memory-IsLawful texts-IsRandom passwords true
      (some "admin@example.org") true start end_of_run.1 end_of_run.1 (result_of end_of_run.0)
      goes_through (Keeps-refl memory end_of_run.1) (λ path. refl)

reconcile_internal_credentials-AreShared_example :
    AllShared texts memory memory-IsLawful passwords true
      (some "admin@example.org")
      true
      end_of_run.1
reconcile_internal_credentials-AreShared_example =
    reconcile_internal_credentials-AreShared texts memory memory-IsLawful passwords true
      (some "admin@example.org") true start end_of_run.1 (result_of end_of_run.0) goes_through

reconcile_internal_credentials-AreDelivered_example :
    AreDelivered texts memory memory-IsLawful passwords end_of_run.1
reconcile_internal_credentials-AreDelivered_example =
    reconcile_internal_credentials-AreDelivered texts memory memory-IsLawful passwords true
      (some "admin@example.org") true start end_of_run.1 (result_of end_of_run.0) goes_through

-- The three passwords, planned on the server that holds none of them.
abbrev planned : Dict String
planned = ("keycloak", "token") ∷ ("langfuse", "token") ∷ ("grafana", "token") ∷ []

abbrev after_plan : World memory
after_plan = record { state = start.state; drawn = 3 }

plans_three : plan_bootstrap_passwords texts memory none start ≡ (ok planned, after_plan)
unfolding plan_bootstrap_passwords plan_all plan_one
plans_three = refl

abbrev run_with_planned : Result OpenBaoError InternalResult × World memory
run_with_planned = reconcile_internal_credentials texts memory planned false none false after_plan

planned_ok : is_ok run_with_planned.0 ≡ true
unfolding reconcile_internal_credentials validate_bootstrap_passwords bootstrap_password_fields
    reconcile_records reconcile_rest reconcile_docling upsert_postgres reconcile_services
    reconcile_contextforge upsert_contextforge reconcile_glitchtip glitchtip_database_password
    copy_of upsert_checked check_fields check_present validate_opensearch_query_encryption_key
    upsert upsert_all generate fix required_text
planned_ok = refl

goes_through_with_planned :
    run_with_planned ≡ (ok (result_of run_with_planned.0), run_with_planned.1)
goes_through_with_planned =
    ap (λ (x : Result OpenBaoError InternalResult). (x, run_with_planned.1))
      (ok_of_test run_with_planned.0 planned_ok)

plan_bootstrap_passwords-again_example :
    plan_bootstrap_passwords texts memory none run_with_planned.1 ≡ (ok [], run_with_planned.1)
plan_bootstrap_passwords-again_example =
    plan_bootstrap_passwords-again texts memory memory-IsLawful false none false planned
      (result_of run_with_planned.0) start after_plan after_plan run_with_planned.1
      run_with_planned.1 plans_three (Keeps-refl memory after_plan) goes_through_with_planned
      (Keeps-refl memory run_with_planned.1) (λ path. refl)
