-- ===== src/OpenBao/Credentials/Checks.antt =====
-- credentials.py: what the tests of fields say of values that are kept.
use k8s_stack_tooling.Prelude.{
  String, Bool, List, [], ◌∷◌, ◌≡◌, refl, ◌∙◌, ap, Result, ok, ◌>>=◌, >>=-eq_ok, Dict, keys_of,
}
use k8s_stack_tooling.Value.{Value}
use k8s_stack_tooling.OpenBao.Kv.{OpenBaoError, Server, IsLawful}
use k8s_stack_tooling.OpenBao.Kv.Kept.{AreKept}
use k8s_stack_tooling.OpenBao.Kv.Settled.{IsConvergent, return-IsConvergent, lift-IsConvergent}
use k8s_stack_tooling.OpenBao.Upsert.{
  Generators, required_text, InternalResult, no_change, count_change,
}
use k8s_stack_tooling.OpenBao.Upsert.Again.{ChangesNothing, required_text-kept, upsert-after}
use k8s_stack_tooling.OpenBao.Credentials.{
  Texts, checked_text, check_fields, validate_opensearch_query_encryption_key, is_unprintable,
}
use k8s_stack_tooling.OpenBao.Credentials.Services.{upsert_checked}

-- A test of a required text, for values that are kept.
test-kept :
    {A : Type 0} (d e : Dict Value) (name : String) (test : String → Result OpenBaoError A) (a : A)
    → AreKept d e
    → (required_text d name >>= test) ≡ ok a
    → (required_text e name >>= test) ≡ ok a
test-kept d e name test a kept h =
    let (text, one, two) = >>=-eq_ok (required_text d name) test h in
    ap (λ (r : Result OpenBaoError String). r >>= test) (required_text-kept d e name text kept one)
    ∙ two

pub checked_text-kept :
    (is_bad : String → Bool) (d e : Dict Value) (name text : String)
    → AreKept d e
    → checked_text is_bad d name ≡ ok text
    → checked_text is_bad e name ≡ ok text
checked_text-kept is_bad d e name text kept h = test-kept d e name _ text kept h

check_fields-kept :
    (is_bad : String → Bool) (d e : Dict Value) (names : List String) (u : Unit {0})
    → AreKept d e
    → check_fields is_bad d names ≡ ok u
    → check_fields is_bad e names ≡ ok u
unfolding check_fields
check_fields-kept is_bad d e [] u kept h = h
check_fields-kept is_bad d e (name ∷ names) u kept h =
    let (text, one, two) = >>=-eq_ok (checked_text is_bad d name) _ h in
    ap (λ (r : Result OpenBaoError String). r >>= (λ _. check_fields is_bad e names))
      (checked_text-kept is_bad d e name text kept one)
    ∙ check_fields-kept is_bad d e names u kept two

pub validate_opensearch-kept :
    (texts : Texts) (d e : Dict Value) (u : Unit {0})
    → AreKept d e
    → validate_opensearch_query_encryption_key texts d ≡ ok u
    → validate_opensearch_query_encryption_key texts e ≡ ok u
unfolding validate_opensearch_query_encryption_key
validate_opensearch-kept texts d e u kept h =
    test-kept d e "queryDatasourceEncryptionKey" _ u kept h

pub upsert_checked-IsConvergent :
    (texts : Texts) (server : Server) (lawful : IsLawful server)
    (records : List (String × (Generators × Dict String))) (r : InternalResult)
    → IsConvergent server ChangesNothing
        (upsert_checked texts server records r)
        (upsert_checked texts server records no_change)
unfolding upsert_checked
upsert_checked-IsConvergent texts server lawful [] r =
    return-IsConvergent server ChangesNothing r no_change refl
upsert_checked-IsConvergent texts server lawful ((path, (generators, fixed)) ∷ rest) r =
    upsert-after server lawful ChangesNothing path generators fixed _ _ (λ v v' c kept.
      lift-IsConvergent server ChangesNothing _ _ _ _
        (λ u h. check_fields-kept (is_unprintable texts) v v' (keys_of generators) u kept h)
        (λ u. upsert_checked-IsConvergent texts server lawful rest (count_change r path c)))
