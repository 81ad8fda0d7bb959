-- ===== src/OpenBao/Credentials/Plan.antt =====
-- credentials.py: plan_bootstrap_passwords.
use k8s_stack_tooling.Prelude.{
  suc, String, Option, none, some, List, [], ◌∷◌, if◌then◌else◌, ok, Dict, get_item, set_item,
  is_some,
}
use k8s_stack_tooling.OpenBao.Kv.{Server, Run, ◌>>=◌, return, World, read_secret}
use k8s_stack_tooling.OpenBao.Kv.Kept.{values_of}
use k8s_stack_tooling.OpenBao.Credentials.{
  Texts, BootstrapPassword, bootstrap_passwords, random_secret,
}

module _ (texts : Texts) (server : Server) where
  -- `planned[password.key] = _random_secret()`
  abbrev pub plan_random : String → Dict String → Run (World server) (Dict String)
  plan_random name planned w = (
    ok (set_item name (random_secret texts w.drawn) planned),
    record { state = w.state; drawn = suc w.drawn },
  )

  -- The body of the loop.
  unfoldable pub plan_one : BootstrapPassword → Dict String → Run (World server) (Dict String)
  plan_one p planned = do
    current ← read_secret server p.path
    if is_some (get_item p.password_field (values_of current))
        then return planned
        else plan_random p.password_key planned

  unfoldable pub plan_all : List BootstrapPassword → Dict String → Run (World server) (Dict String)
  plan_all [] planned = return planned
  plan_all (p ∷ ps) planned = do more ← plan_one p planned; plan_all ps more

  -- `BOOTSTRAP_PASSWORDS if definitions is None else definitions`
  abbrev definitions_or_default : Option (List BootstrapPassword) → List BootstrapPassword
  definitions_or_default none = bootstrap_passwords
  definitions_or_default (some definitions) = definitions

  -- plan_bootstrap_passwords
  unfoldable pub plan_bootstrap_passwords :
      Option (List BootstrapPassword) → Run (World server) (Dict String)
  plan_bootstrap_passwords definitions = plan_all (definitions_or_default definitions) []
