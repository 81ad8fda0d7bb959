-- ===== src/Runtime/Assignments.antt =====
-- assignments.py. The reviewed recipes and the model catalogue are data of the package, which come as
-- parameters. A file that is not there is `none`; a `ValueError` is one of `DeploymentError`.
pub mod Reviewed
use k8s_stack_tooling.Prelude.{
  String, Bool, true, false, Option, none, some, List, [], ◌∷◌, not, ◌&&◌, ◌||◌, is_some,
  if◌then◌else◌, str_eq, Result, ok, err, ◌>>=◌, Dict, get_item, set_item, map,
}

pub record Assignment : Type 0 where
  pub model_id : String
  pub variant_id : String
  pub enabled : Bool
  pub runtime : Option String

pub record Deployment : Type 0 where
  pub target : String
  pub assignments : Dict Assignment

-- A recipe, by what the source reads of it.
pub record Preset : Type 0 where
  pub model_id : String
  pub variant_id : String
  pub service : String
  pub runtime : String
  pub default : Bool
  pub enabled : Option Bool

pub data DeploymentError : Type 0 where
  no_recipe wrong_category unknown_alias other_context unknown_model : DeploymentError

-- service_recipes, and the category of a model, which raises a ValueError for an unknown one.
pub record PackageData : Type 0 where
  pub service_recipes : Dict (List Preset)
  pub category_of : String → Option String

abbrev pub alias_categories : Dict String
alias_categories =
    ("llm-general", "llm")
    ∷ ("vlm-general", "vlm")
    ∷ ("vlm-images", "ocr")
    ∷ ("vlm-documents", "ocr")
    ∷ ("stt-general", "asr")
    ∷ ("tts-german", "tts")
    ∷ ("ner-german", "ner")
    ∷ ("ner-english", "ner")
    ∷ ("ner-multilingual", "ner")
    ∷ ("image-generation-general", "image-generation")
    ∷ ("vad-general", "vad")
    ∷ ("diarization-general", "diarization")
    ∷ []

abbrev list_or_empty : {A : Type 0} → Option (List A) → List A
list_or_empty none = []
list_or_empty (some xs) = xs

abbrev pub matching : String → String → List Preset → List Preset
matching model variant [] = []
matching model variant (p ∷ ps) =
    let rest = matching model variant ps in
    if str_eq p.model_id model && str_eq p.variant_id variant then p ∷ rest else rest

-- `model.category != ALIAS_CATEGORIES[alias]`, where an alias without a category is a KeyError.
abbrev has_category : Option String → Option String → Result DeploymentError (Unit {0})
has_category none wanted = err unknown_model
has_category (some c) none = err unknown_alias
has_category (some c) (some w) = if str_eq c w then ok tt else err wrong_category

abbrev pub only : List Preset → Result DeploymentError Preset
only (p ∷ []) = ok p
only _ = err no_recipe

-- `next(recipe for recipe in recipes if recipe.get("default", False))`
abbrev default_of : List Preset → Option Preset
default_of [] = none
default_of (p ∷ ps) = if p.default then some p else default_of ps

abbrev with_default : String → Option Preset → Dict Preset → Dict Preset
with_default alias none rest = rest
with_default alias (some p) rest = (alias, p) ∷ rest

-- services; service_recipes has refused an alias without a default.
abbrev pub services_of : Dict (List Preset) → Dict Preset
services_of [] = []
services_of ((alias, ps) ∷ rest) = with_default alias (default_of ps) (services_of rest)

module _ (pkg : PackageData) where
  unfoldable pub recipe : String → String → String → Result DeploymentError Preset
  recipe alias model variant =
      only (matching model variant (list_or_empty (get_item alias pkg.service_recipes)))
      >>= λ preset.
          has_category (pkg.category_of model) (get_item alias alias_categories) >>= λ _. ok preset

  abbrev names_of : Option (List Preset) → Result DeploymentError (List String)
  names_of none = err unknown_alias
  names_of (some ps) = ok (map (λ (p : Preset). p.service) ps)

  abbrev compose_services : String → Result DeploymentError (List String)
  compose_services alias = names_of (get_item alias pkg.service_recipes)

  abbrev pub is_local : Option String → Bool
  is_local none = true
  is_local (some r) = str_eq r "localai"

  abbrev pub with_runtime : Assignment → Preset → Assignment
  with_runtime choice p = record choice { runtime = some p.runtime }

  -- The handler of the ValueError in the loop of load_deployment.
  abbrev pub migrate :
      String → Assignment → DeploymentError → Option Preset → Result DeploymentError Assignment
  migrate alias choice e none = err e
  migrate alias choice e (some replacement) =
      if not (str_eq alias "vlm-documents")
        || not (is_local choice.runtime)
        || not (str_eq replacement.model_id choice.model_id)
      then err e
      else recipe alias choice.model_id replacement.variant_id >>= λ p.
          ok (with_runtime (record choice { variant_id = replacement.variant_id }) p)

  abbrev pub reviewed_by :
      String → Assignment → Result DeploymentError Preset → Result DeploymentError Assignment
  reviewed_by alias choice (ok p) = ok (with_runtime choice p)
  reviewed_by alias choice (err e) =
      migrate alias choice e (get_item alias (services_of pkg.service_recipes))

  -- The body of the loop of load_deployment.
  unfoldable pub review : String → Assignment → Result DeploymentError Assignment
  review alias choice =
      if not (is_some (get_item alias alias_categories))
      then err unknown_alias
      else reviewed_by alias choice (recipe alias choice.model_id choice.variant_id)

  unfoldable pub review_all : Dict Assignment → Result DeploymentError (Dict Assignment)
  review_all [] = ok []
  review_all ((alias, choice) ∷ rest) =
      review alias choice >>= λ c. review_all rest >>= λ cs. ok ((alias, c) ∷ cs)

  abbrev target_or_empty : Option String → String
  target_or_empty none = ""
  target_or_empty (some t) = t

  abbrev pub deployment_or : Option String → Option Deployment → Deployment
  deployment_or target none = record { target = target_or_empty target; assignments = [] }
  deployment_or target (some d) = d

  abbrev pub is_other : Option String → String → Bool
  is_other none target = false
  is_other (some t) target = not (str_eq target t)

  -- load_deployment, of what the file holds
  unfoldable pub load_deployment :
      Option Deployment → Option String → Result DeploymentError Deployment
  load_deployment file target =
      let d = deployment_or target file in
      if is_other target d.target
      then err other_context
      else review_all d.assignments >>= λ reviewed. ok (record d { assignments = reviewed })

  abbrev assigned : String → Option Assignment → Result DeploymentError (Option Preset)
  assigned alias none = ok none
  assigned alias (some choice) = recipe alias choice.model_id choice.variant_id >>= λ p.
      ok (some (record p { enabled = some choice.enabled }))

  -- A recipe with its key "enabled".
  unfoldable pub assigned_recipe :
      Option Deployment → String → String → Result DeploymentError (Option Preset)
  assigned_recipe file target alias =
      load_deployment file (some target) >>= λ d. assigned alias (get_item alias d.assignments)

  unfoldable pub with_assigned :
      Dict Preset → Dict Assignment → Result DeploymentError (Dict Preset)
  with_assigned result [] = ok result
  with_assigned result ((alias, choice) ∷ rest) =
      recipe alias choice.model_id choice.variant_id >>= λ p.
      with_assigned (set_item alias (record p { enabled = some choice.enabled }) result) rest

  unfoldable pub deployment_services : Option Deployment → Result DeploymentError (Dict Preset)
  deployment_services file = load_deployment file none >>= λ d.
      with_assigned (services_of pkg.service_recipes) d.assignments
