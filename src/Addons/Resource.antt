-- ===== src/Addons/Resource.antt =====
-- addons/validation.py: reading a rendered resource, and `identity`. A text is expected where a name
-- stands; `malformed` is the KeyError, TypeError or AttributeError of a resource of another shape.
use k8s_stack_tooling.Prelude.{
  String, Bool, Option, none, some, List, [], ◌∷◌, ◌&&◌, str_eq, Result, ok, err, ◌>>=◌,
}
use k8s_stack_tooling.Value.{Value, str, arr, obj, Items, nil, cons, end, get_field}
use k8s_stack_tooling.Addons.Graph.{GraphError}

-- ContractError, by what it reports, and `malformed`.
pub data CheckError : Type 0 where
  malformed same_package_names duplicate_input duplicate_producer no_resources many_owners
        secret_value no_chart undeclared_chart no_helm_producer no_producer no_readiness own_output
        no_helm_readiness :
      CheckError
  graph : GraphError → CheckError

abbrev pub found : Option Value → Result CheckError Value
found none = err malformed
found (some v) = ok v

-- `value[name]`
unfoldable pub key : String → Value → Result CheckError Value
key name (obj d) = found (get_field name d)
key name _ = err malformed

abbrev or_default : Value → Option Value → Value
or_default v none = v
or_default v (some w) = w

-- `value.get(name, default)`
unfoldable pub get : String → Value → Value → Result CheckError Value
get name default (obj d) = ok (or_default default (get_field name d))
get name default _ = err malformed

unfoldable pub text : Value → Result CheckError String
text (str s) = ok s
text _ = err malformed

abbrev items_of : Items → List Value
items_of nil = []
items_of (cons v xs) = v ∷ items_of xs

-- A list to loop over.
unfoldable pub elements : Value → Result CheckError (List Value)
elements (arr xs) = ok (items_of xs)
elements _ = err malformed

abbrev pub empty : Value
empty = obj end

-- (group, kind, namespace, name)
pub record Identity : Type 0 where
  pub group : String
  pub kind : String
  pub namespace : String
  pub name : String

abbrev pub identity_eq : Identity → Identity → Bool
identity_eq i j =
    str_eq i.group j.group
    && (str_eq i.kind j.kind && (str_eq i.namespace j.namespace && str_eq i.name j.name))

-- (kind, namespace, name)
abbrev pub Key : Type 0
Key = String × String × String

abbrev pub key_eq : Key → Key → Bool
key_eq (k, s, n) (k', s', n') = str_eq k k' && (str_eq s s' && str_eq n n')

-- `api.split("/")[0] if "/" in api else ""` is a parameter.
unfoldable pub identity : (String → String) → Value → Result CheckError Identity
identity group_of resource = key "metadata" resource >>= λ metadata.
    (key "apiVersion" resource >>= text) >>= λ api. (key "kind" resource >>= text) >>= λ kind.
    (get "namespace" (str "") metadata >>= text) >>= λ namespace.
    (key "name" metadata >>= text) >>= λ name.
    ok (record { group = group_of api; kind = kind; namespace = namespace; name = name })
