-- ===== src/Value.antt =====
-- Values of the dynamic language, as json.loads and json.dumps move them. An `obj` keeps the order
-- of its keys. Of the numbers only the naturals are there: no program text modelled here looks at
-- another number than to compare it with a natural.
use k8s_stack_tooling.Prelude.{
  ℕ, zero, suc, String, Bool, true, false, Option, none, some, List, [], ◌∷◌, if◌then◌else◌, str_eq,
  not, ◌&&◌, ◌||◌, all,
}

mutual
  pub data Value : Type 0 where
    null : Value
    bool : Bool → Value
    num : ℕ → Value
    str : String → Value
    arr : Items → Value
    tup : Items → Value
    obj : Fields → Value

  pub data Items : Type 0 where
    nil : Items
    cons : Value → Items → Items

  pub data Fields : Type 0 where
    end : Fields
    field : String → Value → Fields → Fields

-- `value is None`
abbrev pub is_none : Value → Bool
is_none null = true
is_none _ = false

-- `isinstance(value, str) and value`
unfoldable pub is_text : Value → Bool
is_text (str s) = not (str_eq s "")
is_text _ = false

-- `isinstance(value, bool)`
unfoldable pub is_bool : Value → Bool
is_bool (bool b) = true
is_bool _ = false

-- `bool(value)`
abbrev pub truthy : Value → Bool
truthy null = false
truthy (bool b) = b
truthy (num zero) = false
truthy (num (suc n)) = true
truthy (str s) = not (str_eq s "")
truthy (arr nil) = false
truthy (arr (cons v xs)) = true
truthy (tup nil) = false
truthy (tup (cons v xs)) = true
truthy (obj end) = false
truthy (obj (field k v fs)) = true

abbrev pub items_all : (Value → Bool) → Items → Bool
items_all p nil = true
items_all p (cons v xs) = p v && items_all p xs

abbrev pub count_items : Items → ℕ
count_items nil = 0
count_items (cons v xs) = suc (count_items xs)

-- `d.get(key)`, where `none` is a missing key
abbrev pub get_field : String → Fields → Option Value
get_field key end = none
get_field key (field k v fs) = if str_eq k key then some v else get_field key fs

-- `key in d`
abbrev pub has_key : String → Fields → Bool
has_key key end = false
has_key key (field k v fs) = str_eq k key || has_key key fs

-- `all(p(key, value) for key, value in d.items())`
abbrev pub fields_all : (String → Value → Bool) → Fields → Bool
fields_all p end = true
fields_all p (field k v fs) = p k v && fields_all p fs

-- `set(a).issubset(b)` for dicts
unfoldable pub keys_subset : Fields → Fields → Bool
keys_subset a b = fields_all (λ k _. has_key k b) a

-- `set(a) == set(b)` for dicts
unfoldable pub same_keys : Fields → Fields → Bool
unfolding keys_subset
same_keys a b = keys_subset a b && keys_subset b a

abbrev pub text_in : String → List String → Bool
text_in s [] = false
text_in s (x ∷ xs) = str_eq s x || text_in s xs

-- `set(d) == {...}` for a literal set of names
unfoldable pub keys_are : List String → Fields → Bool
keys_are names d = fields_all (λ k _. text_in k names) d && all (λ n. has_key n d) names
