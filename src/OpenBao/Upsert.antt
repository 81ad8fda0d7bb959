-- ===== src/OpenBao/Upsert.antt =====
-- credentials.py: `_upsert` and the small functions around it.
pub mod Steps
pub mod Additions
pub mod Stored
pub mod Again
pub mod Ensured
use k8s_stack_tooling.Prelude.{
  ℕ, zero, suc, ◌+◌, String, Bool, true, false, Option, none, some, List, [], ◌∷◌, ◌++◌, not, ◌||◌,
  if◌then◌else◌, str_eq, Result, ok, err, ◌>>=◌, Dict, get_item, set_item, is_some, keys_of,
}
use k8s_stack_tooling.Value.{Value, null, bool, num, str, arr, tup, obj, text_in}
use k8s_stack_tooling.OpenBao.Kv.{
  SecretRecord, OpenBaoError, mismatch, not_text, invalid, Server, Run, ◌>>=◌ as bind, return, lift,
  World, read_secret, write_secret,
}
use k8s_stack_tooling.OpenBao.Kv.Kept.{values_of}

-- What a Generator returns when it is called as the n-th one.
abbrev pub Generators : Type 0
Generators = Dict (ℕ → String)

-- `values` and `added`, and how many random values were drawn so far.
pub record Filled : Type 0 where
  pub values : Dict Value
  pub added : ℕ
  pub drawn : ℕ

-- The loop over the generators.
abbrev pub generate_one : String → (ℕ → String) → Filled → Filled
generate_one name generator f = if is_some (get_item name f.values) then f else record {
  values = set_item name (str (generator f.drawn)) f.values;
  added = suc f.added;
  drawn = suc f.drawn;
}

unfoldable pub generate : Generators → Filled → Filled
generate [] f = f
generate ((name, generator) ∷ rest) f = generate rest (generate_one name generator f)

-- `values[name] == value` for a key that is there
abbrev pub has_value : String → Option Value → Bool
has_value t (some (str s)) = str_eq s t
has_value t _ = false

-- The loop over `fixed`.
abbrev pub fix_one : String → String → Dict Value → ℕ → Result OpenBaoError (Dict Value × ℕ)
fix_one name t values added =
    if is_some (get_item name values)
    then (if not (has_value t (get_item name values)) then err mismatch else ok (values, added))
    else ok (set_item name (str t) values, suc added)

unfoldable pub fix : Dict String → Dict Value → ℕ → Result OpenBaoError (Dict Value × ℕ)
fix [] values added = ok (values, added)
fix ((name, t) ∷ rest) values added = fix_one name t values added >>= λ r. fix rest r.0 r.1

-- `current.version if current else 0`
abbrev pub version_of : Option SecretRecord → ℕ
version_of none = 0
version_of (some r) = r.version

-- _required_text
abbrev pub required : Option Value → Result OpenBaoError String
required (some (str s)) = if str_eq s "" then err not_text else ok s
required _ = err not_text

unfoldable pub required_text : Dict Value → String → Result OpenBaoError String
required_text values name = required (get_item name values)

-- InternalResult
pub record InternalResult : Type 0 where
  pub changed_paths : List String
  pub added_fields : ℕ

abbrev pub no_change : InternalResult
no_change = record { changed_paths = []; added_fields = 0 }

-- `dict.fromkeys` of the paths so far and of one more
abbrev pub add_path : String → List String → List String
add_path path changed = if text_in path changed then changed else changed ++ (path ∷ [])

-- _record_change
abbrev pub record_change : List String → String → ℕ → List String
record_change changed path zero = changed
record_change changed path (suc count) = add_path path changed

-- _record_change with `added += count`
abbrev pub count_change : InternalResult → String → ℕ → InternalResult
count_change r path count = record {
  changed_paths = record_change r.changed_paths path count;
  added_fields = r.added_fields + count;
}

module _ (server : Server) where
  abbrev pub fill : Generators → Dict Value → Run (World server) Filled
  fill generators values w =
      let f = generate generators (record { values = values; added = 0; drawn = w.drawn }) in
      (ok f, record { state = w.state; drawn = f.drawn })

  abbrev pub store : String → Dict Value → ℕ → ℕ → Run (World server) (Unit {0})
  store path values zero cas = return tt
  store path values (suc n) cas = write_secret server path values cas

  -- _upsert
  unfoldable pub upsert : String → Generators → Dict String → Run (World server) (Dict Value × ℕ)
  upsert path generators fixed = bind (read_secret server path) (λ current.
      bind (fill generators (values_of current)) (λ f.
        bind (lift (fix fixed f.values f.added))
          (λ r. bind (store path r.0 r.1 (version_of current)) (λ _. return r))))

  -- A loop over records of generators and fixed fields, of calls of _upsert and _record_change.
  unfoldable pub upsert_all :
      List (String × (Generators × Dict String))
      → InternalResult
      → Run (World server) InternalResult
  upsert_all [] r = return r
  upsert_all ((path, (generators, fixed)) ∷ rest) r =
      bind (upsert path generators fixed) (λ x. upsert_all rest (count_change r path x.1))
