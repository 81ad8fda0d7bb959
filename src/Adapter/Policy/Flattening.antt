-- ===== src/Adapter/Policy/Flattening.antt =====
-- What `flatten` keeps of a dict.
use k8s_stack_tooling.Prelude.{
  String, true, false, Option, none, some, ◌≡◌, refl, sym, ◌∙◌, Bool-cases, inl, inr, eq_refl,
  arith, if◌then◌else◌, str_eq, eq_iff, ◌||◌, subst,
}
use k8s_stack_tooling.Value.{
  Value, null, bool, num, str, arr, tup, obj, Fields, end, field, get_field, has_key,
}
use k8s_stack_tooling.Adapter.Policy.{
  Texts, set_field, update_fields, share_keys, path_of, add_children, add_field, flatten_from,
  children_of, flatten,
}

get-set_field :
    (key q : String) (v : Value) (d : Fields)
    → get_field q (set_field key v d) ≡ (if str_eq key q then some v else get_field q d)
get-set_field key q v end = refl
get-set_field key q v (field k x fs) =
    ground (arith, get-set_field key q v fs, eq_iff k key, eq_iff k q, eq_iff key q)

absent : (q : String) (d : Fields) → has_key q d ≡ false → get_field q d ≡ none
absent q end h = refl
absent q (field k x fs) h = ground (arith, absent q fs)

-- A key of the one dict that the other does not have keeps its value.
get-update_fields :
    (q : String) (d e : Fields)
    → has_key q e ≡ false
    → get_field q (update_fields d e) ≡ get_field q d
get-update_fields q d end h = refl
get-update_fields q d (field k v fs) h =
    get-update_fields q (set_field k v d) fs (ground arith) ∙ get-set_field k q v d ∙ ground arith

share_keys_lem :
    (q : String) (a e : Fields) → share_keys a e ≡ false → has_key q a ≡ true → has_key q e ≡ false
share_keys_lem q a end h here = refl
share_keys_lem q a (field k v fs) h here = ground (arith, share_keys_lem q a fs, eq_iff k q)

found : (q : String) (d : Fields) (w : Value) → get_field q d ≡ some w → has_key q d ≡ true
found q end w h = cc
found q (field k v fs) w h = ground (arith, found q fs w)

-- What is under a key stays there.
abbrev Keeps : Fields → Fields → Type 0
Keeps d out = (q : String) (w : Value) → get_field q d ≡ some w → get_field q out ≡ some w

set_field-Keeps :
    (path : String) (v : Value) (d : Fields) → has_key path d ≡ false → Keeps d (set_field path v d)
set_field-Keeps path v d fresh q w g =
    get-set_field path q v d ∙ ground (arith, eq_iff path q, found q d w)

update_fields-Keeps : (d e : Fields) → share_keys d e ≡ false → Keeps d (update_fields d e)
update_fields-Keeps d e apart q w g =
    get-update_fields q d e (share_keys_lem q d e apart (found q d w g)) ∙ g

has-set_field :
    (key q : String) (v : Value) (d : Fields)
    → has_key q (set_field key v d) ≡ (str_eq key q || has_key q d)
has-set_field key q v end = refl
has-set_field key q v (field k x fs) =
    ground (arith, has-set_field key q v fs, eq_iff k key, eq_iff k q, eq_iff key q)

-- No key is there twice.
abbrev pub AreUnique : Fields → Type 0
AreUnique end = Unit
AreUnique (field k v fs) = (has_key k fs ≡ false) × AreUnique fs

set_field-AreUnique :
    (key : String) (v : Value) (d : Fields) → AreUnique d → AreUnique (set_field key v d)
set_field-AreUnique key v end u = (refl, tt)
set_field-AreUnique key v (field k x fs) (fresh, u) = elim (Bool-cases (str_eq k key)) [
  | inl same ↦ rw same (fresh, u)
  | inr other ↦ rw other (
    has-set_field key k v fs ∙ ground (arith, eq_iff k key, eq_iff key k),
    set_field-AreUnique key v fs u,
  )
]

update_fields-AreUnique : (d e : Fields) → AreUnique d → AreUnique (update_fields d e)
update_fields-AreUnique d end u = u
update_fields-AreUnique d (field k v fs) u =
    update_fields-AreUnique (set_field k v d) fs (set_field-AreUnique k v d u)

end-AreUnique : (c : Fields) → some end ≡ some c → AreUnique c
end-AreUnique c h = let same : end ≡ c = cc h in subst AreUnique same tt

-- A dict takes over all of another one, whose keys are different.
update_fields-takes :
    (d e : Fields) (q : String) (w : Value)
    → AreUnique e
    → get_field q e ≡ some w
    → get_field q (update_fields d e) ≡ some w
update_fields-takes d end q w u g = cc g
update_fields-takes d (field k v fs) q w (fresh, u) g = elim (Bool-cases (str_eq k q)) [
  | inl same ↦
      let own : k ≡ q = (eq_iff k q).0 same in
      get-update_fields q (set_field k v d) fs (rw own at fresh)
      ∙ get-set_field k q v d
      ∙ rw same (rw same at g)
  | inr other ↦ update_fields-takes (set_field k v d) fs q w u (rw other at g)
]

get_own : (path : String) (v : Value) (d : Fields) → get_field path (set_field path v d) ≡ some v
get_own path v d = get-set_field path path v d ∙ rw (eq_refl path) refl

module _ (texts : Texts) where
  -- What an item with these children leaves: itself under its path, the children, and the rest.
  abbrev IsAdded : String → Value → Fields → Option Fields → Fields → Type 0
  IsAdded path v result children out =
      (get_field path out ≡ some v)
      × Keeps result out
      × (AreUnique result → AreUnique out)
      × ((c : Fields) × (children ≡ some c) × (AreUnique c → Keeps c out))

  add_children-IsAdded :
      (path : String) (v : Value) (result : Fields) (children : Option Fields) (out : Fields)
      → has_key path result ≡ false
      → add_children texts path v result children ≡ some out
      → IsAdded path v result children out
  add_children-IsAdded path v result none out fresh h = cc
  add_children-IsAdded path v result (some children) out fresh h =
      elim (Bool-cases (share_keys (set_field path v result) children)) [
        | inl shared ↦ cc (rw shared at h)
        | inr apart ↦
            let same : update_fields (set_field path v result) children ≡ out =
              cc (rw apart at h) in
            let keeps = update_fields-Keeps (set_field path v result) children apart in
            rw (sym same) (
              keeps path v (get_own path v result),
              λ q w g. keeps q w (set_field-Keeps path v result fresh q w g),
              λ u.
                  update_fields-AreUnique (set_field path v result) children
                    (set_field-AreUnique path v result u),
              (
                children,
                refl,
                λ u q w g. update_fields-takes (set_field path v result) children q w u g,
              ),
            )
      ]

  add_field-IsAdded :
      (path : String) (v : Value) (result : Fields) (children : Option Fields) (out : Fields)
      → add_field texts path v (some result) children ≡ some out
      → IsAdded path v result children out
  add_field-IsAdded path v result children out h = elim (Bool-cases (has_key path result)) [
    | inl taken ↦ cc (rw taken at h)
    | inr fresh ↦ add_children-IsAdded path v result children out fresh (rw fresh at h)
  ]

  flatten_none :
      (d : Fields) (prefix : String) (out : Fields)
      → flatten_from texts none d prefix ≡ some out
      → ⊥
  unfolding flatten_from
  flatten_none end prefix out h = cc
  flatten_none (field k v d) prefix out h = flatten_none d prefix out h

  -- Each field of the dict is under its path, and so is each field of a dict in it, however deep.
  mutual
    pub IsFound : String → Fields → Fields → Type 0
    IsFound prefix end out = Unit
    IsFound prefix (field k v d) out =
        (get_field (path_of texts prefix k) out ≡ some v)
        × IsFoundIn (path_of texts prefix k) v out
        × IsFound prefix d out

    pub IsFoundIn : String → Value → Fields → Type 0
    IsFoundIn path (obj d) out = IsFound path d out
    IsFoundIn path null out = Unit
    IsFoundIn path (bool b) out = Unit
    IsFoundIn path (num n) out = Unit
    IsFoundIn path (str s) out = Unit
    IsFoundIn path (arr xs) out = Unit
    IsFoundIn path (tup xs) out = Unit

  -- What is found stays so where nothing is lost.
  mutual
    unfolding IsFound

    IsFound-Keeps :
        (prefix : String) (d a b : Fields) → Keeps a b → IsFound prefix d a → IsFound prefix d b
    IsFound-Keeps prefix end a b keeps f = tt
    IsFound-Keeps prefix (field k v d) a b keeps (here, deep, rest) = (
      keeps (path_of texts prefix k) v here,
      IsFoundIn-Keeps (path_of texts prefix k) v a b keeps deep,
      IsFound-Keeps prefix d a b keeps rest,
    )

    IsFoundIn-Keeps :
        (path : String) (v : Value) (a b : Fields)
        → Keeps a b
        → IsFoundIn path v a
        → IsFoundIn path v b
    IsFoundIn-Keeps path (obj d) a b keeps f = IsFound-Keeps path d a b keeps f
    IsFoundIn-Keeps path null a b keeps f = tt
    IsFoundIn-Keeps path (bool x) a b keeps f = tt
    IsFoundIn-Keeps path (num n) a b keeps f = tt
    IsFoundIn-Keeps path (str s) a b keeps f = tt
    IsFoundIn-Keeps path (arr xs) a b keeps f = tt
    IsFoundIn-Keeps path (tup xs) a b keeps f = tt

  -- What flatten_from adds to `result`.
  abbrev IsFlat : String → Fields → Fields → Fields → Type 0
  IsFlat prefix d result out =
      IsFound prefix d out × Keeps result out × (AreUnique result → AreUnique out)

  added-IsFlat :
      (k : String) (v : Value) (d : Fields) (result : Fields) (o : Option Fields) (prefix : String)
      (out : Fields)
      → add_field texts
          (path_of texts prefix k)
          v
          (some result)
          (children_of texts v (path_of texts prefix k))
        ≡ o
      → ((c : Fields)
          → children_of texts v (path_of texts prefix k) ≡ some c
          → IsFoundIn (path_of texts prefix k) v c × AreUnique c)
      → ((r : Fields) → flatten_from texts (some r) d prefix ≡ some out → IsFlat prefix d r out)
      → flatten_from texts o d prefix ≡ some out
      → IsFlat prefix (field k v d) result out
  unfolding IsFound
  added-IsFlat k v d result none prefix out e inner rest h = absurd (flatten_none d prefix out h)
  added-IsFlat k v d result (some r) prefix out e inner rest h =
      let path = path_of texts prefix k in
      let (here, kept, unique, (c, is_c, takes)) = add_field-IsAdded path v result _ r e in
      let (later, keeps, unique') = rest r h in
      let (deep, apart) = inner c is_c in
      (
        (
          keeps path v here,
          IsFoundIn-Keeps path v c out (λ q w g. keeps q w (takes apart q w g)) deep,
          later,
        ),
        λ q w g. keeps q w (kept q w g),
        λ u. unique' (unique u),
      )

  mutual
    unfolding flatten_from IsFound

    flatten_from-IsFlat :
        (d : Fields) (result : Fields) (prefix : String) (out : Fields)
        → flatten_from texts (some result) d prefix ≡ some out
        → IsFlat prefix d result out
    flatten_from-IsFlat end result prefix out h =
        let same : result ≡ out = cc h in
        subst (λ (x : Fields). Unit × Keeps result x × (AreUnique result → AreUnique x)) same
          (tt, λ q w g. g, λ u. u)
    flatten_from-IsFlat (field k v d) result prefix out h =
        added-IsFlat k v d result _ prefix out refl
          (λ c. children_of-IsFound v (path_of texts prefix k) c)
          (λ r. flatten_from-IsFlat d r prefix out) h

    children_of-IsFound :
        (v : Value) (path : String) (c : Fields)
        → children_of texts v path ≡ some c
        → IsFoundIn path v c × AreUnique c
    children_of-IsFound (obj d) path c h =
        let (found_all, _, unique) = flatten_from-IsFlat d end path c h in (found_all, unique tt)
    children_of-IsFound null path c h = (tt, end-AreUnique c h)
    children_of-IsFound (bool b) path c h = (tt, end-AreUnique c h)
    children_of-IsFound (num n) path c h = (tt, end-AreUnique c h)
    children_of-IsFound (str s) path c h = (tt, end-AreUnique c h)
    children_of-IsFound (arr xs) path c h = (tt, end-AreUnique c h)
    children_of-IsFound (tup xs) path c h = (tt, end-AreUnique c h)

  -- A dict without ambiguous paths loses nothing: each of its fields is under the prefix, a dot and
  -- its key, and each field of a dict in it, however deep, is under the path of that dict, a dot and
  -- its own key; and no path is there twice.
  pub flatten-IsFound :
      (d : Fields) (prefix : String) (out : Fields)
      → flatten texts d prefix ≡ some out
      → IsFound prefix d out × AreUnique out
  unfolding flatten
  flatten-IsFound d prefix out h =
      let (found_all, _, unique) = flatten_from-IsFlat d end prefix out h in (found_all, unique tt)
