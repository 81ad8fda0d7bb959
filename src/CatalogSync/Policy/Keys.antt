-- ===== src/CatalogSync/Policy/Keys.antt =====
-- sync.py: what _unique_object refuses.
use k8s_stack_tooling.Prelude.{
  String, false, some, ◌≡◌, ◌↔◌, refl, sym, ap, ◌∙◌, subst, arith, ◌||◌, str_eq, eq_iff, ok, err,
  >>=-eq_ok, Bool-cases, ◌⊎◌, inl, inr,
}
use k8s_stack_tooling.Value.{
  Value, null, bool, num, str, arr, tup, obj, Items, nil, cons, Fields, end, field, has_key,
}
use k8s_stack_tooling.CatalogSync.Objects.{duplicate_key}
use k8s_stack_tooling.CatalogSync.Policy.{
  Library, load_policy, with_field, add_unique, unique_object, hooked, hooked_items, hooked_fields,
}

-- No key of these pairs is twice there.
abbrev AreUnique : Fields → Type 0
AreUnique end = Unit
AreUnique (field k v d) = (has_key k d ≡ false) × AreUnique d

-- So in every object of a document.
abbrev mutual
  pub HasUniqueKeys : Value → Type 0
  HasUniqueKeys null = Unit
  HasUniqueKeys (bool b) = Unit
  HasUniqueKeys (num n) = Unit
  HasUniqueKeys (str s) = Unit
  HasUniqueKeys (arr xs) = ItemsHaveUniqueKeys xs
  HasUniqueKeys (tup xs) = ItemsHaveUniqueKeys xs
  HasUniqueKeys (obj d) = FieldsHaveUniqueKeys d × AreUnique d

  ItemsHaveUniqueKeys : Items → Type 0
  ItemsHaveUniqueKeys nil = Unit
  ItemsHaveUniqueKeys (cons v xs) = HasUniqueKeys v × ItemsHaveUniqueKeys xs

  FieldsHaveUniqueKeys : Fields → Type 0
  FieldsHaveUniqueKeys end = Unit
  FieldsHaveUniqueKeys (field k v d) = HasUniqueKeys v × FieldsHaveUniqueKeys d

abbrev joined : Fields → Fields → Fields
joined end e = e
joined (field k v d) e = field k v (joined d e)

with_field-joined :
    (k : String) (v : Value) (d e : Fields) → joined (with_field k v d) e ≡ joined d (field k v e)
with_field-joined k v end e = refl
with_field-joined k v (field j w d) e = ap (λ (x : Fields). field j w x) (with_field-joined k v d e)

joined-end : (d : Fields) → joined d end ≡ d
joined-end end = refl
joined-end (field k v d) = ap (λ (x : Fields). field k v x) (joined-end d)

-- No key of the second is one of the first.
abbrev AreFresh : Fields → Fields → Type 0
AreFresh d end = Unit
AreFresh d (field k v e) = (has_key k d ≡ false) × AreFresh d e

has_key-with_field :
    (q k : String) (v : Value) (d : Fields)
    → has_key q (with_field k v d) ≡ (has_key q d || str_eq k q)
has_key-with_field q k v end = ground arith
has_key-with_field q k v (field j w d) = ground (arith, has_key-with_field q k v d)

AreFresh-with_field :
    (k : String) (v : Value) (d e : Fields)
    → AreFresh (with_field k v d) e ↔ (AreFresh d e × (has_key k e ≡ false))
AreFresh-with_field k v d end = (λ h. (tt, refl), λ h. tt)
AreFresh-with_field k v d (field j w e) =
    let rest = AreFresh-with_field k v d e in
    let step = has_key-with_field j k v d in
    (
      λ (fresh, h).
          let (a, b) = rest.0 h in ((ground arith, a), ground (arith, eq_iff j k, eq_iff k j)),
      λ ((fresh, a), b). (ground (arith, eq_iff j k, eq_iff k j), rest.1 (a, ground arith)),
    )

add_unique_iff :
    (d e r : Fields) → (add_unique d e ≡ ok r) ↔ ((AreFresh d e × AreUnique e) × (joined d e ≡ r))
unfolding add_unique
add_unique_iff d end r =
    (λ h. ((tt, tt), cc (joined-end d)), λ (u, e). ap ok (sym (joined-end d) ∙ e))
add_unique_iff d (field k v e) r = elim (Bool-cases (has_key k d)) [
  | inl there ↦ (λ h. cc (rw there at h), λ (((fresh, f), u), e). cc)
  | inr missing ↦
      let rest = add_unique_iff (with_field k v d) e r in
      let fresh = AreFresh-with_field k v d e in
      let same = with_field-joined k v d e in
      (
        λ h.
            let ((f, u), g) = rest.0 (rw missing at h) in
            let (a, b) = fresh.0 f in (((missing, a), (b, u)), sym same ∙ g),
        λ (((m, a), (b, u)), g). rw missing (rest.1 ((fresh.1 (a, b), u), same ∙ g)),
      )
]

-- _unique_object returns exactly the pairs if no key is twice there, and raises if one is.
unique_object_iff : (d e : Fields) → (unique_object d ≡ ok e) ↔ (AreUnique d × (d ≡ e))
unfolding unique_object
unique_object_iff d e =
    let all = add_unique_iff end d e in
    (λ h. let ((f, u), s) = all.0 h in (u, s), λ (u, s). all.1 ((fresh d, u), s))
  where
    fresh : (e : Fields) → AreFresh end e
    fresh end = tt
    fresh (field k v e) = (refl, fresh e)

mutual
  unfolding hooked

  pub hooked_iff : (v w : Value) → (hooked v ≡ ok w) ↔ (HasUniqueKeys v × (v ≡ w))
  hooked_iff null w = (λ h. (tt, cc), λ (u, e). ap ok e)
  hooked_iff (bool b) w = (λ h. (tt, cc), λ (u, e). ap ok e)
  hooked_iff (num n) w = (λ h. (tt, cc), λ (u, e). ap ok e)
  hooked_iff (str s) w = (λ h. (tt, cc), λ (u, e). ap ok e)
  hooked_iff (arr xs) w = (
    λ h.
        let (ys, e, s) = >>=-eq_ok (hooked_items xs) _ h in
        let (u, same) = (hooked_items_iff xs ys).0 e in (u, cc (same, s)),
    λ (u, e). rw ((hooked_items_iff xs xs).1 (u, refl)) (ap ok e),
  )
  hooked_iff (tup xs) w = (
    λ h.
        let (ys, e, s) = >>=-eq_ok (hooked_items xs) _ h in
        let (u, same) = (hooked_items_iff xs ys).0 e in (u, cc (same, s)),
    λ (u, e). rw ((hooked_items_iff xs xs).1 (u, refl)) (ap ok e),
  )
  hooked_iff (obj d) w = (
    λ h.
        let (e, inner, h1) = >>=-eq_ok (hooked_fields d) _ h in
        let (r, outer, h2) = >>=-eq_ok (unique_object e) _ h1 in
        let (u, same) = (hooked_fields_iff d e).0 inner in
        let (a, same1) = (unique_object_iff e r).0 outer in
        ((u, subst AreUnique (sym same) a), cc (same, same1, h2)),
    λ ((u, a), e).
        rw ((hooked_fields_iff d d).1 (u, refl), (unique_object_iff d d).1 (a, refl)) (ap ok e),
  )

  hooked_items_iff :
      (xs ys : Items) → (hooked_items xs ≡ ok ys) ↔ (ItemsHaveUniqueKeys xs × (xs ≡ ys))
  hooked_items_iff nil ys = (λ h. (tt, cc), λ (u, e). ap ok e)
  hooked_items_iff (cons v xs) ys = (
    λ h.
        let (w, one, h1) = >>=-eq_ok (hooked v) _ h in
        let (zs, more, s) = >>=-eq_ok (hooked_items xs) _ h1 in
        let (u, same) = (hooked_iff v w).0 one in
        let (us, sames) = (hooked_items_iff xs zs).0 more in ((u, us), cc (same, sames, s)),
    λ ((u, us), e).
        rw ((hooked_iff v v).1 (u, refl), (hooked_items_iff xs xs).1 (us, refl)) (ap ok e),
  )

  hooked_fields_iff : (d e : Fields) → (hooked_fields d ≡ ok e) ↔ (FieldsHaveUniqueKeys d × (d ≡ e))
  hooked_fields_iff end e = (λ h. (tt, cc), λ (u, s). ap ok s)
  hooked_fields_iff (field k v d) e = (
    λ h.
        let (w, one, h1) = >>=-eq_ok (hooked v) _ h in
        let (f, more, s) = >>=-eq_ok (hooked_fields d) _ h1 in
        let (u, same) = (hooked_iff v w).0 one in
        let (us, sames) = (hooked_fields_iff d f).0 more in ((u, us), cc (same, sames, s)),
    λ ((u, us), s).
        rw ((hooked_iff v v).1 (u, refl), (hooked_fields_iff d d).1 (us, refl)) (ap ok s),
  )

add_unique_cases :
    (d e : Fields) → (add_unique d e ≡ ok (joined d e)) ⊎ (add_unique d e ≡ err duplicate_key)
unfolding add_unique
add_unique_cases d end = inl (ap ok (sym (joined-end d)))
add_unique_cases d (field k v e) = elim (Bool-cases (has_key k d)) [
  | inl there ↦ inr (rw there refl)
  | inr missing ↦
      rw (missing, sym (with_field-joined k v d e)) (add_unique_cases (with_field k v d) e)
]

unique_object_cases :
    (d : Fields) → (unique_object d ≡ ok d) ⊎ (unique_object d ≡ err duplicate_key)
unfolding unique_object
unique_object_cases d = add_unique_cases end d

mutual
  unfolding hooked

  hooked_cases : (v : Value) → (hooked v ≡ ok v) ⊎ (hooked v ≡ err duplicate_key)
  hooked_cases null = inl refl
  hooked_cases (bool b) = inl refl
  hooked_cases (num n) = inl refl
  hooked_cases (str s) = inl refl
  hooked_cases (arr xs) = elim (hooked_items_cases xs) [
    | inl h ↦ inl (rw h refl)
    | inr h ↦ inr (rw h refl)
  ]
  hooked_cases (tup xs) = elim (hooked_items_cases xs) [
    | inl h ↦ inl (rw h refl)
    | inr h ↦ inr (rw h refl)
  ]
  hooked_cases (obj d) = elim (hooked_fields_cases d) [
    | inr h ↦ inr (rw h refl)
    | inl h ↦ elim (unique_object_cases d) [
      | inl u ↦ inl (rw (h, u) refl)
      | inr u ↦ inr (rw (h, u) refl)
    ]
  ]

  hooked_items_cases :
      (xs : Items) → (hooked_items xs ≡ ok xs) ⊎ (hooked_items xs ≡ err duplicate_key)
  hooked_items_cases nil = inl refl
  hooked_items_cases (cons v xs) = elim (hooked_cases v) [
    | inr h ↦ inr (rw h refl)
    | inl h ↦ elim (hooked_items_cases xs) [
      | inl u ↦ inl (rw (h, u) refl)
      | inr u ↦ inr (rw (h, u) refl)
    ]
  ]

  hooked_fields_cases :
      (d : Fields) → (hooked_fields d ≡ ok d) ⊎ (hooked_fields d ≡ err duplicate_key)
  hooked_fields_cases end = inl refl
  hooked_fields_cases (field k v d) = elim (hooked_cases v) [
    | inr h ↦ inr (rw h refl)
    | inl h ↦ elim (hooked_fields_cases d) [
      | inl u ↦ inl (rw (h, u) refl)
      | inr u ↦ inr (rw (h, u) refl)
    ]
  ]

-- A document that has a key twice in one of its objects is refused with this error, whatever else it
-- holds.
pub load_policy-duplicate :
    (lib : Library) (text : String) (tree : Value)
    → lib.loads text ≡ some tree
    → (HasUniqueKeys tree → ⊥)
    → load_policy lib (some text) ≡ err duplicate_key
unfolding load_policy
load_policy-duplicate lib text tree parsed twice = elim (hooked_cases tree) [
  | inl h ↦ absurd (twice ((hooked_iff tree tree).0 h).0)
  | inr h ↦ rw (parsed, h) refl
]
