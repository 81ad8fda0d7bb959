-- ===== src/CatalogSync/Fetch/Pages.antt =====
-- What the pages that were fetched hold, and which URLs were requested.
use k8s_stack_tooling.Prelude.{
  ℕ, ◌≤◌, String, false, Option, some, List, [], ◌∷◌, ◌++◌, ◌≡◌, refl, sym, ap, subst, ◌∙◌, arith,
  ltb, length, str_eq, ok, >>=-eq_ok, Bool-cases, inl, inr,
}
use k8s_stack_tooling.Value.{Value, obj, str, Fields, get_field, text_in}
use k8s_stack_tooling.CatalogSync.Objects.{
  max_raw_records, object_of, required_string, text_of, add_ids, add_page_records,
}

-- The record is an object whose id is this text, which is not empty.
abbrev HasId : Value → String → Type 0
HasId v i = (d : Fields) × (v ≡ obj d) × (get_field "id" d ≡ some (str i)) × (str_eq i "" ≡ false)

-- The ids of the records, one for each in their order.
abbrev pub AreIds : List Value → List String → Type 0
AreIds [] [] = Unit
AreIds (v ∷ vs) (i ∷ ids) = HasId v i × AreIds vs ids
AreIds [] (i ∷ ids) = ⊥
AreIds (v ∷ vs) [] = ⊥

abbrev pub AreDistinct : List String → Type 0
AreDistinct [] = Unit
AreDistinct (i ∷ ids) = (text_in i ids ≡ false) × AreDistinct ids

-- The first list backwards, in front of the second.
abbrev pub rev_onto : List String → List String → List String
rev_onto [] acc = acc
rev_onto (x ∷ xs) acc = rev_onto xs (x ∷ acc)

rev_onto-append :
    (xs ys acc : List String) → rev_onto (xs ++ ys) acc ≡ rev_onto ys (rev_onto xs acc)
rev_onto-append [] ys acc = refl
rev_onto-append (x ∷ xs) ys acc = rev_onto-append xs ys (x ∷ acc)

AreIds-append :
    (us vs : List Value) (is js : List String)
    → AreIds us is
    → AreIds vs js
    → AreIds (us ++ vs) (is ++ js)
AreIds-append [] vs [] js h k = k
AreIds-append [] vs (i ∷ is) js h k = absurd h
AreIds-append (u ∷ us) vs [] js h k = absurd h
AreIds-append (u ∷ us) vs (i ∷ is) js (h, hs) k = (h, AreIds-append us vs is js hs k)

text_of_ok :
    (o : Option Value) (i : String) → text_of o ≡ ok i → (o ≡ some (str i)) × (str_eq i "" ≡ false)
text_of_ok o i h = ground arith

object_of_ok : (v : Value) (d : Fields) → object_of v ≡ ok d → v ≡ obj d
unfolding object_of
object_of_ok v d h = ground arith

-- What the loop over a page adds.
record Adds (vs : List Value) (ids more : List String) : Type 0 where
  pub new : List String
  pub are : AreIds vs new
  pub more_eq : more ≡ rev_onto new ids
  pub distinct : AreDistinct more

add_ids-Adds :
    (vs : List Value) (ids more : List String)
    → AreDistinct ids
    → add_ids vs ids ≡ ok more
    → Adds vs ids more
unfolding add_ids required_string
add_ids-Adds [] ids more d h =
    let same : ids ≡ more = cc in
    record { new = []; are = tt; more_eq = sym same; distinct = subst AreDistinct same d }
add_ids-Adds (v ∷ vs) ids more d h =
    let (model, is_object, h1) = >>=-eq_ok (object_of v) _ h in
    let (i, has, h2) = >>=-eq_ok (text_of (get_field "id" model)) _ h1 in
    let (found, full) = text_of_ok (get_field "id" model) i has in
    elim (Bool-cases (text_in i ids)) [
      | inl twice ↦ cc (rw twice at h2)
      | inr fresh ↦
          let rest = add_ids-Adds vs (i ∷ ids) more (fresh, d) (rw fresh at h2) in
          record {
            new = i ∷ rest.new;
            are = ((model, object_of_ok v model is_object, found, full), rest.are);
            more_eq = rest.more_eq;
            distinct = rest.distinct;
          }
    ]

-- The records so far: their ids are in `ids`, the last first, and all different.
pub record AreRecords (models : List Value) (ids : List String) : Type 0 where
  pub in_order : List String
  pub are : AreIds models in_order
  pub backwards : ids ≡ rev_onto in_order []
  pub distinct : AreDistinct ids
  pub bounded : length models ≤ max_raw_records

pub add_page_records-AreRecords :
    (records models : List Value) (ids : List String) (expected : ℕ) (all : List Value)
    (more : List String)
    → AreRecords models ids
    → add_page_records records models ids expected ≡ ok (all, more)
    → AreRecords all more × (length more ≤ expected)
unfolding add_page_records
add_page_records-AreRecords records models ids expected all more r h =
    elim (Bool-cases (ltb max_raw_records (length (models ++ records)))) [
      | inl large ↦ cc (rw large at h)
      | inr small ↦
          let (found, added, h2) = >>=-eq_ok (add_ids records ids) _ (rw small at h) in
          let adds = add_ids-Adds records ids found r.distinct added in
          elim (Bool-cases (ltb expected (length found))) [
            | inl many ↦ cc (rw many at h2)
            | inr few ↦
                let h3 = rw few at h2 in
                let all_eq : models ++ records ≡ all = cc in
                let more_eq : found ≡ more = cc in
                (
                  record {
                    in_order = r.in_order ++ adds.new;
                    are =
                        subst (λ (l : List Value). AreIds l (r.in_order ++ adds.new)) all_eq
                          (AreIds-append models records r.in_order adds.new r.are adds.are);
                    backwards =
                        sym more_eq
                        ∙ adds.more_eq
                        ∙ ap (rev_onto adds.new) r.backwards
                        ∙ sym (rev_onto-append r.in_order adds.new []);
                    distinct = subst AreDistinct more_eq adds.distinct;
                    bounded =
                        subst (λ (l : List Value). length l ≤ max_raw_records) all_eq
                          (ground arith);
                  },
                  subst (λ (l : List String). length l ≤ expected) more_eq (ground arith),
                )
          ]
    ]
