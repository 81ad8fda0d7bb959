-- ===== src/CatalogSync/Selection/Normalized.antt =====
-- sync.py: _normalized_models takes what fetch_models returns.
use k8s_stack_tooling.Prelude.{
  String, false, none, some, List, [], ◌∷◌, ◌++◌, ◌≡◌, refl, sym, ap, ◌∙◌, subst, arith, eq_iff,
  append-nil, append_assoc, ok, All, Dict, get_item, set_item, get_item-set_item, keys_of,
}
use k8s_stack_tooling.Value.{Value, obj, str, Fields, get_field, text_in}
use k8s_stack_tooling.CatalogSync.Objects.{object_of, required_string}
use k8s_stack_tooling.CatalogSync.Fetch.{Network, Fetched, fetch_models}
use k8s_stack_tooling.CatalogSync.Fetch.Pages.{AreIds, AreDistinct, rev_onto}
use k8s_stack_tooling.CatalogSync.Fetch.Loop.{IsFetched, fetch_models-IsFetched}
use k8s_stack_tooling.CatalogSync.Selection.{normalize_from, normalized_models}

-- The dict has each model under its id, in their order.
abbrev pub AreNormalized : List Value → Dict Fields → Type 0
AreNormalized [] [] = Unit
AreNormalized (v ∷ vs) ((i, model) ∷ d) =
    ((v ≡ obj model) × (get_field "id" model ≡ some (str i))) × AreNormalized vs d
AreNormalized [] (x ∷ d) = ⊥
AreNormalized (v ∷ vs) [] = ⊥

-- None of the texts is in the list.
abbrev AreNew : List String → List String → Type 0
AreNew acc xs = All (λ (y : String). text_in y acc ≡ false) xs

AreNew-head : (x : String) (acc xs : List String) → AreNew (x ∷ acc) xs → text_in x xs ≡ false
AreNew-head x acc [] h = refl
AreNew-head x acc (y ∷ xs) (h, hs) = ground (arith, AreNew-head x acc xs hs, eq_iff x y, eq_iff y x)

AreNew-tail : (x : String) (acc xs : List String) → AreNew (x ∷ acc) xs → AreNew acc xs
AreNew-tail x acc [] h = tt
AreNew-tail x acc (y ∷ xs) (h, hs) = (ground arith, AreNew-tail x acc xs hs)

rev_onto-AreDistinct :
    (xs acc : List String)
    → AreDistinct (rev_onto xs acc)
    → AreDistinct xs × AreDistinct acc × AreNew acc xs
rev_onto-AreDistinct [] acc d = (tt, d, tt)
rev_onto-AreDistinct (x ∷ xs) acc d =
    let (ds, (fresh, da), new) = rev_onto-AreDistinct xs (x ∷ acc) d in
    ((AreNew-head x acc xs new, ds), da, (fresh, AreNew-tail x acc xs new))

set_item-fresh :
    (i : String) (m : Fields) (d : Dict Fields)
    → get_item i d ≡ none
    → set_item i m d ≡ d ++ ((i, m) ∷ [])
set_item-fresh i m [] h = refl
set_item-fresh i m ((j, w) ∷ d) h = ground (arith, set_item-fresh i m d)

AreMissing : Dict Fields → List String → Type 0
AreMissing d ids = All (λ (i : String). get_item i d ≡ none) ids

AreMissing-set_item :
    (i : String) (m : Fields) (d : Dict Fields) (ids : List String)
    → text_in i ids ≡ false
    → AreMissing d ids
    → AreMissing (set_item i m d) ids
unfolding AreMissing
AreMissing-set_item i m d [] t h = tt
AreMissing-set_item i m d (j ∷ ids) t (h, hs) = (
  ground (arith, get_item-set_item i j m d, eq_iff i j),
  AreMissing-set_item i m d ids (ground arith) hs,
)

normalize_from-AreNormalized :
    (vs : List Value) (ids : List String) (d : Dict Fields)
    → AreIds vs ids
    → AreDistinct ids
    → AreMissing d ids
    → (e : Dict Fields) × (normalize_from vs d ≡ ok (d ++ e))
      × AreNormalized vs e
      × (keys_of e ≡ ids)
unfolding normalize_from AreMissing object_of required_string
normalize_from-AreNormalized [] [] d a u m = ([], ap ok (sym (append-nil d)), tt, refl)
normalize_from-AreNormalized [] (i ∷ ids) d a u m = absurd a
normalize_from-AreNormalized (v ∷ vs) [] d a u m = absurd a
normalize_from-AreNormalized (v ∷ vs) (i ∷ ids) d ((model, is_object, has, full), a) (fresh, u)
      (missing, m) =
    let (e, rest, all, keys) =
      normalize_from-AreNormalized vs ids (set_item i model d) a u
        (AreMissing-set_item i model d ids fresh m) in
    (
      (i, model) ∷ e,
      rw (is_object, has, full, missing)
          (rest
            ∙ ap ok (
                ap (λ (x : Dict Fields). x ++ e) (set_item-fresh i model d missing)
                ∙ append_assoc d ((i, model) ∷ []) e)),
      ((is_object, has), all),
      ap (λ (x : List String). i ∷ x) keys,
    )

AreMissing-empty : (ids : List String) → AreMissing [] ids
unfolding AreMissing
AreMissing-empty [] = tt
AreMissing-empty (i ∷ ids) = (refl, AreMissing-empty ids)

-- What fetch_models returns is never refused by _normalized_models, which puts each model under its id,
-- in their order; and the ids are different.
pub fetch_models-normalized :
    (net : Network) (url : String) (f : Fetched) (models : List Value)
    → fetch_models net url ≡ some f
    → f.result ≡ ok models
    → (d : Dict Fields) × (normalized_models models ≡ ok d)
      × AreNormalized models d
      × AreDistinct (keys_of d)
unfolding normalized_models
fetch_models-normalized net url f models fetches returns =
    let (g, ended, sound) = fetch_models-IsFetched net url in
    let same : g ≡ f = cc in
    let (ids, r) = (subst (IsFetched net) same sound).records models returns in
    let distinct =
      (rev_onto-AreDistinct r.in_order [] (subst AreDistinct r.backwards r.distinct)).0 in
    let (d, normal, aligned, keys) =
      normalize_from-AreNormalized models r.in_order [] r.are distinct
        (AreMissing-empty r.in_order) in
    (d, normal, aligned, subst AreDistinct (sym keys) distinct)
