-- ===== src/Addons/Producers/Supplied.antt =====
-- addons/validation.py: that the consumers which `check` accepts have what they read.
use k8s_stack_tooling.Prelude.{
  ◌∙◌, ap, suc, String, Bool, true, false, Option, none, some, List, [], ◌∷◌, ◌≡◌, ◌≢◌, ◌⊎◌, refl,
  subst, str_eq, eq_iff, ok, ◌>>=◌, get_item, is_some, length, Bool-cases, inl, inr, All,
}
use k8s_stack_tooling.Value.{str, text_in}
use k8s_stack_tooling.Addons.Graph.{visit_packages, ancestors, ancestors_of}
use k8s_stack_tooling.Addons.Graph.Ancestors.{Requires, AreAncestors, ancestors_end}
use k8s_stack_tooling.Addons.Resource.{key, text}
use k8s_stack_tooling.Addons.Check.{Manifest, Consumer, Checking, Sources}
use k8s_stack_tooling.Addons.Producers.{
  graph_of, find_named, check_generated, require_ready, require_listed, check_producer,
  check_consumer, check_all_consumers, check_producers,
}
use k8s_stack_tooling.Addons.Producers.Made.{IsMade, AreMade, find_named-IsMade}
use k8s_stack_tooling.Addons.Producers.After.{
  after_visit-eq_ok, after_result-eq_ok, after-eq_ok, after_result-ends, after-ends,
  after_visit-ends,
}

module _ (sources : Sources) (m : Manifest) where
  -- The package has what it reads: from an input, from itself, or from a package that it requires.
  abbrev IsReady : String → Option String → Type 0
  IsReady consumer none = Unit
  IsReady consumer (some producer) = (producer ≡ consumer) ⊎ Requires (graph_of m) consumer producer

  -- What a reference names is an input or made by a package, from which the consumer has it.
  pub record IsSupplied (c : Consumer) : Type 0 where
    pub kind : String
    pub name : String
    pub producer : Option String
    pub is_kind : (key "kind" c.reference >>= text) ≡ ok kind
    pub is_name : key "name" c.reference ≡ ok (str name)
    pub made : IsMade sources m (kind, c.namespace, name) producer
    pub ready : IsReady c.consumer producer

  -- What the packages visited in order leave to show of the rest of `check`.
  module _ (visited : List String) (st : Checking)
      (accepted : visit_packages (graph_of m) ≡ some (ok visited)) where
    ancestors-Requires :
        (name : String) (l : List String) (p : String)
        → ancestors (graph_of m) (suc (length visited)) name ≡ some (ok l)
        → text_in p l ≡ true
        → Requires (graph_of m) name p
    unfolding ancestors
    ancestors-Requires name l p h t = elim (Bool-cases (is_some (get_item name (graph_of m)))) [
      | inl declared ↦
          (subst (AreAncestors (graph_of m) name) h
              (ancestors_end (graph_of m) visited name accepted declared) p).0
            t
      | inr undeclared ↦ absurd (undeclared_raises (get_item name (graph_of m)) undeclared h)
    ]
      where
        undeclared_raises :
            (o : Option (List String))
            → is_some o ≡ false
            → ancestors_of (graph_of m) (ancestors (graph_of m) (length visited)) o ≢ some (ok l)
        undeclared_raises none u k = cc k
        undeclared_raises (some names) u k = cc u

    ancestors_no_fuel : (name : String) → ancestors (graph_of m) (suc (length visited)) name ≢ none
    unfolding ancestors
    ancestors_no_fuel name h = elim (Bool-cases (is_some (get_item name (graph_of m)))) [
      | inl declared ↦
          subst (AreAncestors (graph_of m) name) h
            (ancestors_end (graph_of m) visited name accepted declared)
      | inr undeclared ↦ undeclared_ends (get_item name (graph_of m)) undeclared h
    ]
      where
        undeclared_ends :
            (o : Option (List String))
            → is_some o ≡ false
            → ancestors_of (graph_of m) (ancestors (graph_of m) (length visited)) o ≢ none
        undeclared_ends none u k = cc k
        undeclared_ends (some names) u k = cc u

    require_ready-Requires :
        (c : Consumer) (p : String)
        → require_ready sources m visited st c p ≡ some (ok tt)
        → Requires (graph_of m) c.consumer p
    require_ready-Requires c p h =
        let (l, one, h1) =
          after_visit-eq_ok (ancestors (graph_of m) (suc (length visited)) c.consumer) _ tt h in
        elim (Bool-cases (text_in p l)) [
          | inl listed ↦ ancestors-Requires c.consumer l p one listed
          | inr missing ↦ cc (rw missing at h1)
        ]

    check_producer-IsReady :
        (c : Consumer) (g : Option (String × String)) (p : Option (Option String))
        → check_producer sources m visited st c g p ≡ some (ok tt)
        → (q : Option String) × (p ≡ some q) × IsReady c.consumer q
    check_producer-IsReady c g none h = cc h
    check_producer-IsReady c g (some none) h = (none, refl, tt)
    check_producer-IsReady c g (some (some p)) h = elim (Bool-cases (str_eq p c.consumer)) [
      | inl own ↦ (some p, refl, inl ((eq_iff p c.consumer).0 own))
      | inr other ↦ (some p, refl, inr (require_ready-Requires c p (rw other at h)))
    ]

    check_consumer-IsSupplied :
        (c : Consumer)
        → AreMade sources m st.outputs
        → check_consumer sources m visited st c ≡ some (ok tt)
        → IsSupplied c
    unfolding check_consumer
    check_consumer-IsSupplied c all h =
        let (kind, is_kind, h1) = after_result-eq_ok (key "kind" c.reference >>= text) _ tt h in
        let (name, is_name, h2) = after_result-eq_ok (key "name" c.reference) _ tt h1 in
        let (producer, is_found, ready) =
          check_producer-IsReady c (find_named kind c.namespace name st.generated)
            (find_named kind c.namespace name st.outputs) h2 in
        let (named, is_text, made) =
          find_named-IsMade sources m kind c.namespace name st.outputs producer all is_found in
        record {
          kind = kind;
          name = named;
          producer = producer;
          is_kind = is_kind;
          is_name = is_name ∙ ap ok is_text;
          made = made;
          ready = ready;
        }

    pub check_all_consumers-IsSupplied :
        (cs : List Consumer)
        → AreMade sources m st.outputs
        → check_all_consumers sources m visited st cs ≡ some (ok tt)
        → All IsSupplied cs
    unfolding check_all_consumers
    check_all_consumers-IsSupplied [] made h = tt
    check_all_consumers-IsSupplied (c ∷ cs) made h =
        let (u, one, rest) = after-eq_ok (check_consumer sources m visited st c) _ tt h in
        (check_consumer-IsSupplied c made one, check_all_consumers-IsSupplied cs made rest)

    check_consumer-ends : (c : Consumer) → check_consumer sources m visited st c ≢ none
    unfolding check_consumer
    check_consumer-ends c = after_result-ends (key "kind" c.reference >>= text) _ (λ kind e.
        after_result-ends (key "name" c.reference) _ (λ name e'.
          producer_ends (find_named kind c.namespace name st.generated)
            (find_named kind c.namespace name st.outputs)))
      where
        listed : (b : Bool) → require_listed b ≢ none
        listed true k = cc k
        listed false k = cc k

        producer_ends :
            (g : Option (String × String)) (p : Option (Option String))
            → check_producer sources m visited st c g p ≢ none
        producer_ends g none k = cc k
        producer_ends g (some none) k = cc k
        producer_ends g (some (some p)) k = elim (Bool-cases (str_eq p c.consumer)) [
          | inl own ↦ cc (rw own at k)
          | inr other ↦
              after_visit-ends (ancestors (graph_of m) (suc (length visited)) c.consumer) _
                (ancestors_no_fuel c.consumer) (λ l e. listed (text_in p l)) (rw other at k)
        ]

    check_all_consumers-ends :
        (cs : List Consumer) → check_all_consumers sources m visited st cs ≢ none
    unfolding check_all_consumers
    check_all_consumers-ends [] k = cc k
    check_all_consumers-ends (c ∷ cs) k =
        after-ends (check_consumer sources m visited st c) _ (check_consumer-ends c)
          (λ u e. check_all_consumers-ends cs) k

    pub check_producers-ends : check_producers sources m (visited, st) ≢ none
    check_producers-ends =
        after_result-ends (check_generated st.generated st.helm_releases) _ (λ u e.
          after-ends (check_all_consumers sources m visited st st.consumers) _
            (check_all_consumers-ends st.consumers) (λ v e' k. cc k))
