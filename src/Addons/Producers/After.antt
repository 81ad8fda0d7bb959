-- ===== src/Addons/Producers/After.antt =====
-- addons/validation.py: what follows a step of `check` that may raise.
use k8s_stack_tooling.Prelude.{String, none, some, List, ◌≡◌, ◌≢◌, refl, ap, Result, ok, err}
use k8s_stack_tooling.Addons.Graph.{Visited}
use k8s_stack_tooling.Addons.Resource.{CheckError}
use k8s_stack_tooling.Addons.Producers.{Checked, after_visit, after_result, after}

pub after_visit-eq_ok :
    {A : Type 0} (r : Visited) (f : List String → Checked A) (a : A)
    → after_visit r f ≡ some (ok a)
    → (w : List String) × (r ≡ some (ok w)) × (f w ≡ some (ok a))
after_visit-eq_ok none f a h = cc h
after_visit-eq_ok (some (err e)) f a h = cc h
after_visit-eq_ok (some (ok w)) f a h = (w, refl, h)

pub after_result-eq_ok :
    {A B : Type 0} (r : Result CheckError A) (f : A → Checked B) (b : B)
    → after_result r f ≡ some (ok b)
    → (a : A) × (r ≡ ok a) × (f a ≡ some (ok b))
after_result-eq_ok (err e) f b h = cc h
after_result-eq_ok (ok a) f b h = (a, refl, h)

pub after-eq_ok :
    {A B : Type 0} (r : Checked A) (f : A → Checked B) (b : B)
    → after r f ≡ some (ok b)
    → (a : A) × (r ≡ some (ok a)) × (f a ≡ some (ok b))
after-eq_ok none f b h = cc h
after-eq_ok (some r) f b h = let (a, e, k) = after_result-eq_ok r f b h in (a, ap some e, k)

pub after_result-ends :
    {A B : Type 0} (r : Result CheckError A) (f : A → Checked B)
    → ((a : A) → r ≡ ok a → f a ≢ none)
    → after_result r f ≢ none
after_result-ends (err e) f h k = cc k
after_result-ends (ok a) f h k = h a refl k

pub after-ends :
    {A B : Type 0} (r : Checked A) (f : A → Checked B)
    → r ≢ none
    → ((a : A) → r ≡ some (ok a) → f a ≢ none)
    → after r f ≢ none
after-ends none f n h k = n refl
after-ends (some (err e)) f n h k = cc k
after-ends (some (ok a)) f n h k = h a refl k

pub after_visit-ends :
    {A : Type 0} (r : Visited) (f : List String → Checked A)
    → r ≢ none
    → ((w : List String) → r ≡ some (ok w) → f w ≢ none)
    → after_visit r f ≢ none
after_visit-ends none f n h k = n refl
after_visit-ends (some (err e)) f n h k = cc k
after_visit-ends (some (ok w)) f n h k = h w refl k
