-- ===== src/CatalogSync/Paths/Apart.antt =====
-- sync.py: what validate_paths refuses.
use k8s_stack_tooling.Prelude.{
  String, Bool, true, false, List, [], ◌∷◌, ◌≡◌, ◌≢◌, ◌↔◌, refl, arith, if◌then◌else◌, str_eq,
  eq_iff, ok, err, >>=-eq_ok, All, Bool-cases, inl, inr,
}
use k8s_stack_tooling.Value.{text_in}
use k8s_stack_tooling.CatalogSync.Paths.{
  PathSystem, passed, resolved, same_file, is_same, is_nested, require_apart, require_apart_from,
  validate_paths, must_differ, must_not_contain,
}

module _ (sys : PathSystem) where
  -- Both paths can be resolved, to different ones of which none contains the other; and they are not
  -- one file.
  pub record AreApart (left right : String) : Type 0 where
    pub left_resolved : String
    pub right_resolved : String
    pub is_left : resolved sys left ≡ ok left_resolved
    pub is_right : resolved sys right ≡ ok right_resolved
    pub differ : left_resolved ≢ right_resolved
    pub not_same : same_file sys left right ≡ ok false
    pub left_outside : text_in left_resolved (sys.parents right_resolved) ≡ false
    pub right_outside : text_in right_resolved (sys.parents left_resolved) ≡ false

  -- Each path is apart from those after it.
  abbrev pub AllApart : List String → Type 0
  AllApart [] = Unit
  AllApart (path ∷ paths) = All (AreApart path) paths × AllApart paths

  -- The tests of the pair once it is resolved.
  tests_passed :
      (l r a b : String) (same : Bool)
      → is_same sys l r a b ≡ ok same
      → (if same
          then err must_differ
          else if is_nested sys a b
          then err must_not_contain
          else passed)
        ≡ passed
      → (a ≢ b)
        × (same_file sys l r ≡ ok false)
        × (text_in a (sys.parents b) ≡ false)
        × (text_in b (sys.parents a) ≡ false)
  tests_passed l r a b true same h = cc
  tests_passed l r a b false same h = elim (Bool-cases (str_eq a b)) [
    | inl equal ↦ cc (rw equal at same)
    | inr unequal ↦
        (λ e. cc (unequal, (eq_iff a b).1 e), rw unequal at same, ground arith, ground arith)
  ]

  require_apart_iff : (l r : String) → (require_apart sys l r ≡ passed) ↔ AreApart l r
  unfolding require_apart
  require_apart_iff l r = (
    λ h.
        let (a, is_a, h1) = >>=-eq_ok (resolved sys l) _ h in
        let (b, is_b, h2) = >>=-eq_ok (resolved sys r) _ h1 in
        let (same, is_same_lr, h3) = >>=-eq_ok (is_same sys l r a b) _ h2 in
        let (differ, not_same, outside_l, outside_r) = tests_passed l r a b same is_same_lr h3 in
        record {
          left_resolved = a;
          right_resolved = b;
          is_left = is_a;
          is_right = is_b;
          differ = differ;
          not_same = not_same;
          left_outside = outside_l;
          right_outside = outside_r;
        },
    λ x.
        let unequal : str_eq x.left_resolved x.right_resolved ≡ false =
          ground (arith, x.differ, eq_iff x.left_resolved x.right_resolved) in
        rw (x.is_left, x.is_right, unequal, x.not_same, x.left_outside, x.right_outside) refl,
  )

  require_apart_from_iff :
      (l : String) (rs : List String) → (require_apart_from sys l rs ≡ passed) ↔ All (AreApart l) rs
  unfolding require_apart_from
  require_apart_from_iff l [] = (λ h. tt, λ h. refl)
  require_apart_from_iff l (r ∷ rs) = (
    λ h.
        let (u, first, rest) = >>=-eq_ok (require_apart sys l r) _ h in
        ((require_apart_iff l r).0 first, (require_apart_from_iff l rs).0 rest),
    λ (x, xs). rw ((require_apart_iff l r).1 x) ((require_apart_from_iff l rs).1 xs),
  )

  -- validate_paths passes exactly when each path and each later one can be resolved, to different
  -- paths of which none contains the other, and are not one file.
  pub validate_paths_iff :
      (paths : List String) → (validate_paths sys paths ≡ passed) ↔ AllApart paths
  unfolding validate_paths
  validate_paths_iff [] = (λ h. tt, λ h. refl)
  validate_paths_iff (p ∷ ps) = (
    λ h.
        let (u, first, rest) = >>=-eq_ok (require_apart_from sys p ps) _ h in
        ((require_apart_from_iff p ps).0 first, (validate_paths_iff ps).0 rest),
    λ (x, xs). rw ((require_apart_from_iff p ps).1 x) ((validate_paths_iff ps).1 xs),
  )
