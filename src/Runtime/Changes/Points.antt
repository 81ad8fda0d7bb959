-- ===== src/Runtime/Changes/Points.antt =====
-- The points of comparison that the changes stand for.
use k8s_stack_tooling.Prelude.{
  String, Option, none, some, List, [], ◌∷◌, ◌≡◌, refl, ◌∙◌, arith, ◌&&◌, if◌then◌else◌, str_eq,
  eq_iff, Dict, get_item, set_item, set_default, value_or, update_items, keys_of, get_item-set_item,
  get_item-set_default,
}
use k8s_stack_tooling.Value.{text_in}
use k8s_stack_tooling.Runtime.Changes.{
  Snapshot, unconfirmed, disabled, ChangeState, load_changes, baseline_of, remember_all, names_or,
  remember, record_applied, mark_unconfirmed,
}

-- The snapshot that an alias of a target is compared with; an alias without one is not tracked.
abbrev pub Points : Type 0
Points = String → String → Option Snapshot

abbrev pub points : Option ChangeState → Points
points state target alias = get_item alias (baseline_of target (load_changes state))

-- What the functions that save are asked to do.
pub data Event : Type 0 where
  edit : String → Option (List String) → Dict Snapshot → Event
  confirm : String → Dict Snapshot → Event
  roll_back : String → String → Event

abbrev save : Event → Option ChangeState → Option ChangeState
save (edit target aliases current) s = some (remember target aliases current s)
save (confirm target applied) s = some (record_applied target applied s)
save (roll_back target alias) s = some (mark_unconfirmed target alias s)

abbrev pub save_all : List Event → Option ChangeState → Option ChangeState
save_all [] s = s
save_all (e ∷ es) s = save_all es (save e s)

abbrev or_point : Option Snapshot → Option Snapshot → Option Snapshot
or_point (some v) old = some v
or_point none old = old

-- The last value of a key, which `update` leaves.
abbrev last_item : String → Dict Snapshot → Option Snapshot
last_item key [] = none
last_item key ((k, v) ∷ d) = or_point (last_item key d) (if str_eq k key then some v else none)

-- The same as functions on points. An edit adds a point where there is none, of what is there before
-- the edit; a confirmation moves the points; a rollback leaves one that no snapshot equals.
abbrev pub step_points : Event → Points → Points
step_points (edit target aliases current) p t a =
    if str_eq target t && text_in a (names_or aliases (keys_of current))
    then or_point (p t a) (some (value_or disabled (get_item a current)))
    else p t a
step_points (confirm target applied) p t a =
    if str_eq target t then or_point (last_item a applied) (p t a) else p t a
step_points (roll_back target alias) p t a =
    if str_eq target t && str_eq alias a then some unconfirmed else p t a

abbrev pub step_all : List Event → Points → Points
step_all [] p = p
step_all (e ∷ es) p = step_all es (step_points e p)

get_item-remember_all :
    (q : String) (names : List String) (current baseline : Dict Snapshot)
    → get_item q (remember_all names current baseline) ≡ (
        if text_in q names
        then or_point (get_item q baseline) (some (value_or disabled (get_item q current)))
        else get_item q baseline)
unfolding remember_all
get_item-remember_all q [] current baseline = refl
get_item-remember_all q (n ∷ ns) current baseline =
    let v = value_or disabled (get_item n current) in
    get_item-remember_all q ns current (set_default n v baseline)
    ∙ rw (get_item-set_default n q v baseline) (ground (arith, eq_iff n q, eq_iff q n))

get_item-update_items :
    (q : String) (d e : Dict Snapshot)
    → get_item q (update_items d e) ≡ or_point (last_item q e) (get_item q d)
get_item-update_items q d [] = refl
get_item-update_items q d ((k, v) ∷ e) =
    get_item-update_items q (set_item k v d) e
    ∙ rw (get_item-set_item k q v d) (ground (arith, eq_iff k q))

set_item-points :
    (target t a : String) (b : Dict Snapshot) (s : ChangeState)
    → points (some (set_item target b s)) t a
      ≡ (if str_eq target t then get_item a b else points (some s) t a)
set_item-points target t a b s = rw (get_item-set_item target t b s) (ground arith)

points-save :
    (e : Event) (s : Option ChangeState) (t a : String)
    → points (save e s) t a ≡ step_points e (points s) t a
unfolding remember record_applied mark_unconfirmed
points-save (edit target aliases current) s t a =
    set_item-points target t a _ (load_changes s)
    ∙ rw
        (get_item-remember_all a (names_or aliases (keys_of current)) current
          (baseline_of target (load_changes s)))
        (ground (arith, eq_iff target t))
points-save (confirm target applied) s t a =
    set_item-points target t a _ (load_changes s)
    ∙ rw (get_item-update_items a (baseline_of target (load_changes s)) applied)
        (ground (arith, eq_iff target t))
points-save (roll_back target alias) s t a =
    set_item-points target t a _ (load_changes s)
    ∙ rw (get_item-set_item alias a unconfirmed (baseline_of target (load_changes s)))
        (ground (arith, eq_iff target t))

step_points_congr :
    (e : Event) (p q : Points) (t a : String)
    → p t a ≡ q t a
    → step_points e p t a ≡ step_points e q t a
step_points_congr (edit target aliases current) p q t a h = rw h refl
step_points_congr (confirm target applied) p q t a h = rw h refl
step_points_congr (roll_back target alias) p q t a h = rw h refl

step_all_congr :
    (es : List Event) (p q : Points)
    → ((t a : String) → p t a ≡ q t a)
    → (t a : String) → step_all es p t a ≡ step_all es q t a
step_all_congr [] p q h t a = h t a
step_all_congr (e ∷ es) p q h t a =
    step_all_congr es (step_points e p) (step_points e q)
      (λ t' a'. step_points_congr e p q t' a' (h t' a')) t a

-- Whatever sequence of edits, confirmations and rollbacks is saved, the file stands for the points
-- that the same sequence makes of functions.
pub points-save_all :
    (es : List Event) (s : Option ChangeState) (t a : String)
    → points (save_all es s) t a ≡ step_all es (points s) t a
points-save_all [] s t a = refl
points-save_all (e ∷ es) s t a =
    points-save_all es (save e s) t a
    ∙ step_all_congr es (points (save e s)) (step_points e (points s))
        (λ t' a'. points-save e s t' a') t a
