-- ===== src/Prelude/Dicts.antt =====
-- Dictionaries with text keys, in the order of insertion.
use mathlib.Core.Path.{◌≡◌, refl, sym, ◌∙◌}
use mathlib.Core.Logic.{◌≢◌}
use mathlib.Core.Bool.{false}
use mathlib.Core.Option.{Option, none, some}
use mathlib.Core.List.{List, [], ◌∷◌}
use Prim.Native.String.{String}
use native.Mathlib.Omega.{arith}
use text.Mathlib.Text.{◌==◌ as str_eq}
use text.Mathlib.TextEquality.{eq_iff}
use k8s_stack_tooling.Prelude.Tests.{if◌then◌else◌, is_some}

abbrev pub Dict {ℓ} : Type ℓ → Type ℓ
Dict V = List (String × V)

module _ {ℓ} {V : Type ℓ} where
  -- `d.get(key)`
  abbrev pub get_item : String → Dict V → Option V
  get_item key [] = none
  get_item key ((k, v) ∷ d) = if str_eq k key then some v else get_item key d

  -- `d[key] = v`
  abbrev pub set_item : String → V → Dict V → Dict V
  set_item key v [] = (key, v) ∷ []
  set_item key v ((k, w) ∷ d) = if str_eq k key then (k, v) ∷ d else (k, w) ∷ set_item key v d

  abbrev pub value_or : V → Option V → V
  value_or v none = v
  value_or v (some w) = w

  -- `d.setdefault(key, v)`, as the new dict
  abbrev pub set_default : String → V → Dict V → Dict V
  set_default key v d = if is_some (get_item key d) then d else set_item key v d

  -- `d.update(e)`
  abbrev pub update_items : Dict V → Dict V → Dict V
  update_items d [] = d
  update_items d ((k, v) ∷ e) = update_items (set_item k v d) e

  abbrev pub keys_of : Dict V → List String
  keys_of [] = []
  keys_of ((k, v) ∷ d) = k ∷ keys_of d

  pub get_item-set_item :
      (key q : String) (v : V) (d : Dict V)
      → get_item q (set_item key v d) ≡ (if str_eq key q then some v else get_item q d)
  get_item-set_item key q v [] = refl
  get_item-set_item key q v ((k, w) ∷ d) =
      ground (arith, get_item-set_item key q v d, eq_iff k key, eq_iff k q, eq_iff key q)

  pub get_item-set_default :
      (key q : String) (v : V) (d : Dict V)
      → get_item q (set_default key v d)
        ≡ (if str_eq key q then some (value_or v (get_item key d)) else get_item q d)
  get_item-set_default key q v d = ground (arith, get_item-set_item key q v d, eq_iff key q)

pub ne_of_test : (a b : String) → str_eq a b ≡ false → a ≢ b
ne_of_test a b h e = cc (sym h ∙ (eq_iff a b).1 e)
