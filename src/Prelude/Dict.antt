-- ===== src/Prelude/Dict.antt =====
-- A dict as an association list in the order of insertion.
pub mod Laws
use redline_os.Prelude.Equality.{Eq, ◌==◌, if◌then◌else◌}
use mathlib.Core.Option.{Option, none, some}
use mathlib.Core.List.{List, [], ◌∷◌}

module _ {ℓ κ} {K : Type ℓ} {V : Type κ} ⦃e : Eq K⦄ where
  -- `d.get(k)`
  unfoldable pub get : K → List (K × V) → Option V
  get k [] = none
  get k ((k', v) ∷ d) = let rest = get k d in if k' == k then some v else rest

  -- `d[k] = v`
  unfoldable pub put : K → V → List (K × V) → List (K × V)
  put k v [] = (k, v) ∷ []
  put k v ((k', v') ∷ d) = let rest = put k v d in if k' == k then (k, v) ∷ d else (k', v') ∷ rest

  -- `d.pop(k, None)`
  unfoldable pub pop : K → List (K × V) → List (K × V)
  pop k [] = []
  pop k ((k', v') ∷ d) = let rest = pop k d in if k' == k then d else (k', v') ∷ rest
