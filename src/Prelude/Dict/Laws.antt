-- ===== src/Prelude/Dict/Laws.antt =====
-- Laws of `get`, `put` and `pop`.
use mathlib.Core.Path.{◌≡◌, refl}
use mathlib.Core.Logic.{◌≢◌}
use mathlib.Core.Option.{none, some}
use mathlib.Core.List.{List, [], ◌∷◌, ◌++◌}
use native.Mathlib.Omega.{arith}
use redline_os.Prelude.Equality.{Eq, ==_refl}
use redline_os.Prelude.Dict.{get, put, pop}

module _ {ℓ κ} {K : Type ℓ} {V : Type κ} ⦃e : Eq K⦄ where
  pub get-put : (k : K) (v : V) (d : List (K × V)) → get k (put k v d) ≡ some v
  unfolding get put
  get-put k v [] = ground (arith, ==_refl k)
  get-put k v ((k', v') ∷ d) = ground (arith, ==_refl k, get-put k v d)

  pub get-put_other : (k k' : K) (v : V) (d : List (K × V)) → k' ≢ k → get k (put k' v d) ≡ get k d
  unfolding get put
  get-put_other k k' v [] h = ground arith
  get-put_other k k' v ((j, w) ∷ d) h = ground (arith, get-put_other k k' v d h)

  pub get-pop_other : (k k' : K) (d : List (K × V)) → k' ≢ k → get k (pop k' d) ≡ get k d
  unfolding get pop
  get-pop_other k k' [] h = refl
  get-pop_other k k' ((j, w) ∷ d) h = ground (arith, get-pop_other k k' d h)

  -- Where no other entry is, `put` adds at the end.
  pub put-append :
      (k : K) (v : V) (d : List (K × V)) → get k d ≡ none → put k v d ≡ d ++ (k, v) ∷ []
  unfolding get put
  put-append k v [] h = refl
  put-append k v ((j, w) ∷ d) h = ground (arith, put-append k v d)

  pub pop-append :
      (k : K) (v : V) (c d : List (K × V)) → get k c ≡ none → pop k (c ++ (k, v) ∷ d) ≡ c ++ d
  unfolding get pop
  pop-append k v [] d h = ground (arith, ==_refl k)
  pop-append k v ((j, w) ∷ c) d h = ground (arith, pop-append k v c d)

  pub get-append : (k : K) (c d : List (K × V)) → get k c ≡ none → get k (c ++ d) ≡ get k d
  unfolding get
  get-append k [] d h = refl
  get-append k ((j, w) ∷ c) d h = ground (arith, get-append k c d)

  pub get-append_first :
      (k : K) (v : V) (c d : List (K × V)) → get k c ≡ some v → get k (c ++ d) ≡ some v
  unfolding get
  get-append_first k v [] d h = cc
  get-append_first k v ((j, w) ∷ c) d h = ground (arith, get-append_first k v c d)

  pub get-cons : (k : K) (v : V) (d : List (K × V)) → get k ((k, v) ∷ d) ≡ some v
  unfolding get
  get-cons k v d = ground (arith, ==_refl k)

  pub get-cons_other :
      (k k' : K) (v : V) (d : List (K × V)) → k' ≢ k → get k ((k', v) ∷ d) ≡ get k d
  unfolding get
  get-cons_other k k' v d differ = ground arith
