-- ===== src/Base/Maps.antt =====
-- Python's dict with string keys, up to `==`: the order of the entries is not in it. Code that
-- iterates over a dict is handed the keys beside it.
use Prim.Native.String.{String}
use mathlib.Core.Path.{◌≡◌, fun_ext}
use mathlib.Core.Logic.{◌≢◌, ◌⊎◌}
use mathlib.Core.Bool.{Bool, true, false}
use mathlib.Core.Option.{Option, none, some}
use mathlib.Core.List.{List, [], ◌∷◌}
use native.Mathlib.Omega.{arith}
use text.Mathlib.Text.{◌==◌}
use text.Mathlib.TextEquality.{eq_iff}
use cross_format_documment.Base.Tests.{if◌then◌else◌}

abbrev pub Map {ℓ} : Type ℓ → Type ℓ
Map V = String → Option V

abbrev pub empty {ℓ} : {V : Type ℓ} → Map V
empty k = none

-- `k in m`
abbrev pub has {ℓ} : {V : Type ℓ} → Map V → String → Bool
has m k = elim (m k) [ none ↦ false | some _ ↦ true ]

-- `m.get(k, v)`
abbrev pub get_or {ℓ} : {V : Type ℓ} → Map V → String → V → V
get_or m k v = elim (m k) [ none ↦ v | some w ↦ w ]

module _ {ℓ} {V : Type ℓ} where
  -- `m[k] = v`
  abbrev pub put : Map V → String → V → Map V
  put m k v j = if k == j then some v else m j

  -- `m.pop(k, None)`
  abbrev pub del : Map V → String → Map V
  del m k j = if k == j then none else m j

  -- `m.update(entries)`
  abbrev pub put_all : Map V → List (String × V) → Map V
  put_all m [] = m
  put_all m ((k, v) ∷ es) = put_all (put m k v) es

  pub put-put : (m : Map V) (k : String) (v w : V) → put (put m k v) k w ≡ put m k w
  put-put m k v w = fun_ext λ j. ground arith

  pub put_self : (m : Map V) (k : String) (v : V) → m k ≡ some v → put m k v ≡ m
  put_self m k v h = fun_ext λ j. ground (arith, eq_iff k j)

  pub put_comm :
      (m : Map V) (k j : String) (v w : V) → k ≢ j → put (put m k v) j w ≡ put (put m j w) k v
  put_comm m k j v w h = fun_ext λ i. ground (arith, eq_iff k i, eq_iff j i)

  pub del-put : (m : Map V) (k : String) (v : V) → m k ≡ none → del (put m k v) k ≡ m
  del-put m k v h = fun_ext λ j. ground (arith, eq_iff k j)

  pub put-del : (m : Map V) (k : String) (v : V) → m k ≡ some v → put (del m k) k v ≡ m
  put-del m k v h = fun_ext λ j. ground (arith, eq_iff k j)

  -- What an entry of a changed map is.
  pub put-cases :
      (m : Map V) (k : String) (v : V) (j : String) (w : V)
      → put m k v j ≡ some w
      → ((k ≡ j) × (v ≡ w)) ⊎ (m j ≡ some w)
  put-cases m k v j w h = ground (arith, eq_iff k j)

  pub del-some :
      (m : Map V) (k j : String) (w : V) → del m k j ≡ some w → ((k == j) ≡ false) × (m j ≡ some w)
  del-some m k j w h = ground (arith, eq_iff k j)
