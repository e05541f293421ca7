-- ===== src/Uthash/Assoc.antt =====
-- An association list that meets the interface of the hash table, for concrete runs.
use wlan_bridge.Common.{◌≡◌, refl, ◌≢◌, Option, none, some, List, [], ◌∷◌, ◌++◌, arith}
use mathlib.Core.Logic.{ite}
use wlan_bridge.Uthash.{Uthash}

-- The library's `find` by a decision on keys; newest item last.
module _ {K V : Type 0} (d : Discrete K) where
  unfoldable pub find : List (K × V) → K → Option V
  find [] k = none
  find ((j, v) ∷ t) k = ite (d j k) (some v) (find t k)

  unfoldable pub add : List (K × V) → K → V → List (K × V)
  add t k v = t ++ (k, v) ∷ []

  unfoldable pub elems : List (K × V) → List V
  elems [] = []
  elems ((j, v) ∷ t) = v ∷ elems t

  pub find-empty : (k : K) → find [] k ≡ none
  unfolding find
  find-empty k = refl

  pub elems-empty : elems [] ≡ []
  unfolding elems
  elems-empty = refl

  pub find-add_self :
      (t : List (K × V)) (k : K) (v : V) → find t k ≡ none → find (add t k v) k ≡ some v
  unfolding find add
  find-add_self [] k v h = ground arith
  find-add_self ((j, w) ∷ t) k v h = ground (arith, find-add_self t k v)

  pub find-add_ne : (t : List (K × V)) (k j : K) (v : V) → k ≢ j → find (add t k v) j ≡ find t j
  unfolding find add
  find-add_ne [] k j v h = ground arith
  find-add_ne ((i, w) ∷ t) k j v h = ground (arith, find-add_ne t k j v h)

  pub elems-add : (t : List (K × V)) (k : K) (v : V) → elems (add t k v) ≡ elems t ++ v ∷ []
  unfolding elems add
  elems-add [] k v = refl
  elems-add ((i, w) ∷ t) k v = ground (arith, elems-add t k v)

-- The interface, filled in.
abbrev pub assoc : {K V : Type 0} → Discrete K → Uthash K V (List (K × V))
assoc d = record {
  empty = [];
  find = find d;
  add = add d;
  elems = elems d;
  find-empty = find-empty d;
  find-add_self = find-add_self d;
  find-add_ne = find-add_ne d;
  elems-empty = elems-empty d;
  elems-add = elems-add d;
}
