-- ===== src/Uthash.antt =====
-- The vendored hash table, src_lib/uthash/src/uthash.h, as an interface: the calls that
-- wlan_br_server makes of it, with the behaviour that doc/userguide.txt promises of them. The key
-- is stored in the item; adding a second item under a key is left open, as the guide leaves it.
pub mod Assoc
use wlan_bridge.Common.{◌≡◌, ◌≢◌, Option, none, some, List, [], ◌∷◌, ◌++◌}

-- `T` is the table, `K` its keys, and `V` the items (an item's address where items are written to).
pub record Uthash (K V T : Type 0) : Type 0 where
  -- A head pointer that is NULL.
  pub empty : T
  -- HASH_FIND, HASH_FIND_INT
  pub find : T → K → Option V
  -- HASH_ADD, HASH_ADD_INT, where memory for them is there; otherwise they exit from the program.
  pub add : T → K → V → T
  -- The items along `hh.next` from the head.
  pub elems : T → List V
  pub find-empty : (k : K) → find empty k ≡ none
  pub find-add_self : (t : T) (k : K) (v : V) → find t k ≡ none → find (add t k v) k ≡ some v
  pub find-add_ne : (t : T) (k j : K) (v : V) → k ≢ j → find (add t k v) j ≡ find t j
  pub elems-empty : elems empty ≡ []
  -- Items are visited in the order in which they were added.
  pub elems-add : (t : T) (k : K) (v : V) → elems (add t k v) ≡ elems t ++ v ∷ []
