-- ===== src/Utlist.antt =====
-- The vendored circular doubly-linked list, src_lib/uthash/src/utlist.h, as an interface: the two
-- macros that wlan_br_forward.c uses. No loop of that file removes an element.
use wlan_bridge.Common.{◌≡◌, refl, List, [], ◌∷◌}

-- `L` is the list (its head pointer) and `E` the elements.
pub record Utlist (E L : Type 0) : Type 0 where
  -- A head pointer that is NULL.
  pub empty : L
  -- CDL_PREPEND
  pub prepend : L → E → L
  -- The elements that CDL_FOREACH_SAFE visits, in order.
  pub foreach : L → List E
  pub foreach-empty : foreach empty ≡ []
  pub foreach-prepend : (l : L) (e : E) → foreach (prepend l e) ≡ e ∷ foreach l

-- A list meets the interface, for concrete runs.
abbrev pub of_list : {E : Type 0} → Utlist E (List E)
of_list = record {
  empty = [];
  prepend = λ l e. e ∷ l;
  foreach = λ l. l;
  foreach-empty = refl;
  foreach-prepend = λ l e. refl;
}
