-- ===== src/Cli/Clean.antt =====
-- A counter of epoll_stat_info, which the receive loop of wlan_br_server/main.c increments while the
-- threads of wlan_br_server/cli.c clear it, without a lock. The loop's thread reads the counter, and
-- then writes the sum; a clearing falls anywhere between.
use wlan_bridge.Common.{
  ℕ, ◌+◌, ◌%◌, ◌≡◌, refl, ◌⊎◌, Option, none, some, List, [], ◌∷◌, ◌++◌, u64_mod,
}

-- What the loop's thread has read, while it has not written yet.
pub record Counter : Type 0 where
  pub value : ℕ
  pub register : Option ℕ

-- The two halves of `counter += n`, and memset(&epoll_stat_info, 0, sizeof(epoll_stat_info)).
pub data Access : Type 0 where
  loads : Access
  stores : ℕ → Access
  clears : Access

-- The loop's thread writes, where it has read.
unfoldable pub store : ℕ → Option ℕ → Option Counter
store n none = none
store n (some r) = some (record { value = (r + n) % u64_mod; register = none })

unfoldable pub access : Access → Counter → Option Counter
unfolding store
access loads s = some (record s { register = some s.value })
access (stores n) s = store n s.register
access clears s = some (record s { value = 0 })

-- A schedule of the threads' accesses.
unfoldable pub accesses : Counter → List Access → Option Counter
unfolding access
accesses s [] = some s
accesses s (a ∷ rest) = elim (access a s) [ none ↦ none | some t ↦ accesses t rest ]

abbrev pub cleared : Counter
cleared = record { value = 0; register = none }

-- The sum of what was added.
unfoldable pub added : List Access → ℕ
added [] = 0
added (stores n ∷ rest) = n + added rest
added (loads ∷ rest) = added rest
added (clears ∷ rest) = added rest

-- Behind any further clearings, the loop's thread writes next.
abbrev StoreNext : List Access → Type 0
StoreNext [] = ⊥
StoreNext (loads ∷ rest) = ⊥
StoreNext (stores n ∷ rest) = Unit {0}
StoreNext (clears ∷ rest) = StoreNext rest

-- Every clearing falls between the two halves of an increment.
abbrev pub Overtaken : List Access → Type 0
Overtaken [] = Unit {0}
Overtaken (loads ∷ rest) = Overtaken rest
Overtaken (stores n ∷ rest) = Overtaken rest
Overtaken (clears ∷ rest) = StoreNext rest × Overtaken rest

-- Every clearing does, when a write follows.
abbrev Pending : List Access → Type 0
Pending xs = Overtaken (xs ++ stores 0 ∷ [])

-- The value is the sum of all that was added since the start, or since a clearing, and what came
-- after that satisfies a condition.
pub record SumSince (Late : List Access → Type 0) (done : List Access) (value : ℕ) : Type 0 where
  pub before : List Access
  pub after : List Access
  pub split : done ≡ before ++ after
  pub begins : (before ≡ []) ⊎ ((b : List Access) × (before ≡ b ++ clears ∷ []))
  pub late : Late after
  pub sum : value ≡ added after % u64_mod

-- The clearings after that all fall between the two halves of an increment: that one is the last which
-- does not.
abbrev pub Since : List Access → ℕ → Type 0
Since = SumSince Overtaken

abbrev Held : List Access → ℕ → Type 0
Held = SumSince Pending

-- What is in the counter, and what the loop's thread has read.
record Sound (done : List Access) (s : Counter) : Type 0 where
  value : Since done s.value
  held : (r : ℕ) → s.register ≡ some r → Held done r

-- A clearing between the two halves of an increment has no effect at all.
clear_lost :
    (v n : ℕ)
    → accesses (record { value = v; register = none }) (loads ∷ clears ∷ stores n ∷ [])
      ≡ accesses (record { value = v; register = none }) (loads ∷ stores n ∷ [])
unfolding accesses access store
clear_lost v n = refl
