-- ===== src/Common.antt =====
-- The names that the other modules share: the libraries', passed on, the Boolean tests, lists over
-- the native numbers, the signed return codes, and the machine words of common.h.
mod Tests
mod Lists
mod Int
pub use Tests.*
pub use Lists.*
pub use Int.*
pub use Prim.Native.Nat.{ℕ, zero, suc, ◌+◌, ◌-◌, ◌*◌, ◌/◌, ◌%◌, ◌^◌, ◌≤◌, ◌<◌}
pub use mathlib.Core.Path.{◌≡◌, refl, sym, ap, ◌∙◌}
pub use mathlib.Core.Logic.{◌≢◌, ◌↔◌, ◌⊎◌, inl, inr}
pub use mathlib.Core.Bool.{Bool, true, false, not, ◌&&◌, ◌||◌}
pub use mathlib.Core.Option.{Option, none, some}
pub use mathlib.Core.List.{List, [], ◌∷◌, ◌++◌, map}
pub use native.Mathlib.Omega.{arith}

-- The moduli of u16, u32 and u64.
abbrev pub u16_mod : ℕ
u16_mod = 2 ^ 16

abbrev pub u32_mod : ℕ
u32_mod = 2 ^ 32

abbrev pub u64_mod : ℕ
u64_mod = 2 ^ 64

-- An address; 0 is NULL.
abbrev pub Ptr : Type 0
Ptr = ℕ

abbrev pub null : Ptr
null = 0

-- The objects of one C type, by address. Only addresses that calloc returned are ever read.
abbrev pub Heap : Type 0 → Type 0
Heap A = Ptr → A

abbrev pub write : {A : Type 0} → Heap A → Ptr → A → Heap A
write h p a q = if p == q then a else h q

-- `calloc`: its n-th call fails when `oom n`, and returns an address of its own otherwise.
abbrev pub calloc : (ℕ → Bool) → ℕ → Ptr
calloc oom n = if oom n then null else suc n
