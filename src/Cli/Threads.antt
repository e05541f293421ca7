-- ===== src/Cli/Threads.antt =====
-- wlan_br_server/cli.c: the threads of the command line, interleaved in any order. The main thread
-- hands each new thread the address of its argument `connect_fd`, a variable of
-- cli_create_client_thread that is gone when that function returns; since all calls of it come from
-- one loop, the variable stands at one address.
pub mod Prompt
use mathlib.Core.Path.{subst}
use wlan_bridge.Common.{
  ℕ, zero, suc, ◌≡◌, refl, inl, inr, Bool, true, false, Option, none, some, List, [], ◌∷◌, ◌++◌,
  arith, if◌then◌else◌, Option-cases, length, ℤ, pos, negsuc, is_nonpos, ◌+◌,
}

-- Where the main thread stands: before accept, in cli_create_client_thread before and behind
-- pthread_create, or at its end.
pub data MainAt : Type 0 where
  accepting : MainAt
  creating : ℤ → MainAt
  created : MainAt
  ended : MainAt

pub record Threads : Type 0 where
  pub main : MainAt
  -- The variable `connect_fd`, while it lives.
  pub frame : Option ℤ
  -- How many threads have been created and have not read it.
  pub waiting : ℕ
  -- What the threads read, in the order in which they did; `none` where the variable was gone.
  pub reads : List (Option ℤ)
  -- The descriptors for which a thread was created.
  pub accepted : List ℤ

-- What happens next: accept returns, pthread_create succeeds or fails, cli_create_client_thread
-- returns, or a thread that waits reads its argument.
pub data Action : Type 0 where
  accepts : ℤ → Action
  creates : Bool → Action
  returns : Action
  starts : Action

-- The main thread's step, where it stands for it.
unfoldable pub main_act : Action → Threads → MainAt → Option Threads
main_act (accepts fd) s accepting =
    if is_nonpos fd
    then some (record s { main = ended })
    else some (record s { main = creating fd; frame = some fd })
main_act (creates true) s (creating fd) =
    some (record s { main = created; waiting = suc s.waiting; accepted = s.accepted ++ fd ∷ [] })
main_act (creates false) s (creating fd) = some (record s { main = accepting; frame = none })
main_act returns s created = some (record s { main = accepting; frame = none })
main_act _ s _ = none

-- A thread's first step, where one waits.
unfoldable pub start_act : Threads → ℕ → Option Threads
start_act s zero = none
start_act s (suc n) = some (record s { waiting = n; reads = s.reads ++ s.frame ∷ [] })

unfoldable pub act : Action → Threads → Option Threads
unfolding main_act start_act
act starts s = start_act s s.waiting
act (accepts fd) s = main_act (accepts fd) s s.main
act (creates ok) s = main_act (creates ok) s s.main
act returns s = main_act returns s s.main

-- cli_main_thread behind listen.
abbrev pub listening : Threads
listening = record { main = accepting; frame = none; waiting = 0; reads = []; accepted = [] }

pub data Reach : Threads → Type 0 where
  start : Reach listening
  later : {s t : Threads} → Reach s → (a : Action) → act a s ≡ some t → Reach t

-- A schedule, run as far as its actions can happen in turn.
unfoldable run : Threads → List Action → Option Threads
unfolding act
run s [] = some s
run s (a ∷ rest) = elim (act a s) [ none ↦ none | some t ↦ run t rest ]

run-Reach : {s t : Threads} → Reach s → (schedule : List Action) → run s schedule ≡ some t → Reach t
unfolding run
run-Reach {s} {t} r [] e = let p : s ≡ t = cc in subst Reach p r
run-Reach {s} {t} r (a ∷ rest) e = elim (Option-cases (act a s)) [
  | inl h ↦ let n : none ≡ some t = ground (arith, h, e) in cc (n)
  | inr (u, h) ↦
      let w : run u rest ≡ some t = ground (arith, h, e) in run-Reach (later r a h) rest w
]

-- Of any two connections the second can be served twice and the first never: both threads read their
-- argument after the second call of cli_create_client_thread has written it.
pub served_twice :
    (m n : ℕ)
    → (s : Threads) × Reach s
      × (s.accepted ≡ pos (suc m) ∷ pos (suc n) ∷ [])
      × (s.reads ≡ some (pos (suc n)) ∷ some (pos (suc n)) ∷ [])
      × (s.waiting ≡ 0)
unfolding run
served_twice m n =
    let schedule =
      accepts (pos (suc m))
      ∷ creates true
      ∷ returns
      ∷ accepts (pos (suc n))
      ∷ creates true
      ∷ starts
      ∷ starts
      ∷ [] in
    let last : Threads = record {
      main = created;
      frame = some (pos (suc n));
      waiting = 0;
      reads = some (pos (suc n)) ∷ some (pos (suc n)) ∷ [];
      accepted = pos (suc m) ∷ pos (suc n) ∷ [];
    } in
    (last, run-Reach start schedule (ground arith), refl, refl, refl)
