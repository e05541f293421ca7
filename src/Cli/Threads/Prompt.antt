-- ===== src/Cli/Threads/Prompt.antt =====
-- Schedules on which every thread reads its argument before cli_create_client_thread returns.
use wlan_bridge.Common.{
  ℕ, zero, suc, ◌≤◌, ◌≡◌, refl, inl, inr, true, false, Option, none, some, List, [], ◌∷◌, ◌++◌, map,
  arith, Bool-cases, ℤ, is_nonpos,
}
use mathlib.Core.Path.{subst}
use mathlib.Core.List.{append_assoc, append-nil, map-append}
use wlan_bridge.Cli.Threads.{
  MainAt, accepting, creating, created, ended, Threads, Action, accepts, creates, returns, starts,
  main_act, start_act, act, listening,
}

-- A step that leaves no thread behind.
abbrev IsPrompt : Action → Threads → Type 0
IsPrompt returns s = s.waiting ≡ 0
IsPrompt _ s = Unit {0}

pub data PromptReach : Threads → Type 0 where
  start : PromptReach listening
  later :
      {s t : Threads}
      → PromptReach s
      → (a : Action) → IsPrompt a s
      → act a s ≡ some t
      → PromptReach t

-- What the threads that wait will read.
abbrev pub pending : ℕ → Option ℤ → List (Option ℤ)
pending zero frame = []
pending (suc n) frame = frame ∷ pending n frame

-- How many threads may wait where the main thread stands.
abbrev most_waiting : MainAt → ℕ
most_waiting created = 1
most_waiting _ = 0

-- The variable that a new thread will read.
abbrev Holds : MainAt → Option ℤ → Type 0
Holds (creating fd) frame = frame ≡ some fd
Holds _ frame = Unit {0}

-- Each connection is read by one thread of its own, or is about to be.
record Inv (s : Threads) : Type 0 where
  pub own : map some s.accepted ≡ s.reads ++ pending s.waiting s.frame
  pub few : s.waiting ≤ most_waiting s.main
  pub held : Holds s.main s.frame

main_act-Inv :
    (a : Action) (s t : Threads) (m : MainAt)
    → s.main ≡ m
    → IsPrompt a s
    → main_act a s m ≡ some t
    → Inv s
    → Inv t
unfolding main_act
main_act-Inv (accepts fd) s t accepting e p h v = elim (Bool-cases (is_nonpos fd)) [
  | inl q ↦
      let r : record s { main = ended } ≡ t = ground (arith, h, q) in
      subst Inv r (record { own = v.own; few = ground (arith, v.few, e); held = tt })
  | inr q ↦
      let r : record s { main = creating fd; frame = some fd } ≡ t = ground (arith, h, q) in
      let z : s.waiting ≡ 0 = ground (arith, v.few, e) in
      subst Inv r (record { own = ground (arith, v.own, z); few = ground (arith, z); held = refl })
]
main_act-Inv (creates true) s t (creating fd) e p h v =
    let r : record s { main = created; waiting = suc s.waiting; accepted = s.accepted ++ fd ∷ [] }
        ≡ t =
      cc in
    let z : s.waiting ≡ 0 = ground (arith, v.few, e) in
    let f : s.frame ≡ some fd = ground (arith, v.held, e) in
    subst Inv r (record {
      own = ground (arith, v.own, z, f, map-append some s.accepted (fd ∷ []), append-nil s.reads);
      few = ground (arith, z);
      held = tt;
    })
main_act-Inv (creates false) s t (creating fd) e p h v =
    let r : record s { main = accepting; frame = none } ≡ t = cc in
    let z : s.waiting ≡ 0 = ground (arith, v.few, e) in
    subst Inv r (record { own = ground (arith, v.own, z); few = ground (arith, z); held = tt })
main_act-Inv returns s t created e p h v =
    let r : record s { main = accepting; frame = none } ≡ t = cc in
    subst Inv r (record { own = ground (arith, v.own, p); few = ground (arith, p); held = tt })
main_act-Inv a s t m e p h v = cc

start_act-Inv : (s t : Threads) (n : ℕ) → s.waiting ≡ n → start_act s n ≡ some t → Inv s → Inv t
unfolding start_act
start_act-Inv s t zero e h v = cc
start_act-Inv s t (suc n) e h v =
    let r : record s { waiting = n; reads = s.reads ++ s.frame ∷ [] } ≡ t = cc in
    subst Inv r (record {
      own = ground (arith, v.own, e, append_assoc s.reads (s.frame ∷ []) (pending n s.frame));
      few = ground (arith, v.few, e);
      held = v.held;
    })

act-Inv : (a : Action) (s t : Threads) → IsPrompt a s → act a s ≡ some t → Inv s → Inv t
unfolding act
act-Inv starts s t p h v = start_act-Inv s t s.waiting refl h v
act-Inv (accepts fd) s t p h v = main_act-Inv (accepts fd) s t s.main refl p h v
act-Inv (creates ok) s t p h v = main_act-Inv (creates ok) s t s.main refl p h v
act-Inv returns s t p h v = main_act-Inv returns s t s.main refl p h v

-- The invariant holds in every state that is reached promptly.
PromptReach-Inv : {s : Threads} → PromptReach s → Inv s
PromptReach-Inv start = record { own = refl; few = omega arith; held = tt }
PromptReach-Inv (later {s} {t} r a p h) = act-Inv a s t p h (PromptReach-Inv r)

-- When every thread reads its argument before cli_create_client_thread returns, then whenever the
-- main thread is at accept, the threads have read the descriptors of the connections for which they
-- were created, each its own, in the order of the connections.
pub prompt_reads :
    {s : Threads} → PromptReach s → s.main ≡ accepting → s.reads ≡ map some s.accepted
prompt_reads {s} r e =
    let v = PromptReach-Inv r in
    let z : s.waiting ≡ 0 = ground (arith, v.few, e) in ground (arith, v.own, z, append-nil s.reads)
