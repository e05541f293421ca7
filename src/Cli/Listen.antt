-- ===== src/Cli/Listen.antt =====
-- wlan_br_server/cli.c: cli_main_thread, which listens for telnet sessions, as one thread; what the
-- threads that it creates do is in Cli/Threads and Cli/Register. The kernel answers a call as a
-- function of all calls so far.
use wlan_bridge.Common.{
  ℕ, zero, suc, ◌<◌, ◌≡◌, refl, sym, ap, ◌∙◌, inl, inr, Bool, true, false, ◌||◌, map, pos, ◌==ℤ◌,
  Option, none, some, List, [], ◌∷◌, ◌++◌, arith, if◌then◌else◌, Bool-cases, length, ℤ, negsuc,
  is_nonpos, is_neg,
}
use mathlib.Core.List.{append_assoc}
use wlan_bridge.Net.{SockaddrIn}
use wlan_bridge.Udp.{any_addr}

-- socket and setsockopt are those for a stream socket and SO_REUSEADDR; the thread of a session is
-- created for a descriptor, and `connecting` is the line that is printed where that succeeds.
pub data ListenCall : Type 0 where
  create_main_thread : ListenCall
  socket : ListenCall
  reuse_addr : ℤ → ListenCall
  bind : ℤ → SockaddrIn → ListenCall
  listen : ℤ → (backlog : ℕ) → ListenCall
  accept : ℤ → ListenCall
  create_thread : ℤ → ListenCall
  connecting : ℤ → ListenCall

-- The static of the file, and the calls so far.
pub record Listener : Type 0 where
  pub cli_sock : ℤ
  pub log : List ListenCall

abbrev did : Listener → ListenCall → Listener
did s c = record s { log = s.log ++ c ∷ [] }

module _ (ret : List ListenCall → ℤ) where
  -- Where pthread_create fails, the connection is left as it is.
  unfoldable pub cli_create_client_thread : Listener → ℤ → Listener
  cli_create_client_thread s connect_fd =
      let s' = did s (create_thread connect_fd) in
      if ret s'.log ==ℤ pos 0 then did s' (connecting connect_fd) else s'

  -- `while (1)`, on fuel; it ends when accept fails. `none` means that the fuel ran out.
  unfoldable accept_loop : ℕ → Listener → Option Listener
  unfolding cli_create_client_thread
  accept_loop zero s = none
  accept_loop (suc fuel) s =
      let s' = did s (accept s.cli_sock) in
      let connect_fd = ret s'.log in
      let rest = accept_loop fuel (cli_create_client_thread s' connect_fd) in
      if is_nonpos connect_fd then some s' else rest

  -- Behind setsockopt, whose failure is only logged.
  unfoldable bind_listen : ℕ → ℕ → Listener → Option Listener
  unfolding accept_loop
  bind_listen port fuel s =
      let bound = did s (bind s.cli_sock (any_addr port)) in
      let listening = did bound (listen s.cli_sock 50) in
      if is_neg (ret bound.log)
      then some bound
      else if is_neg (ret listening.log)
      then some listening
      else accept_loop fuel listening

  -- cli_main_thread with the port CLITEST_PORT.
  unfoldable pub listen_on : ℕ → ℕ → Listener → Option Listener
  unfolding bind_listen
  listen_on port fuel s =
      let s' = did s socket in
      let fd = ret s'.log in
      let opened = record s' { cli_sock = fd } in
      if is_neg fd then some opened else bind_listen port fuel (did opened (reuse_addr fd))

  unfoldable pub cli_main_thread : ℕ → Listener → Option Listener
  unfolding listen_on
  cli_main_thread = listen_on 8000

-- cli_main: the result of pthread_create is only logged.
unfoldable pub cli_main : Listener → Listener
cli_main s = did s create_main_thread

-- The connections that pthread_create was called for, and those for which it succeeded, in order.
abbrev pub tried_by : ListenCall → List ℤ
tried_by (create_thread fd) = fd ∷ []
tried_by _ = []

abbrev pub served_by : ListenCall → List ℤ
served_by (connecting fd) = fd ∷ []
served_by _ = []

unfoldable pub tried : List ListenCall → List ℤ
tried [] = []
tried (c ∷ log) = tried_by c ++ tried log

unfoldable pub served : List ListenCall → List ℤ
served [] = []
served (c ∷ log) = served_by c ++ served log

tried-append : (a b : List ListenCall) → tried (a ++ b) ≡ tried a ++ tried b
unfolding tried
tried-append [] b = refl
tried-append (c ∷ a) b = rw (tried-append a b) (sym (append_assoc (tried_by c) (tried a) (tried b)))

served-append : (a b : List ListenCall) → served (a ++ b) ≡ served a ++ served b
unfolding served
served-append [] b = refl
served-append (c ∷ a) b =
    rw (served-append a b) (sym (append_assoc (served_by c) (served a) (served b)))

-- A connection, and whether pthread_create succeeds for it.
abbrev pub Connection : Type 0
Connection = ℤ × Bool

-- The calls for a connection.
abbrev pub calls_for : ℤ → Connection → List ListenCall
calls_for sock (fd, true) = accept sock ∷ create_thread fd ∷ connecting fd ∷ []
calls_for sock (fd, false) = accept sock ∷ create_thread fd ∷ []

abbrev pub Succeeds : Bool → ℤ → Type 0
Succeeds true r = (r ==ℤ pos 0) ≡ true
Succeeds false r = (r ==ℤ pos 0) ≡ false

-- The kernel has these connections for the socket, and then none: from some calls on, accept returns
-- them in order, pthread_create succeeds for those that are marked and fails for the others, and at
-- the end accept fails.
pub data Connects (ret : List ListenCall → ℤ) (sock : ℤ)
    : List ListenCall → List Connection → Type 0 where
  last :
      {log : List ListenCall}
      → is_nonpos (ret (log ++ accept sock ∷ [])) ≡ true
      → Connects ret sock log []
  next :
      {log : List ListenCall} {fd : ℤ} {created : Bool} {rest : List Connection}
      → ret (log ++ accept sock ∷ []) ≡ fd
      → is_nonpos fd ≡ false
      → Succeeds created (ret ((log ++ accept sock ∷ []) ++ create_thread fd ∷ []))
      → Connects ret sock (log ++ calls_for sock (fd, created)) rest
      → Connects ret sock log ((fd, created) ∷ rest)

-- The descriptors, and those whose thread could be created.
abbrev pub descriptors : List Connection → List ℤ
descriptors = map (λ c. c.0)

unfoldable pub created_for : List Connection → List ℤ
created_for [] = []
created_for ((fd, true) ∷ rest) = fd ∷ created_for rest
created_for ((fd, false) ∷ rest) = created_for rest

module _ (ret : List ListenCall → ℤ) (sock : ℤ) where
  create_lem :
      (log : List ListenCall) (fd : ℤ) (created : Bool)
      → Succeeds created (ret ((log ++ accept sock ∷ []) ++ create_thread fd ∷ []))
      → cli_create_client_thread ret (record { cli_sock = sock; log = log ++ accept sock ∷ [] }) fd
        ≡ record { cli_sock = sock; log = log ++ calls_for sock (fd, created) }
  unfolding cli_create_client_thread
  create_lem log fd true h = rw h (
      ap (λ (l : List ListenCall). record { cli_sock = sock; log = l })
        (ap (λ (l : List ListenCall). l ++ connecting fd ∷ [])
            (append_assoc log (accept sock ∷ []) (create_thread fd ∷ []))
          ∙ append_assoc log (accept sock ∷ create_thread fd ∷ []) (connecting fd ∷ [])))
  create_lem log fd false h = rw h (
      ap (λ (l : List ListenCall). record { cli_sock = sock; log = l })
        (append_assoc log (accept sock ∷ []) (create_thread fd ∷ [])))

  tried_next :
      (log : List ListenCall) (fd : ℤ) (created : Bool)
      → tried (log ++ calls_for sock (fd, created)) ≡ tried log ++ fd ∷ []
  unfolding tried
  tried_next log fd true = tried-append log (calls_for sock (fd, true))
  tried_next log fd false = tried-append log (calls_for sock (fd, false))

  served_next :
      (log : List ListenCall) (fd : ℤ) (created : Bool) (rest : List Connection)
      → served (log ++ calls_for sock (fd, created)) ++ created_for rest
        ≡ served log ++ created_for ((fd, created) ∷ rest)
  unfolding served created_for
  served_next log fd true rest =
      rw (served-append log (calls_for sock (fd, true)))
        (append_assoc (served log) (fd ∷ []) (created_for rest))
  served_next log fd false rest =
      rw (served-append log (calls_for sock (fd, false)))
        (append_assoc (served log) [] (created_for rest))

  accept_loop_lem :
      (fuel : ℕ) (log : List ListenCall) (conns : List Connection)
      → Connects ret sock log conns
      → length conns < fuel
      → (s' : Listener) × (accept_loop ret fuel (record { cli_sock = sock; log = log }) ≡ some s')
        × (tried s'.log ≡ tried log ++ descriptors conns)
        × (served s'.log ≡ served log ++ created_for conns)
  unfolding accept_loop tried served created_for
  accept_loop_lem zero log conns c h = absurd (omega arith)
  accept_loop_lem (suc fuel) log [] (last e) h = (
    record { cli_sock = sock; log = log ++ accept sock ∷ [] },
    ground (arith, e),
    tried-append log (accept sock ∷ []),
    served-append log (accept sock ∷ []),
  )
  accept_loop_lem (suc fuel) log ((fd, created) ∷ rest) (next e p k c) h =
      let ih = accept_loop_lem fuel (log ++ calls_for sock (fd, created)) rest c (omega arith) in
      (
        ih.0,
        ground (arith, e, p, create_lem log fd created k, ih.1),
        ih.2
            ∙ ap (λ l. l ++ descriptors rest) (tried_next log fd created)
            ∙ append_assoc (tried log) (fd ∷ []) (descriptors rest),
        ih.3 ∙ served_next log fd created rest,
      )

-- What cli_main_thread has asked for when it comes to its first accept, where `fd` is its socket.
abbrev prepared : ℕ → ℤ → List ListenCall
prepared port fd = socket ∷ reuse_addr fd ∷ bind fd (any_addr port) ∷ listen fd 50 ∷ []

-- The file's static at the start.
abbrev pub unopened : Listener
unopened = record { cli_sock = negsuc 0; log = [] }

module _ (ret : List ListenCall → ℤ) (port : ℕ) (fd : ℤ) (fuel : ℕ) where
  -- Where the socket is opened and bound and listens, and the kernel then has some connections and no
  -- more, the main thread ends, given more fuel than there are connections: it has called
  -- pthread_create for each of them, in order, and has reported as connecting exactly those for which
  -- that succeeded.
  pub listen_on_lem :
      (conns : List Connection)
      → ret (socket ∷ []) ≡ fd
      → is_neg fd ≡ false
      → is_neg (ret (socket ∷ reuse_addr fd ∷ bind fd (any_addr port) ∷ [])) ≡ false
      → is_neg (ret (prepared port fd)) ≡ false
      → Connects ret fd (prepared port fd) conns
      → length conns < fuel
      → (s : Listener) × (listen_on ret port fuel unopened ≡ some s)
        × (tried s.log ≡ descriptors conns)
        × (served s.log ≡ created_for conns)
  unfolding listen_on tried served
  listen_on_lem conns o a b c d lt =
      let l = accept_loop_lem ret fd fuel (prepared port fd) conns d lt in
      (l.0, rw o (ground (arith, a, b, c, l.1)), l.2, l.3)

  -- Where binding or listening fails, the main thread ends at once and leaves its socket open: it has
  -- created no thread.
  listen_on_failed :
      ret (socket ∷ []) ≡ fd
      → is_neg fd ≡ false
      → (is_neg (ret (socket ∷ reuse_addr fd ∷ bind fd (any_addr port) ∷ []))
          || is_neg (ret (prepared port fd)))
        ≡ true
      → (s : Listener) × (listen_on ret port fuel unopened ≡ some s)
        × (tried s.log ≡ [])
        × (s.cli_sock ≡ fd)
  unfolding listen_on tried
  listen_on_failed o a b =
      let bound = socket ∷ reuse_addr fd ∷ bind fd (any_addr port) ∷ [] in
      elim (Bool-cases (is_neg (ret bound))) [
        | inl q ↦ (record { cli_sock = fd; log = bound }, rw o (ground (arith, a, q)), refl, refl)
        | inr q ↦ (
          record { cli_sock = fd; log = prepared port fd },
          rw o (ground (arith, a, b, q)),
          refl,
          refl,
        )
      ]
