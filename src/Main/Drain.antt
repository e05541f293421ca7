-- ===== src/Main/Drain.antt =====
-- The receive loop ends, having read everything, and keeps the bridge well formed.
use wlan_bridge.Common.{
  ℕ, zero, suc, ◌≤◌, ◌<◌, ◌≡◌, refl, ◌∙◌, inl, inr, true, false, some, List, [], ◌∷◌, ◌++◌, arith,
  All, Bool-cases, length, ℤ, is_nonpos,
}
use mathlib.Core.List.{append_assoc, append-nil}
use wlan_bridge.Net.{Datagram}
use wlan_bridge.Peers.Update.{IsValid}
use wlan_bridge.Udp.{Call, recvmmsg, Kernel, nothing, read_data_from_udp_client_burst}
use wlan_bridge.Udp.Adds.{Adds}
use wlan_bridge.Forward.{Env, Bridge, wlan_br_handle_burst}
use wlan_bridge.Forward.Relay.{Allows, handle_burst-Adds}
use wlan_bridge.Forward.Steady.{handle_burst-IsValid}
use wlan_bridge.Main.{Server, max_data_len, count_of, received, read, pass_on, drain}

-- The kernel's queue: `left` counts the reads that will still find something. A read that finds
-- something takes from it, and no call of the program adds to it.
pub record Draining (kernel : Kernel) (left : List Call → ℕ) : Type 0 where
  pub takes :
      (log : List Call) (fd : ℤ) (len n : ℕ)
      → nothing (kernel.recv_ret (log ++ recvmmsg fd len n ∷ [])) ≡ false
      → left (log ++ recvmmsg fd len n ∷ []) < left log
  pub keeps : (log : List Call) (c : Call) → left (log ++ c ∷ []) ≤ left log

module _ (kernel : Kernel) (left : List Call → ℕ) (k : Draining kernel left) where
  pub left-append : (log more : List Call) → left (log ++ more) ≤ left log
  left-append log [] = rw append-nil (omega arith)
  left-append log (c ∷ more) =
      rw (← append_assoc log (c ∷ []) more)
        (omega (arith, left-append (log ++ c ∷ []) more, k.keeps log c))

module _ {T L S : Type 0} (env : Env T L S) (left : List Call → ℕ) where
  -- How many more reads find something.
  abbrev pub unread : Server T L S → ℕ
  unread m = left m.bridge.udp.log

  -- The socket stays the same.
  abbrev pub SameSocket : Server T L S → Server T L S → Type 0
  SameSocket m m' = m'.bridge.udp.serv_sock ≡ m.bridge.udp.serv_sock

  -- The bridge's list is well formed.
  abbrev pub Healthy : Server T L S → Type 0
  Healthy m = IsValid env.utlist m.bridge.peers

  -- The inner loop has ended: the last call is a read that failed or found nothing.
  pub record Drained (m' : Server T L S) : Type 0 where
    pub healthy : IsValid env.utlist m'.bridge.peers
    pub before : List Call
    pub fd : ℤ
    pub count : ℕ
    pub last : m'.bridge.udp.log ≡ before ++ recvmmsg fd max_data_len count ∷ []
    pub empty : nothing (env.kernel.recv_ret m'.bridge.udp.log) ≡ true

  read-Drained :
      (m : Server T L S) → Healthy m → is_nonpos (read env m).0 ≡ true → Drained (read env m).1
  unfolding read read_data_from_udp_client_burst
  read-Drained m v h = record {
    healthy = v;
    before = m.bridge.udp.log;
    fd = m.bridge.udp.serv_sock;
    count = length m.slots;
    last = ground arith;
    empty = ground arith;
  }

  read-left :
      (m : Server T L S)
      → Draining env.kernel left
      → is_nonpos (read env m).0 ≡ false
      → unread (read env m).1 < unread m
  unfolding read read_data_from_udp_client_burst
  read-left m k h =
      ground (arith, k.takes m.bridge.udp.log m.bridge.udp.serv_sock max_data_len (length m.slots))

  read-left-le : (m : Server T L S) → Draining env.kernel left → unread (read env m).1 ≤ unread m
  unfolding read read_data_from_udp_client_burst
  read-left-le m k = ground (
    arith,
    k.keeps m.bridge.udp.log (recvmmsg m.bridge.udp.serv_sock max_data_len (length m.slots)),
  )

  read_socket : (m : Server T L S) → SameSocket m (read env m).1
  unfolding read read_data_from_udp_client_burst
  read_socket m = ground arith

  read_peers : (m : Server T L S) → (read env m).1.bridge.peers ≡ m.bridge.peers
  unfolding read
  read_peers m = refl

module _ {T L S : Type 0} (env : Env T L S) (left : List Call → ℕ)
    (k : Draining env.kernel left) where
  anything : (rx : List Datagram) → All (Allows env (λ d. Unit {0})) rx
  anything [] = tt
  anything (d ∷ rx) = ((λ x c. tt), anything rx)

  -- What a burst adds to the calls.
  burst-Adds :
      (b : Bridge T L S) (rx : List Datagram)
      → Adds (λ d. Unit {0}) b.udp (wlan_br_handle_burst env b rx).udp
  burst-Adds b rx = handle_burst-Adds env (λ d. Unit {0}) b rx (anything rx)

  pass_on_socket : (n : ℕ) (m : Server T L S) → SameSocket env left m (pass_on env n m)
  unfolding pass_on
  pass_on_socket n m = (burst-Adds m.bridge (received n m.slots)).socket

  pass_on-left :
      (n : ℕ) (m : Server T L S)
      → Healthy env left m
      → (unread env left (pass_on env n m) ≤ unread env left m) × Healthy env left (pass_on env n m)
  unfolding pass_on
  pass_on-left n m v =
      let a = burst-Adds m.bridge (received n m.slots) in
      (
        rw (a.log) (left-append env.kernel left k m.bridge.udp.log a.new),
        handle_burst-IsValid env m.bridge (received n m.slots) v,
      )

  -- With a well-formed list and more fuel than the kernel's queue holds bursts, the inner loop ends,
  -- whatever callocs fail, with a read that failed or found nothing, with the bridge's list well formed
  -- and the same socket.
  pub drain-total :
      (fuel : ℕ) (m : Server T L S)
      → Healthy env left m
      → unread env left m < fuel
      → (m' : Server T L S) × (drain env fuel m ≡ some m')
        × Drained env left m'
        × (unread env left m' ≤ unread env left m)
        × SameSocket env left m m'
  unfolding drain
  drain-total zero m v h = absurd (omega arith)
  drain-total (suc fuel) m v h = elim (Bool-cases (is_nonpos (read env m).0)) [
    | inl done ↦ (
      (read env m).1,
      ground arith,
      read-Drained env left m v done,
      read-left-le env left m k,
      read_socket env left m,
    )
    | inr more ↦
        let m' = (read env m).1 in
        let n = count_of (read env m).0 in
        let p = pass_on-left n m' (rw (read_peers env left m) v) in
        let ih =
          drain-total fuel (pass_on env n m') (p.1)
            (omega (arith, p.0, read-left env left m k more)) in
        (
          ih.0,
          ground arith,
          ih.2,
          omega (arith, ih.3, p.0, read-left env left m k more),
          ih.4 ∙ pass_on_socket n m' ∙ read_socket env left m,
        )
  ]
