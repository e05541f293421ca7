-- ===== src/Main/Relay.antt =====
-- What server_runing_burst sends, over any rounds: the calls that the socket sees, from the start of
-- the loop on.
pub mod Run
use wlan_bridge.Common.{
  ℕ, zero, suc, ◌≤◌, ◌≡◌, refl, sym, ap, ◌∙◌, inl, inr, true, false, Option, none, some, List, [],
  ◌∷◌, ◌++◌, arith, All, All-weaken, Bool-cases, Option-cases, length, take, drop, take-append, ℤ,
  pos, negsuc, is_nonpos, not, ◌||◌, ◌==◌, ◌==ℤ◌,
}
use mathlib.Core.List.{append_assoc, append-nil}
use mathlib.Core.List.Memᴰ
use mathlib.Core.List.{Memᴰ}
use mathlib.Core.Path.{subst}
use wlan_bridge.Net.{Datagram, same_peer}
use wlan_bridge.Udp.{
  Kernel, Call, Arrival, Slot, called, recvmmsg, nothing, fill_all, fill,
  read_data_from_udp_client_burst,
}
use wlan_bridge.Udp.Adds.{Sends, Adds, Sends-weaken}
use wlan_bridge.Forward.{Env, Bridge, wlan_br_handle_burst}
use wlan_bridge.Forward.Relay.{Copies, Allows, handle_burst-Adds}
use wlan_bridge.Main.Read.{asked, read_log, read_found}
use wlan_bridge.Main.{
  Server, Round, Event, max_data_len, count_of, received, read, pass_on, drain, on_event, on_events,
  on_wakeup, server_runing_burst, epollin, count_recv, count_timeout, count_error,
}
use Prim.Native.Nat.{bit_and}

-- A frame that came in: one of the arrivals of a read among the calls, as much of it as a buffer
-- holds, and on its way to another peer than the one that it came from.
pub record CameIn (kernel : Kernel) (log : List Call) (d : Datagram) : Type 0 where
  pub before : List Call
  pub more : List Call
  pub earlier : log ≡ before ++ more
  pub arrival : Arrival
  pub arrived : Memᴰ arrival (kernel.recv_ret before).arrivals
  pub payload : take d.len d.buf ≡ take max_data_len arrival.bytes
  pub away : same_peer d.addr arrival.from ≡ false

-- Behind `start`, each call sends only what came in before it.
pub data Relayed (kernel : Kernel) (start : List Call) : List Call → Type 0 where
  begin : Relayed kernel start start
  next :
      {log : List Call} (c : Call)
      → Sends (CameIn kernel log) c
      → Relayed kernel start log
      → Relayed kernel start (log ++ c ∷ [])

module _ (kernel : Kernel) where
  pub CameIn-append :
      (log new : List Call) (d : Datagram) → CameIn kernel log d → CameIn kernel (log ++ new) d
  CameIn-append log new d h = record {
    before = h.before;
    more = h.more ++ new;
    earlier = rw (h.earlier) (append_assoc h.before h.more new);
    arrival = h.arrival;
    arrived = h.arrived;
    payload = h.payload;
    away = h.away;
  }

  Relayed-append :
      (start log new : List Call)
      → Relayed kernel start log
      → All (Sends (CameIn kernel log)) new
      → Relayed kernel start (log ++ new)
  Relayed-append start log [] r h = rw append-nil r
  Relayed-append start log (c ∷ new) r h =
      let log' = log ++ c ∷ [] in
      let later =
        Sends-weaken (CameIn kernel log) (CameIn kernel log') (CameIn-append log (c ∷ [])) in
      subst (Relayed kernel start) (append_assoc log (c ∷ []) new) (
        Relayed-append start log' new (next c h.0 r)
          (All-weaken (Sends (CameIn kernel log)) (Sends (CameIn kernel log')) later new h.1))

-- A place that holds an arrival.
abbrev Of : List Arrival → Datagram → Type 0
Of arrivals r =
    (a : Arrival) × Memᴰ a arrivals
    × (take r.len r.buf ≡ take max_data_len a.bytes)
    × (r.addr ≡ a.from)

Of-cons :
    (a : Arrival) (arrivals : List Arrival) (r : Datagram) → Of arrivals r → Of (a ∷ arrivals) r
Of-cons a arrivals r (x, mem, p, q) = (x, Memᴰ.tail mem, p, q)

received-Of :
    (n : ℕ) (slots : List Slot) (arrivals : List Arrival)
    → n ≤ length arrivals
    → All (Of arrivals) (received n (fill_all max_data_len slots arrivals))
unfolding received fill_all fill
received-Of zero slots arrivals h = tt
received-Of (suc n) [] arrivals h = tt
received-Of (suc n) (s ∷ slots) [] h = absurd (omega arith)
received-Of (suc n) (s ∷ slots) (a ∷ arrivals) h = (
  (a, Memᴰ.head refl, take-append (take max_data_len a.bytes) _, refl),
  All-weaken (Of arrivals) (Of (a ∷ arrivals)) (Of-cons a arrivals) _
      (received-Of n slots arrivals (omega arith)),
)

Of-CameIn :
    (kernel : Kernel) (log : List Call) (r : Datagram)
    → Of (kernel.recv_ret log).arrivals r
    → (d : Datagram) → Copies r d
    → CameIn kernel log d
Of-CameIn kernel log r (a, mem, p, q) d (len, buf, away) = record {
  before = log;
  more = [];
  earlier = sym (append-nil log);
  arrival = a;
  arrived = mem;
  payload = rw (len, buf) p;
  away = rw (← q) away;
}

module _ {T L S : Type 0} (env : Env T L S) (start : List Call) where
  -- The server's calls since `start` send only what came in.
  abbrev pub Honest : Bridge T L S → Type 0
  Honest b = Relayed env.kernel start b.udp.log

  module _ (m : Server T L S) where
    pub read-Honest : Honest m.bridge → Honest (read env m).1.bridge
    read-Honest h =
        rw (read_log env m)
          (next (recvmmsg m.bridge.udp.serv_sock max_data_len (length m.slots)) tt h)

    read-Allows :
        is_nonpos (read env m).0 ≡ false
        → All
            (Allows env (CameIn env.kernel (read env m).1.bridge.udp.log))
            (received (count_of (read env m).0) (read env m).1.slots)
    read-Allows p =
        let arrivals = (env.kernel.recv_ret (asked env m)).arrivals in
        let f = read_found env m p in
        rw (f.1, f.2, read_log env m)
          (All-weaken (Of arrivals) (Allows env (CameIn env.kernel (asked env m)))
            (Of-CameIn env.kernel (asked env m)) _
            (received-Of (length arrivals) m.slots arrivals (omega arith)))

    pub pass_on-Honest :
        is_nonpos (read env m).0 ≡ false
        → Honest m.bridge
        → Honest (pass_on env (count_of (read env m).0) (read env m).1).bridge
    unfolding pass_on
    pass_on-Honest p h =
        let m' = (read env m).1 in
        let log = m'.bridge.udp.log in
        let rx = received (count_of (read env m).0) m'.slots in
        let sent = handle_burst-Adds env (CameIn env.kernel log) m'.bridge rx (read-Allows p) in
        rw (sent.log) (Relayed-append env.kernel start log sent.new (read-Honest h) sent.sends)
