-- ===== src/Main/InRange.antt =====
-- Every value that server_runing_burst keeps stays within its C type and its buffer, and so does every
-- frame that it sends.
use wlan_bridge.Common.{
  ℕ, zero, suc, ◌≤◌, ◌<◌, ◌≡◌, refl, true, false, some, List, [], ◌∷◌, arith, All, All-weaken,
  length, length-append, length-take, length-drop, take, drop, u64_mod, is_nonpos,
}
use wlan_bridge.Net.{Datagram}
use wlan_bridge.Udp.{Call, Arrival, Slot, Udp, fill_all, fill}
use wlan_bridge.Udp.Adds.{Adds, Adds-refl, Adds-trans}
use wlan_bridge.Forward.{Env}
use wlan_bridge.Forward.InRange.{InRange, keeps-InRange}
use wlan_bridge.Forward.Keeps.{burst_keeps}
use wlan_bridge.Forward.Relay.{Allows, handle_burst-Adds}
use wlan_bridge.Main.{
  Server, Round, EpollStatInfo, max_data_len, count_of, received, read, pass_on, count_timeout,
  count_error, count_recv, server_runing_burst,
}
use wlan_bridge.Main.Read.{read_bridge, read_missed, read_found}
use wlan_bridge.Main.Drain.{Draining, Healthy, unread}
use wlan_bridge.Main.Run.{run-total}
use wlan_bridge.Main.Steps.{Steps, run_keeps}

-- A place is a whole buffer, of which a frame fills no more than there is.
pub record SlotFits (s : Slot) : Type 0 where
  pub whole : length s.buf ≡ max_data_len
  pub filled : s.data_len ≤ max_data_len

-- A frame's length lies within its buffer.
pub record InBuffer (d : Datagram) : Type 0 where
  pub whole : length d.buf ≡ max_data_len
  pub filled : d.len ≤ max_data_len

pub record CountersFit (e : EpollStatInfo) : Type 0 where
  pub timeout : e.epoll_timeout < u64_mod
  pub error : e.epoll_error < u64_mod
  pub recv : e.epool_recv < u64_mod

fill-SlotFits : (s : Slot) (a : Arrival) → SlotFits s → SlotFits (fill max_data_len s a)
unfolding fill
fill-SlotFits s a h =
    let got = take max_data_len a.bytes in
    let few = length-take max_data_len a.bytes in
    record {
      whole = omega (
        arith,
        length-append got (drop (length got) s.buf),
        length-drop (length got) s.buf,
        few,
        h.whole,
      );
      filled = few;
    }

fill_all-SlotFits :
    (slots : List Slot) (arrivals : List Arrival)
    → All SlotFits slots
    → All SlotFits (fill_all max_data_len slots arrivals)
unfolding fill_all
fill_all-SlotFits [] arrivals h = tt
fill_all-SlotFits (s ∷ slots) [] h = h
fill_all-SlotFits (s ∷ slots) (a ∷ arrivals) h =
    (fill-SlotFits s a h.0, fill_all-SlotFits slots arrivals h.1)

received-InBuffer :
    (n : ℕ) (slots : List Slot) → All SlotFits slots → All InBuffer (received n slots)
unfolding received
received-InBuffer zero slots h = tt
received-InBuffer (suc n) [] h = tt
received-InBuffer (suc n) (s ∷ slots) h =
    (record { whole = h.0.whole; filled = h.0.filled }, received-InBuffer n slots h.1)

module _ {T L S : Type 0} (env : Env T L S) (start : Udp) where
  pub record Typed (m : Server T L S) : Type 0 where
    pub bridge : InRange m.bridge
    pub slots : All SlotFits m.slots
    pub counters : CountersFit m.epoll_stat_info
    pub sends : Adds InBuffer start m.bridge.udp

  module _ (m : Server T L S) where
    read_epoll : (read env m).1.epoll_stat_info ≡ m.epoll_stat_info
    unfolding read
    read_epoll = refl

    -- Whatever a read leaves in the places.
    read-Typed : Typed m → All SlotFits (read env m).1.slots → Typed (read env m).1
    read-Typed h slots = record {
      bridge = rw (read_bridge env m) (record { peers = h.bridge.peers; stats = h.bridge.stats });
      slots = slots;
      counters = rw (read_epoll) (h.counters);
      sends = rw (read_bridge env m) (
          Adds-trans InBuffer start m.bridge.udp _ h.sends
            (record { new = _ ∷ []; log = refl; socket = refl; sends = (tt, tt) }));
    }

    missed-Typed : is_nonpos (read env m).0 ≡ true → Typed m → Typed (read env m).1
    missed-Typed p h = read-Typed h (rw ((read_missed env m p).1) h.slots)

    found-Typed : is_nonpos (read env m).0 ≡ false → Typed m → Typed (read env m).1
    found-Typed p h =
        read-Typed h (rw ((read_found env m p).2) (fill_all-SlotFits m.slots _ h.slots))

  allowed : (r : Datagram) → InBuffer r → Allows env InBuffer r
  allowed r h d (len, buf, away) = record {
    whole = rw (buf) (h.whole);
    filled = rw (len) (h.filled);
  }

  pass_on-Typed : (n : ℕ) (m : Server T L S) → Typed m → Typed (pass_on env n m)
  unfolding pass_on
  pass_on-Typed n m h =
      let rx = received n m.slots in
      let fits =
        All-weaken InBuffer (Allows env InBuffer) allowed rx
          (received-InBuffer n m.slots h.slots) in
      record {
        bridge = burst_keeps env InRange (keeps-InRange env) m.bridge rx h.bridge;
        slots = h.slots;
        counters = h.counters;
        sends =
            Adds-trans InBuffer start m.bridge.udp _ h.sends
              (handle_burst-Adds env InBuffer m.bridge rx fits);
      }

  counted-Typed :
      (m : Server T L S) (e : EpollStatInfo)
      → CountersFit e
      → Typed m
      → Typed (record m { epoll_stat_info = e })
  counted-Typed m e c h = record {
    bridge = h.bridge;
    slots = h.slots;
    counters = c;
    sends = h.sends;
  }

  typed : Steps env Typed
  unfolding count_timeout count_error count_recv
  typed = record {
    reads = missed-Typed;
    handles = λ m p h. pass_on-Typed (count_of (read env m).0) (read env m).1 (found-Typed m p h);
    timeouts = λ m h.
        counted-Typed m _
          (record { timeout = omega arith; error = h.counters.error; recv = h.counters.recv }) h;
    errors = λ m h.
        counted-Typed m _
          (record { timeout = h.counters.timeout; error = omega arith; recv = h.counters.recv }) h;
    wakes = λ m n h.
        counted-Typed m _
          (record { timeout = h.counters.timeout; error = h.counters.error; recv = omega arith }) h;
    stops = λ m h. record {
      bridge = h.bridge;
      slots = h.slots;
      counters = h.counters;
      sends = h.sends;
    };
  }

module _ {T L S : Type 0} (env : Env T L S) (left : List Call → ℕ)
    (k : Draining env.kernel left) where
  -- From values in range, with a well-formed list and more fuel than the kernel's queue holds bursts,
  -- the server's loop comes to an end over any rounds, whatever callocs fail and whatever the
  -- calls return, and leaves every value in range: the counters of epoll and of each address below
  -- 2 ^ 64, the counts of the peers below 2 ^ 16 and their marks at most 1, and each receive buffer at its
  -- size with a length within it; and each frame that it sent on the way is no longer than its buffer.
  pub run-Typed :
      (fuel : ℕ) (m : Server T L S) (rounds : List Round)
      → Healthy env left m
      → InRange m.bridge
      → All SlotFits m.slots
      → CountersFit m.epoll_stat_info
      → unread env left m < fuel
      → (m' : Server T L S) × (server_runing_burst env fuel m rounds ≡ some m')
        × Typed env m.bridge.udp m'
  run-Typed fuel m rounds v b s c lt =
      let t = run-total env left k fuel m rounds v lt in
      let begin : Typed env m.bridge.udp m = record {
        bridge = b;
        slots = s;
        counters = c;
        sends = Adds-refl InBuffer m.bridge.udp;
      } in
      (
        t.0,
        t.1,
        run_keeps env (Typed env m.bridge.udp) (typed env m.bridge.udp) fuel m t.0 rounds t.1 begin,
      )
