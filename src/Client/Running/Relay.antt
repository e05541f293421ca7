-- ===== src/Client/Running/Relay.antt =====
-- What the loop runing asks of the kernel, over any rounds: it sends only frames that the device
-- had, and writes to the device only frames that the server sent.
use wlan_bridge.Common.{
  ℕ, zero, suc, ◌≡◌, sym, inl, inr, false, true, none, some, List, [], ◌∷◌, ◌++◌, arith, Bool-cases,
  Option-cases, length, take, drop, take-append, ℤ, pos, negsuc, not, ◌||◌, ◌==◌, ◌==ℤ◌,
}
use Prim.Native.Nat.{bit_and}
use mathlib.Core.List.{append-nil}
use wlan_bridge.Main.{Event, Round, epollin}
use wlan_bridge.Client.{
  Kernel, Client, Call, called, load, sendto, sendmmsg, recvfrom, write_to, read_from, writev,
}
use wlan_bridge.Client.Udp.{send_data_use_udp, read_data_from_udp}
use wlan_bridge.Client.Tuntap.{send_data_use_tuntap, read_data_from_tuntap}
use wlan_bridge.Client.Running.{
  Buffers, max_data_len, from_tuntap, from_udp, on_event, on_events, count_recv, count_timeout,
  count_error, on_wakeup, runing,
}
use wlan_bridge.Client.Running.Carry.{packed}

-- A read among the calls gave the bytes: as much of what it found as a buffer holds.
pub record Gave (ask : ℤ → ℕ → Call) (kernel : Kernel) (log : List Call) (bytes : List ℕ)
    : Type 0 where
  pub before : List Call
  pub fd : ℤ
  pub more : List Call
  pub earlier : log ≡ (before ++ ask fd max_data_len ∷ []) ++ more
  pub found : List ℕ
  pub got : kernel.got (before ++ ask fd max_data_len ∷ []) ≡ some found
  pub same : bytes ≡ take max_data_len found

-- A datagram carries a frame of the device, a write a frame of the server; the loop sends no bursts.
abbrev pub Carries : Kernel → List Call → Call → Type 0
Carries kernel log (sendto fd d) = Gave read_from kernel log (take d.len d.buf)
Carries kernel log (write_to fd len buf) = Gave recvfrom kernel log (take len buf)
Carries kernel log (sendmmsg fd ds) = ⊥
Carries kernel log (writev fd ds) = ⊥
Carries _ _ _ = Unit {0}

-- Behind `start`, each call carries only what was read before it.
pub data Carried (kernel : Kernel) (start : List Call) : List Call → Type 0 where
  begin : Carried kernel start start
  next :
      {log : List Call} (c : Call)
      → Carries kernel log c
      → Carried kernel start log
      → Carried kernel start (log ++ c ∷ [])

module _ (kernel : Kernel) (start : List Call) where
  -- The client's calls since `start` carry only what was read.
  abbrev Honest : Client → Type 0
  Honest s = Carried kernel start s.log

  module _ (s : Client) (b : Buffers) where
    asked : Client
    asked = called s (read_from s.tun_fd max_data_len)

    -- What a read of the device leaves: nothing to send, or one frame, sent.
    tuntap_silent : kernel.got asked.log ≡ none → (from_tuntap kernel (s, b)).0 ≡ asked
    unfolding from_tuntap read_data_from_tuntap asked
    tuntap_silent e = ground (arith, e)

    tuntap_empty :
        (frame : List ℕ)
        → kernel.got asked.log ≡ some frame
        → (length (take max_data_len frame) == 0) ≡ true
        → (from_tuntap kernel (s, b)).0 ≡ asked
    unfolding from_tuntap read_data_from_tuntap load asked
    tuntap_empty frame e f = ground (arith, e, f)

    tuntap_sent :
        (frame : List ℕ)
        → kernel.got asked.log ≡ some frame
        → (length (take max_data_len frame) == 0) ≡ false
        → (from_tuntap kernel (s, b)).0
          ≡ called asked
              (sendto s.udp_sock (packed (take max_data_len frame) b.tuntap_buf s.serv_adr))
    unfolding from_tuntap read_data_from_tuntap send_data_use_udp load asked
    tuntap_sent frame e f = ground (arith, e, f)

    tuntap-Honest : Honest s → Honest (from_tuntap kernel (s, b)).0
    unfolding asked
    tuntap-Honest h =
        let asked' : Carried kernel start asked.log = next (read_from s.tun_fd max_data_len) tt h in
        elim (Option-cases (kernel.got asked.log)) [
          | inl e ↦ rw (tuntap_silent e) asked'
          | inr (frame, e) ↦ elim (Bool-cases (length (take max_data_len frame) == 0)) [
            | inl f ↦ rw (tuntap_empty frame e f) asked'
            | inr f ↦ rw (tuntap_sent frame e f) (
                next _
                  (record {
                    before = s.log;
                    fd = s.tun_fd;
                    more = [];
                    earlier = sym (append-nil asked.log);
                    found = frame;
                    got = e;
                    same = take-append (take max_data_len frame) _;
                  })
                  asked')
          ]
        ]

    asked_server : Client
    asked_server = called s (recvfrom s.udp_sock max_data_len)

    -- The same, for a read of the socket.
    udp_silent : kernel.got asked_server.log ≡ none → (from_udp kernel (s, b)).0 ≡ asked_server
    unfolding from_udp read_data_from_udp asked_server
    udp_silent e = ground (arith, e)

    udp_empty :
        (frame : List ℕ)
        → kernel.got asked_server.log ≡ some frame
        → (length (take max_data_len frame) == 0) ≡ true
        → (from_udp kernel (s, b)).0 ≡ asked_server
    unfolding from_udp read_data_from_udp load asked_server
    udp_empty frame e f = ground (arith, e, f)

    udp_written :
        (frame : List ℕ)
        → kernel.got asked_server.log ≡ some frame
        → (length (take max_data_len frame) == 0) ≡ false
        → let got = take max_data_len frame in
          (from_udp kernel (s, b)).0
          ≡ called asked_server
              (write_to s.tun_fd (length got) (got ++ drop (length got) b.udp_buf))
    unfolding from_udp read_data_from_udp send_data_use_tuntap load asked_server
    udp_written frame e f = ground (arith, e, f)

    udp-Honest : Honest s → Honest (from_udp kernel (s, b)).0
    unfolding asked_server
    udp-Honest h =
        let asked' : Carried kernel start asked_server.log =
          next (recvfrom s.udp_sock max_data_len) tt h in
        elim (Option-cases (kernel.got asked_server.log)) [
          | inl e ↦ rw (udp_silent e) asked'
          | inr (frame, e) ↦ elim (Bool-cases (length (take max_data_len frame) == 0)) [
            | inl f ↦ rw (udp_empty frame e f) asked'
            | inr f ↦ rw (udp_written frame e f) (
                next _
                  (record {
                    before = s.log;
                    fd = s.udp_sock;
                    more = [];
                    earlier = sym (append-nil asked_server.log);
                    found = frame;
                    got = e;
                    same = take-append (take max_data_len frame) _;
                  })
                  asked')
          ]
        ]

  event-Honest :
      (s : Client) (b : Buffers) (ev : Event) → Honest s → Honest (on_event kernel (s, b) ev).0
  unfolding on_event
  event-Honest s b ev h = elim (Bool-cases (bit_and ev.events epollin == 0)) [
    | inl p ↦ rw p h
    | inr p ↦ elim (Bool-cases (ev.fd ==ℤ s.tuntap_fd)) [
      | inl q ↦ rw (p, q) (tuntap-Honest s b h)
      | inr q ↦ elim (Bool-cases (ev.fd ==ℤ s.udp_sock_fd)) [
        | inl r ↦ rw (p, q, r) (udp-Honest s b h)
        | inr r ↦ rw (p, q, r) h
      ]
    ]
  ]

  events-Honest :
      (sb : Client × Buffers) (evs : List Event) → Honest sb.0 → Honest (on_events kernel sb evs).0
  unfolding on_events
  events-Honest sb [] h = h
  events-Honest (s, b) (ev ∷ evs) h =
      events-Honest (on_event kernel (s, b) ev) evs (event-Honest s b ev h)

  wakeup-Honest :
      (s : Client) (b : Buffers) (nfds : ℤ) (evs : List Event)
      → Honest s
      → Honest (on_wakeup kernel (s, b) nfds evs).0
  unfolding on_wakeup count_recv count_timeout count_error
  wakeup-Honest s b (pos zero) evs h = h
  wakeup-Honest s b (pos (suc n)) evs h =
      events-Honest (count_recv kernel s (suc n), b) (take (suc n) evs) h
  wakeup-Honest s b (negsuc n) evs h = h

  run-Honest :
      (s : Client) (b : Buffers) (rounds : List Round)
      → Honest s
      → Honest (runing kernel (s, b) rounds).0
  unfolding runing
  run-Honest s b [] h = h
  run-Honest s b (r ∷ rs) h = elim (Bool-cases (r.signalled || not s.rx_task_is_running)) [
    | inl p ↦ rw p h
    | inr p ↦
        let (t, c) = on_wakeup kernel (s, b) r.nfds r.evs in
        rw p (run-Honest t c rs (wakeup-Honest s b r.nfds r.evs h))
  ]

-- Over any rounds, and whatever the calls return, the client sends to the server only frames that an
-- earlier read of its device found, and writes to its device only frames that an earlier read of its
-- socket found: byte for byte, as far as a buffer holds them.
pub runing-carries :
    (kernel : Kernel) (s : Client) (b : Buffers) (rounds : List Round)
    → Carried kernel s.log (runing kernel (s, b) rounds).0.log
runing-carries kernel s b rounds = run-Honest kernel s.log s b rounds begin
