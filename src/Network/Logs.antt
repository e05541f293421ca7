-- ===== src/Network/Logs.antt =====
-- What the calls of a program send and write, read off its log.
use wlan_bridge.Common.{
  ℕ, ◌≡◌, refl, sym, List, [], ◌∷◌, ◌++◌, All, All-append, All-weaken, take, ℤ,
}
use mathlib.Core.List.{append_assoc, append-nil}
use mathlib.Core.List.{Memᴰ}
use wlan_bridge.Net.{Datagram}
use wlan_bridge.Udp
use wlan_bridge.Udp.Adds.{Sends}
use wlan_bridge.Main.Relay.{CameIn, CameIn-append, Relayed, begin, next}
use wlan_bridge.Client
use wlan_bridge.Client.{read_from, recvfrom}
use wlan_bridge.Client.Running.Relay
use wlan_bridge.Client.Running.Relay.{Gave, Carries, Carried}

-- What the server's calls send.
abbrev call_sends : Udp.Call → List Datagram
call_sends (Udp.sendto fd d) = d ∷ []
call_sends (Udp.sendmmsg fd ds) = ds
call_sends _ = []

abbrev pub sends : List Udp.Call → List Datagram
sends [] = []
sends (c ∷ log) = call_sends c ++ sends log

-- What a client's calls send, and what they write to its device.
abbrev client_call_sends : Client.Call → List Datagram
client_call_sends (Client.sendto fd d) = d ∷ []
client_call_sends (Client.sendmmsg fd ds) = ds
client_call_sends _ = []

abbrev pub client_sends : List Client.Call → List Datagram
client_sends [] = []
client_sends (c ∷ log) = client_call_sends c ++ client_sends log

abbrev call_writes : Client.Call → List (ℕ × List ℕ)
call_writes (Client.write_to fd len buf) = (len, buf) ∷ []
call_writes (Client.writev fd ms) = ms
call_writes _ = []

abbrev pub writes : List Client.Call → List (ℕ × List ℕ)
writes [] = []
writes (c ∷ log) = call_writes c ++ writes log

pub All_Mem : {A : Type 0} (P : A → Type 0) {x : A} {xs : List A} → Memᴰ x xs → All P xs → P x
All_Mem P (Memᴰ.head e) h = rw e (h.0)
All_Mem P (Memᴰ.tail m) h = All_Mem P m h.1

module _ {C D : Type 0} (f : C → List D) (fs : List C → List D) (nil : fs [] ≡ [])
    (cons : (c : C) (log : List C) → fs (c ∷ log) ≡ f c ++ fs log) where
  -- One call more, read off last.
  collect_last : (log : List C) (c : C) → fs (log ++ c ∷ []) ≡ fs log ++ f c
  collect_last [] c = rw (cons, nil) (append-nil (f c))
  collect_last (x ∷ log) c =
      rw (cons x (log ++ c ∷ []), cons x log, collect_last log c)
        (sym (append_assoc (f x) (fs log) (f c)))

module _ (kernel : Udp.Kernel) where
  call-All :
      (log : List Udp.Call) (c : Udp.Call)
      → Sends (CameIn kernel log) c
      → All (CameIn kernel (log ++ c ∷ [])) (call_sends c)
  call-All log (Udp.sendto fd d) h = (CameIn-append kernel log (Udp.sendto fd d ∷ []) d h, tt)
  call-All log (Udp.sendmmsg fd ds) h =
      All-weaken (CameIn kernel log) (CameIn kernel (log ++ Udp.sendmmsg fd ds ∷ []))
        (CameIn-append kernel log (Udp.sendmmsg fd ds ∷ [])) ds h
  call-All log Udp.socket h = tt
  call-All log (Udp.bind fd a) h = tt
  call-All log (Udp.set_rcvbuf fd n) h = tt
  call-All log (Udp.set_sndbuf fd n) h = tt
  call-All log (Udp.recvfrom fd n) h = tt
  call-All log (Udp.recvmmsg fd n k) h = tt
  call-All log (Udp.usleep n) h = tt
  call-All log (Udp.close fd) h = tt

  -- Where nothing was sent before, everything sent came in.
  pub sends-All :
      (start : List Udp.Call)
      → sends start ≡ []
      → {log : List Udp.Call} → Relayed kernel start log
      → All (CameIn kernel log) (sends log)
  sends-All start quiet begin = rw quiet tt
  sends-All start quiet (next {log} c h r) =
      rw (collect_last call_sends sends refl (λ x l. refl) log c) (
        All-append (CameIn kernel (log ++ c ∷ [])) (sends log) (call_sends c)
          (All-weaken (CameIn kernel log) (CameIn kernel (log ++ c ∷ []))
            (CameIn-append kernel log (c ∷ [])) (sends log) (sends-All start quiet r))
          (call-All log c h))

module _ (kernel : Client.Kernel) where
  Gave-append :
      (ask : ℤ → ℕ → Client.Call) (log new : List Client.Call) (bytes : List ℕ)
      → Gave ask kernel log bytes
      → Gave ask kernel (log ++ new) bytes
  Gave-append ask log new bytes h = record {
    before = h.before;
    fd = h.fd;
    more = h.more ++ new;
    earlier =
        rw (h.earlier)
          (append_assoc (h.before ++ ask h.fd Client.Running.max_data_len ∷ []) h.more new);
    found = h.found;
    got = h.got;
    same = h.same;
  }

  -- What a call sends is a frame of the device.
  abbrev pub OfDevice : List Client.Call → Datagram → Type 0
  OfDevice log d = Gave read_from kernel log (take d.len d.buf)

  -- What a call writes is a frame of the server.
  abbrev pub OfServer : List Client.Call → ℕ × List ℕ → Type 0
  OfServer log w = Gave recvfrom kernel log (take w.0 w.1)

  call-OfDevice :
      (log : List Client.Call) (c : Client.Call)
      → Carries kernel log c
      → All (OfDevice (log ++ c ∷ [])) (client_call_sends c)
  call-OfDevice log Client.open_tun h = tt
  call-OfDevice log (Client.ioctl fd r) h = tt
  call-OfDevice log Client.socket h = tt
  call-OfDevice log (Client.close fd) h = tt
  call-OfDevice log (Client.sendto fd d) h = (Gave-append read_from log _ (take d.len d.buf) h, tt)
  call-OfDevice log (Client.sendmmsg fd ds) h = absurd h
  call-OfDevice log (Client.recvfrom fd n) h = tt
  call-OfDevice log (Client.write_to fd len buf) h = tt
  call-OfDevice log (Client.read_from fd n) h = tt
  call-OfDevice log (Client.writev fd ms) h = tt
  call-OfDevice log (Client.readv fd n k) h = tt
  call-OfDevice log (Client.recvmmsg fd n k) h = tt

  call-OfServer :
      (log : List Client.Call) (c : Client.Call)
      → Carries kernel log c
      → All (OfServer (log ++ c ∷ [])) (call_writes c)
  call-OfServer log Client.open_tun h = tt
  call-OfServer log (Client.ioctl fd r) h = tt
  call-OfServer log Client.socket h = tt
  call-OfServer log (Client.close fd) h = tt
  call-OfServer log (Client.sendto fd d) h = tt
  call-OfServer log (Client.sendmmsg fd ds) h = tt
  call-OfServer log (Client.recvfrom fd n) h = tt
  call-OfServer log (Client.write_to fd len buf) h =
      (Gave-append recvfrom log _ (take len buf) h, tt)
  call-OfServer log (Client.read_from fd n) h = tt
  call-OfServer log (Client.writev fd ms) h = absurd h
  call-OfServer log (Client.readv fd n k) h = tt
  call-OfServer log (Client.recvmmsg fd n k) h = tt

  -- Where nothing was sent and written before, everything sent and written was read.
  pub client-All :
      (start : List Client.Call)
      → client_sends start ≡ []
      → writes start ≡ []
      → {log : List Client.Call} → Carried kernel start log
      → All (OfDevice log) (client_sends log) × All (OfServer log) (writes log)
  client-All start qs qw Relay.begin = (rw qs tt, rw qw tt)
  client-All start qs qw (Relay.next {log} c h r) =
      let new = c ∷ [] in
      let (old, written) = client-All start qs qw r in
      (
        rw (collect_last client_call_sends client_sends refl (λ x l. refl) log c) (
            All-append (OfDevice (log ++ new)) (client_sends log) (client_call_sends c)
              (All-weaken (OfDevice log) (OfDevice (log ++ new))
                (λ d. Gave-append read_from log new (take d.len d.buf)) (client_sends log) old)
              (call-OfDevice log c h)),
        rw (collect_last call_writes writes refl (λ x l. refl) log c) (
            All-append (OfServer (log ++ new)) (writes log) (call_writes c)
              (All-weaken (OfServer log) (OfServer (log ++ new))
                (λ w. Gave-append recvfrom log new (take w.0 w.1)) (writes log) written)
              (call-OfServer log c h)),
      )
