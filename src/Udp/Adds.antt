-- ===== src/Udp/Adds.antt =====
-- What the socket of wlan_br_server/udp.c is asked to send: every frame that a
-- call carries satisfies a predicate, whatever the kernel answers.
use wlan_bridge.Common.{
  ℕ, ◌≡◌, refl, ◌∙◌, sym, inl, inr, List, [], ◌∷◌, ◌++◌, All, All-append, All-weaken, Bool-cases,
  length, ◌==◌, ◌&&◌, not, pos, ◌==ℤ◌,
}
use mathlib.Core.List.{append_assoc, append-nil}
use wlan_bridge.Net.{Datagram}
use wlan_bridge.Udp.{
  Call, socket, bind, set_rcvbuf, set_sndbuf, recvfrom, recvmmsg, close, sendto, sendmmsg, usleep,
  Udp, Kernel, called, eagain, unsent, resend, send_data_to_udp_client_burst,
}

-- The frames that a call sends satisfy `P`.
abbrev pub Sends : (Datagram → Type 0) → Call → Type 0
Sends P (sendto fd d) = P d
Sends P (sendmmsg fd ds) = All P ds
Sends P _ = Unit {0}

-- From `s` to `t` only calls were added, and what they send satisfies `P`.
pub record Adds (P : Datagram → Type 0) (s t : Udp) : Type 0 where
  pub new : List Call
  pub log : t.log ≡ s.log ++ new
  pub socket : t.serv_sock ≡ s.serv_sock
  pub sends : All (Sends P) new

module _ (P : Datagram → Type 0) where
  pub Adds-refl : (s : Udp) → Adds P s s
  Adds-refl s = record { new = []; log = sym (append-nil s.log); socket = refl; sends = tt }

  pub Adds-trans : (s t u : Udp) → Adds P s t → Adds P t u → Adds P s u
  Adds-trans s t u f g = record {
    new = f.new ++ g.new;
    log = rw (g.log, f.log) (append_assoc s.log f.new g.new);
    socket = g.socket ∙ f.socket;
    sends = All-append (Sends P) f.new g.new f.sends g.sends;
  }

  -- One call more.
  pub called-Adds : (s : Udp) (c : Call) → Sends P c → Adds P s (called s c)
  called-Adds s c h = record { new = c ∷ []; log = refl; socket = refl; sends = (h, tt) }

  All-unsent : (q : List Datagram) (lens : List ℕ) → All P q → All P (unsent q lens)
  unfolding unsent
  All-unsent [] lens h = tt
  All-unsent (d ∷ ds) [] h = elim (Bool-cases (0 == d.len)) [
    | inl e ↦ rw e (All-unsent ds [] h.1)
    | inr e ↦ rw e (h.0, All-unsent ds [] h.1)
  ]
  All-unsent (d ∷ ds) (n ∷ lens) h = elim (Bool-cases (n == d.len)) [
    | inl e ↦ rw e (All-unsent ds lens h.1)
    | inr e ↦ rw e (h.0, All-unsent ds lens h.1)
  ]

  module _ (kernel : Kernel) where
    resend-Adds : (s : Udp) (q : List Datagram) → All P q → Adds P s (resend kernel s q).1
    unfolding resend
    resend-Adds s q h =
        let slept = called s (usleep 20) in
        let again = called slept (sendmmsg s.serv_sock q) in
        let both =
          Adds-trans s slept again (called-Adds s (usleep 20) tt)
            (called-Adds slept (sendmmsg s.serv_sock q) h) in
        elim (Bool-cases ((kernel.sendmmsg_ret again.log).retval ==ℤ pos (length q))) [
          | inl e ↦ rw e both
          | inr e ↦ rw e both
        ]

    pub burst-Adds :
        (s : Udp) (q : List Datagram)
        → All P q
        → Adds P s (send_data_to_udp_client_burst kernel s q).1
    unfolding send_data_to_udp_client_burst
    burst-Adds s q h =
        let s' = called s (sendmmsg s.serv_sock q) in
        let reply = kernel.sendmmsg_ret s'.log in
        let left = unsent q reply.msg_len in
        let first = called-Adds s (sendmmsg s.serv_sock q) h in
        elim (Bool-cases (reply.retval ==ℤ pos (length q))) [
          | inl e ↦ rw e first
          | inr e ↦ elim (Bool-cases ((reply.errno == eagain) && not (length left == 0))) [
            | inl f ↦
                rw (e, f)
                  (Adds-trans s s' _ first (resend-Adds s' left (All-unsent q reply.msg_len h)))
            | inr f ↦ rw (e, f) first
          ]
        ]

module _ (P Q : Datagram → Type 0) (f : (d : Datagram) → P d → Q d) where
  pub Sends-weaken : (c : Call) → Sends P c → Sends Q c
  Sends-weaken (sendto fd d) h = f d h
  Sends-weaken (sendmmsg fd ds) h = All-weaken P Q f ds h
  Sends-weaken socket h = tt
  Sends-weaken (bind fd a) h = tt
  Sends-weaken (set_rcvbuf fd n) h = tt
  Sends-weaken (set_sndbuf fd n) h = tt
  Sends-weaken (recvfrom fd n) h = tt
  Sends-weaken (recvmmsg fd n k) h = tt
  Sends-weaken (usleep n) h = tt
  Sends-weaken (close fd) h = tt

  pub Adds-weaken : (s t : Udp) → Adds P s t → Adds Q s t
  Adds-weaken s t h = record {
    new = h.new;
    log = h.log;
    socket = h.socket;
    sends = All-weaken (Sends P) (Sends Q) Sends-weaken h.new h.sends;
  }
