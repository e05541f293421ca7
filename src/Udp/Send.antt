-- ===== src/Udp/Send.antt =====
-- What send_data_to_udp_client_burst asks of the kernel.
use wlan_bridge.Common.{
  ℕ, zero, suc, ◌≤◌, ◌<◌, ◌≡◌, refl, List, [], ◌∷◌, ◌++◌, map, arith, ◌==◌, if◌then◌else◌, length,
  length-drop, take, drop, pos, negsuc,
}
use mathlib.Core.List.{append_assoc}
use wlan_bridge.Net.{Datagram}
use wlan_bridge.Udp.{
  sendmmsg, usleep, SendReply, Kernel, Udp, eagain, unsent, send_data_to_udp_client_burst,
}

abbrev pub lens : List Datagram → List ℕ
lens = map (λ m. m.len)

-- No datagram is empty.
abbrev AllFull : List Datagram → Type 0
AllFull [] = Unit {0}
AllFull (m ∷ ms) = (0 < m.len) × AllFull ms

-- What the manual page of sendmmsg promises when `n` of the messages go out: their lengths are
-- recorded, the others' are left alone, and the result is the number sent, or -1 if there is none.
pub record SendsFirst (n : ℕ) (mmsg : List Datagram) (r : SendReply) : Type 0 where
  pub within : n ≤ length mmsg
  pub recorded : r.msg_len ≡ lens (take n mmsg)
  pub result : r.retval ≡ (if n == 0 then negsuc 0 else pos n)

unsent_none : (ms : List Datagram) → AllFull ms → unsent ms [] ≡ ms
unfolding unsent
unsent_none [] f = refl
unsent_none (m ∷ ms) f = ground (arith, unsent_none ms f.1)

-- The messages to send again are those behind the ones that went out.
unsent-drop : (n : ℕ) (ms : List Datagram) → AllFull ms → unsent ms (lens (take n ms)) ≡ drop n ms
unfolding unsent
unsent-drop zero [] f = refl
unsent-drop zero (m ∷ ms) f = unsent_none (m ∷ ms) f
unsent-drop (suc n) [] f = refl
unsent-drop (suc n) (m ∷ ms) f = ground (arith, unsent-drop n ms f.1)

module _ (kernel : Kernel) (s : Udp) (mmsg : List Datagram) (n : ℕ) where
  -- The kernel's answer to the first sendmmsg.
  abbrev answer : SendReply
  answer = kernel.sendmmsg_ret (s.log ++ sendmmsg s.serv_sock mmsg ∷ [])

  -- When the kernel sends the first `n` of some non-empty datagrams, as sendmmsg documents it, the
  -- bridge tries exactly the others once more, after 20 us, if errno is EAGAIN then; with any
  -- other errno it drops them, and with all sent it is done. The socket stays as it is.
  pub burst_calls :
      0 < length mmsg
      → AllFull mmsg
      → SendsFirst n mmsg answer
      → (send_data_to_udp_client_burst kernel s mmsg).1 ≡ record s {
        log =
            s.log
            ++ sendmmsg s.serv_sock mmsg
              ∷ (if n == length mmsg
                  then []
                  else if answer.errno == eagain
                  then usleep 20 ∷ sendmmsg s.serv_sock (drop n mmsg) ∷ []
                  else []);
      }
  unfolding send_data_to_udp_client_burst
  burst_calls pos_len full k =
      let u : unsent mmsg answer.msg_len ≡ drop n mmsg =
        rw (k.recorded) (unsent-drop n mmsg full) in
      ground (
        arith,
        u,
        k.within,
        k.result,
        length-drop n mmsg,
        append_assoc s.log (sendmmsg s.serv_sock mmsg ∷ []) (usleep 20 ∷ []),
        append_assoc s.log (sendmmsg s.serv_sock mmsg ∷ usleep 20 ∷ [])
            (sendmmsg s.serv_sock (drop n mmsg) ∷ []),
      )
