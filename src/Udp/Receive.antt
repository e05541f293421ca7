-- ===== src/Udp/Receive.antt =====
-- What read_data_from_udp_client_burst leaves in the arrays of the receive loop.
use wlan_bridge.Common.{
  ℕ, ◌≤◌, ◌≡◌, refl, false, List, [], ◌∷◌, ◌++◌, arith, length, take, drop, take_all, pos,
  take-append,
}
use wlan_bridge.Udp.{
  Kernel, Udp, Slot, Arrival, recvmmsg, fill, fill_all, nothing, read_data_from_udp_client_burst,
}

-- No datagram is longer than a buffer.
abbrev Fits : ℕ → List Arrival → Type 0
Fits max_len [] = Unit {0}
Fits max_len (a ∷ arrivals) = (length a.bytes ≤ max_len) × Fits max_len arrivals

-- A place holds an arrival: its bytes at the start of the buffer, their number, and the sender.
pub record Holds (s : Slot) (a : Arrival) : Type 0 where
  pub payload : take s.data_len s.buf ≡ a.bytes
  pub size : s.data_len ≡ length a.bytes
  pub sender : s.peer_addr ≡ a.from

-- The first places hold the arrivals in order, and those behind are as they were.
abbrev pub HoldsAll : List Slot → List Slot → List Arrival → Type 0
HoldsAll new old [] = new ≡ old
HoldsAll (s ∷ new) (o ∷ old) (a ∷ arrivals) = Holds s a × HoldsAll new old arrivals
HoldsAll _ _ (a ∷ arrivals) = ⊥

fill-Holds :
    (max_len : ℕ) (s : Slot) (a : Arrival) → length a.bytes ≤ max_len → Holds (fill max_len s a) a
unfolding fill
fill-Holds max_len s a h = rw (take_all max_len a.bytes h) (record {
  payload = take-append a.bytes (drop (length a.bytes) s.buf);
  size = refl;
  sender = refl;
})

fill_all-HoldsAll :
    (max_len : ℕ) (slots : List Slot) (arrivals : List Arrival)
    → length arrivals ≤ length slots
    → Fits max_len arrivals
    → HoldsAll (fill_all max_len slots arrivals) slots arrivals
unfolding fill_all
fill_all-HoldsAll max_len [] [] h f = refl
fill_all-HoldsAll max_len [] (a ∷ arrivals) h f = absurd (omega arith)
fill_all-HoldsAll max_len (s ∷ slots) [] h f = refl
fill_all-HoldsAll max_len (s ∷ slots) (a ∷ arrivals) h f =
    (fill-Holds max_len s a f.0, fill_all-HoldsAll max_len slots arrivals (omega arith) f.1)

module _ (kernel : Kernel) (s : Udp) (max_len : ℕ) (slots : List Slot) where
  -- Where recvmmsg finds datagrams, no more than there are places and none longer than a buffer, the
  -- result is their number, the first places hold them in order with their lengths and senders, and
  -- the other places are as they were.
  pub read_burst_lem :
      let r = kernel.recv_ret (s.log ++ recvmmsg s.serv_sock max_len (length slots) ∷ []) in
      nothing r ≡ false
      → length r.arrivals ≤ length slots
      → Fits max_len r.arrivals
      → let (n, slots', s') = read_data_from_udp_client_burst kernel s max_len slots in
        (n ≡ pos (length r.arrivals)) × HoldsAll slots' slots r.arrivals
  unfolding read_data_from_udp_client_burst
  read_burst_lem h l f =
      let r = kernel.recv_ret (s.log ++ recvmmsg s.serv_sock max_len (length slots) ∷ []) in
      rw h (refl, fill_all-HoldsAll max_len slots r.arrivals l f)
