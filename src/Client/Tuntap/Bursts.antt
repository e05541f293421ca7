-- ===== src/Client/Tuntap/Bursts.antt =====
-- wlan_br_client/tuntap.c: the two functions for several frames at once, which the program does not
-- call.
use wlan_bridge.Common.{
  ℕ, zero, suc, ◌+◌, ◌*◌, ◌≤◌, ◌<◌, ◌≡◌, ◌↔◌, Option, none, some, List, [], ◌∷◌, ◌++◌, arith, ltb,
  ◌==◌, if◌then◌else◌, length, take, drop, take_all, map, ◌⊎◌, inl, inr, Bool-cases, refl, ap, ℤ,
  pos, negsuc, ◌==ℤ◌,
}
use wlan_bridge.Client.{Kernel, Client, called, writev, readv, load}

-- What readv leaves in the buffers: each is filled before the next.
unfoldable scatter : ℕ → List ℕ → List (List ℕ) → List (List ℕ)
unfolding load
scatter max_len bytes [] = []
scatter max_len bytes (buf ∷ bufs) =
    (load max_len bytes buf).1 ∷ scatter max_len (drop max_len bytes) bufs

-- The loop `for(i = 0; i < len; i++) data_len[i] = iov[i].iov_len`: each turn reads an element of
-- `iov` and writes one of `data_len`, and `none` is an access behind the end of either.
unfoldable copy_lengths : ℕ → (iov data_len : List ℕ) → Option (List ℕ)
copy_lengths zero iov data_len = some data_len
copy_lengths (suc len) [] data_len = none
copy_lengths (suc len) (l ∷ iov) [] = none
copy_lengths (suc len) (l ∷ iov) (d ∷ data_len) = elim (copy_lengths len iov data_len) [
  | none ↦ none
  | some ds ↦ some (l ∷ ds)
]

module _ (kernel : Kernel) where
  -- A message is the length in data_len and the buffer; writev's result is compared with the number
  -- of messages.
  unfoldable pub send_data_use_tuntap_burst : Client → List (ℕ × List ℕ) → ℤ × Client
  send_data_use_tuntap_burst s msgs =
      let s' = called s (writev s.tun_fd msgs) in
      let send_data = kernel.ret s'.log in
      if send_data ==ℤ pos (length msgs) then (send_data, s') else (negsuc 0, s')

  -- The result, data_len, the buffers and the client. readv returns a number of bytes, and the loop
  -- takes it for the number of filled buffers. `iov` has a buffer's address and max_len for each
  -- buffer; `none` is a run off the arrays, which is undefined.
  unfoldable pub read_data_from_tuntap_burst :
      Client → ℕ → List ℕ → List (List ℕ) → Option (ℤ × List ℕ × List (List ℕ) × Client)
  unfolding scatter copy_lengths
  read_data_from_tuntap_burst s max_len data_len bufs =
      let s' = called s (readv s.tun_fd max_len (length bufs)) in
      elim (kernel.got s'.log) [
        | none ↦ some (negsuc 0, data_len, bufs, s')
        | some bytes ↦
            let len = length (take (max_len * length bufs) bytes) in
            if len == 0
            then some (negsuc 0, data_len, bufs, s')
            else elim (copy_lengths len (map (λ buf. max_len) bufs) data_len) [
              | none ↦ none
              | some lens ↦ some (pos len, lens, scatter max_len bytes bufs, s')
            ]
      ]

copy_lengths-runs_off :
    (len : ℕ) (iov data_len : List ℕ)
    → (length iov < len) ⊎ (length data_len < len)
    → copy_lengths len iov data_len ≡ none
unfolding copy_lengths
copy_lengths-runs_off zero iov data_len (inl h) = absurd (omega arith)
copy_lengths-runs_off zero iov data_len (inr h) = absurd (omega arith)
copy_lengths-runs_off (suc len) [] data_len h = refl
copy_lengths-runs_off (suc len) (l ∷ iov) [] h = refl
copy_lengths-runs_off (suc len) (l ∷ iov) (d ∷ data_len) (inl h) =
    rw (copy_lengths-runs_off len iov data_len (inl (omega arith))) refl
copy_lengths-runs_off (suc len) (l ∷ iov) (d ∷ data_len) (inr h) =
    rw (copy_lengths-runs_off len iov data_len (inr (omega arith))) refl

copy_lengths-stays :
    (len : ℕ) (iov data_len : List ℕ)
    → len ≤ length iov
    → len ≤ length data_len
    → (ds : List ℕ) × (copy_lengths len iov data_len ≡ some ds)
unfolding copy_lengths
copy_lengths-stays zero iov data_len h k = (data_len, refl)
copy_lengths-stays (suc len) [] data_len h k = absurd (omega arith)
copy_lengths-stays (suc len) (l ∷ iov) [] h k = absurd (omega arith)
copy_lengths-stays (suc len) (l ∷ iov) (d ∷ data_len) h k =
    let ih = copy_lengths-stays len iov data_len (omega arith) (omega arith) in
    (l ∷ ih.0, rw (ih.1) refl)

-- The two cases, by what the loop gives.
copy_lengths-cases :
    (len : ℕ) (iov data_len : List ℕ)
    → ((copy_lengths len iov data_len ≡ none) × ((length iov < len) ⊎ (length data_len < len)))
      ⊎ ((ds : List ℕ) × (copy_lengths len iov data_len ≡ some ds)
          × (len ≤ length iov)
          × (len ≤ length data_len))
copy_lengths-cases len iov data_len = elim (Bool-cases (ltb (length iov) len)) [
  | inl p ↦
      let h : length iov < len = ground (arith, p) in
      inl (copy_lengths-runs_off len iov data_len (inl h), inl h)
  | inr p ↦ elim (Bool-cases (ltb (length data_len) len)) [
    | inl q ↦
        let h : length data_len < len = ground (arith, q) in
        inl (copy_lengths-runs_off len iov data_len (inr h), inr h)
    | inr q ↦
        let c = copy_lengths-stays len iov data_len (ground (arith, p)) (ground (arith, q)) in
        inr (c.0, c.1, ground (arith, p), ground (arith, q))
  ]
]

length-iov : (max_len : ℕ) (bufs : List (List ℕ)) → length (map (λ buf. max_len) bufs) ≡ length bufs
length-iov max_len [] = refl
length-iov max_len (buf ∷ bufs) = ap suc (length-iov max_len bufs)

-- The bytes of some messages.
unfoldable pub total : List (ℕ × List ℕ) → ℕ
total [] = 0
total (m ∷ ms) = m.0 + total ms

-- Every message is longer than one byte.
abbrev AllLong : List (ℕ × List ℕ) → Type 0
AllLong [] = Unit {0}
AllLong (m ∷ ms) = (1 < m.0) × AllLong ms

length-le-total : (msgs : List (ℕ × List ℕ)) → AllLong msgs → length msgs ≤ total msgs
unfolding total
length-le-total [] a = omega arith
length-le-total (m ∷ ms) a = omega (arith, length-le-total ms a.1, a.0)

length-lt-total :
    (msgs : List (ℕ × List ℕ)) → 0 < length msgs → AllLong msgs → length msgs < total msgs
unfolding total
length-lt-total [] h a = absurd (omega arith)
length-lt-total (m ∷ ms) h a = omega (arith, length-le-total ms a.1, a.0)

module _ (kernel : Kernel) (s : Client) where
  -- A burst of frames, each longer than one byte, that writev writes whole is reported as failed: the
  -- bytes are compared with the number of frames.
  pub send_burst-fails :
      (msgs : List (ℕ × List ℕ))
      → 0 < length msgs
      → AllLong msgs
      → kernel.ret (s.log ++ writev s.tun_fd msgs ∷ []) ≡ pos (total msgs)
      → (send_data_use_tuntap_burst kernel s msgs).0 ≡ negsuc 0
  unfolding send_data_use_tuntap_burst
  send_burst-fails msgs h a e = ground (arith, e, length-lt-total msgs h a)

  -- Of the bytes that readv finds, no more than the buffers hold, read_data_from_tuntap_burst runs off
  -- its arrays exactly when there are more of them than there are buffers or than data_len has
  -- elements.
  pub read_burst-overruns :
      (max_len : ℕ) (data_len : List ℕ) (bufs : List (List ℕ)) (bytes : List ℕ)
      → kernel.got (s.log ++ readv s.tun_fd max_len (length bufs) ∷ []) ≡ some bytes
      → length bytes ≤ max_len * length bufs
      → (read_data_from_tuntap_burst kernel s max_len data_len bufs ≡ none)
        ↔ ((length bufs < length bytes) ⊎ (length data_len < length bytes))
  unfolding read_data_from_tuntap_burst
  read_burst-overruns max_len data_len bufs bytes g l =
      let iov = map (λ buf. max_len) bufs in
      elim (copy_lengths-cases (length bytes) iov data_len) [
        | inl (e, h) ↦
            rw (g, read_data_from_tuntap_burst)
              (rw (take_all (max_len * length bufs) bytes l, e)
                (λ x. overrun h, λ x. ground (arith, nonempty h)))
        | inr (ds, e, h, k) ↦
            rw (g, read_data_from_tuntap_burst)
              (rw (take_all (max_len * length bufs) bytes l, e)
                (λ x. ground (arith, x), λ x. absurd (inside h k x)))
      ]
    where
      overrun :
          (length (map (λ buf. max_len) bufs) < length bytes) ⊎ (length data_len < length bytes)
          → (length bufs < length bytes) ⊎ (length data_len < length bytes)
      overrun (inl h) = inl (omega (arith, h, length-iov max_len bufs))
      overrun (inr h) = inr h

      nonempty :
          (length (map (λ buf. max_len) bufs) < length bytes) ⊎ (length data_len < length bytes)
          → 0 < length bytes
      nonempty (inl h) = omega (arith, h)
      nonempty (inr h) = omega (arith, h)

      inside :
          length bytes ≤ length (map (λ buf. max_len) bufs)
          → length bytes ≤ length data_len
          → (length bufs < length bytes) ⊎ (length data_len < length bytes)
          → ⊥
      inside h k (inl x) = omega (arith, x, h, length-iov max_len bufs)
      inside h k (inr x) = omega (arith, x, k)
