-- ===== src/Client/Running/Carry.antt =====
-- What the loop of wlan_br_client/main.c carries between the device and the server.
use wlan_bridge.Common.{
  ℕ, ◌≤◌, ◌<◌, ◌≡◌, some, List, [], ◌∷◌, ◌++◌, arith, length, take, drop, take_all, pos,
  take-append,
}
use wlan_bridge.Client.{
  Datagram, SockaddrIn, Kernel, Client, called, sendto, write_to, read_from, recvfrom, load,
}
use wlan_bridge.Client.Udp.{send_data_use_udp, read_data_from_udp}
use wlan_bridge.Client.Tuntap.{send_data_use_tuntap, read_data_from_tuntap}
use wlan_bridge.Client.Running.{Buffers, max_data_len, from_tuntap, from_udp}

-- A frame in a buffer that held something else, for a peer.
abbrev pub packed : List ℕ → List ℕ → SockaddrIn → Datagram
packed frame buf addr = record {
  len = length frame;
  buf = frame ++ drop (length frame) buf;
  addr = addr;
}

module _ (kernel : Kernel) where
  read_tuntap_lem :
      (s : Client) (frame buf : List ℕ)
      → kernel.got (s.log ++ read_from s.tun_fd max_data_len ∷ []) ≡ some frame
      → 0 < length frame
      → length frame ≤ max_data_len
      → read_data_from_tuntap kernel s max_data_len buf ≡ (
        pos (length frame),
        frame ++ drop (length frame) buf,
        called s (read_from s.tun_fd max_data_len),
      )
  unfolding read_data_from_tuntap load
  read_tuntap_lem s frame buf g z l =
      rw (g, read_data_from_tuntap) (rw (take_all max_data_len frame l) (ground arith))

  read_udp_lem :
      (s : Client) (frame buf : List ℕ)
      → kernel.got (s.log ++ recvfrom s.udp_sock max_data_len ∷ []) ≡ some frame
      → 0 < length frame
      → length frame ≤ max_data_len
      → read_data_from_udp kernel s max_data_len buf ≡ (
        pos (length frame),
        frame ++ drop (length frame) buf,
        called s (recvfrom s.udp_sock max_data_len),
      )
  unfolding read_data_from_udp load
  read_udp_lem s frame buf g z l =
      rw (g, read_data_from_udp) (rw (take_all max_data_len frame l) (ground arith))

  -- The call that a frame of the device makes, as it stands.
  pub from_tuntap_log :
      (s : Client) (b : Buffers) (frame : List ℕ)
      → kernel.got (s.log ++ read_from s.tun_fd max_data_len ∷ []) ≡ some frame
      → 0 < length frame
      → length frame ≤ max_data_len
      → (from_tuntap kernel (s, b)).0.log
        ≡ (s.log ++ read_from s.tun_fd max_data_len ∷ [])
          ++ sendto s.udp_sock (packed frame b.tuntap_buf s.serv_adr) ∷ []
  unfolding from_tuntap send_data_use_udp
  from_tuntap_log s b frame g z l =
      rw (read_tuntap_lem s frame b.tuntap_buf g z l, from_tuntap) (ground (arith, z))

  -- The call that a frame of the server makes, as it stands.
  from_udp_log :
      (s : Client) (b : Buffers) (frame : List ℕ)
      → kernel.got (s.log ++ recvfrom s.udp_sock max_data_len ∷ []) ≡ some frame
      → 0 < length frame
      → length frame ≤ max_data_len
      → (from_udp kernel (s, b)).0.log
        ≡ (s.log ++ recvfrom s.udp_sock max_data_len ∷ [])
          ++ write_to s.tun_fd (length frame) (frame ++ drop (length frame) b.udp_buf) ∷ []
  unfolding from_udp send_data_use_tuntap
  from_udp_log s b frame g z l =
      rw (read_udp_lem s frame b.udp_buf g z l, from_udp) (ground (arith, z))

  -- A frame of 1 to 1518 bytes that the device has is sent to the server: one sendto, of exactly the
  -- frame's length, from a buffer that begins with the frame.
  from_tuntap-carries :
      (s : Client) (b : Buffers) (frame : List ℕ)
      → kernel.got (s.log ++ read_from s.tun_fd max_data_len ∷ []) ≡ some frame
      → 0 < length frame
      → length frame ≤ max_data_len
      → (buf : List ℕ) × (take (length frame) buf ≡ frame)
        × ((from_tuntap kernel (s, b)).0.log
            ≡ (s.log ++ read_from s.tun_fd max_data_len ∷ [])
              ++ sendto s.udp_sock (record { len = length frame; buf = buf; addr = s.serv_adr })
                ∷ [])
  from_tuntap-carries s b frame g z l = (
    frame ++ drop (length frame) b.tuntap_buf,
    take-append frame (drop (length frame) b.tuntap_buf),
    from_tuntap_log s b frame g z l,
  )

  -- A frame of 1 to 1518 bytes that the server has sent is written to the device: one write, of
  -- exactly the frame's length, from a buffer that begins with the frame.
  pub from_udp-carries :
      (s : Client) (b : Buffers) (frame : List ℕ)
      → kernel.got (s.log ++ recvfrom s.udp_sock max_data_len ∷ []) ≡ some frame
      → 0 < length frame
      → length frame ≤ max_data_len
      → (buf : List ℕ) × (take (length frame) buf ≡ frame)
        × ((from_udp kernel (s, b)).0.log
            ≡ (s.log ++ recvfrom s.udp_sock max_data_len ∷ [])
              ++ write_to s.tun_fd (length frame) buf ∷ [])
  from_udp-carries s b frame g z l = (
    frame ++ drop (length frame) b.udp_buf,
    take-append frame (drop (length frame) b.udp_buf),
    from_udp_log s b frame g z l,
  )
