-- ===== src/Client/Tuntap.antt =====
-- wlan_br_client/tuntap.c: the TAP device.
pub mod Setup
pub mod Bursts
use wlan_bridge.Common.{
  ℕ, ◌%◌, not, none, some, List, ◌==◌, if◌then◌else◌, take, ℤ, pos, negsuc, ◌==ℤ◌, is_nonpos,
  is_neg,
}
use Prim.Native.Nat.{bit_and, bit_or}
use wlan_bridge.Ether.{Mac}
use wlan_bridge.Client.{
  Request, tunsetiff, tunsetnocsum, tunsetdebug, tunsetpersist, siocsifhwaddr, siocsifmtu,
  siocgifflags, siocsifflags, siocgifindex, Call, open_tun, ioctl, socket, close, write_to,
  read_from, Kernel, Client, called, load,
}

-- IFF_TAP | IFF_NO_PI, and IFF_UP, of <linux/if_tun.h> and <net/if.h>
abbrev pub tap_flags : ℕ
tap_flags = 0x1002

abbrev pub iff_up : ℕ
iff_up = 1

-- (mac[0] & 0xFE) | 0x02
unfoldable local_unicast : ℕ → ℕ
local_unicast n = bit_or (bit_and n 0xfe) 0x02

-- `rand i` is what the i-th call of rand() returns.
unfoldable pub generate_random_mac : (ℕ → ℕ) → Mac
unfolding local_unicast
generate_random_mac rand = record {
  a0 = local_unicast (rand 0 % 256);
  a1 = rand 1 % 256;
  a2 = rand 2 % 256;
  a3 = rand 3 % 256;
  a4 = rand 4 % 256;
  a5 = rand 5 % 256;
}

-- strncpy into ifr_name and the final NUL: 15 characters at most.
abbrev pub ifname : List ℕ → List ℕ
ifname = take 15

module _ (kernel : Kernel) where
  -- The result, the name that the device has got, and the calls.
  unfoldable pub tap_alloc : Client → List ℕ → ℕ → ℤ × List ℕ × Client
  tap_alloc s dev flags =
      let s1 = called s open_tun in
      let fd = kernel.ret s1.log in
      let s2 = called s1 (ioctl fd (tunsetiff (ifname dev) flags)) in
      if is_neg fd
      then (fd, dev, s1)
      else if is_neg (kernel.ret s2.log)
      then (negsuc 0, dev, called s2 (close fd))
      else (
        fd,
        kernel.name_of s2.log,
        called (called s2 (ioctl fd tunsetnocsum)) (ioctl fd tunsetdebug),
      )

  -- The early returns behind the second socket: both descriptors are closed.
  unfoldable pub give_up : Client → (gen_fd fd : ℤ) → ℤ × Client
  give_up s gen_fd fd = (negsuc 0, called (called s (close gen_fd)) (close fd))

  -- The interface's index; then the second socket is closed.
  unfoldable pub check_index : Client → List ℕ → (gen_fd fd : ℤ) → ℤ × Client
  unfolding give_up
  check_index s name gen_fd fd =
      let s' = called s (ioctl gen_fd (siocgifindex name)) in
      if is_neg (kernel.ret s'.log) then give_up s' gen_fd fd else (fd, called s' (close gen_fd))

  -- The interface is set up, if it is not.
  unfoldable pub bring_up : Client → List ℕ → (gen_fd fd : ℤ) → ℤ × Client
  unfolding give_up check_index
  bring_up s name gen_fd fd =
      let s1 = called s (ioctl gen_fd (siocgifflags name)) in
      let flags = kernel.flags_of s1.log in
      let s2 = called s1 (ioctl gen_fd (siocsifflags name (bit_or flags iff_up))) in
      if is_neg (kernel.ret s1.log)
      then give_up s1 gen_fd fd
      else if not (bit_and flags iff_up == 0)
      then check_index s1 name gen_fd fd
      else if is_neg (kernel.ret s2.log)
      then give_up s2 gen_fd fd
      else check_index s2 name gen_fd fd

  -- The second socket, and the MTU.
  unfoldable pub set_mtu : Client → List ℕ → (fd : ℤ) → ℤ × Client
  unfolding give_up bring_up
  set_mtu s name fd =
      let s1 = called s socket in
      let gen_fd = kernel.ret s1.log in
      let s2 = called s1 (ioctl gen_fd (siocsifmtu name 1500)) in
      if is_neg (kernel.ret s2.log) then give_up s2 gen_fd fd else bring_up s2 name gen_fd fd

  -- `dev` is the name with the port behind it, which snprintf cuts to 15 characters.
  unfoldable pub setup_tuntap_device : Client → (ℕ → ℕ) → List ℕ → ℤ × Client
  unfolding tap_alloc set_mtu
  setup_tuntap_device s rand dev =
      let (fd, name, s1) = tap_alloc s (ifname dev) tap_flags in
      let mac = generate_random_mac rand in
      let s2 = called s1 (ioctl fd (siocsifhwaddr (ifname name) mac)) in
      if is_neg fd
      then (negsuc 0, s1)
      else if is_neg (kernel.ret s2.log)
      then (negsuc 0, called s2 (close fd))
      else set_mtu (called s2 (ioctl fd tunsetpersist)) (ifname name) fd

  unfoldable pub create_tuntap : Client → (ℕ → ℕ) → List ℕ → ℤ × Client
  unfolding setup_tuntap_device
  create_tuntap s rand dev =
      let (fd, s') = setup_tuntap_device s rand dev in
      (if is_nonpos fd then negsuc 0 else fd, record s' { tun_fd = fd })

  unfoldable pub send_data_use_tuntap : Client → ℕ → List ℕ → ℤ × Client
  send_data_use_tuntap s len buf =
      let s' = called s (write_to s.tun_fd len buf) in
      let send_data = kernel.ret s'.log in
      if send_data ==ℤ pos len then (send_data, s') else (negsuc 0, s')

  unfoldable pub read_data_from_tuntap : Client → (max_len : ℕ) → List ℕ → ℤ × List ℕ × Client
  unfolding load
  read_data_from_tuntap s max_len buf =
      let s' = called s (read_from s.tun_fd max_len) in
      elim (kernel.got s'.log) [
        | none ↦ (negsuc 0, buf, s')
        | some bytes ↦
            let (n, buf') = load max_len bytes buf in (if n == 0 then negsuc 0 else pos n, buf', s')
      ]

-- The descriptor keeps its value.
unfoldable pub destroy_tuntap : Client → Client
destroy_tuntap s = if s.tun_fd ==ℤ negsuc 0 then s else called s (close s.tun_fd)
