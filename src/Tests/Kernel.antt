-- ===== src/Tests/Kernel.antt =====
-- The theorems on what is asked of the kernel, with kernels that answer in a way of their own.
use wlan_bridge.Common.{
  ◌+◌, ◌≡◌, refl, true, false, some, List, [], ◌∷◌, ◌++◌, arith, ◌==◌, if◌then◌else◌, length, drop,
  pos,
}
use wlan_bridge.Net.{Datagram}
use wlan_bridge.Udp
use wlan_bridge.Udp.{Udp, Call, sendmmsg, usleep, eagain, send_data_to_udp_client_burst}
use wlan_bridge.Udp.{Slot, read_data_from_udp_client_burst}
use wlan_bridge.Udp.Receive.{HoldsAll, read_burst_lem}
use wlan_bridge.Udp.Send.{burst_calls}
use wlan_bridge.Client
use wlan_bridge.Client.{Client, open_tun, read_from, recvfrom, write_to}
use wlan_bridge.Client.Tuntap.{setup_tuntap_device}
use wlan_bridge.Client.Tuntap.Setup.{held, setup-Balanced}
use wlan_bridge.Client.Running.{Buffers}
use wlan_bridge.Main.{no_events}
use wlan_bridge.Tests.Setup.{willing, peer, frame}

-- A kernel that sends one message of a burst, and is then told to wait.
abbrev partial : Udp.Kernel
partial = record willing {
  sendmmsg_ret = λ log. record { retval = pos 1; errno = 11; msg_len = 60 ∷ [] };
}

abbrev socket_file : Udp
socket_file = record { serv_sock = pos 3; log = [] }

abbrev two : List Datagram
two =
    record { len = 60; buf = frame 1 3; addr = peer 10 }
    ∷ record { len = 60; buf = frame 2 3; addr = peer 10 }
    ∷ []

burst_calls_example :
    (send_data_to_udp_client_burst partial socket_file two).1 ≡ record socket_file {
      log =
          socket_file.log
          ++ sendmmsg socket_file.serv_sock two
            ∷ (if 1 == length two
                then []
                else if 11 == eagain
                then usleep 20 ∷ sendmmsg socket_file.serv_sock (drop 1 two) ∷ []
                else []);
    }
burst_calls_example =
    burst_calls partial socket_file two 1 (omega arith) (omega arith, (omega arith, tt))
      (record { within = omega arith; recorded = refl; result = refl })

-- A kernel that has one datagram to read.
abbrev one_waiting : Udp.Kernel
one_waiting = record willing {
  recv_ret = λ log. record {
    failed = false;
    errno = 0;
    arrivals = record { bytes = frame 1 3; from = peer 10 } ∷ [];
  };
}

abbrev places : List Slot
places =
    record { buf = []; data_len = 0; peer_addr = peer 0 }
    ∷ record { buf = []; data_len = 0; peer_addr = peer 0 }
    ∷ []

read_burst_lem_example :
    let (n, slots', s') = read_data_from_udp_client_burst one_waiting socket_file 1518 places in
    (n ≡ pos 1) × HoldsAll slots' places (record { bytes = frame 1 3; from = peer 10 } ∷ [])
read_burst_lem_example =
    read_burst_lem one_waiting socket_file 1518 places refl (omega arith) (omega arith, tt)

-- A kernel whose calls return 5, and which has a frame to read.
abbrev pub kernel : Client.Kernel
kernel = record {
  ret = λ log. pos 5;
  got = λ log. some (frame 1 2);
  arrived = λ log. record { failed = true; errno = 11; arrivals = [] };
  name_of = λ log. [];
  flags_of = λ log. 0;
}

abbrev pub client : Client
client = record {
  tun_fd = pos 5;
  udp_sock = pos 6;
  serv_adr = peer 1;
  tuntap_fd = pos 5;
  udp_sock_fd = pos 6;
  epoll_stat_info = no_events;
  rx_task_is_running = true;
  log = [];
}

-- The same, but that each descriptor is a new one.
abbrev pub numbering : Client.Kernel
numbering = record kernel { ret = λ log. pos (4 + length log) }

-- The device is open, and nothing else.
setup-Balanced_example :
    held numbering (setup_tuntap_device numbering client (λ n. n) []).1.log ≡ pos 5 ∷ []
unfolding setup_tuntap_device held
setup-Balanced_example = setup-Balanced numbering client (λ n. n) []

abbrev pub buffers : Buffers
buffers = record { tuntap_buf = []; udp_buf = [] }
