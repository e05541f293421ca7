-- ===== src/Lib.antt =====
-- Verification of the wlan bridge: Ethernet over UDP between client hosts and a server.
--
-- A client (wlan_br_client) carries frames between a TAP device and the server, one frame in one UDP
-- datagram. The server (wlan_br_server) is a learning bridge between its peers: main.c receives
-- bursts, wlan_br_forward.c learns source addresses and forwards or floods, wlan_fdb.c holds the
-- forwarding table, statistics.c counts for each peer address, udp.c owns the socket, and cli.c
-- offers a command line over libcli.
--
-- Which file models what:
--   Fdb          wlan_br_server/wlan_fdb.c: wlan_br_find, wlan_fdb_update
--   Peers        wlan_br_server/wlan_br_forward.c: the list l_head and wlan_list_update
--   Forward      wlan_br_server/wlan_br_forward.c: wlan_br_forward, wlan_br_forward_to_array,
--                wlan_br_flood, wlan_br_handle, wlan_br_handle_burst; Forward/Dump: wlan_br_dump_fdb
--   Ether        the address predicates of the same file; Ether/Text: ether_addr_to_str of common.h
--   Statistics   wlan_br_server/statistics.c: the updates; Statistics/Show: the reports
--   Udp          wlan_br_server/udp.c
--   Main         wlan_br_server/main.c: server_runing_burst; Main/Single: server_runing;
--                Main/Start: init_fun and main; Main/Steps: what each step of the loop keeps;
--                Main/Start/Program: the whole program, from its start
--   Cli          wlan_br_server/cli.c: the commands and callbacks; Cli/Register: run_child and
--                cli_client_thread; Cli/Listen: cli_main, cli_main_thread and
--                cli_create_client_thread; Cli/Threads: their interleaving; Cli/Clean:
--                the counters of epoll, cleared while they are incremented
--   Client       wlan_br_client: Client/Udp is udp_client.c, Client/Tuntap is tuntap.c, with its
--                functions for bursts in Client/Tuntap/Bursts, Client/Running is runing of main.c,
--                Client/Start is the rest of main.c, and Client/Cli is cli.c
--   Tunnel       the two programs together: a frame on its way from one client to another,
--                and in Tunnel/Reply the way back
--   Network      the server and any number of clients, over any run of their loops
--   Log          the logging macros of wlan_br_server/common.h; Client/Log: those of the client
--   Libcli       the calls of libcli with which a session is set up
--   Uthash, Utlist   what the program relies on of the two macro libraries, as records of operations
--                and laws; Uthash/Assoc and of_list fill them with lists
--   Net, Common  addresses and datagrams; the helpers that the parts share
-- Forward/Switch is the abstract learning switch that Forward implements.
--
-- The statics of a C file are a record, and a function that changes them returns the new one beside
-- its result. Where C writes through a shared pointer (the record of a peer, a counter's entry), the
-- objects live in a heap by address. calloc fails by a parameter `oom`, call by call; what uthash
-- allocates for itself is taken to be there, as uthash exits from the program where it is not. The
-- kernel is a parameter that answers each call as a function of all calls made so far, and the calls
-- are logged in order, so that theorems speak of what is sent and in which order. Counters wrap at
-- 2 ^ 16 or 2 ^ 64 as in C. A buffer is the list of its bytes; the bytes that a frame does not fill
-- are those that were there before, and a header is read from the buffer whatever the frame's length.
--
-- The loops over epoll take what epoll_wait returns as a list of rounds, with the signals between
-- them. SIGUSR1 ends a loop; where no signal comes, the end of the list does, which is no exit that
-- the code has, but where a run is left off. The inner receive loop runs on fuel: more fuel than
-- bursts in the kernel's queue is enough.
--
-- The thread that listens for telnet sessions runs on fuel too: more than there are connections is
-- enough. The hand-over of a connection to its thread is a transition system, in which the steps of
-- the two are taken in any order; so is a counter of epoll, whose increments are a read and a write.
--
-- Not modelled: where the program logs; what libcli does with a session that it serves, and so which
-- command is called when; reports that run while the bridge handles a frame; the names of threads.
-- getopt_long, inet_addr, rand, sscanf, the clock and the arithmetic on doubles are parameters. Of
-- Utlist and Uthash the vendored macros are not modelled, only their laws are used.
pub mod Common
pub mod Uthash
pub mod Utlist
pub mod Ether
pub mod Net
pub mod Fdb
pub mod Statistics
pub mod Peers
pub mod Udp
pub mod Forward
pub mod Tests
pub mod Main
pub mod Cli
pub mod Libcli
pub mod Client
pub mod Tunnel
pub mod Log
pub mod Network
