-- ===== src/Lib.antt =====
-- Start-up and control plane of the IGW gateway (igw-h/init_setup): the program that fills the
-- tables of the switch, follows the kernel's routes and neighbours, and watches the ports.
--
-- How the parts fit: the options are read (Daemon), and then the configuration file (Config), which
-- makes the array of host interfaces (Hostif), from which the interfaces are made in the kernel after
-- the ports are added (Port, Device). The entries of start-up are made next: the ECMP groups (Ecmp),
-- the table that sorts packets (IpType) and the members for elastic addresses (EipDl). They reach the
-- hardware through the wrappers of the driver (Bfrt), table after table, with the tables' attributes
-- (Attributes). The netlink thread fills the gateway table (Route) and the table of MAC rewrite
-- entries (Neigh), and then takes the messages out of its buffer (Netlink), which switch the groups
-- (Route) and write the MAC rewrite table (Neigh, MacRewrite). Last comes the table of protocol
-- packets (PacketTable); System has the whole of that order. A thread of its own takes the gateway
-- down and up (Monitor).
--
--   Daemon       main.c: the options of bf_switchd_main
--   Config       switchapi/switch_config.c: switch_config_init
--   Device       switchapi/switch_device.c: switch_device_create, with the queries of
--                switchapi/switch_port.c and the CPU's interface of switchapi/switch_packet.c
--   Monitor      switchapi/switch_monitor.c: port_syncd_monitor, tm_port_drop_monitor,
--                igw_monitor_all_devports_oper_state, switch_monitor_main
--   Route        switchlink/switchlink_route.c: route_system_init, process_ecmp, process_route_msg
--   Neigh        switchlink/switchlink_neigh.c: neigh_system_init, process_neigh_msg
--   MacRewrite   switchbfrt/bf_outer_mac_rewrite_table.c: mac_rewrite_table_entry_add, by egress
--                port, and over the driver's tables mac_rewrite_table_setup, perform_driver_func
--   Hashed       the chained hash tables that Neigh and Route share in form
--                (include/init_setup_list.h)
--   Ecmp         switchapi/switch_ecmp_group2.c: ecmp_group02_init
--   IpType       switchapi/switch_igw_ip_type_table.c: igw_ip_type_table_init, with the keys of
--                switchbfrt/bf_igw_ip_type_table.c
--   EipDl        switchapi/switch_eip_dl.c: eip_in_ecmp_dl_table_init, eip_out_ecmp_dl_table_init
--   Hostif       switchapi/switch_hostif.c: parser_switch_config_to_hostif, create_hostif,
--                switch_api_hostif_create, mirror_hostif_create, switch_pkt_hostif_create, with the
--                filters of switchapi/switch_packet.c; hostif_hash_table_init, hostif_entry_get,
--                and switchapi/switch_port.c: switch_port_state_change
--   Port         switchapi/switch_port.c: switch_api_port_add, set_loopback_mode,
--                switch_pd_recirc_port_list_get; switch_device.c: switch_device_init
--   Ether        include/utils.h (Ether.Aton: MAC addresses as text)
--   Netlink      switchlink/switchlink_main.c: process_netlink_loop, process_netlink_message
--   PacketTable  switchapi/switch_packet_table.c: process_protocol_packet_table_init
--   Bfrt         the wrappers in switchbfrt, the tables of fixed entries (switchapi/
--                switch_mirror_table.c, switch_meter_drop_table.c, switch_acl_table_init.c,
--                switch_eip_{in,out}_jd_vxlan_table.c) and the table part of main.c
--   Attributes   switchapi/switch_meter_adjust.c, switch_symmetric_mode_set.c, over
--                switchbfrt/bf_meter_adjust.c, bf_symmetric_mode_set.c
--   System       main.c: main, from switch_device_create to process_protocol_packet_table_init, and
--                switchlink/switchlink_main.c: switchlink_main up to its semaphore
--   Prelude      names and lemmas the parts share
--   Examples     small inputs; other examples stand under the part they are of
--
-- All paths are below igw-h/init_setup. Definitions have the names of the C functions, in snake case.
-- State that the program keeps in globals is a record passed through (Monitor, RouteState,
-- NeighState); `assert` and SETUP_PANIC are `none`. Numbers are natural numbers; where the C types
-- wrap in a way that can happen, `% 2 ^ 32` and the like are written out. Loops are recursion on the
-- list or on the number of turns left: the bound of 120 in EipDl is the program's own, and a trace of
-- the monitor is a list of what its rounds read. The one loop on fuel is the walk over a netlink
-- buffer, for which a turn for each message and one more are enough when the messages are framed.
-- The start-up of the tables is a list of steps, each of which an `assert` or a SETUP_PANIC guards.
--
-- The devices, filters, sockets and buffers of the host interfaces are a record (Knet), and what the
-- kernel packet driver and the sockets return for one interface is another (Answers). The state of the
-- kernel's links is abstract (Links).
--
-- Parameters: the driver of the switch (what it reads in a round; what it does to the MAC rewrite
-- table, to the tables of the start-up and to the settings of a port, with its documented behaviour
-- as hypotheses), what the netlink loop writes while main waits for it,
-- `if_nametoindex`, `if_indextoname`, the interface flags, `inet_pton`, `strtoul`, `printf`, `atoi`,
-- `getopt_long`, and the JSON library with the file that it loads. Where the C code reads
-- memory it never set, the value is a parameter too: the first index of the last loop of
-- process_route_msg, what lies behind a multipath attribute or a netlink buffer, and two bytes of each
-- MAC address given to the driver, and the locals of switch_api_port_add. The macro DEV_PORT_TO_PIPE
-- is the driver's.
--
-- Not modelled: sockets, signals and threads, logging and shell commands, which only call the system;
-- the P4 programs, which are in another language; and the functions that nothing calls and that only
-- hand a call on to the driver (the deletes of filters and interfaces, the tear-downs).
pub mod Prelude
pub mod Monitor
pub mod Hashed
pub mod Ether
pub mod Config
pub mod Daemon
pub mod Device
pub mod Hostif
pub mod MacRewrite
pub mod Neigh
pub mod Ecmp
pub mod Route
pub mod IpType
pub mod EipDl
pub mod Netlink
pub mod PacketTable
pub mod Port
pub mod Attributes
pub mod Bfrt
pub mod System
pub mod Examples
