-- ===== src/Lib.antt =====
-- A model of the core of nvme-dem: the distributed endpoint manager (DEM), which collects the log
-- pages of NVMe-oF targets and hands them to hosts, the controller of the endpoints that it manages,
-- and the parser that all its daemons share.
--
-- The parts, and the files that model them:
--
-- - Parse (src/common/parse.c). Parse/Stream is the input stream with is_whitespace, is_quote,
--   is_eol, ungetc, consume_line and consume_whitespace; Parse/Line is parse_word, parse_equal and
--   parse_line; Parse/Addr is string_to_addr, ipv4_to_addr, ipv6_to_addr and fc_to_addr;
--   Parse/Names is trtype_str, adrfam_str, subtype_str, treq_str, to_trtype and to_adrfam.
--   Parse/Decimal is what sprintf writes for an int.
-- - Nvme: the numbers of src/incl/nvme.h that the controllers use.
-- - Memory: the bytes of a buffer that both ends read as structures, with strcpy, strncpy and the
--   reading of strings (Memory), their laws (Laws) and the words of C in it (Words).
-- - Dem/State: the structures of src/dem/common.h and src/incl/dem.h, and the four global lists of
--   src/dem/daemon.c (target_list, group_list, host_list, aen_req_list) as the record Dem.
-- - Dem/LogPages: Fetch is get_logpages of src/common/logpages.c; Save is invalidate_log_pages,
--   match_logpage, store_logpage and save_log_pages of src/dem/logpages.c; Refresh is
--   fetch_log_pages, avilable_dq and refresh_log_pages; Lookup is which log page is found for a name.
-- - Dem/Notify (src/dem/config.c): Lists is create_notification_list, the flags, and the four
--   create_event_host_list_for functions; Send is send_notifications.
-- - Dem/Groups (src/dem/config.c): Ops is the groups of hosts and targets, from init_group to
--   indirect_shared_group; Requests is add_group, update_group, set_group_member and
--   del_group_member around them.
-- - Dem/Discovery (src/dem/pseudo_target.c): Command is what a command and a completion hold; Pages
--   is the two log page handlers; Request is the other handlers and handle_request; Service is what
--   host_thread does with one host in a round.
-- - Dem/HostQueue (src/dem/pseudo_target.c): Ring is the queue between the listener threads and the
--   service thread.
-- - Dem/Daemon (src/dem/daemon.c): Queues is dq_exists, create_discovery_queue and
--   init_discovery_queue; Alive is keep_alive_work; Periodic is periodic_work for one target;
--   Subsys is _del_subsys_dq, _reset_subsys_dq, _update_subsys_dq and _reset_subsys_dq_nqn of
--   src/dem/config.c.
-- - Dem/Config (src/dem/config.c), what the REST interface does to a target: Oob is the requests that
--   build_..._oob and the functions send_..._oob print; Remote is what is sent to the endpoint in
--   each management mode (_link_host, _set_ns, config_subsys_oob and the like); Find is find_subsys,
--   find_portid and find_ns; Result is what an operation returns; Namespaces is set_ns and del_ns;
--   Ports is set_portid and del_portid; Subsystems is set_subsys and del_subsys; Hosts is link_host
--   (link_host_op) and unlink_host (unlink_host_op); Hosts/Sweep is update_host and del_host;
--   Targets is config_target_oob, add_target, del_target and send_del_target, and Targets/Plan is
--   the requests that a configuration out of band stands for. Managed is exec_post and exec_delete of
--   src/common/curl.c with an endpoint manager at the other end.
-- - Linked (src/incl/utils.h): the intrusive linked lists on a memory of cells; Linked/Chain says which
--   list the cells stand for.
-- - Endpoint (src/endpoint/pseudo_target.c): Ops is struct ops of src/endpoint/common.h; Config is
--   handle_mi_send and the functions that read a message; Report is get_nsdev, get_xport and
--   handle_mi_receive; Request is the other handlers and handle_request; Expected says of a command on
--   its own whether it succeeds, Answer compares the two, and Features is about Set Features.
-- - Endpoint/Rest (src/endpoint/restful.c): Uri is parse_uri; Json what the handlers read of a body;
--   Answer is http_error, bad_request and the ends that the handlers share; Post and Delete are the
--   handlers of a request that changes the target; Serve is the others, handle_target_requests and
--   handle_http_request; Made is the calls that the bodies of the DEM become, and Fair, Posted and Safe
--   what a request can do at all.
-- - Endpoint/Configfs (src/endpoint/configfs.c): Tree is the calls of the kernel and a process with its
--   current directory; Calls is the operations of cfgfs_ops on one object, and Reset those that walk
--   directories, with cfgfs_ops itself; Spec is what each does to the tree; Single, Port, Walk,
--   Home and Sound compare the two, and Served puts Endpoint/Rest on top.
-- - Inb (src/dem/config.c): Build is the functions build_..._inb; Message is the thirteen messages
--   with their ids and sizes; Send is _send_set_config with send_mi_send of src/common/nvmeof.c;
--   Senders is the functions that send one message; Config is config_target_inb, and Plan is the
--   messages that it stands for; Merge, Devices and Xports are get_inb_nsdevs and get_inb_xports.
--
-- How the parts interact: a refresh fetches the log of each discovery queue of a target and saves it
-- in the target's subsystems; the discovery controller walks the same lists for a host, and asks the
-- groups whether the host shares one with the target; a change in a group makes a list of
-- notifications from the pending requests that the discovery controller has added, and sends it.
-- An operation of Dem/Config changes the lists of one target, sends its messages in band through Inb
-- or as requests, and notifies hosts through Dem/Notify.
-- The messages that Inb builds are the ones that Endpoint reads, byte by byte through Memory, and the
-- calls that it makes of them are values, which an argument carries out. The requests that
-- Dem/Config/Oob prints go through Dem/Config/Managed to Endpoint/Rest, which reads them and makes
-- calls of the same kind. Endpoint/Configfs is what carries such calls out where the target is the
-- kernel's.
--
-- How C is modelled: an object that others point to has an id, its address, and a pointer is such a
-- number; a linked list is the list of its entries, which Linked justifies where no entry is added
-- twice, and where link_host does that, the model says what a loop then sees; a string is the list
-- of its bytes before the terminating 0; a function that changes state returns the new state.
-- Undefined behaviour that the code can reach is a value of its own (overread, overrun, fault,
-- crashed; overran for a URI of the DEM past its 128 bytes and for a path of an endpoint past its 512;
-- none for an access past the page of an endpoint). A char is signed, as on x86, so that the byte 255
-- reads as EOF.
--
-- Bounds: unsigned numbers of 24, 32 and 64 bits are natural numbers, reduced where the source
-- computes with them; an int is an integer, wrapped where an unsigned value is stored in it. The page
-- of an endpoint has 4096 bytes. The digits of a number are printed with fuel, one more than the
-- number, which is more than its digits. Every other loop is a recursion over the list, the input or
-- the counter that it walks.
--
-- What is an argument: the answers of a peer to a log page request and whether a connection to it
-- succeeds (Fabric), what a transport reads and writes (Transport), which endpoints are connected
-- (Peers), which peers answer a keep-alive (Peer), what get_config makes of a target, what the
-- target behind an endpoint does with a call (Ops), what an endpoint's transport reads (Fetch),
-- what becomes of a message on the way (Wire, Round), what becomes of an order (Remote), what the
-- stored configuration answers to a change, which devices a target has, what the memory held
-- before, the addresses that malloc returns, what the Jansson library reads of a body (Jansson),
-- and what libcurl asks the server for, given a URL (HttpClient), and what the kernel's calls on
-- files return (Kernel). Allocation is taken to succeed.
--
-- What is not modelled: the JSON configuration and the REST interface of the DEM, which print and
-- edit Jansson values throughout; the transports (RDMA, TCP), which are calls of their libraries;
-- the change of a whole target (update_target, set_interface) and what is read out of band; threads
-- other than as sequences of steps; what SPDK does with the calls of an endpoint, and which devices
-- an endpoint finds at its start; the daemon of the endpoint manager, auto connect, the monitor and
-- the command line tool. An answer of Endpoint/Rest is taken to fit its buffer of 1024 bytes, and a
-- name in a path of Endpoint/Configfs to be one part. The names that the kernel lists are taken to be
-- short enough for the buffers.
pub mod Prelude
pub mod Memory
pub mod Nvme
pub mod Parse
pub mod Dem
pub mod Inb
pub mod Endpoint
pub mod Linked
