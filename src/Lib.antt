-- ===== src/Lib.antt =====
-- OLSR daemon (olsrd): the link state routing core of the repository's src/ directory. The daemon
-- hears HELLO and TC messages, keeps links, neighbors and a database of vertices and edges,
-- selects relays that forward its messages, computes routes with Dijkstra's algorithm and puts
-- them into the kernel. Messages are flooded, so a duplicate set decides which ones have been
-- seen; all entries live until a timer fires, on a 32-bit millisecond clock that wraps around.
--
-- The modules and the code that each models, with paths from the root of the repository:
-- - Prelude: shared names of the libraries, Boolean tests on numbers, lists measured by numbers,
--   signed numbers, and the bits of words.
-- - Avl (src/common/avl.c): the containers. The tree holds the first element of each key, the
--   linked list all elements; an element is known by its address, and a key is its rank in the
--   order of the comparator. Walking up the parent pointers is the way back of a recursion, whose
--   Boolean tells whether the code goes on with the parent. Avl.Walk has the nearest elements,
--   Avl.Remove the removal. Avl.Balance, .Order, .Chain, .Find, .Member and .Place have the
--   proofs on heights, on the sequence of the nodes, on the list, on the search and on the place
--   in the list; Avl.Valid has the invariant, and Avl.Insert, .Lookup, .Nearest and
--   Avl.Remove.Refine the conclusions.
-- - Clock (src/olsr_clock.c): olsr_clock_isPast, olsr_clock_getRelative and
--   olsr_clock_getAbsolute on now_times, which is an argument, and the mantissa and exponent
--   byte. Clock.Wrap has the proofs on the clock, Clock.Mantissa those on the byte.
-- - Timer (src/olsr_timer.c): struct olsr_timer_entry and calc_jitter; the value of random() is
--   an argument. Timer.Jitter has the bounds.
-- - Duplicate (src/duplicate_set.c): forward_set and processing_set as lists in key order.
--   Duplicate.Seqno, .Window, .Entry, .Set and .Invariant have the proofs on the sequence
--   numbers, the window of an entry, the messages of one originator, the two sets, and their
--   shape.
-- - TcSet (src/tc_set.c): the link state database, with the edges of each vertex as a list in the
--   order of addresses and the inverse edge found by its two ends. What comes from outside, the
--   main address, the link quality plugin and the address filter, is in Config. TcSet.Message has
--   olsr_tc_update_edge and the loop over the edges of a message, TcSet.Input has olsr_input_tc
--   and the deletion of revoked edges, TcSet.Border both sides of the borders. TcSet.Edges,
--   .Valid, .Delete, .Add, .Pair, .Outdated, .Vertex, .Keep, .Byte and .Between have the proofs
--   on edge trees, the invariant, the operations, the message loop and the borders.
-- - Parser (src/parser.c, with olsr_put_msg_hdr of src/olsr.c and the output buffers of
--   src/net_olsr.c): parse_packet and olsr_forward_message; Parser.Input has olsr_input, over the
--   datagrams that wait in a socket, and the registration of functions. The packet is the list of
--   its bytes from the current message on, which forwarding changes in place, and out of which it
--   copies the bytes that it sends. Daemon is the state: the duplicate sets, the interfaces, and
--   what the registered functions keep, which are arguments in Setup. Parser.Header, .Buffers and
--   .Walk have the proofs on the header of a message, the buffers and the walk over a packet;
--   Parser.Input carries them to olsr_input.
-- - Spf (src/olsr_spf.c): olsr_spf_relax, olsr_spf_run_full and the part of
--   olsr_calculate_routing_table up to the end of the computation. The vertices are a map from
--   numbers, the candidate tree is the list of its nodes in tree order, an edge knows the vertex
--   that its inverse edge hangs off. Spf.Nodes and Spf.Cand are about lists of nodes, Spf.Walk is
--   the specification, Spf.Mid, Spf.Improve, Spf.Relax and Spf.Run carry the invariant through a
--   round and through all rounds, Spf.Correct, Spf.NextHop and Spf.Routed draw the conclusions.
-- - Route (src/routing_table.c, with the comparisons of src/common/avl_olsr_comp.c): the paths to
--   prefixes, the route entries and the election of the best path. Paths are one list, and a
--   pointer to a path is its number; a prefix is one number too. Route.Prefixes has the prefixes
--   that a vertex announces, and the walk over the path list. Route.Compute is
--   olsr_calculate_routing_table as a whole, from the database to the kernel, and
--   Route.Compute.Shortest has its proof. Route.Compare is about the election. Route.Kernel
--   (src/process_routes.c and the end of olsr_calculate_routing_table in src/olsr_spf.c) takes
--   the routes into the kernel, whose two functions are in the record Kernel;
--   Route.Kernel.Reliable says what the code relies on of them. Route.Kernel.Tree, .Election,
--   .Update, .Round and .Pass go from the tree of an entry to olsr_update_rib_routes, .Change is
--   about the queue of changes, .Synced has the state between two computations, .Refine the
--   update as a whole and .Flush the deletion of all routes; .Stores and .Operations are about
--   inserting and deleting prefixes, .Refresh, .Walk, .Served and .Calculate about the walk over
--   the path list.
-- - Ip (src/ipcalc.c, src/ipcalc.h): netmasks, prefixes and ip_in_net; proofs in Ip.Netmask and
--   Ip.Net. Ip.Acl (src/olsr_ip_acl.c, src/olsr_ip_prefix_list.c): access lists; proofs in
--   Ip.Acl.Laws.
-- - Link (src/link_set.c): struct link_entry, lookup_link_status, get_best_link_to_neighbor,
--   check_link_status, update_link_entry without the creation of an entry, and
--   olsr_expire_link_sym_timer. Proofs in Link.Status and Link.Best.
-- - Mpr (src/lq_mpr.c): olsr_calculate_lq_mpr and olsr_calculate_lq_mpr2. Neighbors are a map
--   from numbers and the list of the tree; Mpr.Pick, .Select, .Cover and .Calculate go from the
--   search for one neighbor to the whole function.
-- - Packet (src/lq_packet.h): the pkt_get, pkt_put and pkt_ignore functions on lists of bytes;
--   proofs in Packet.Fields.
-- - Nbr (src/neighbor_table.c): the two-hop neighbors, their connectors as one list, and
--   olsr_update_nbr_status; proofs in Nbr.Connectors, Nbr.Table and Nbr.Status.
--
-- How the parts interact: the duplicate set and the links start their timers through Timer, which
-- takes its times from Clock; the link status is asked for by get_best_link_to_neighbor, which
-- the relay selection and the shortest path computation use for the cost and the next hop of a
-- neighbor, and which decides whether a neighbor is symmetric; the access lists ask ip_in_net,
-- and the packet fields hold times and netmasks as Clock and Ip encode them. The link state
-- database reads its messages through Packet, compares answer set numbers with olsr_seqno_diff of
-- Duplicate and starts its timers through Timer; the parser takes its fields from Packet, asks
-- the duplicate sets twice, before a message is processed and before it is forwarded, and holds
-- its buffers with Timer. The edges in pairs of the link state database are what the shortest
-- path computation walks. Its path list, a cost, a hop count and a link for each vertex, is what
-- Route takes the routes from; Route.Compute puts the two together.
--
-- Conventions. Addresses and pointers to entries are numbers. A machine word is a number, with
-- its wrap-around written out where the code can reach it. Outside of Avl, a container is the
-- list of its elements in order, which the theorems of Avl justify. Behaviour that C leaves
-- undefined is none. The shortest path computation runs on fuel, one round for each vertex that
-- it takes off the candidate tree; its theorems prove that fuel for as many rounds as there are
-- nodes is enough. Adding an edge runs on fuel too, 2 for the edge and its inverse edge, and the
-- loop over the edges of a message on one more than its length; the walk over a packet runs on
-- the length of the packet, since every message has at least one byte; olsr_input counts its 32
-- packets down. The networks of the shortest path computation have at most 255 nodes, because
-- path costs are 32-bit sums of link costs below 2^24 and hop counts are 8 bits wide: with no
-- more nodes, neither wraps around.
--
-- Not modelled: adding and deleting neighbors, the edges of the link state database to our own
-- neighbors, its flush, its prefixes, aliases and networks and the output of TC messages, the
-- processing of HELLO messages, the sets of networks and aliases, the timer wheel and the link
-- quality plugins, as far as the modules above do not take their data as arguments; locks of
-- interfaces, memory that runs out; printing, logging, configuration and memory accounting;
-- sockets and the operating system; plugins and user interfaces.
pub mod Prelude
pub mod Avl
pub mod Clock
pub mod Timer
pub mod Duplicate
pub mod TcSet
pub mod Parser
pub mod Spf
pub mod Ip
pub mod Link
pub mod Mpr
pub mod Packet
pub mod Nbr
pub mod Route
