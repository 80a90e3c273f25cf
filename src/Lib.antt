-- ===== src/Lib.antt =====
-- DLFree is a library for communication between many processes over an overlay of TCP connections,
-- whose routing is free of deadlock. This development models its routing, its wire format and the
-- data structures that these stand on.
--
-- The parts and the files that model them:
--
-- Base: what the modules share: the library's names, tests into Bool, lists measured by native
-- numbers, and integers (Base/Tests, Base/Lists, Base/Int).
--
-- Std/Bytes models src/std/bytes.c, integers in network byte order; Std/Bytes/RoundTrip has its
-- theorems. Std/HashMap models src/std/map.c, and Std/HashMap/View sees a table as a stack of
-- values per key. Std/UnionSet models src/std/uset.c: Std/UnionSet/Forest is about the parents and
-- heights of the cells, Std/UnionSet/Merge about finding and merging, Std/UnionSet/Add about
-- adding. Std/Vector models src/std/vector.c, but for sorting: Std/Vector/Shift is about adding
-- and deleting, Std/Vector/Reverse about reversing. Std/Deque models src/std/list.c, a ring of
-- cells on a heap, but for printing: Std/Deque/Ring is about the links in each
-- direction, View (with View/Once, lists without repetition) about the ring as a whole, Refine
-- about each operation at an end, Spec about the sequence that a list stands for (Spec/Sequence),
-- Middle about inserting
-- and removing anywhere, and Destroy about the end of a list.
--
-- Struct/Rtable models src/struct/rtable.c, the routing table with a whole path per destination:
-- Struct/Rtable/Pack its form as bytes, Struct/Rtable/Entries about that of an entry,
-- Struct/Rtable/Add about filling a table, and Struct/Rtable/RoundTrip about reading one back.
--
-- Comm/Msg models the headers and buffers of src/comm/msg.c, with Comm/Msg/Header on packing.
-- Comm/Data models the ids and the chunks of messages, of src/comm/comm.c, src/comm/ioman.c and
-- src/comm/msg.c: Comm/Data/Sid on the ids, Comm/Data/Received on one chunk, Comm/Data/Reassembly
-- on the way of a message from comm_node_send_data through ioman_send_chunk to
-- data_msg_push_chunk.
--
-- Comm/Routes models the tables of all nodes that a node of src/comm/comm.c keeps, and the next
-- hop of a message: Comm/Routes/Register is about their exchange, Comm/Routes/Forward about
-- following a path. Comm/Delivery models how a node puts data messages together and hands them to
-- the calls that receive them: Comm/Delivery/Queues counts the messages that wait, First finds one,
-- and Reach has all these calls as steps of one node.
--
-- Comm/Sock has the transfers of src/comm/sock.c, over the outcomes of recv and send. Comm/Channel
-- models src/comm/channel.c: a chunk that has come in at one channel is passed to the queue of the
-- next, or its channel waits for room there. Comm/Channel/Waiting says how the channels may wait,
-- and which bytes are to go through a channel; Comm/Channel/Pipeline is about passing a chunk on.
-- Comm/Channel/Write has channel_write: its children are about one chunk (Send), the channels that
-- wait (Served, Unblock), the whole (Requeue, Order, Total) and a write that is held up (Blocked,
-- Quiet). Comm/Channel/Keep and Comm/Channel/Change (with Change/Before and Change/Setup) say what
-- the other operations leave alone, Comm/Channel/Local is the channel of a node to itself, and
-- Comm/Channel/System, with Sound, ToSelf (the local channel) and Keeps, has all these operations
-- as steps of one store.
--
-- Comm/Ioman models src/comm/ioman.c, the thread that serves the channels: Comm/Ioman/Write has
-- the writing and Comm/Ioman/Read the reading, with what src/comm/comm.c does with a message.
-- Comm/Ioman/Cache is about the sets for select that are kept from round to round, with Writing,
-- Sending, Message, Reading and Rounds on the handlers, Comm/Ioman/Sets about what the sets hold,
-- and Comm/Ioman/Rounds about any sequence of calls.
--
-- Graph/Overlay models src/graph/overlay.c, the graph of hosts and connections, with the loop of
-- the ring, on hosts that are there, but no other simulation. Graph/Link has the edges of
-- src/graph/overlay.h and the links of src/graph/router.h. Graph/Router models src/graph/router.c,
-- which gives each direction of a link a level: Graph/Router/Updown has the definitions of the
-- up*/down* routers, Graph/Router/Bfs, Reach and Dfs their searches, Graph/Router/Orient the
-- directions. Graph/Router/Trees has the ordered-link router, Graph/Router/Choose one of its
-- spanning trees and Graph/Router/Levels the loop over them. Graph/Dijkstra models
-- src/graph/dijkstra.c, which looks for shortest paths whose levels do not fall, as gxp_router_run
-- of src/gxp/gxp_router.c calls it with the links of a router: its children follow the steps of
-- the algorithm (Scan, Relax, Search, Loop, Table, Fill, Setup, Run). Graph/Route says what such a
-- path is, and Graph/Deadlock what a deadlock is: a channel, which is a directed edge, waits for
-- another where some path of some table crosses the two one after the other, and a cycle of such
-- waits is a deadlock. Graph/Router/Deadlock joins the routers, the search and this definition.
--
-- Gxp/Router models gxp_router_run of src/gxp/gxp_router.c, from the matrix of measured
-- connections to a table, with Gxp/Safety on the tables of all nodes together, Gxp/Sound on the
-- graph that is connected, and Gxp/Returns on the end of the search. Tests runs the definitions on
-- small inputs.
--
-- Numbers and memory: an int is a ℤ where its sign matters and a ℕ where it is an index or a
-- count; -1 as a level, a pid or an id is none. Words of 64 bits wrap around where the source
-- computes with them. Float lengths and widths are a parameter, Graph/Weight, with the laws of the
-- order and the sum that the code relies on. Arrays are functions of their index, or lists; an
-- access out of bounds, a failed assertion, exit and a missing pointer are none.
--
-- Loops: compute runs on fuel for one round per pair of a node and a level and one more, as every
-- round but the last reaches a new pair. The breadth-first search runs on one round per node and
-- one more, the depth-first search on a depth of one per node and one more, and
-- comm_node_send_data on one chunk per byte. The spanning trees take one round per edge, as each
-- round labels at least one, and a message on its way one hop per node of its path. The walk to
-- the top parent runs on the largest height, as heights grow along the parents. Reading and
-- sending run on one round per byte, unblocking on one per channel that waits, and channel_write
-- on one per chunk of the queue and per channel that waits, as each of these only goes down.
--
-- Parameters: the outcomes of recv, send and connect, the sets that select returns, the
-- descriptors of new sockets, the number that rand returns, the bytes of the memory that malloc
-- returns, the order in which qsort and the shuffle leave edges, the ways that the topology gives
-- between hosts, and the links that router_graph_make_bfs_spanning_trees gives.
--
-- What the steps leave out: in Comm/Channel/System no channel is removed while it waits for
-- another, which ioman_delete_channel does where a write fails, no chunk goes back to the channel
-- that it came from, and no channel waits for the local one when a chunk is taken from it; in
-- Comm/Ioman/Rounds each call is one step, and the steps end where the thread is to end.
--
-- Not modelled: the array pid_to_node of src/graph/dijkstra.c, which nothing reads,
-- overlay_graph_simulate_add_nodes, the system calls on sockets, locks, the start and the end of
-- threads, the start-up over pipes to the GXP shell, XML parsing, statistics, printing and the
-- freeing of memory.
pub mod Base
pub mod Std
pub mod Struct
pub mod Comm
pub mod Graph
pub mod Gxp
pub mod Tests
