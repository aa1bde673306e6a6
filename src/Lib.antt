-- ===== src/Lib.antt =====
-- The control-message receiver and the senders of Copa.
--
-- The program is a sender and receiver of the congestion control Copa. Its receiver gets, besides
-- the packets, the downlink control messages (DCIs) of the cellular base station, and takes the delay
-- of retransmissions in the radio link out of the delay that the sender sees. This development
-- models the receiver's part: the messages arrive in datagrams, are decoded and put into one ring for each
-- cell; the rings are copied into arrays in the order of time; the clock of the messages is brought
-- in line with that of the packets; from the arrays comes a trace of the subframes, by which the
-- reordering buffer of the base station is followed; and the packets that waited in that buffer, in
-- the list of the last packets, get the mean delay of packets before them. The acknowledgements carry
-- the adjustment to the sender, whose controller takes it off the round-trip time and sets its window
-- and its rate by the least of these times. That controller is modelled too, with two others, the
-- sender that calls them for what it sends and receives, and the generator of its flows.
--
-- The files, and the code that each is about:
--   Prelude      shared names: tests on numbers, lists, integers (Prelude/Int), machine words
--                (Prelude/Word); no code of the program.
--   Arrays       ngscope_util.cc: sums, extremes, searches, nearest neighbours. `qsort` is a parameter.
--   Tti          ngscope_util.cc: subframe numbers modulo 10240.
--   Sync         ngscope_sync.cc: the choice of the clock offset.
--   Dci          ngscope_dci.h, ngscope_dci.cc: the rings and their common window. DciCell is
--                ngscope_dci_cell_t, DciCa is ngscope_dci_CA_t, ca_insert is ngscope_dci_CA_insert.
--   Extract      ngscope_dci.h, ngscope_dci.cc: extract_single_cell and the functions on the arrays.
--   DciRecv      ngscope_dci_recv.cc: decode_dci and store_dci are the two halves of recv_one_dci,
--                recv_buffer is the function of that name, drain the inner loop of the threads.
--   ReTx         ngscope_reTx.h, ngscope_reTx.cc: the reordering buffer; ReTx/Trace has the traces,
--                ReTx/BurstStart the search for the first packet of a burst.
--   PacketList   ngscope_packet_list.h, ngscope_packet_list.cc: the list of packets.
--   Client       ngscope_client.cc: enqueue_pkt, tx_pkt_ornot and send_pkt_list; Client/Handling has
--                copy_dci_data_from_struct and pkt_handling, which put the parts above together.
--   Double       no code of the program: the operations on a double, as a record, and the laws of its
--                order, which whole numbers meet.
--   RttWindow    rtt-window.hh, rtt-window.cc: RTTWindow and its ExtremeWindow.
--   Estimators   estimators.hh, estimators.cc: averages and counters.
--   Copa         markoviancc.hh, markoviancc.cc: MarkovianCC. Copa/Delta is update_delta, Copa/Pace
--                update_intersend_time, Copa/Ack has onACK and onPktSent, Copa/Config
--                interpret_config_str; Copa/Reach has the events as steps, Copa/Session runs of events
--                as the calls in ctcp.hh give them.
--   Remy         memory-default.hh, memory-default.cc: the memory of a sender. Remy/Range is
--                MemoryRange, Remy/Whisker a rule, Remy/Tree WhiskerTree, Remy/Rat rat.hh and rat.cc,
--                Remy/Controller remycc.hh and remycc.cc.
--   Ctcp         ctcp.hh: the sender, with its controller as a parameter. Ctcp/Send and Ctcp/Receive are
--                the two halves of a round of send_data, Ctcp/Handshake is tcp_handshake, Ctcp/OnCopa
--                has MarkovianCC, RemyCC and DefaultCC as such controllers; Ctcp/OnRemy is
--                about the flows of the second.
--   DefaultCc    congctrls.hh: DefaultCC, a controller in the manner of TCP Reno.
--   Traffic      traffic-generator.hh: the parameters and the loop over the flows.
-- A module named Runs holds tests and the theorems at concrete inputs.
--
-- Numbers. An unsigned number is a natural number, and wraps around where the code can make it do so;
-- int and long are integers, whose own overflow is not modelled. An access outside an array, a
-- division by zero and a null pointer are the value `none` (or `fault`) of the function that comes to
-- it. Where the code reads `dci[-1]`, what it reads is a parameter. A list stands for the
-- elements of an array in use; arrays of a fixed size keep it.
--
-- Loops are recursion on a list or on the number of rounds left. Five have fuel. The loop over a
-- datagram: each accepted message moves the index on, inside the buffer, so that one round more than the
-- buffer has bytes is enough. The loop that sends, up to a number that the window does not admit. The
-- loop over the changes of a value, which grow; that over the arguments of a text, one pass for each;
-- and that over the flows, one for each cycle.
--
-- A double is a value of a type that is a parameter, with the operations of Double; where a theorem
-- needs the order, it takes the laws of IsOrdered. They hold of the doubles, whose NaN is not a
-- number for IsNum; of the rounding nothing is said but that subtraction keeps the order. The
-- counters of the controller are natural numbers. `assert` is in force in markoviancc.cc; a failed
-- one is `none`. `size()` in the assignment of onPktSent may be read before or after the insertion,
-- which is a parameter.
--
-- The rules of Remy. A search gives a pointer into the tree; here it gives the rule with the tree in which
-- that rule is marked as used. The median of the values that a range has seen is a parameter. A tree is
-- a leaf with one rule or a node with children, which is all that its constructors make.
--
-- The sender. The readings of the clock and what the socket gives are inputs, one record for each
-- round; the loop over the rounds goes as far as there are inputs.
--
-- Not modelled: the other congestion controllers (pcc-tcp.cc, cubiccc.cc, kernelTCP.hh);
-- the estimators that nothing calls; the main programs; sockets; threads and their locks (an
-- operation is one step); printing and logging; generated code; and functions that nothing calls.
pub mod Prelude
pub mod Arrays
pub mod Tti
pub mod Sync
pub mod Dci
pub mod Extract
pub mod DciRecv
pub mod ReTx
pub mod PacketList
pub mod Client
pub mod Double
pub mod RttWindow
pub mod Estimators
pub mod Copa
pub mod Remy
pub mod Ctcp
pub mod Traffic
pub mod DefaultCc
