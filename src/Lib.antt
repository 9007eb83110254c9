-- ===== src/Lib.antt =====
-- distributedsim: a C++17 framework that simulates a distributed system on threads. A
-- HardwareManager (include/hardware_manager.hpp) owns the nodes (include/node.hpp), which exchange
-- messages; the protocols (protocols/) are kinds of nodes, and all random choices come from one
-- generator (include/rng.hpp).
--
-- What models what, with paths from the root of the repository:
-- - Rng: include/rng.hpp. `next` is operator(), `draw` and `draw_below` its two overloads with a
--   range, `get_distinct` and `choose_weighted` the functions of these names. The state of the
--   generator is passed on. 64-bit words keep their wrap-around, `u64`.
-- - Common: include/common.hpp, satisfies and vec_set on vectors as lists.
-- - Manager: the std::map of nodes of include/hardware_manager.hpp, a list of entries with rising
--   ids: has_bigger_id, next_id, get, fail, the ids that gen_id and
--   get_random_node choose, and Manager.Neighbours for iter_neighbours and get_neighbours.
-- - Node: include/message.hpp and include/node.hpp, the two queues of a node, with enqueue and
--   handle_one_message; a call of handle_message is the outcome `handled`. Node.Drain runs any
--   sequence of the two, each of which holds the lock of the node.
-- - Chord: protocols/chord.hpp. A node is its id and the list of all nodes; handle_message returns
--   what it does with the message. Chord.Hops composes the nodes to the way of a message.
-- - Tinycoin: protocols/tinycoin.hpp, the block tree of a TinyNode: handle_block and update_head.
--   `confirm` and `unconfirm`, which are virtual, are parameters, and so is the type of amounts.
-- - Miner: protocols/tinycoin.hpp, transactions: block_value, confirm, unconfirm and
--   handle_transaction of TinyNode and of TinyMiner, and MinerPolicy::on_mined. The operations on
--   amounts are parameters.
-- - Peer: protocols/tinycoin.hpp, the messages: set_data, forward, handle_message and start_message
--   of TinyNode, and Peer.Mining for TinyMiner and its policies. A node's state is the Chain of
--   Tinycoin whose `rest` is the Miner of Miner; Peer.Seen and Peer.Once for what comes twice.
-- - Selfish: examples/tinycoin/selfish.hpp, the coordinator of the selfish miners and its policy, over
--   the same node.
-- - Workers: the threads of include/hardware_manager.hpp as a step relation: run with its workers,
--   send_message, pause, resume, stop, and the changes that pause guards. The mailboxes are those of
--   Node. Workers.Sending has send_message as a function.
-- - Cuckoo: the hash set of include/cuckoo.hpp, for keys of 64 bits, on a list; Cuckoo.Slots for its
--   slots, Cuckoo.Keys for count, erase and clear, Cuckoo.Elements for iteration; Cuckoo.Content,
--   Push, Evict, Grow, Rehash and Insert for the steps of insert, and Cuckoo.Members, Removed, Sets,
--   Calls, Equal and Copied for the set that it stands for. The fuel of insert bounds the nested rehashes, each of
--   which doubles the table, that of reserve the doublings. Memory never runs out here.
-- - Network: the graph of include/graph_hwm.hpp, over an interface of sets of which the hash set is an
--   instance (Network.Hashed); Network.Edges for its edges and Network.Ids for the ids of its nodes.
-- - Experiment: the statistics of examples/tinycoin/main.cpp, with Experiment.MainChain and
--   Experiment.Splits and Observed for its two loops, Experiment.Chains for the block chain of a TinyNode, and
--   Experiment.Setup for the choice of the miners (miner_chooser.hpp), their powers (hashpower.hpp,
--   Experiment.Powers) and the main loop; Experiment.Drawn and Experiment.Connected for the network that
--   it makes of a random graph. The fuel of mark_chain is more than the head's id; that of the loop that
--   balances the powers is the number of its rounds, and how many are needed depends on the numbers
--   drawn.
-- - Config: include/config.hpp, the lines of a configuration file (Config.Entries) and get (Config.Files).
-- - Graph: include/graph_gen.hpp, gen_conn_erdos, where the rounded square root is a parameter,
--   taken to be right of numbers below 2 ^ 50 (in double it is not from there on), and
--   Graph.Preferential for gen_barabasi_albert; Graph.Joined for lists of edges, Graph.Erdos, Simple,
--   Whole and Grown for the lists that the two return.
-- - Memory: include/mem_wrap.hpp. Graph.Printer: examples/graph_gen.cpp. Chord.Program:
--   examples/chord_hop_distribution.cpp, with Chord.Shares for what it prints. Experiment.Program: what
--   main.cpp reads from its configuration, prepares and prints, and the lines of its status thread;
--   Experiment.Main: the whole of it. Manager.Build: the constructor, run_lock,
--   add_node, count_neighbours and gen_message of HardwareManager.
-- - Base: the names of the libraries, Boolean tests and lists.
--
-- A function whose C++ loop has no bound takes fuel. Chord.Hops.walk: one more than the bits of the
-- distance are enough. update_head: more than the height of the new head is enough, and
-- handle_block gives it that much. handle_block itself: the theorems on receiving give the fuel. In
-- the draws of get_random_node, gen_id and start_message the fuel is the number of draws; how many
-- are needed depends on the numbers drawn.
--
-- Not modelled: include/concurrentqueue.hpp, which is a copy of another project;
-- examples/tinycoin/static_members.cpp and src/rng.cpp, whose variables are arguments here; numbers of
-- the configuration beyond int, where the program converts to it. In the two experiments what the
-- threads do is a parameter, and Workers has the threads themselves.
mod Base
pub mod Common
pub mod Rng
pub mod Manager
pub mod Chord
pub mod Node
pub mod Miner
pub mod Graph
pub mod Peer
pub mod Selfish
pub mod Workers
pub mod Cuckoo
pub mod Network
pub mod Experiment
pub mod Config
pub mod Memory
pub mod Tinycoin
