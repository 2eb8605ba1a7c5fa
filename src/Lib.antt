-- ===== src/Lib.antt =====
-- Models of the distributed algorithms of distbench-py, and what holds of them.
--
-- Bracha.antt and the files below it are distbench-py/distbench/algorithms/bracha.py, Bracha's
-- reliable broadcast: Ledger has the five dictionaries and their reads and writes, Node the state
-- and the handlers, split where the code awaits, Slot the view of one message id, Effect and Turns
-- what the handlers do to it, and System the network with faulty nodes and its event loops.
-- Dolev.antt is distbench-py/distbench/algorithms/dolev.py, the layer below: State, Graph
-- (`distPaths`), Handlers (`dolev`, `my_deliver`), Soundness, Machine (one node with its event
-- loop), Empties.
-- Optimized.antt is distbench-py/distbench/algorithms/bracha_optimized.py, on the same ledger:
-- Committee (`calculate_eligible_nodes`), Node, Handlers, Start (`on_start` and the event loop),
-- Expected and Effect (what the handlers do to a slot) and Outsider.
-- Framework.antt is the node that runs an algorithm, distbench-py/distbench: Messages (messages.py),
-- Community (community.py), Node (node.py: the state and `handle`) and Lifecycle (the coroutine
-- `_monitor` as a position and one round of its loop, `start`); Node/Barrier and Node/Wakeup are
-- about its waits.
-- Naive.antt is distbench-py/distbench/algorithms/dolev_naive.py: Paths (the greedy `distPaths`) and
-- Node. Dolev/Broadcast.antt has the broadcasts of own messages of dolev.py.
-- Ring.antt is distbench-py/distbench/algorithms/chang_roberts.py: Node (the handlers), Flight (an id
-- on its way round the ring), Turns, Election (the ring of nodes). Basic.antt is
-- distbench-py/distbench/algorithms/bracha_basic.py. Framework/Connection.antt is connection.py.
-- Chain.antt is distbench-py/distbench/algorithms/message_chain.py, and Framework/Signing.antt
-- signing.py; the cryptography is a parameter.
-- Framework/Tree.antt is distbench-py/distbench/algorithm.py and decorators.py: an algorithm with its
-- child algorithms as a tree. Init is the constructor that @distbench makes, SetUp what a node sets,
-- Collect the collection of handlers, Route and Checked the routing of a message to a handler,
-- Keystore the keys of the children, Deliver the way from a layer to its parent, Peer the calls of
-- peers. Framework/Encoding.antt is distbench-py/distbench/encoding.
-- Transport.antt is distbench-py/distbench/transport: Framing, Server (one connection of tcp.py, from
-- bytes), Ends, Requests (the client's bytes, and what a connection promises), Connection, Exchange
-- and Failure (the client), Local (offline.py and delayed.py).
-- Launch.antt is distbench-py/distbench/main.py and config.py: Config, Mappings (the numbers and
-- sockets), Nodes, Offline and Together (run_offline), Tcp and Placed (run_local, run_network).
-- Simple.antt is distbench-py/distbench/algorithms/simple_broadcast.py, with Carried its layers over the
-- interfaces of Framework/Tree/Deliver, and Simple/Echo.antt echo.py.
-- The framework calls an algorithm through Route, on what Transport carries: Node.handle (Framework)
-- is the server of Transport, and the instance that Launch makes is the tree of Framework/Tree.
-- Remote.antt puts the three together: a node as the server of a connection, whose messages reach the
-- handlers of its tree; Remote/Returned.antt is a call of a peer from end to end.
-- Scripts.antt is distbench-py/scripts/generate_configs.py: the ring and generate_config, with Connected
-- (what the ring links) and Configured; Topology and Undirected are generate_topology.
-- Prelude has Python's sets, dictionaries and exceptions; Tests runs the models.
--
-- Node ids, message ids and phases are strings, as in the code. A set is a list without
-- repetitions, a dictionary an association list. `time.time()`, `uuid.uuid4()` and networkx are
-- arguments. An exception is a value of `Result`. A coroutine is a chain of turns between its
-- awaits, so that every interleaving on an event loop is a sequence of steps. Only the loop of
-- Transport/Server uses fuel, one more than the bytes left of the stream; each round reads four.
-- In the network of Bracha nodes, Dolev is a reliable channel: what it delivers from a correct
-- source was handed to it by that source.
-- Not modelled: logging, sleeping, the formatting of reports, the parsing of the command line, the
-- sockets, tasks and locks of asyncio, the other scripts and the other two templates of the
-- repository. Byte strings are lists of numbers; json, msgpack, YAML and networkx are parameters.
pub mod Prelude
pub mod Bracha
pub mod Dolev
pub mod Framework
pub mod Transport
pub mod Launch
pub mod Optimized
pub mod Naive
pub mod Ring
pub mod Basic
pub mod Chain
pub mod Simple
pub mod Remote
pub mod Scripts
mod Tests
