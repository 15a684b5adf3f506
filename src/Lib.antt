-- ===== src/Lib.antt =====
-- A model of hystack, a cluster agent in C++: a node process takes tasks from a server (to change
-- the files of an nginx, to start and stop it), answers each of them, and stands on a library of
-- kits (memory pools, ring buffers, codecs, timers, a parser of configuration files, event loops).
--
-- The parts, their files under src/, and how they meet:
-- * nodes/nodes_process.cpp and nodes/nodes_tasks.cpp, the handlers of the tasks, and what they do
--   to the disk and the server: NodeTasks, with Disk (the operations on files), Handlers and
--   Dispatch. A handler of the source, nodes_task_ssl_process say, is the function of that name;
--   its try and catch is the function try. The content of a file arrives in base64 and is read
--   with Base64.conv_base64_decode.
-- * kits/module/modules_parse.cpp, the parser of the configuration: ConfParser (what a line is
--   read as) and ConfParser.Parser (the handler and the loop). A directive goes to the first command
--   with its name, which may read on from the same stream for a block.
-- * core/core_string.cpp, comparison without case and hexadecimal numbers: CoreString.
-- * kits/method/circuit_queue.hpp, the ring buffer of bytes: CircuitQueue.
-- * kits/conv/conv_base64.cpp, the two alphabets of base64: Base64.
-- * kits/conv/conv_rc4.cpp, RC4 with its hexadecimal text: Rc4.
-- * kits/alloc/alloc_pool.cpp, the memory pool of a connection: AllocPool.
-- * kits/event/event_rbtree.cpp, the red-black tree: Rbtree, with rbtree_delete in Rbtree.Delete.
--   Nodes stand in a memory, a partial function from addresses; Rbtree.Shape has trees as values,
--   Rbtree.Owns says that a memory holds a tree, and Rbtree.Colors has the balancing on values. The
--   modules from Rotate to Promise follow rbtree_insert, Beside to Fixup the loop of rbtree_delete,
--   and Unlink to Pruned the rest of it, from the choice of the nodes on.
-- * kits/event/event_timer.cpp, the timers of the events in that tree: EventTimer. core_current_msec
--   is an argument, and so is the handler of an event.
--
-- Prelude holds what the parts share: tests into Bool, lists read and written by an index, copies
-- of bytes, bitwise facts below 256 and the integers that C's signed types need. The child modules
-- of a part are named for what they prove, and Tests runs the definitions and the theorems.
--
-- Conventions. A byte is a number below 256 and an array is a list of numbers; what the source
-- does on an index out of range is written out in the definition, as `none` or `faults` where it is
-- undefined. A machine integer that can wrap around has its `% 2 ^ w` in the definition. State is
-- passed along: an operation takes a queue, a pool, a parser or a node and returns the next.
-- An exception is a value, `throws`.
--
-- Fuel. Every loop is structural but those of parse_lines, of digits and of the tree and the timers.
-- A loop down or up a red-black tree takes at most as many turns as the tree is deep, which is twice
-- the logarithm of its size; the walk over all timers takes one for each, and so does expire, whose
-- fuel also bounds the turns of each search. parse_lines has a number of turns, as its commands may
-- read lines themselves; one turn for each line and one more are enough. digits, which prints a
-- number, takes as many turns as the number.
--
-- Arguments, for what is not under src/: the addresses that malloc returns, the text that a shell
-- command prints, whether a directory or a file can be opened, the end of an exchange on a socket,
-- and what the JSON library reads in a task.
--
-- Not modelled: input and output, the calls of the operating system, logging, threads, and
-- src/kits/conv/conv_json.cpp, which is a copy of cJSON.
pub mod Prelude
pub mod CircuitQueue
pub mod Base64
pub mod Rc4
pub mod AllocPool
pub mod ConfParser
pub mod NodeTasks
pub mod CoreString
pub mod Rbtree
pub mod EventTimer
