-- ===== src/Lib.antt =====
-- THKVS, a key-value store on several servers: src/driver.cpp places the keys on a ring of hashes
-- and asks three servers for each request, src/data.cpp keeps the entries in files, src/worker.cpp
-- runs the client's jobs, src/msg_handler.cpp turns calls into messages and messages into calls, and
-- the code in src/network moves messages between the processes.
--
-- The parts and their files:
-- - Base: numbers, words, texts, association lists and lists, for all parts.
-- - Queue: the blocking queue of src/network/msg_queue.hpp, `push`, `pop` and `empty`.
-- - Crc: `getCRC` of src/crc.cpp with its table, and in Crc.Reference the bitwise definition.
-- - Message: the messages of src/network/message.hpp. Message.Fields has their `serialize` functions,
--   for any archive, and Message.Saved what they save and load.
-- - Ring: the map from hashes to hosts of src/driver.cpp and the loops over it. Ring.Cycle,
--   Ring.Distinct and Ring.Count are about the loops, Ring.Sorted and Ring.Succession about the map.
-- - State: the state of one server process, the record `Node`: `Driver`, `Worker`, `Data` and the
--   queues of `manager`.
-- - Send: the sending calls of src/msg_handler.cpp. Jobs: the inserting calls of src/worker.cpp.
-- - Driver: `getHosts`, `put`, `get`, `putReturn`, `getReturn` of src/driver.cpp. Driver.Hosts,
--   Driver.Requests, Driver.Quorum, Driver.ReadQuorum and Driver.Freshness are about them.
-- - Wait: the waits on condition variables, of src/driver.cpp and main.cpp, as the thread that waits and
--   those that notify it without the mutex.
-- - Pause: `setEnableFlag` and its answers. Membership: `addServer`, `removeServer` and the calls at
--   the other servers, with the waits in Membership.Calls. Membership.Arcs and Membership.Start are
--   about the arcs that `addServer` moves, Membership.Copies and Membership.Depart about those that
--   `removeServer` copies, Membership.Around and Membership.Successors about both.
-- - Store: what other threads call of src/data.cpp. Store.Moves is about the ranges to move, and
--   Store.Digits about the numbers in its files.
-- - Disk: the files of src/data.cpp, and the streams that read and write them; Disk.Numbers and
--   Disk.Signed are about numbers and words in them.
-- - Blocks: the loop of `run` of src/data.cpp, the entries in blocks of a range of hashes, a file for
--   each. Blocks puts an entry into a block; Blocks.Serve has requests 1 to 4 and Blocks.Loop request 5
--   and the loop. Lines, Laid, Filled, Cut, Saved and Divided are about one block and its file, Names
--   about the names of the files, Kept about all blocks. Puts, Refinement, Updates, Found, Gets and
--   Sessions are about puts and gets, Ranges, Moved and Handover about a range that moves, Marks, Same
--   and Removal about one that is removed, Covered, Reached, Answers and Twice about the hashes that
--   the blocks hold and the answers that they give.
-- - Tree: the pages of src/btree.cpp, in Tree.Buffers the bytes of a page, in Tree.Nodes and
--   Tree.Entries what is written there and read again.
-- - Cache: the cache of src/hash_cache.cpp, which no other part calls. Cache has the list of the pages,
--   Cache.Pages the pages and their files, Cache.Keys `search`, `get` and `put`, Cache.Start the
--   constructor and `save_cache`. Order, Front and Oldest are about the list, Files and Saves about the
--   files of the pages, Whole, Leads, Reads, Held and Puts about the keys.
-- - Wire: a message as bytes, in src/network/tcp_connection.cpp, and in Wire.Fate its way to the
--   other end. The text archives of boost are the parameter `Archive`, between members and bytes.
-- - Network: the threads of main.cpp and src/network that write and read the connections, several
--   servers at once, with `recv` and `get_writable_msg` of src/network/manager.cpp. Network.Messages is
--   about the messages that wait, Network.Balance and Network.Carried about all that are on their way.
-- - Handler: the loop of `run` of src/msg_handler.cpp. WorkerLoop: that of
--   src/worker.cpp, in two steps for a request; WorkerLoop.Results has the results of requests whose id
--   is in the map in time, WorkerLoop.Early those of the others.
-- - Main: the main thread of main.cpp, the commands of `display` and the rounds of `test`. Main.Script,
--   Main.Queued and Main.Failed are about what is typed, Main.Rounds about the waits.
-- - Tests: four servers on a small ring, a disk without files, a small tree, a small cache, and each
--   result at one input.
--
-- How they correspond: a function keeps its name, in the spelling of this language; it takes the state
-- of the process, `Node`, and returns the next one. A block under a mutex is one step. A call that
-- waits is split at the wait; `none`, or `waits` in Handler, is a call that does not return, or a read
-- out of bounds. A message that is sent stands in `send_que`, and is delivered by handling it at
-- another `Node`; Network has the turns between, in any order. An `unsigned` or an `int` is its bits,
-- a number below 2 ^ 32, and wraps around; a timestamp is an integer. A text is the list of its bytes,
-- and a map of the library is an association list, in the order of its keys where the code walks it.
--
-- In Cache `none` is a pointer that is followed and is null or not set, which the links say for each
-- page, an access out of bounds or a file number above the largest `int`; an `int` is an integer
-- there, a map is a function of the key, and a pointer to a page is its index.
--
-- The main thread takes steps, `display_steps`, as many as are asked for. A thread in a wait looks at
-- the condition, falls asleep if it does not hold, and sleeps until it is notified; a notification
-- before it sleeps is lost.
--
-- The loops round the ring run on fuel, `laps`: two laps, the rest of the first and a whole one. The
-- results on `getHosts` and on the successors of an arc say when it is enough. A loop over the list
-- of hosts, the copies of a node or the bytes of a text is recursion on it. The loop of `save_cache` has
-- a turn for each page of the cache, and Cache.Saves says why this is enough; the one over the file of
-- the keys has a turn for each byte, and reads at least one in each.
--
-- A variable that the code leaves unset is an argument, so that what is proved holds for all that it
-- may hold: the array `tmp` of the data thread, the timestamp in its request 4, the fields of a node
-- of the tree that are not read from the file. What `getTime` returns is an argument too, and so is
-- `freed`, what a text reads as when its memory has been freed, which `getReturn` does with the value
-- of an entry that it has erased. A file is a function of its name, or of the place in it.
--
-- Not modelled: the sockets of src/network, and which server accepts at an address, the archives of
-- boost, the start of the threads in main.cpp, the times it takes, what is printed, and the functions
-- of src/btree.h that have no body. The two blocks of `put` and `get` under the mutex, in which the
-- flag is read and the entry is opened, are run together; `start_put` and `start_get` are the second
-- alone.
pub mod Base
pub mod Queue
pub mod Crc
pub mod Message
pub mod Network
pub mod Ring
pub mod State
pub mod Send
pub mod Wait
pub mod Jobs
pub mod Driver
pub mod Pause
pub mod Membership
pub mod Store
pub mod Disk
pub mod Blocks
pub mod Tree
pub mod Cache
pub mod Main
pub mod Wire
pub mod Handler
pub mod WorkerLoop
pub mod Tests
