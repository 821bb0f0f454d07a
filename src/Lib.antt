-- ===== src/Lib.antt =====
-- Verification of mzx, a C++ library of containers, algorithms, timers, events and networking.
--
-- The parts and their files. Paths of the code count from the repository's root.
--
-- - include/mzx/timer_manager.h and src/timer_manager.cpp, timers on a wheel of five levels: Timer.
--   Timer/Defs has the state, TimerNode and TimerManager, and InsertTimerNodeToWheel, whose choice
--   of a slot is `place`; Timer/Ops has FindUsingTimerNode, LeftTime, SetTimer,
--   MoveTimerNodeToFreeList and DelTimer; Timer/Update has TimerWheelCascade and Update. A node is
--   named by its place in node_list_, and the intrusive lists are lists of these names. What a
--   callback does is a parameter: a list of calls of SetTimer and DelTimer that may depend on the
--   manager. The log of calls is the model's own.
-- - include/mzx/algorithm/sort: Sort, with a module for each of InsertSort, SelectSort, BuddleSort,
--   ShellSort, HeapSort and QuickSort. A range [begin, end) is a list and an iterator an index;
--   reads and writes outside of it are faults. The comparison is a parameter, and Order says what is
--   asked of it. These files share no state with the other parts.
-- - include/mzx/data_structure/list.h and src/data_structure/list.cpp, the intrusive lists that the
--   timers and the events use: Links, on a store of prev_ and next_ pointers.
-- - include/mzx/data_structure/rbtree.h and src/data_structure/rbtree.cpp, the intrusive red-black
--   tree: RbTree. RbTree/Store has the fields of the nodes and what sets them, RbTree/Insert the
--   insertions, RbTree/Search the searches with Next and Prev, and RbTree/Erase the erasure, which
--   is only run in RbTree/Tests. Where the code has the same lines for the left and for the right,
--   the model has them once with the side as an argument. RbTree/Shape says which tree a store
--   holds, RbTree/Repair what the insertion makes of it, and RbTree/Sequence what a tree stands
--   for: the sequence of its nodes.
-- - include/mzx/data_structure/list_safe_node.h, nodes with a count of references: SafeList, on the
--   list of the nodes' names. A name is never given twice, and a name that is not on the list is
--   freed memory. The events, the entities and the systems keep their lists this way: SafeList/Laws
--   has the counts of references, SafeList/Detaches what Detach leaves, SafeList/Walk the loops that
--   hold the node they are at, and SafeList/View the data that the users see.
-- - include/mzx/event.h: Event, and Event/Manager for EventManager. A listener is a number, and what
--   its call does to the event (AddListener, RemoveListener, RemoveAllListener, Invoke) is a
--   parameter. The log of calls is the model's own.
-- - include/mzx/ecs.h and src/ecs.cpp: Ecs. Ecs/Entities has EntityManager and Entity; its four
--   events are a parameter there, and Ecs/Entities/Dispatch gives them listeners that call the
--   manager. Ecs/Entities/Visits has the loops with callbacks, and Ecs/Systems EntitySystemManager.
-- - include/mzx/spsc_queue.h, a ring for one writing and one reading thread: Spsc. Spsc/Ops has Push
--   and Pop, each run alone, and Spsc/Threads both as steps of two threads in any order. Pop writes
--   `*data = *tmp` where `tmp` is the object, so the object type's operator* is a parameter.
-- - include/mzx/net/net_define.h: Net/Ids, connection ids of 64 bits and their fields.
-- - include/mzx/net/net_buffer.h: Net/Buffer, the positions of a buffer; size_t has 64 bits.
-- - src/net/net_master.cpp: Net/Master, what the master keeps of its acceptors and connectors and
--   the events that it handles, and Net/Master/Requests, what it asks of the workers. The queues and
--   the free lists that it shares with a worker are lists. Of NetWorker::GetOutputEvent, which Update
--   calls and no file defines, there is only a parameter.
-- - src/string/unicode_util.cpp, the walk over the characters of a UTF-8 string: Unicode.
-- - include/mzx/string/string_util.h: Strings, which has Split on lists of bytes, and Strings/Trim.
-- - src/string/utf8_string.cpp: Strings/Utf8, strings with the offsets of their characters.
--
-- Base passes on what the modules share of the standard library, Run is the outcome of a call
-- (returned, aborted by MZX_CHECK, faulted, or out of fuel), and Array has indexed lists.
--
-- Bounds and fuel. The times, delays and intervals of the timers are int64_t in the code and natural
-- numbers here that do not overflow: a negative delay or interval is outside of the model. Indices
-- in the sorts are not bounded either, where the code has an int for the index in the last loop of
-- HeapSort, which can overflow beyond 2^30 elements. The loops whose length is known beforehand are
-- structural recursions on it.
-- __AdjustHeap has one more unit of fuel than there are elements, which is enough since the index
-- grows in each call; __QuickSort has one more than the length of its range, and its inner loops the
-- length of the part that is left; the gaps of ShellSort get one more unit than the length, and its
-- inner loop one more than the position. A slot of the wheel is worked off with one more unit than
-- it has timers, and those of the argument `extra`: the calls that it makes put no timer back, under
-- the conditions of the theorems. That a call returns is part of every theorem on such a loop.
--
-- The loops of the tree have one more unit of fuel than it has nodes; that this is enough is part
-- of the theorems. Erase in a corrupted tree may run out of it where the code does not end.
--
-- Invoke, UpdateAll, RemoveAllEntity and ForeachEntity go on as long as listeners, systems and
-- callbacks add to the list they walk, so the code need not return. Their fuel bounds the rounds and
-- the depth of nested calls, and running out of it is an outcome of its own. RemoveAllListener and
-- RemoveAllSystem have one unit for each node, which is enough since they call nothing that adds one.
--
-- Not modelled: Product and Consume of SPSCQueue, which do not compile, MergeSort, CountSort,
-- BucketSort and RadixSort, SimpleEventManager, which passes its calls on, Concat, math, the
-- command line, threads, the workers of the network, and Init and Uninit of its master. A
-- listener, a callback or a system is not memory here: that one which removes itself is deleted
-- while it runs is outside of the model. Sockets, signals, clocks and the logger only call the
-- system. Of the timers, Uninit frees memory and is left out.
pub mod Base
pub mod Run
pub mod Array
pub mod Order
pub mod Ecs
pub mod Event
pub mod Links
pub mod Net
pub mod RbTree
pub mod SafeList
pub mod Sort
pub mod Spsc
pub mod Strings
pub mod Timer
pub mod Unicode
