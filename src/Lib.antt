-- ===== src/Lib.antt =====
-- A model of yamal, a library for messages in memory-mapped files (src/ytp, include/ytp).
--
-- A yamal file holds up to 16 doubly linked lists of messages behind a header. A writer reserves space
-- at the end of the file, fills it, and commits it to a list by an atomic exchange of the last node's
-- link; readers walk over the links. The lists 0 to 3 hold data, announcements of streams,
-- subscriptions and indices. A cursor walks over the data and the announcements, and calls the
-- callbacks that its clients registered; the streams of a file are found by the names of their peer
-- and channel.
--
-- The files:
--   Base            lists, bytes and tests that all parts share.
--   Yamal           src/ytp/yamal.c. State: struct ytp_yamal, ytp_hdr and ytp_mmnode as records, and
--                   the calls that fail as a state monad with errors. Pages: the mapping of pages
--                   (get_mapped_memory, mmlist_pages_allocation, ytp_yamal_allocate...). Reserve:
--                   ytp_yamal_reserve. Commit: ytp_yamal_commit and ytp_yamal_sublist_commit. Iter:
--                   ytp_yamal_begin, next, prev, seek, tell, read. Close: ytp_yamal_close and closed.
--                   Init: ytp_yamal_init_3. Chain: what it is for nodes to form a list. Publish: the
--                   invariant of a file, and reserve, fill and commit together. Race:
--                   ytp_yamal_commit, ytp_yamal_close and readers of one list as processes that take
--                   turns, one access to the shared nodes at a time.
--   Message         time.cpp, data.c, announcement.c, subscription.c and index.c of src/ytp: what the
--                   payloads of messages hold, written and read through the operations of Yamal.
--   LazyRemVector   include/fmc++/lazy_rem_vector.hpp, over any type with a test for equality.
--   Cursor          src/ytp/cursor.c. Array: the arrays of callbacks with removal under a lock.
--                   Register: the table of arrays and the registration. Poll: ytp_cursor_poll.
--                   Consume: ytp_cursor_consume.
--   Streams         src/ytp/streams.c. State: the map of names. Search: ytp_streams_search_ann.
--                   Announce: ytp_streams_pred, ytp_streams_lookup and ytp_streams_announce. Close:
--                   ytp_stream_close of src/ytp/stream.c.
--   Control         src/ytp/control.cpp. Registry: the tables and process_ann. Messages: the walk
--                   over the announcements for a handler. Decl: the declarations, the commits and
--                   the calls on the file. Walk and Insert: what the walks before and behind a
--                   written announcement read; Declares, Commits: what follows for the calls.
--   Timeline        src/ytp/timeline.cpp. Prefix: which channels a prefix reaches, and which prefixes
--                   an announced channel looks up. Register: the registration of callbacks.
--                   Poll: the polls. Round: what a walk over a vector of callbacks calls.
--                   Delivery: which callbacks a channel has after registrations and announcements,
--                   from Tables, Given and Reached. Announced: the marks of announced numbers.
--   Sequence        src/ytp/sequence.cpp. Calls: the calls on a control and a timeline. Shared: the
--                   count of references. Delivery: the registrations over the tables of the control.
--   Heap            include/uthash/utheap.h: heaps in an array, by the way up (Up), the way down (Down)
--                   and the number of elements (Count). PrioQueue: src/fmc/prio_queue.c.
--   Reactor         src/fmc/reactor.c, and the calls of src/fmc/component.c that feed it. Run: the
--                   rounds. Expire: the schedule. Rounds and Once: what a round runs; Twice: a
--                   component that is queued twice.
--   Tests           small files, and the theorems at them.
--
-- State and pointers. A pointer into the file is its offset, and an iterator is the offset of the
-- `next` field that it points to, which is 8 behind its node. The headers of nodes, the heads of the
-- lists among them, are a map from offsets, apart from the bytes of the payloads. Words are natural
-- numbers with the wrap-around at 2 ^ 64 written out. The host is little-endian, so that the
-- conversions of src/ytp/endianess.h change nothing.
--
-- The operating system is the record Os of the state: what fmc_falloc and fmc_fview_init answer, and
-- whether mutexes can be locked. That it gives a writer what it asks for is the hypothesis IsReliable
-- of the theorems that need it. A client's callback is a parameter.
--
-- Loops that end for another reason than their arguments run on fuel, and end with `hang` without it
-- (with `none` in PrioQueue and Reactor). For a walk over a list more fuel than the list has nodes
-- is enough. For ytp_yamal_reserve as many
-- rounds are enough as a node's room in a page goes into the offset in the page (HasRoom); a node that
-- does not fit a page has no room.
--
-- Not modelled: interference with other calls than commit, close, term and next; weak memory; a weak
-- exchange that fails without cause; lack of memory; the creation and release of mutexes, of the
-- condition variable and of objects; the auxiliary thread, which maps pages ahead and writes them out;
-- src/ytp/glob.cpp and api.cpp; the rest of the supporting library fmc, the tools and the
-- bindings. What the components of a reactor do is a parameter, and so is the order of a heap.

pub mod Base
pub mod Control
pub mod Cursor
pub mod Heap
pub mod LazyRemVector
pub mod Message
pub mod Reactor
pub mod Sequence
pub mod Streams
pub mod Tests
pub mod Timeline
pub mod Yamal
