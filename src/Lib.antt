-- ===== src/Lib.antt =====
-- Linux_system is a collection of separate C programs. This library models the key-value server
-- of multi_thread_server, the converter of utf8_utf16_transform, the allocator of
-- dynamic_memory_allocator, and of shell_parser the command line of its ciphers and the Polybius
-- cipher.
--
-- Server.Hash is multi_thread_server/src/utils.c and Server.Map is
-- multi_thread_server/src/hashmap.c. A map is a record with the fields of hashmap_t, its slots a
-- list; each function takes a map pointer (none for NULL) and returns an Outcome: the map left
-- behind, the returned value and errno. The functions of Server.Map have the names of the C
-- functions; their loops are put_loop, index_loop and get_loop. The lookups count their rounds in
-- the code, as here. The loop of put has no bound in the code; it runs on as many rounds as the
-- map has slots, and Server.Map.Client.run-IsValid shows that these are enough. Server.Map.Valid
-- has the invariant. One call is one critical section of write_lock; interleavings inside a call,
-- in particular between the two lookups and the write of delete, are not modelled. A map of 2 ^
-- 31 slots or more, whose indices do not fit an int, is not modelled either.
--
-- Server.Expiring is multi_thread_server/src/extracredit.c, the same map with entries that
-- expire; its names begin with timed_. The readings of clock() and CLOCKS_PER_SEC are parameters.
--
-- Server.Queue is multi_thread_server/src/queue.c: the nodes stand in a store where a pointer is
-- an index, a freed node is an empty cell, and the semaphore is its count. Server.Queue.Threads
-- interleaves calls: enqueue is one step, and dequeue two, the wait on the semaphore and the
-- section that holds the lock. The loop of invalidate_queue has a round for each cell of the
-- store and one more.
--
-- Server.Cream is the request handlers of multi_thread_server/src/cream.c, its worker loop and
-- server_init. They use the map and the queue. The robust I/O of multi_thread_server/src/csapp.c
-- is a parameter, the record Rio of a read and a write on a connection; Server.Cream.Service has
-- the laws of a connection on which nothing fails, which the theorems on the wire format assume.
-- A request of a worker is served to its end before the next one: the interleaving of several
-- workers on the map is not modelled. parse_args and the socket set-up of main are not modelled.
--
-- Utf.Utf8 is the glyph functions of utf8_utf16_transform/src/utf8.c, Utf.Utf16 those of
-- utf16le.c, utf16be.c and utf.c beside it, Utf.Stream the six conversion loops with their reads
-- and writes (wrappers.c), and Utf.Convert the choice of a conversion and the run of main (utf.c
-- and main.c there). A file is its list of bytes, and a read gives as many bytes as it asks for
-- while there are any. Variables that the code leaves uninitialised are parameters. The loops run
-- on fuel, one round for each byte and one for the end of the file, which the theorems on files
-- show to be enough. The machine is little-endian.
--
-- Cipher.Args is validargs of shell_parser/src/hw1.c with the alphabets of
-- shell_parser/src/const.c. A string is its bytes without the NUL; what C leaves undefined has no
-- result.
--
-- Allocator is dynamic_memory_allocator/src/sfmm.c on a memory of words: write_block, the free
-- lists, find_fit, place and the coalescings; Allocator.Calls is extend_heap, sf_malloc, sf_free
-- and sf_realloc with sfutil.c as a parameter. The loops over a list and over new pages are on
-- fuel; the walk needs more than the length of the list. Allocator.Layout states the heap as a
-- row of blocks, of which the free ones stand in the list of their size; Segments, FreeList,
-- Branches, Unlinking and Removal below it carry the linked lists, Writing, Changes and Relisting
-- the three kinds of change to a row, and Coalescing, Freeing, Placing, Search, Allocation,
-- Lowering, Growth, Rounds, Supply, Start and Resizing the operations. The loop of sf_malloc
-- needs at most one round more than the pages that are left, which Rounds and Supply show with a
-- system that has some number of pages and then fails. A size of 2 GB or more in a header is read
-- with the sign of an int, as the code does; the theorems on the row of blocks are about heaps of
-- less than 2 GB. A sf_realloc that moves a block is a definition without a theorem.
--
-- Cipher.Polybius is the Polybius part of shell_parser/src/main.c: the table from key and
-- alphabet, the encoding and the decoding of the input; the search in the table is on fuel for
-- the 257 characters of the array.
--
-- Not modelled: multi_thread_server/src/csapp.c, a copy of a textbook's library; the buffers of
-- shell_parser/src/hw1.c and the fractionated Morse loops of shell_parser/src/main.c that use
-- them; shell; utf8_utf16_transform/src/args.c, a use of getopt; the logging macros and the test
-- suites.
pub mod Prelude
pub mod Allocator
pub mod Cipher
pub mod Server
pub mod Utf
