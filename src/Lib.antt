-- ===== src/Lib.antt =====
-- OS-Modules: small operating-system programs in C and C++, and what their code guarantees.
--
-- The programs stand beside each other and share no code. Those modelled are:
--
-- Malloc (malloc-code). alloc.c keeps one page of memory from mmap, cut into BLOCKS blocks of MINALLOC
-- bytes; ealloc.c keeps up to PAGES such pages, which it maps when they are needed. Both keep the arrays
-- is_free and alloc_blocks_len for a page, look for the smallest free run that is long enough, and mark it.
--   Malloc/Page.antt: the record Page of the two arrays; free_len and scan are the two loops of the search,
--     best_fit the search, claim and release the writes of alloc and dealloc, fresh those of init_alloc.
--     Page/Run, Page/Fit, Page/Valid and Page/Owner hold the lemmas on runs of free blocks, on the search, on the
--     invariant of the arrays and on which block belongs to which allocation.
--   Malloc/Alloc.antt: alloc.c, with init_alloc, alloc, dealloc and cleanup under their own names.
--     Alloc/Calls has sequences of calls.
--   Malloc/Ealloc.antt: ealloc.c, with get_free_start_idx, and search_pages and find_page for the loops
--     over the pages. A page with base_ptr NULL is not mapped. Ealloc/Find has which page dealloc takes,
--     Ealloc/Unclaimed that a page that is not mapped has no allocations, Ealloc/Calls sequences of calls.
--   What mmap and munmap return is an argument; a pointer is a number; an access outside the arrays is
--   `none`. The loop of the search has fuel for one round a block, and each round goes on by a block.
--
-- Simplefs (simplefs-code). simplefs-disk.c keeps a superblock with two lists of marks, 8 inodes and 30 data
-- blocks of 64 bytes in one file; simplefs-ops.c has files and open handles on top of it.
--   Simplefs/Disk.antt: the record Fs of superblock, inodes, blocks and file_handle_array; alloc_inode,
--     free_inode, read_inode, write_inode, alloc_data_block, free_data_block, read_data_block,
--     write_data_block and format_disk are the functions simplefs_allocInode and so on.
--   Simplefs/Ops.antt: get_inode_num, get_file_handle_idx, create, delete, open_file, close; fill_in,
--     delete_inode and open_at are the rest of a function behind a test.
--   Simplefs/Access.antt: read, write and seek. read_loop and write_loop are the while loops, with fuel for
--     one round a byte: each round copies a byte at least. Written is the state of the loop of write, at
--     its test or returning -1; reserve, put_chunk and write_back are the parts of a round and the end.
--   Simplefs/Valid.antt states when the inodes and the marks agree; Parts sees it from one inode that is not
--     yet written back, Grow and Appended have a file that becomes longer, Writing and Rounds a round of
--     write, and Reading, Written, RoundTrip, Removing, Names, Deleting, Creating, Handles and Overrun
--     the operations.
--   A number that may be -1 is an option. A failed assert is the fault `assertion`, and an access outside
--   an array of the inode or of the handles, or before the regions of the disk, the fault `out_of_bounds`,
--   which says that C does not define what follows. `junk` is the heap that write copies from behind its
--   temporary buffer; the block keeps it behind the end of the file.
--
-- Sync (pthreads-sync-code). Threads, in any interleaving; Threads.antt counts those at a point of the code.
--   Sync/Rwlock: rwlock-reader-pref.cpp and rwlock-writer-pref.cpp. The record Code has what a version
--     consists of: a stretch of a function from pthread_mutex_lock, or a return from pthread_cond_wait, up to
--     a wait or the unlock is one function on the fields of the struct, since rw->lock is held. System has
--     the threads, the condition variables and the wake-up calls as a step relation, with spurious
--     wake-ups; Laws is the interface between a version and what is shared, and ReaderPref and WriterPref
--     fill it.
--     Rwlock/Trial: the threads of test-reader-pref.cpp and test-writer-pref.cpp, each with its place in the test, above
--     the system of the lock: a step of the lock has to be one that the function of each thread allows (Does).
--     Fits has where the lock has a thread, Notes the times that a thread notes, Calls the wake-up calls, Verdict
--     the checks of main, Alone the times of the writers, Woken that threads go on, Ends the results.
--   Sync/MasterWorker: master-worker.c. Shared has the global variables, master_waits and worker_waits the inner
--     tests, produce and consume what is behind them; System has the threads, whose waits may end at any time,
--     since the signals come behind the unlock. Order has the items in the buffer, Overshoot the bound of
--     the counters. Signals has the threads with each pthread_cond_signal as a step of its own and no spurious
--     wake-ups, Over the end of all threads but one, and Stuck what becomes of a worker that waits.
--   Sync/Zemaphore: zemaphore.c, with zem_init, zem_down and zem_up, and threads that call them in System. The
--     counter is a natural number, so a negative start value is left out.
--   Sync/Turns: zemaphore/zemaphore_exercise.c, three threads of justprint with the semaphores of zemaphore.c, from
--     the start that main sets. Act has the steps of threads that go on, Idle the waiting.
--   Sync/Handshake: zemaphore/test-zem.c, main and two threads that hand each other the turn. Act and Idle as in
--     Turns; Moves and Threads have what each step keeps, Ends the result.
--
-- Server (key-value-server/my_server.c). Pairs of a number and a string in three arrays, and the loop that
-- answers the messages of one client after the other.
--   Server/Tokens.antt: tokenize with strtok, and atoi; Server/Store.antt: the arrays as the record Store,
--     create_key_value_pair, read_pair (Read), update_pair (update) and delete_pair (delete), each with the
--     part behind its search as a function of what is found; Server/Loop.antt: the commands and main.
--     Server/Valid has the invariant, Server/Lookup the store as a partial function, Server/Changes what a
--     change of the arrays does to it, and Server/Commands the commands; Server/Map specifies the server as a
--     map with requests and replies, and Server/Requests relates the loop of main to it.
--   Memory that malloc returns has a size: a value that does not fit, a token that is not there and a
--   command on a freed value are faults. An int that overflows in atoi is left out.
--
--   Server/Sockets.antt: make_server, connect_again (accept_client), disconnect, send_msg and main with them, on a record
--     of what the socket calls do; a failed call ends in `exits`. main_loop has a bound on its rounds, since a server
--     goes on for ever. Server/Dialogue describes what passes between the server and the system by the calls alone,
--     Server/Accepted and Server/Answered have how the functions on the sockets and a round of main end, and
--     Server/Connection relates main to the loop without sockets.
--   Server/Client.antt: my_client.c, with the record Net of what the calls on its socket do; Server/Talk: a client whose
--     socket leads to the server, where the reply waits to be read. A client writes the first 20 bytes of a line.
--
-- Ipc (ipc-code). my_shm_posix_prod.c writes 1000 messages into 512 places of a shared memory and their numbers into a
-- fifo; my_shm_posix_cons.c prints and frees the places.
--   Ipc/SharedMemory.antt: both loops as a step relation, with the rounds of the spinning while left out, as they change
--     nothing. Window has which places are in use, Steps the invariant, Delivery the two results.
--   Ipc/FileTransfer.antt: socket_client.c, which sends a file, and socket_server.c, which prints what arrives. send_loop has
--     fuel for a round a byte, and each round reads one at least (send_loop-fuel); Whole has the result.
--   Ipc/Pipes.antt: pipes_ex1.c, a parent and a child that multiplies the numbers it reads from a pipe, as a step
--     relation. Value has the loop of the child, Product the numbers that go through the
--     pipe at once, Short those that do not.
--   Ipc/Fifo.antt: fifo_writer.c and fifo_reader.c. The reader waits for what is sent, so the order of the steps of both
--     programs does not matter; Delivery has what is printed.
--
-- Shell (shell/my_shell.c). Lines are cut into tokens, the tokens at `&`, `&&` and `&&&` into commands, and the commands
-- run one after the other; a table has the background processes.
--   Shell/Tokens.antt: tokenize; Shell/Commands.antt: make_cmds, with the arrays that calloc returns as cells of a heap,
--     since two commands may be the same array; Shell/Os.antt: the state of the shell, and the record Os of what
--     the system calls do; Shell/Procs.antt: add_bg_procs and reap_bg_procs; Shell/Execute.antt: start_executing and
--     execute_cmd, whose branches are functions of their own; Shell/Main.antt: main, for a list of lines.
--   Shell/Groups and Cut hold the lemmas on make_cmds, Alias a line with `&`, Reap and Lost those on reap_bg_procs,
--     Lines a line as a whole, and Exit the command exit.
--   The loop of reap_bg_procs has fuel for one round an entry and one more: each round goes on by an entry, and
--   the index does not grow. An array has a size, and an access behind it is the fault `out_of_bounds`; strcmp of
--   NULL is the fault `null_pointer`. The input buffer is a list of bytes with no byte 0.
--
-- Prelude has arrays as functions of their index, C strings as lists of bytes, `int` as an unbounded integer
-- (to_int is the cast to 32 bits where the code has one), and chains of steps that may fail.
--
-- Not modelled: allocation failure of malloc, errors of the system's read, write and open, the printing
-- functions, the test programs with fixed inputs (test_alloc.c, test_ealloc.c and the testcases of simplefs), ipc-code/pipes_ex.c,
-- whose parent reads a number of bytes that it never sets, and a signal that comes while the shell works.
pub mod Prelude
pub mod Ipc
pub mod Malloc
pub mod Server
pub mod Shell
pub mod Simplefs
pub mod Sync
