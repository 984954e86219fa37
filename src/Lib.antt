-- ===== src/Lib.antt =====
-- The C programs of the operating systems course, cs537: a file system on FUSE, a key-value store
-- behind a ring buffer in shared memory, a shell, a counter of characters, words and lines, and two
-- extensions of the xv6 kernel, memory mappings and priorities.
--
-- The parts, and the files that model them:
--
--   Wfs, the file system of cs537/P7. wfs.c and mkfs.c work on one image mapped into memory; here
--   it is a function from offsets to bytes (Wfs/Memory), with the structures of wfs.h at their
--   offsets on a 64-bit target (Wfs/Layout). A computation on the image is a state monad with a
--   fault, an access before the image. Wfs/Bitmap has the bitmaps and the two allocators
--   (getEmptyInode, allocateDataBlock), Wfs/Mkfs the formatting (main of mkfs.c), Wfs/Path the
--   lookup (path2inode, isDirectory), Wfs/Directory createNewEntry, addDirectoryEntry and
--   the calls wfs_mknod and wfs_mkdir, Wfs/Removal releaseDataBlocks, removeDirectoryEntry and the
--   calls wfs_unlink and wfs_rmdir, Wfs/Blocks get_block_ptr, and Wfs/File wfs_getattr, wfs_read,
--   wfs_write and wfs_readdir. The calls are taken one at a time.
--
--   Kv, the key-value store of cs537/P6. Clients put buffer descriptors (Kv/Request) into the ring
--   (Kv/Ring, ring_buffer.c), the server's workers take them out and carry them out on the hash
--   table (Kv/Server and Kv/Table, kv_store.c). The ring is a relation of steps: a state is the
--   shared memory and the place of each thread, and each step is one access to shared memory by
--   one thread, so that a run is any interleaving. The table is modelled one operation at a time.
--   Kv/Client is the client (client.c): the workload, the window of a thread (submit_reqs,
--   process_completions), the contexts of the threads (start_threads), check_results. A thread and
--   one worker of the server are a relation of steps in which the ring is the list of the
--   descriptors that wait in it, and a full one is overwritten.
--
--   Shell, cs537/P3/wsh.c. Shell/Words splits lines and pipelines, Shell/History keeps the command
--   history, Shell/Variables the variables and their expansion, Shell/Execute runs a command
--   line (wsh_execute, the builtins, a round of wsh_loop) on a state made of these, and Shell/Loop
--   the whole input (wsh_read_line, wsh_loop, main). What wsh_launch and fork_pipes return in the
--   shell's process is a parameter there. Shell/Processes has these two and spawn_proc, with what
--   the descriptors of the shell and of its children stand for; the system calls are a record of
--   functions (Kernel), and what is documented of them, as long as descriptors and processes
--   are left, the hypothesis IsKernel.
--
--   Counter, cs537/P1/MADCounter.c. Counter/Input reads a file as fscanf and fgets do with the
--   program's buffer; Counter/Chars, Counter/Words and Counter/Longest are the five reports.
--   Counter/Arguments is the command line (main) and the lines of a batch file (batchMode), up to
--   the run of the reports; which files can be opened is a parameter.
--
--   Sched, the changes to xv6 in cs537/P5/xv6: the choice of the next process in scheduler
--   (proc.c), sys_nice (sysproc.c), and in Sched/Mutex sys_macquire and sys_mrelease as a
--   relation of steps, each what runs under the spin lock of the mutex. The switch to the process
--   is not part of the model: each choice is made on the process table as it is then.
--
--   Wmap, the memory mappings of cs537/P4/xv6-public. Wmap/Vma and Wmap/Place are the array of
--   mappings and mywmap (wmap.c), Wmap/Pages mywunmap and the loop of exit (proc.c) over the
--   mappings, Wmap/Remap mywremap, Wmap/Listing mygetpgdirinfo and mygetwmapinfo, Wmap/Fault the
--   case T_PGFLT of trap (trap.c), Wmap/Fork what fork (proc.c) does with the mappings, and
--   Wmap/Calls the system calls sys_wmap, sys_wunmap and sys_wremap (sysfile.c). The kernel's page
--   table, allocator and files are a record of functions (Pages) on a state that is a parameter;
--   what a page table does with its entries is the hypothesis IsPageTable, and for two tables,
--   as long as pages are left, IsChildTable.
--
--   Common has the notation, the lists, C strings (strcmp, strtok), and integers that they share.
--
-- Numbers are natural numbers where the code's are not negative; where an int or a size_t wraps or
-- changes its sign and the result depends on it, the modulus is written out; the counters of the
-- reports of Counter are the 32 bits of their ints. Fuel: wsh_execute recurses through the
-- history, and wsh_loop goes on while there is input; bounds that are always enough are proved.
-- read_loop and write_loop take the number of bytes that are left, of which each round consumes
-- one at least. submit_reqs and process_completions take a number of rounds, which the theorems
-- leave open. batchMode takes fuel for the words of a line, of which each round uses one unless
-- the flag is unknown. All other loops are recursion on what they run over.
--
-- Not modelled: what only calls the operating system (exec, mmap, getopt, the mains but those of
-- mkfs.c, wsh.c and MADCounter.c), what a child of the shell does if its program cannot be started,
-- what is printed for information, the memory that is freed, but for an argument of `local` that is
-- the string of the variable it sets (a command word that is such a string is not followed), the
-- xv6 kernel itself, which the projects start from, and the Python work of cs540. Of the client,
-- several threads at once are modelled only as to their places in memory.
pub mod Common
pub mod Kv
pub mod Shell
pub mod Wfs
pub mod Counter
pub mod Sched
pub mod Wmap
