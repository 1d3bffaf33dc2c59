-- ===== src/Lib.antt =====
-- The kernel of bizcocho_OS: its two memory managers, the lists, the scheduler, the pipes, the semaphores and the
-- keyboard, the screen and the clock, with the string functions of the kernel and of the user library; and above it the
-- shell and the dining philosophers.
--
-- The kernel is one C program for one core. A memory manager (one of two, chosen at build time) serves
-- all other parts. The scheduler keeps the processes in lists by priority and is called by the timer's
-- interrupt; system calls block and wake processes through it. The pipes are ring buffers that
-- processes read and write through their file descriptors; a process that finds a pipe empty or full
-- is blocked with the pipe as its reason, and the other end wakes it. The shell is a process: it reads a
-- line, finds the command, and starts it as another one, with its descriptors redirected.
--
-- Files and code:
--   * KrHeap: Kernel/c/mem/krheap.c. The free list is the list of its blocks in address order, in units
--     of 16 bytes; memInitialize, memalloc, memfree and getMemInfo.
--   * Buddy: Kernel/c/mem/buddy.c. The free lists by division, and the memory as a function from
--     addresses to the division bytes; memInitialize, memalloc, memfree.
--   * Process: Kernel/include/scheduler.h and the static variables of Kernel/c/main/scheduler.c. A
--     process and its node are known by the pid; a list of nodes is a list of pids.
--   * Scheduler: findNextProcess, scheduler, yield and changePriority of Kernel/c/main/scheduler.c.
--   * Blocking: the same file's blocking and unblocking, with its lists of blocked processes.
--   * Descriptors: the same file's file descriptors of the running process, dup2 and
--     revertFdReplacements on the process; Kernel has them with the pipes.
--   * Pipe: the ring buffer and the loops of write and read in Kernel/c/ipc/files.c.
--   * Kernel: pipes and processes together: dup2 and revertFdReplacements, close, closeForKilling, modifyOpenCount of
--     Kernel/c/ipc/files.c and killProcess of Kernel/c/main/scheduler.c.
--   * Semaphore: initializeSemaphore, waitSem, postSem, closeSem and the reports of Kernel/c/ipc/semaphore.c, on the
--     scheduler's blocking.
--   * Files: mkpipe, open, write, read, fprintf, openSharedMem and initializeFiles of Kernel/c/ipc/files.c.
--   * Life: the start and the end of a process in Kernel/c/main/scheduler.c: startProcess and its
--     callers, waitchild, removeFromList, exit, killAllInDeathList.
--   * Reports: getPipeInfo of Kernel/c/ipc/files.c and getProcessInfo of Kernel/c/main/scheduler.c.
--   * LinkedList: Kernel/c/lib/ddlADT.c, the nodes on a heap. The other parts are modelled with
--     lists of elements in place of it.
--   * Keyboard: Kernel/c/ipc/keyboard.c and Kernel/include/keyboard.h. The scan code that the assembly reads is an
--     argument.
--   * Text: convert of Kernel/c/lib/stringslib.c, and strToNum, ulongToStr and xtou64 of
--     Userland/SampleCodeModule/c/userlib.c.
--   * Strings: strPrefix, removeBackspaces and strlen of the same userlib.c; strncpy and strcpy of
--     stringslib.c.
--   * Screen: Kernel/c/ipc/printing.c, and printToScreen of Kernel/c/ipc/files.c.
--   * Time: Kernel/c/main/time.c, less sleep.
--   * Memory: memset and memcpy of Kernel/c/lib/lib.c.
--   * Shell: Userland/SampleCodeModule/c/bizcocho.c and the commands of commands.c that do more than print, with satoi of
--     testing_utils.c (Shell.Builtins) and the printf family of userlib.c (Shell.Print). Shell.Jobs starts
--     programs and pipes on the model of the kernel.
--   * Phylo: the philosophers of Userland/SampleCodeModule/c/phylo.c at a table of a fixed size, as steps in any
--     order. They wait on the ids of the forks' semaphores cut to 8 bits.
--   * Interrupts: Kernel/c/kernel_load/idtLoader.c and Kernel/c/main/irqDispatcher.c, exceptions.c and
--     registers.c.
--   * SyncTest: the counter of Userland/SampleCodeModule/c/test_sync.c, as steps in any order.
--   * Prelude: what the modules share. Samples: data for the runs in the modules named Tests.
--
-- A process that blocks finds memory for its node in the list of its reason, except in blockProcessWithReason itself,
-- which has both branches. A call that raises the timer's interrupt is modelled up to the interrupt; the interrupt is a call of
-- `scheduler`. What the assembly routines then do is a value of `Switch`.
--
-- Integers: numbers are natural numbers; 8 to 64 bit quantities that can wrap are reduced modulo the
-- power of two, and a negative id is the bit pattern of its type. Where a theorem needs a pid that no
-- process has yet, or counts with room, it asks for that.
--
-- Loops and fuel: lists are walked by structural recursion. findNextProcess goes round the lists and
-- ends where a process is ready: its fuel of 5 moves to the next list is a round that comes back to the
-- first list, and a process that was not seen in a round is not seen in a later one, since nothing
-- changes in between. The buddy allocator's loops run over the divisions, at most 64.
-- The loops over nodes, over the keyboard's events and over strings take fuel as an argument, and their theorems ask for more
-- than the number of nodes, waiting events or characters. printToScreen takes two units more than
-- there are characters. The loops over digits take 32 or 64 rounds, as many as the number has bits.
--
-- Not modelled: the boot loader and BMFS, which are third-party; the assembly; the console of the loader;
-- sleep; the start of the kernel and its module loader; the module packer; the other programs that test the system calls; the commands of the shell that only
-- print, and the philosophers that join or leave.
pub mod Blocking
pub mod Buddy
pub mod Descriptors
pub mod Files
pub mod Interrupts
pub mod Kernel
pub mod Keyboard
pub mod KrHeap
pub mod Life
pub mod LinkedList
pub mod Memory
pub mod Phylo
pub mod Pipe
pub mod Prelude
pub mod Process
pub mod Reports
pub mod Samples
pub mod Scheduler
pub mod Screen
pub mod Semaphore
pub mod Shell
pub mod Strings
pub mod SyncTest
pub mod Text
pub mod Time
