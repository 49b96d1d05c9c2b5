-- ===== src/Lib.antt =====
-- The kernel of this repository, as models of its C code and theorems about them.
--
-- The program is a small Unix-like kernel. Interrupts drive the clock (sys/ktime.c) and the keyboard
-- line buffer (sys/kprintf.c); the scheduler (sys/schedule.c) switches among tasks, which the system
-- calls (sys/syscall_handler.c) put to sleep, make wait and end; tasks and their regions come from
-- object pools (sys/task_pool.c) over the physical page allocator (sys/pmap.c); files are the terminal,
-- pipes (sys/kpipe.c) and the archive in memory (sys/tarfs.c), behind a table of descriptors. Interrupts
-- enter through sys/isr.c; addresses are mapped by sys/pging.c, programs loaded by sys/elf64.c; the
-- shell (bin/sbush/sbush.c) runs on a C library (libc/).
--
-- Files:
--   Common     tests, lists, C integers, linked structures, circular arrays.
--   Clock      sys/ktime.c: addTick is `add_tick`; the screen is its output.
--   Terminal   sys/kprintf.c: struct term_buf and the term_ functions; Ring and Line describe the
--              buffer as a queue of bytes, complete input and the line being edited.
--   Pages      sys/pmap.c: get_free_page, release_page, inc_map_count; Pages/Init is pmap_init.
--   Pool       sys/task_pool.c: the code that the five pools share, and the pools as its instances.
--   Sched      sys/schedule.c: the queues, get_next_task, reschedule, switch_to, run_next_task; Spawn is
--              create_new_task, create_idle_task, the task in fork_process, and sys_fork; Taken is about a
--              task that is taken from the waiting queue.
--   Process    sys/syscall_handler.c: sys_yield, sys_sleep, sys_wait4, sys_exit; Execve is sys_execve
--              on the tasks and the links in sys/task_pool.c, replace_task; Listing is sys_ps.
--   Files      sys/syscall_handler.c: sys_open, sys_close, sys_read, sys_write; what the file
--              operations behind `fop` do is a parameter.
--   Regions    sys/syscall_handler.c: sys_brk.
--   Pipe       sys/kpipe.c.
--   Tarfs      sys/tarfs.c: sizes, the walk over the headers, reading and closing; Directory is
--              opening and reading directories.
--   Strings    libc/string.c and the strings, digits and memory blocks of sys/system.c.
--   Screen     sys/kprintf.c: kputchar, kprintf and the clock on the screen. The cells are numbered.
--   Interrupts sys/isr.c: isr_handler, the keyboard; Safety runs clock, keyboard and terminal together.
--   Paging     sys/pging.c, sys/mm.c, sys/kmalloc.c: `entry` holds the words of the frames; `walk` and
--              `translate` are the processor's way through the tables. Descent is about making tables,
--              Slot about the addresses through which the code reaches its tables; Init is init_pging,
--              and Boot is about the address space that it leaves.
--   Faults     sys/isr.c: handle_pg_fault.
--   Elf        sys/elf64.c: the regions of a new task, the bytes of its segments, its arguments.
--   Fork       sys/schedule.c: the memory of a child in fork_process.
--   Heap       libc/memory.c over Regions.
--   Shell      bin/sbush/sbush.c: the parser, which cuts the line in place, and the loop of main.
--   Calls      sys/syscall_handler.c: the table of calls, sys_getdents, sys_chdir, getcwd.
--   Ahci       sys/ahci.c: Command is a transfer, Port the set-up; Table and Outcome are about a transfer,
--              Layout about the memory of a port, Neighbours about the tables of the other slots. The
--              driver's `ahci_write` and `ahci_read` are one function of the direction.
--   Pci        sys/pci.c: `pci_walk_bf` and the addresses of the configuration space.
--   Gates      sys/idt.c and sys/gdt.c: the entries of the descriptor tables.
--   Libc       libc/stdio.c, puts.c, putchar.c, wait.c; Environ is libc/env.c and libc/execvpe.c, Dir and
--              Stream are libc/dir.c.
--   Examples   the theorems on concrete states.
--
-- A function keeps its name, in small letters. Pointers are addresses, 0 the null pointer; a
-- field of a struct that is shared is a function of the address; a machine integer is its bit
-- pattern, with the wrap of its width written out where the code may reach it; signed results are
-- integers. Output to the screen is a list of calls or is left out where it is only a message.
--
-- Loops over arrays are recursion on the rounds left. A walk along a linked structure or a string
-- takes fuel, one for each turn, and `none` is missing fuel; each theorem that needs it states how
-- much is enough: more than the length of the queue, list or string. The two loops of a pipe have
-- 2048 turns, more than the bytes between its heads; the digits of an `int` have 32.
--
-- The digits of `convert` have 65 turns, more than an `unsigned long` has digits. The parser of the
-- shell takes a turn for each byte of the line, `malloc` one for each block.
--
-- The registers of the disk controller and the words of the configuration space are read from sequences
-- and functions that are parameters, so the theorems hold for every device. The wait for a drive has the
-- limit of the source, 3000000 turns; the other waits for a register have fuel, and a theorem about them
-- says by which turn the register must answer.
--
-- Where the code would write past an array or to an address without memory, the model stops: a string
-- too many or too long for the buffers of `load_elf` and a block whose header no region holds give
-- `none`, a command of more than ten words is `overrun`. The `memset` of a command table reaches the
-- tables behind it, as in the code. `panic` halts the kernel, so nothing behind it is modelled.
--
-- Not modelled: assembly (registers and stacks in switch_to, port input and output, loading the
-- descriptor tables, the wrappers of the system calls), the window through which pages are cleared and
-- copied, the demonstrations of the driver and of the threads, setenv, getenv and the path loop of
-- execvpe, and the tools beside the shell.
pub mod Common
pub mod Clock
pub mod Terminal
pub mod Pages
pub mod Pool
pub mod Sched
pub mod Process
pub mod Pipe
pub mod Strings
pub mod Regions
pub mod Examples
pub mod Tarfs
pub mod Files
pub mod Screen
pub mod Interrupts
pub mod Paging
pub mod Shell
pub mod Elf
pub mod Faults
pub mod Heap
pub mod Fork
pub mod Calls
pub mod Ahci
pub mod Pci
pub mod Gates
pub mod Libc
