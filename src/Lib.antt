-- ===== src/Lib.antt =====
-- The Zer0S kernel: console, frame allocator, heap, process manager, scheduler, interrupt code,
-- system calls, string library, keyboard, shell, boot, loader and the assembly below them, as
-- definitions that run and theorems about them.
--
-- Parts and files
--   kernel/kernel_main.c             Console      VGA text console and print_hex
--   kernel/arch/x86_64/memory.c      Frames       the bitmap of page frames
--                                    Heap         kmalloc, kfree, kcalloc and heap_status
--   kernel/core/process.c            Process      process table and round robin
--   kernel/core/scheduler.c          Scheduler    the ready list of the other scheduler
--   kernel/arch/x86_64/idt.c         Interrupts/Idt
--   kernel/arch/x86_64/pic.c         Interrupts/Pic
--   kernel/arch/x86_64/isr.c         Interrupts/Isr       (isr_handler)
--   kernel/core/syscall.c            Interrupts/Syscall
--   kernel/arch/x86_64/string.c      Strings
--   kernel/arch/x86_64/shell.c       Shell        the line, the commands and the prompt
--   kernel/arch/x86_64/keyboard.c    Keyboard     tables, keys, accents and the line that is typed
--   kernel/kernel_main.c             Kernel       kernel_main, and irq_handler of isr.c
--   kernel/arch/x86_64/isr.asm       Asm/Entry    entries of interrupts, exceptions and system calls
--   kernel/arch/x86_64/isr_default.asm
--                                    Asm/Entry    (isr_default)
--   kernel/arch/x86_64/switch.asm    Asm/Switch   switch_context and switch_to_user
--   kernel/include/syscall.h         Asm/Program  the wrappers that a program calls
--   kernel/arch/x86_64/boot.asm      LongMode     the loader, from GRUB's jump to the call of kernel_main
-- Machine has the state that Shell, Keyboard and Kernel share, and how their runs end.
-- Prelude has what all parts share: Boolean tests, lists on native numbers, counted loops, casts and bit
-- tables. A function has its name in C. Tests holds the concrete runs of each part.
--
-- How they interact
-- Every part prints on the console, so its functions take a Console and return it. process_create
-- and process_destroy call kmalloc and kfree and take the Heap as well. The system calls print
-- what lies in the caller's memory. The statics of a C file are the fields of a record: Console,
-- Frames, Heap, Processes, Scheduler and Idt. Nothing calls scheduler.c; it works on the processes of
-- process.c.
-- An interrupt runs irq_handler, and that the handler of the keyboard, which puts characters into
-- the line and on the screen, and on the enter key gives the line to the shell. The shell's commands
-- reach the console, the frames, the heap and the table of processes: these are the fields of Machine,
-- to which Keyboard and the descriptor table are added in Kernel. kernel_main calls the
-- initialisations in turn and ends in a loop that only interrupts leave: Kernel/Reachable has the
-- step relation, and Kernel/Typed a line that is typed in interrupts. Asm has what lies below: the
-- processor enters a stub, that calls the handler in C with a pointer to the saved registers, and
-- goes back to the code it interrupted. Asm/Handled puts irq_handler and isr_handler behind their
-- stubs, and Asm/Program syscall_dispatcher behind its own. LongMode has what comes
-- first: the loader checks the processor, builds the page tables and calls kernel_main. LongMode/Entry
-- puts kernel_main of Kernel behind it, and LongMode/Memory the two allocators over its page tables.
-- A run returns, or halts in the loop of reboot, or does not end (Run of Machine).
--
-- How the state is modelled
--   Numbers are native, and each cast and each sum that may wrap is a remainder. A char is a byte;
--   where it is widened its sign is extended.
--   The VGA memory is a function of the cell index and holds the cells past the screen too.
--   The bitmap is a function of the byte index.
--   The heap is the map from addresses to block headers that memory holds. Callers are taken to stay
--   inside their payloads, so a header changes by kmalloc and kfree only. The abstract view of the
--   heap is a run of chunks (Heap/Chunks), and that of its callers a list of payloads in use
--   (Heap/Live).
--   A pointer to a process is its index in the table, and NULL is none. The abstract view of the
--   ready queue is a list of slots (Process/Queue).
--   The ports are the list of writes so far. What the interrupt controllers answer is an argument,
--   with the hypothesis that they keep the mask written last.
--   What the ports of the keyboard answer to each read is an argument.
--   A character constant of several bytes has the value that gcc gives it, and keeps its last byte as
--   a char (constant of Keyboard/Tables). The source is UTF-8.
--   A command and its arguments are lists of bytes, as they stand in the shell's two buffers.
--   The string functions run on a memory of bytes whose addresses do not wrap.
--   process.c defines its functions twice. Process has those of the first 207 lines, which the other
--   parts use, and Process/Later those from line 210 on; Process/Calls runs either on a list of calls.
--   The processor of Asm has the 16 general registers, the flags, two segments and a memory of 64-bit
--   words, none of which overlap. Its instructions are those that the assembly uses. The processor's
--   own entry into an interrupt and its return from one are as documented for 64-bit mode, on a stack
--   that it takes for the entry. Which exceptions come with an error code is as its manual lists them
--   (pushes_code of Asm/Entry). In the entries the return goes to the segments that were interrupted,
--   and so passes the processor's checks; for switch.asm Asm/Return has those checks of the selector
--   of the code segment that come before the descriptor is read, under the table that boot.asm loads.
--   A compiled function in C is an argument, with the hypothesis that it
--   keeps the stack of its caller and the registers that the calling convention asks it to keep. The
--   strings of a program that makes a system call lie apart from that stack.
--   The loader's memory is one function of the addresses of 32-bit words and one of the bytes of the
--   screen, apart from its stacks. Its labels are an argument, as the linker places them. What the
--   processor answers to cpuid and to a change of its flags is an argument too. The walk through page
--   tables (LongMode/Paging) is the documented one over four levels, for addresses below 2 ^ 48; it
--   leaves out the bits that restrict writing and user code, and the cache of translations. kernel_main
--   runs on the record of Kernel, whose statics the loader leaves at 0.
--
-- Bounds and fuel
--   Loops with a counter are structural on the number of rounds. The walk along the blocks of the
--   heap has 0x80000 rounds, more than 8 MB hold blocks of 24 bytes and a header. The walk along the
--   ready queue has 257, one more than there are slots. The string loops have 2 ^ 64, the size of
--   the address space. The shell's loop over spaces has 256, the size of the buffer of the line. The
--   wait for the keyboard has fuel of the caller's choice, and the theorems ask that the keyboard
--   answers within it. Where the fuel runs out the result is none or diverges, and the theorems about
--   a result state that it is there.
--
-- Not modelled
--   ipc.c, whose functions have no body yet.
--   An interrupt in the middle of kernel_main or of another handler: handlers run with interrupts
--   off, and kernel_main enables them at its end, but for the shell's greeting.
--   The multiboot header of boot.asm, which only GRUB reads, the empty files of kernel/hal, the headers
--   that only declare or that no file includes, and the build.
--   The int row of the console is a number without a bound; it would take 2 ^ 31 newlines in a row
--   to overflow it.
pub mod Prelude
pub mod Console
pub mod Frames
pub mod Heap
pub mod Process
pub mod Scheduler
pub mod Interrupts
pub mod Strings
pub mod Machine
pub mod Shell
pub mod Keyboard
pub mod Kernel
pub mod Asm
pub mod LongMode
