-- ===== src/Lib.antt =====
-- The svetos microkernel: models of its C code and the theorems that make it correct. All addresses
-- and sizes are natural numbers below 2 ^ 32, the target being 32-bit x86; arithmetic that the
-- source does in `uint32_t` or `size_t` wraps in the model by `add32`, `sub32`, `not32` and `u32`.
-- Where the source takes a pointer, the model takes the number and, for what lies behind it, a
-- function of the address. What `printk` prints is left out, except in `Boot`, `Irq`, `Debug` and
-- `Mm/Dump`, which print over `Messages`, and in `Ata`, where `print` stands for it: the messages of
-- a read go to the serial port, which the driver does not touch otherwise.
--
-- Base: names of the library, Boolean tests, lists indexed by native numbers, words and bits.
-- Mm: the heap allocator, kernel/src/mm/mm.c and include/kernel/mm/mm.h. `kmalloc`, `kfree` and
--   `mm_init` are the functions of these names on the record `Mm` of the file's variables and of
--   the headers in memory. The loops over the chain of blocks run on fuel, `rounds`, one more than
--   the bytes of the arena: the headers in a chain are distinct. `Mm/Layout` and `Mm/Chain`
--   describe the arena as a list of cells.
-- Allocator: what the other parts use of the allocator, as a record of operations and laws;
--   `Mm/Allocator` fills it.
-- Dll: the circular list of include/kernel/list.h on two functions of the address.
-- Ipc: the message queues of kernel/src/ipc/ipc.c over `Dll` and `Allocator`. `receive_as` and
--   `process_as` take the process as an argument, which the code always gets from
--   `get_current_pid`, a stub that returns 0.
-- Sandbox: kernel/src/sandbox/sandbox.c over `Allocator`: capabilities in `Sandbox/Permission`, the
--   table of sandboxes in `Sandbox/Inv`, `Sandbox/Create` and `Sandbox/Memory`.
-- Strings: kernel/src/string.c on bytes by their address.
-- Tty: the console of kernel/src/tty.c and kernel/src/vga.c.
-- Gdt, Idt: the descriptor tables of kernel/src/gdt/gdt.c and kernel/src/interrupts/idt.c; the
--   assembly that loads them is left out.
-- Ports: the port instructions of include/kernel/hal/port_io.h as functions of the machine's state,
--   a parameter of what drives devices. What a driver relies on of its device is a record of
--   documented behaviour (`Pic/Device`), of which the tests hold an instance.
-- Pic, Irq: kernel/src/interrupts/pic.c and kernel/src/interrupts/irq.c over `Ports`.
-- Serial: kernel/src/hal/serial.c over `Ports`; the fuel of a waiting loop is the number of reads of
--   the status, and the port is taken to be ready within it.
-- Ata: modules/drivers/storage/ata/ata_module.c over `Ports`; its waiting loops are bounded in the
--   source, by 100000 rounds. `Ata/Disk` is the protocol of a read as the drive's manual has it, with a
--   bound on how long the drive keeps its host waiting; `Ata/Drive` is a drive that follows it.
-- Registry: kernel/src/interfaces/registry.c over `Allocator`.
-- Modules: kernel/src/modules/manager.c over `Dll`; the fuel of a walk is one more than the modules.
-- InitrdFs: modules/sys/fs/initrd_fs/initrd_fs_improved.c over a storage interface.
-- FsTable: the directory table of modules/sys/fs/initrd_fs/fs.c.
-- Loader: kernel/src/modules/loader.c over `Strings` and `Allocator`.
-- Cpio: tools/os-builder.c, which builds the image of the initial file system.
-- Spinlock: the lock of include/kernel/scheduler.h. A schedule is the list of the threads in the
--   order of their turns, and a turn is one memory access.
-- Loader/Whole and Loader/Loads: `load_elf_module` of kernel/src/modules/loader.c as a whole, for a
--   file that lies below the heap.
-- Initrd: kernel/src/initrd/initrd.c, and `load_module_from_cpio`, which searches there.
-- Serial/Example: a serial port for the tests.
-- Messages: kernel/src/printk.c over `Serial` and `Strings`. Nothing is formatted there.
-- Lifetimes: clients that call the allocator in any order, over the interface `Allocator`, and
--   what they hold.
-- Ipc/Traffic: the calls of `Ipc` in any order, beside the steps that queues may take.
-- Sandbox/Calls: the operations of `Sandbox` in any order.
-- Debug: the assertions of kernel/src/debug.c over `Messages`.
-- Stubs: the byte routines of modules/module_stubs.c.
-- Ata/Improved and Ata/Simple: ata_improved.c and ata_module_simple.c beside the driver of `Ata`.
-- InitrdFs/Module: initrd_fs_module.c beside the file system of `InitrdFs`.
-- Storage: `InitrdFs` on the disk driver `Ata`, through the storage interface, and
--   on the registry in which the driver puts it.
-- Keyboard: modules/drivers/core/keyboard/keyboard.c and kernel/src/interrupts/irq_handlers.c.
-- Multiboot: the declarations of `multiboot_info_t` as lists of fields with their bytes.
-- Boot: `kernel_main` of kernel/src/kernel.c, over the parts that it sets up, on a machine on
--   which no interrupt arrives during the start. `idt_init` and the
--   others print on the serial port here, and the fuel bounds the reads of its status.
-- Mm/Dump: `mm_dump_blocks` and `mm_print_stats`. Mm/Selftest: the tests of
--   modules/tests/kernel/mm/mm_tests.c as programs on the allocator.
--
-- Not modelled: the assembly, what only prints or halts (kernel/src/panic.c, the exceptions),
-- stubs that do nothing (the timer, the screen driver, paging, tasks), the tags of
-- include/kernel/multiboot2.h, which no code reads, and the tests that only print.
pub mod Allocator
pub mod Ata
pub mod Base
pub mod Boot
pub mod Cpio
pub mod Debug
pub mod Dll
pub mod FsTable
pub mod Gdt
pub mod Idt
pub mod Initrd
pub mod InitrdFs
pub mod Ipc
pub mod Irq
pub mod Keyboard
pub mod Lifetimes
pub mod Loader
pub mod Messages
pub mod Mm
pub mod Modules
pub mod Multiboot
pub mod Pic
pub mod Ports
pub mod Registry
pub mod Sandbox
pub mod Serial
pub mod Spinlock
pub mod Storage
pub mod Strings
pub mod Stubs
pub mod Tty
