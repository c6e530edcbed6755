-- ===== src/Lib.antt =====
-- BobaOS: the heaps, the page tables, the strings, the path tracer, the open files, the disk streams,
-- the FAT32 driver and the screen of the kernel.
--
-- The kernel allocates with kzalloc, in blocks of 4096 bytes (kernel/memory/kheap/kheap_page.c), or, as
-- a choice of the build, in blocks of powers of two (kernel/memory/kheap/kheap_buddy.c).
-- Paths such as C:/directory/file are taken apart by the path tracer (kernel/vfsl/pathTracer.c) with
-- the string routines (kernel/string/string.c). The file systems read and write volumes through
-- partition streams, which stand on disk streams (kernel/disk), which call a driver for whole sectors.
--
--   Base         Boolean tests, lists over the native numbers, the flat memory (Base/Bytes) and
--                status.h (Base/Status): a function that returns 0 or a negative code returns a Result.
--   Memory       kernel/memory/memory.c. A Ram gives the byte at each address.
--   PageHeap     kernel/memory/kheap/kheap_page.c. PageHeap is the file's globals and the memory: the
--                table of flags stands at address 0 of the memory whose blocks it describes. Spec has
--                the abstract view, a list of blocks (first entry, length). The loop that frees a
--                block runs on fuel, one round for each entry of the table.
--   BuddyHeap    kernel/memory/kheap/kheap_buddy.c, and kernel/memory/kheap/kheap.c in Front. A pointer
--                to a blockEntry is the number of the entry from the start of the tables on; a read
--                or a write through NULL gives none. Blocks has the lists and the operations, Sizes
--                what holds of them. merge takes one round for each level.
--   Text         kernel/string/string.c. A char* is the list of the bytes behind it; a store behind
--                the end of a buffer gives none.
--   PathTracer   kernel/vfsl/pathTracer.c. The linked list of parts is a List; a root that was freed
--                and is still pointed to is a constructor of its own.
--   Stream       kernel/disk/stream.c and kernel/disk/partitionStream.c over kernel/disk/diskDriver.h:
--                a driver is a record of two operations, and Transfers is what the streams rely on.
--   Paging       kernel/memory/paging/paging.c. Tables are words of a flat memory; kzalloc is the
--                argument alloc, the page that each call gives. Walk has the tree of tables and its
--                invariant, Grow and Map one round of mapOrCreateRange, Range the loop, with fuel for
--                one round for each page and one more, Remap the functions that call it, and Regions
--                the memory map.
--   Vfsl         kernel/vfsl/virtualFilesystemLayer.c. Files are known by their pointers, and each
--                index of openFiles has the list of the files of its chain. What the source reads or writes
--                through NULL gives none. A file system is a record of operations; Named (in Opening)
--                is what fopen relies on. Rounds has the sequences of operations.
--   Fat          kernel/vfsl/driver/fat32.c over two partition streams. A function is an Act: it takes
--                the Disk (the medium, the streams and the number of kzalloc calls) and gives an
--                Outcome and the Disk. Undefined behaviour (a read through NULL, a store behind an
--                array) is an outcome of its own. Ready has the volume whose reads and writes succeed,
--                Table the allocation table (Table/Chains its chains, Table/Free the search for a free
--                entry, with a round for each 512 sectors, Table/Unlink the truncation of a chain, with
--                a round for each cluster), Names the long and the short names, Directory, Create,
--                Room and Lookup the directories, Files the transfers, Reading, ReadLoop,
--                ReadFile, Skipping, Writing and RoundTrip what they do to the contents of a chain, Descent how
--                far a path is followed, LongNames the round trip of a name, Api what the file system layer
--                calls, and Opening the path of a file that openFile answers. The loops of the source
--                that have no bound of their own take theirs as the argument rounds, and give undefined
--                when it is used up; garbage is what the buffers on the stack hold before.
--   Screen       kernel/print.c, kernel/koal/koal.c and kernel/terminal.c: numbers as text in
--                a buffer, the selected output, and the cells of the screen with the cursor. The loops
--                over digits have the 20 rounds of the source. Paper is what the screen should show: a
--                sheet without an end, written line after line, of which the screen is a window.
--   Disks        kernel/disk/disk.c and kernel/disk/diskDriver.c: the lists of drivers, disks and
--                partitions, and the volume labels.
--
-- uint64_t arithmetic is written with its wrap-around (add64, sub64, mul64). Whether kzalloc gives a
-- small structure is an argument (alloc, got). Not modelled: the boot code, the assembly, the port and
-- register accesses of the drivers, which have no state that a program can observe; the scan
-- of the disk controllers, the tasks and the tables of devices. The struct fileSystem of the
-- FAT32 driver holds pointers to the functions in Fat/Api, and is not a record here.
pub mod Base
pub mod Memory
pub mod PageHeap
pub mod BuddyHeap
pub mod Text
pub mod PathTracer
pub mod Stream
pub mod Paging
pub mod Vfsl
pub mod Fat
pub mod Screen
pub mod Disks
