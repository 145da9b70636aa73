-- ===== src/Lib.antt =====
-- nv0ken_linux is a small operating system in C: a kernel (kernel/), a display server with window
-- manager and widgets (graphics/), a client library (libnv0/), a C library, a shell and utilities
-- (userland/), and applications (apps/). This library models parts of it and proves them correct.
--
-- The parts and their files:
--   Word     unsigned 64-bit arithmetic as the C code uses it: add64, sub64 and mul64 wrap;
--            align_down and align_up are align_down_u64 and align_up_u64 of kernel/lib/math.h.
--   Bitmap   kernel/lib/bitmap.c: bitmap_t is the record Bitmap (its words as a list of 64-bit
--            numbers), and bitmap_set is Bitmap.set, and so on for every function.
--   Pmm      kernel/mm/pmm.c over Bitmap: the static variables frame_map, total_frames and
--            free_frames are the record Pmm; pmm_alloc_frame is alloc_frame, and so on. The static
--            array frame_storage is an argument of init.
--   Buffer   apps/text_editor/buffer.c: the gap buffer. struct Buffer is the record Buffer, its
--            array data the list chars, with the cells in the gap. buffer_insert is insert,
--            buffer_delete is delete, buffer_undo is Undo.undo, buffer_cursor_set and the selection
--            and clipboard functions stand in Buffer/Cursor, buffer_find in Buffer/Find.
--   Queue    the circular array behind the three queues below, and the list that it holds.
--   RingBuf  kernel/lib/ring_buf.c: ring_buf_t is RingBuf, its field data is storage.
--   Pipe     kernel/ipc/pipe.c: ipc_pipe_t is Pipe, pipe_read is read, pipe_write is write.
--   MsgQueue kernel/ipc/msgqueue.c: msgqueue_t is MsgQueue, ipc_message_t is Message.
--   Mutex    kernel/ipc/mutex.c, which the pipe and the message queue lock.
--   Semaphore kernel/ipc/semaphore.c: semaphore_t is Semaphore; the compare-and-swap loops of any
--            threads are the relation Step, one constructor for each read and each swap.
--   Signal   kernel/ipc/signal.c: signal_state_t is Signals; handlers are numbers, and what a
--            handler does is a parameter of dispatch.
--   FdTable  kernel/fs/fd_table.c: the static array table is a list of Entry, fd_alloc is alloc.
--   Clip     graphics/draw/clip.c: ClipStack, with clip_push as push, over integers.
--   FilePath kernel/fs/path.c: path_normalize is normalize, and so on; a path is the list of its bytes.
--   Bytes    kernel/lib/string.c over a memory of bytes.
--   Numbers  kernel/lib/stdlib.c: strtoul and strtol.
--   Sort     kernel/lib/stdlib.c: qsort, with the caller's comparison as a parameter.
--   Checksum kernel/net/checksum.c: the two checksums over lists of bytes.
--   Printf   kernel/lib/kprintf.c: what kprintf prints, as a list of characters.
--   Heap     kernel/mm/heap.c: the list of block headers is a list of Block, kmalloc is kmalloc, and
--            so on; the bytes of the areas are a memory of Bytes.
--   Scheduler kernel/proc/scheduler.c and kernel/proc/thread.c: a function from pointers to threads,
--            and the run queue that their next pointers make.
--   Shm      kernel/ipc/shm.c: a segment is its index in the array segments.
--   Arp      kernel/net/arp.c: the table of addresses, and the packets as lists of bytes.
--   NetBuf   kernel/net/net_buf.c: packet buffers as arrays of cells.
--   Damage   graphics/server/damage.c: DamageTracker, with the rectangles of Clip.
--   Prelude  what the parts share: Boolean tests, lists with default reads, slices and overlays
--            (memcpy and memmove into an array), signed integers.
--
-- How the parts meet: the frame allocator calls the bitmap and the alignment helpers. The pipe and
-- the message queue hold a mutex, and a call that spins for ever is none. kcalloc and krealloc write
-- with memset and memcpy of Bytes; the segments of shared memory and the threads take what kcalloc
-- gives as an argument. The damage list shares the rectangles of the clip stack. The editor
-- buffer stands alone; its heap is the parameter Memory of each call, which says for each place
-- that allocates whether it gets memory, and what fresh memory holds. An operation that fails
-- returns false, or none where the code returns NULL or its not-found value.
--
-- Fuel: the loops over addresses of the frame allocator get `rounds end` rounds, one for each frame
-- below the end and one for the last test. find_from gets one round for each position of the text
-- and one for the last test; path_normalize one for each byte of its input and one more, and the
-- digits of a 64-bit number 64; the carries of a checksum three. kvprintf, the loops over a string
-- and the walks of the run queue get fuel from their caller and are none when it runs out; strcmp
-- and the scheduler are proved to return. Bitmap searches and the other loops recurse on the number
-- of words, bits, blocks or characters left. Signal.dispatch gets fuel from its caller, since its
-- handlers may send signals for ever, and is none when it runs out.
--
-- Machine integers: a size_t or uint64_t is a natural number, and a sum that can wrap is add64. The
-- int fields undo_top and undo_cap do not reach their limit in memory that exists. The objects that
-- pointers name exist: the tests for NULL objects are left out, and a NULL array is the empty list.
--
-- Not modelled: drivers, boot code, drawing, and applications other than the editor buffer; reading
-- and writing through a descriptor; clipping of lines; sums and products of coordinates that leave
-- the range of int; of the buffer its line cache, the backward search, replacing, loading and saving. The
-- packet of arp_request is modelled, its way to the device is not. Further parts of the kernel
-- (virtual memory, processes, the file systems, the rest of the network) are to follow.
pub mod Arp
pub mod Bitmap
pub mod Buffer
pub mod Bytes
pub mod Checksum
pub mod Clip
pub mod Damage
pub mod FdTable
pub mod FilePath
pub mod Heap
pub mod MsgQueue
pub mod Mutex
pub mod NetBuf
pub mod Numbers
pub mod Pipe
pub mod Pmm
pub mod Prelude
pub mod Printf
pub mod Queue
pub mod RingBuf
pub mod Scheduler
pub mod Semaphore
pub mod Shm
pub mod Signal
pub mod Sort
pub mod Word
