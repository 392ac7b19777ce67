-- ===== src/Lib.antt =====
-- The kernel of Sistem-Operasi (src/kernel): its memory, its scheduler, its files and descriptors,
-- and the means by which its tasks wait for one another and exchange data. Each module is one C
-- file, with its static data as a record and each function as a function from the old state to the
-- new one.
--
-- Program and model. `Task` is the task table of src/kernel/task.c, with the functions that block
-- and wake a task; `Task.Schedule` is the choice of the next task on both processors,
-- `Task.Signals` the signals, timers and settings, and `Task.Exit` the end of a task. `Waiters` is
-- the ring of waiting task numbers that semaphore.c, pipe.c and condvar.c each write out; it stands
-- on `Ring`, a circular array with one slot left empty, which pipe.c uses for bytes and ipc.c for
-- texts too. `Semaphore` (semaphore.c), `Condvar` (condvar.c) and `Pipe` (pipe.c) change their
-- rings with interrupts off and call `task_block`, `task_yield` and `task_unblock` with interrupts
-- on: a function that waits is split where interrupts are on, so that `Semaphore.wait_step` is one
-- round of `sem_wait` and `Semaphore.wait_after` what it does before the next, and
-- `Semaphore.post_step` is `sem_post` up to its `sti`; likewise `Pipe.read_step` and
-- `Pipe.read_wait`, `Condvar.wait_release` and `Condvar.wait_pause`. `MessageQueue` is mq.c, `Ipc`
-- is ipc.c, `Heap` is memory.c, and `Frames` is the allocator of physical frames in vmm.c. `Fs` is
-- fs.c: its table of files, their buffers from `Heap`, and the sectors of the disk, if there is
-- one; `Mfs4` is the inode layer of mfs4.c on top of it. `Vfs` is vfs.c: the tables of descriptors
-- over `Pipe` and `Fs`, and the texts of /proc; a write to a pipe is there one round of its loop,
-- and a connection is a number of which the calls of `net_tcp_close` are kept. `Shm` is shm.c over
-- `Frames`, and `Keyboard` is keyboard.c over `Ring` and `Task`. `Net` is net.c: the ARP cache,
-- frames with their checksums, the TCP connections and their timer, UDP and DNS; a call that polls
-- is split at its polls, which are steps of `Net.Calls.net_process`, and frames sent are kept in a
-- list. `Websocket` has the frames of websocket.c. `Task.Create` has the creation of tasks, and
-- `Task.Args` the way of their arguments through SYS_GETARGV of syscall_proc.c. `Windows` is
-- window.c and the clicks of taskbar.c: windows, their order and their events; what they draw into
-- the frame buffer is left out, and a program that a click starts is kept in a list.
--
-- Numbers. An `int` whose sign matters is an integer of `Base.Signed`; a `uint8_t` flag is a Bool;
-- an `int8_t` counter is its bit pattern below 256, and its wrap-around is written out. A C string
-- is the list of its bytes before the 0. An array is a list; the indices are shown to be in range
-- where a theorem depends on it.
--
-- Loops. A loop over an array is a recursion on the list. The loop of `pipe_read` runs at most 255
-- times, by its own bound; the loops that empty a ring of waiters take four rounds of fuel, which
-- is enough since such a ring never holds more than three.
--
-- The search for the lowest signal and the loops over the task table run over a fixed number of
-- bits or slots, 32 at most, as in the source. The ten digits of a number in /proc are enough for
-- 32 bits. The loops over the names of a DNS packet have as much fuel as bytes that are left, since
-- each round takes one at least.
--
-- Outside: the network card is the list of the frames sent and the packets that are arguments; a
-- byte read behind a packet is 0. The timer's tick and the keyboard port's byte are arguments; a
-- sector of the disk is what a read of it gives, or nothing where the drive reports an error. Bytes
-- that C leaves unset are 0 in the model, and bytes written behind the end of a buffer are lost,
-- except that a read or write through a descriptor outside of a file's buffer is an outcome of its
-- own in `Vfs`.
--
-- Not modelled: stacks, page tables and FPU images of tasks, and what the listed files call of the
-- page tables in vmm.c; in vfs.c the arms that use a connection; in net.c the tools that print,
-- HTTP, DHCP and IPv6; in websocket.c the handshake and the loop; in window.c all drawing; devices
-- and the shell.
pub mod Base
pub mod Net
pub mod Windows
pub mod Websocket
pub mod Frames
pub mod Fs
pub mod Mfs4
pub mod Shm
pub mod Vfs
pub mod Keyboard
pub mod Heap
pub mod Ring
pub mod Task
mod Tests
pub mod Waiters
pub mod Semaphore
pub mod Condvar
pub mod Pipe
pub mod MessageQueue
pub mod Ipc
