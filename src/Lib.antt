-- ===== src/Lib.antt =====
-- Verification library of cjunk: the parts of this collection of C programs that keep state.
--
-- PARTS. The Linux driver of a PEX 8311 frame grabber (kernel/device_driver/chardrv/plx), the state
-- machine of the control system that uses it (fsm/system_state.c), the store of its configurations
-- (configuration/configuration.c), the table of the tags of its commands (hash/tag.c), the list of
-- frames between its two threads (logging/log4c/pointers.c), the map that orders the pixels of a
-- frame (unscramble/unscrambla.c), the functions that make its sockets (socket/communication.c), and
-- the monitor that watches that system over a socket (watchdog/system_monitor.c). The generic list (linked_list/generic_list) stands alone. The board
-- interrupts the driver for each frame: plx_on_interrupt starts a DMA transfer into the buffer `ip`
-- and steps `ip`; the transfer's end interrupts again, and plx_dpc_for_isr, which plx_on_interrupt
-- has queued, steps `wp` and wakes readers; plx_drv_read copies the buffer `rp` to the user and
-- steps `rp`. The command link (plx_write_reg, plx_read_reg, plx_immediate_cmd) talks to the
-- detector's registers, and plx_drv_ioctl gives a program access to it and to the driver's
-- counters, as does the proc file (plx_read_procmem). plx_drv_init_module and plx_drv_exit_module
-- register the character device and the proc file; probe and remove claim and release the PCI
-- device.
--
-- FILES, with C names and paths from the repository's root.
--   Driver/Defs         driver_t of plx_driverdefs.h, as the record Driver; the register macros, which
--                       log each access; the hardware and the kernel, as the record Env.
--   Driver/Ring         the three pointers and the code that steps them, from plx_interrupt.c and
--                       plx_fops.c. Ring/Order: the order rp, wp, ip. Ring/Fifo: the ring as a queue.
--                       Ring/Overflow: what a full ring leads to.
--   Driver/Interrupt    plx_on_interrupt, plx_dpc_for_isr and alert_read of plx_interrupt.c.
--                       Interrupt/Pointers and Interrupt/Refused: their effect on the ring.
--                       Interrupt/Sources: what they hand on at the end of a transfer.
--   Driver/Dma          plx_dma_transfer_block, plx_dma_open_channel and plx_dma_close_channel of
--                       plx_driver.c.
--   Driver/Chip         plx_chip_dma_control, plx_chip_dma_status, the synchronized register update
--                       and the interrupt switch of plx_driver.c. Driver/Reset: plx_board_reset.
--   Driver/Timer        plx_diff_since_read and the single register accesses of plx_driver.c.
--   Driver/CommandLink  the waits for the command link and what uses them, of plx_driver.c.
--   Driver/Fops         plx_drv_open, plx_drv_release, plx_drv_read and plx_drv_poll of plx_fops.c,
--                       and the installation of the interrupt handler in plx_driver.c. Fops/Opening and
--                       Fops/Broken: the counting of users. Fops/Reading: reads. Fops/Leased: what
--                       opening takes and releasing gives back, by the counts of Driver/Lease.
--   Driver/Request      the commands of plx_drv.h. Driver/Ioctl: plx_drv_ioctl of plx_ioctl.c.
--                       Ioctl/Buffer and Ioctl/Counts: the buffer that it copies back.
--                       Ioctl/Ordered: its effect on the ring. Ioctl/Ends: its end.
--   Driver/Module       the life of the module, of plx_driver.c: Module/Calls, the kernel as the
--                       record Kernel. Module/Resources: the BARs. Module/Probe: probe and remove.
--                       Module/Load: plx_drv_init_module and plx_drv_exit_module. Module/Bars,
--                       Hotplug and Leaks: what these give back.
--   Driver/Proc         plx_read_procmem of plx_proc.c. Proc/Fields and Proc/Tables: the text it
--                       writes. Proc/Rate: its frame rate. Proc/Ends: its end.
--   Driver/Held         the ring's pointers and the semaphore read_semph, which most functions leave
--                       alone; the files named Kept or Frame, and Ioctl/Ordered, show which do.
--   Driver/Life         the sequences of calls that the kernel makes of the driver, in any order, with
--                       those that run while a read sleeps. Life/Reads and Life/Refine: each call as
--                       moves, of its caller, of the pointers and the semaphore. Life/Safe: what the moves keep.
--                       Life/Queue: the handler, the deferred procedure and reads against the queue
--                       of Ring/Fifo. Life/Overflow: what a full ring leads to.
--                       Life/Woken: a read that sleeps until a frame is there.
--   Fsm                 change_system_state, change_background_mode, set_standby_system_state and
--                       the two getters of fsm/system_state.c.
--   Monitor             system_monitor.c. Monitor/Attempts: its connection loop. Monitor/Echo: its
--                       echo commands. Monitor/Bounds: its counter of timeouts.
--   Config              configuration.c. Config/Defs: the structures, and libconfig as the record
--                       Libconfig. Config/Read: read_configuration_file and the getters. Config/Edit,
--                       Config/Update and Config/Save: the functions that change the file.
--                       Config/Flags: the calibration flags. Config/Paths: the texts of the paths.
--                       Config/Written, Closing, Saved and Flagged: what they leave behind; the
--                       others are lemmas for these.
--   FrameList           the circular list of frames of logging/log4c/pointers.c: `writer` and `reader`.
--                       FrameList/Fifo: rounds without interruption. FrameList/Race: with one.
--   GenList             linked_list/generic_list/gen_list.c. GenList/Walk: get_next_node.
--                       GenList/Deletion: DeleteList.
--   Tag                 hash/tag.c, the table of command tags. Tag/Laws: what it relies on of uthash.
--                       Tag/Loops: the loops that delete. Tag/Sequence: sequences of calls.
--   Sockets             socket/communication.c. Sockets/Connecting: the functions that connect.
--                       Sockets/Serving: those that listen.
--   Unscramble          the loops of unscramble/unscrambla.c. Unscramble/Marks: one loop over i.
--                       Unscramble/Scan: the loop over p. Unscramble/Bijection: the whole matrix.
--   Prelude             numbers, words, bits and lists. The files whose names end in Tests
--                       apply the theorems to concrete inputs.
--
-- MODEL. A C function is a function of the driver's state that returns its result and the next
-- state. A register read is answered by Env from all accesses made before it, so the theorems hold
-- for every behaviour of the device. The kernel's answers to the calls of the module and of probe
-- are those of Kernel, in the same way; what the calls took and gave back is summed with a weight
-- for each thing held, so that a theorem for every weight counts each of them. Where probe or remove
-- would use the address of a BAR that is not mapped, a work queue that was not made or driver data
-- that is not there, the call has no result; in the functions that are called once the device is
-- set up, the BARs are taken to be mapped. A word is a natural
-- number reduced by its width; a bit mask is the list of its bits. In Driver/Life each call runs
-- to its end before the next one, but for a read that waits for a frame; an interrupt in the middle
-- of another call is not modelled. The board puts a frame into the buffer at `ip` when its transfer is
-- started. The driver is built as its
-- Makefile does: FASTER_CL, STEP_IN_INT and STEP_IN_INT_DPC, not DMA1, DMA_DEBUG or ZERO.
--
-- The configuration file is seen through libconfig, a parameter with the laws of Config/Laws: what
-- was written is read back, and a change of one setting is seen there and nowhere else. Its paths
-- are lists of names, so that the buffers of their texts are taken to be large enough. Config/Paths
-- measures them: three buffers of read_configuration_file are too small, so that the theorems about
-- the reading of registers are about a program with larger ones.
--
-- The table of tags is one of uthash, a parameter with the laws of Tag/Laws. A round of each thread of
-- the frame list is a function, but the writer's can be stopped where it steps its pointer.
--
-- FUEL. The loops that wait for the command link run on fuel. Each round reads the cycle counter
-- and ends when it exceeds the limit, 2000000000 cycles on: if the counter goes on by a cycle for
-- each access, `enough_fuel`, two more than that, is enough. The loops over the eight buffers count
-- down. DeleteList takes one round more than there are nodes. The monitor's connection loop ends
-- within seven rounds; its loops that read a message end only if the peer sends one, so that fuel
-- is a parameter there.
--
-- NOT MODELLED. Locks, delays and printing; the size of the page that the proc file is written to;
-- the third-party code in the repository (memwatch.c, uthash.h, utlist.h, paranoia.c, bstree.c, the
-- ping program, socklib); the example programs for sockets, threads, signals and C++; scripts.
pub mod Prelude
pub mod Fsm
pub mod Driver
pub mod Monitor
pub mod Config
pub mod FrameList
pub mod GenList
pub mod Tag
pub mod Sockets
pub mod Unscramble
