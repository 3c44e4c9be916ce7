-- ===== src/Lib.antt =====
-- A verification library for the "iPod to iPod" module of podzilla, which copies music between two
-- iPods that are joined by a Firewire cable: podtopod.c, connect.c, list_utils.c, transfer.c, artist.c,
-- album.c and song.c, with podtopod.h.
--
-- Parts and files
--   Base           names that the modules share; Boolean tests, lists and C strings over native numbers
--   Pod            the state that podtopod.c and connect.c share (rip_status, the two handles, the open
--                  databases, menu calls, commands), and what the outside answers while a handler runs
--   Status         the handlers of the status: the poll timer (rip_icon_timer_handler), the transitions
--                  ipod_status_…, do_mount, do_eject, settings_button. Events has the step relation,
--                  Ownership and Menu are invariants over it, Settles says where the timer ends,
--                  with Files by what the polls read
--   Polls          poll_mount, poll_connection and check_kernel_module on the bytes that they read;
--                  Mounts has the table that poll_mount reads, Sysfs the poll_connection of a desktop
--   Libipod        the calls of libipod (libipod/include/ipod) as a record, and their documented laws
--   Link           the linked lists of list_utils.c on a heap of nodes; Chain says which sequence a list
--                  stands for, Refines that adding and popping are those of sequences
--   ListUtils      the three lists with their guards and the searches; Matches, Tracks and Strings are
--                  about the loops over the tracks of a database
--   Transfer       the state of transfer.c. Queue builds the list, Start and Copy have start_copy to
--                  finish_file and the timer handler, Widget the window, Attributes the copy of a
--                  track's attributes, Progress the drawing. Steps, Finish, Adds and Run follow a run
--                  in which nothing fails (Run.Landing and Run.Stores what becomes of the files and of
--                  the destination's database), Closed, Refusals, Aborts, Unplugged and Stranded
--                  those that go wrong, Done all of them, and Session every sequence of ticks, buttons,
--                  lists and windows. Outcomes has what a chain of outcomes tells of its parts
--   System         the events of podtopod.c, with the removal of tracks, and those of the transfer window
--                  in any order, on the state that they share
--   TransferMenu   transfer_tracks and remove_tracks_do_delete of podtopod.c; Gathers, Queues,
--                  Completes and Stores join the lists, the queue and the run, Removes is about the
--                  other
--   HumanSize      humanize_size of podtopod.c
--   AltMenu        transfer_alt_menu and local_transfer_alt_menu of podtopod.c: what the window counts
--   Selection      the menus of artist.c, album.c and song.c (their functions are in Menus), and the
--                  parameter list that the items of a menu share; Chooses, Shows, Views and Opens
--                  follow a selection, Again a second one
--   Words, Draw    `int` as its bit pattern, and the calls of ttk; Bars is about the progress bar.
--                  Transfer.Progress draws the transfer window, About the numbers above the transfer
--                  menu and the window "Info"
--   Icon           the header icon of podtopod.c, whose drawing polls
--   Actions        the menu actions of a few lines, and the question before tracks are removed
--   Browser        browser_transfer of podtopod.c
--   Life           init_podtopod and cleanup_podtopod
--   Sample, Tests  concrete parameters, and the theorems and definitions at concrete inputs
--
-- How the parts interact: the status handlers open and free the databases that the searches read; the
-- selection menus build the parameters of a search, which leaves a track list on the heap; the
-- transfer menu counts it and drains it into the list of items, and the timer of the transfer window
-- copies them, item by item, into the other iPod's files and database, and sets the status back. The
-- header icon polls meanwhile, and may free a database that the transfer uses.
--
-- How code becomes a definition: a handler is a function of the state, and of a record with what the
-- outside answers while it runs (World, Io). A use of NULL, of freed memory or of a closed stream is a
-- fault, as a value: Run.fault on the heap of lists, Outcome.fault in transfer.c. Definitions keep the
-- names of the functions; a loop, a branch or a common end that C writes inline is a helper beside
-- it. `unsigned long` has 32 bits, as on the iPod, and its wrap-around is written out, as is that of
-- the coordinates that are drawn; the counts of files are native numbers. Texts are lists of bytes
-- without the NUL.
--
-- Fuel: the loops over a linked list (find_string, test_params, drain, count_tracks, pop_items) and
-- over a file's lines (poll_lines, module_lines) take fuel and say when it ran out; the theorems ask
-- for more fuel than the list has nodes, or the file lines. `run` takes the number of ticks of the
-- transfer timer: a file needs one for each full buffer of 65536 bytes and one more.
--
-- Not modelled: libipod, which is a copy of another project's library and a parameter here; what
-- podzilla and ttk do with the calls that are recorded, the sizes and titles of windows, and whether
-- a menu copies the items of a static table; the bytes that printf makes of numbers; what a file of
-- the destination held before; whether fclose, whose result the code ignores, brings the bytes that
-- fwrite took to the disk: `written` is a log of the streams closed, with the bytes that fwrite took.
-- new_pp_playlist_menu is put in a menu, but no file defines it.
mod Base
pub mod Pod
pub mod Status
pub mod Libipod
pub mod Link
pub mod ListUtils
pub mod System
pub mod Transfer
pub mod TransferMenu
pub mod Polls
pub mod Draw
pub mod Icon
pub mod Life
pub mod Actions
pub mod Browser
pub mod About
pub mod HumanSize
pub mod AltMenu
pub mod Selection
pub mod Sample
mod Tests
pub mod Words
