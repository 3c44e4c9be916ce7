-- ===== src/Transfer/Session.antt =====
-- The life of the transfer window: everything that can happen to the state of transfer.c, one step
-- after the other, and what stays true of the list, the counts, the timer and the buffer.
pub mod Copies
pub mod Keeps
pub mod Outside
pub mod Reached
pub mod Safe
pub mod Starts
pub mod Ticks
use ipod_to_ipod.Base.{
  ℕ, ◌+◌, Bool, true, false, Option, none, List, [], ◌∷◌, Text, length, ◌≡◌, ◌==◌,
}
use ipod_to_ipod.Pod.{Ptr, Pod, transferring}
use ipod_to_ipod.Libipod.{Libipod}
use ipod_to_ipod.Transfer.{ok, ulong, Buffer, none_yet, allocated, freed, Item, Io, Transfer}
use ipod_to_ipod.Transfer.Copy.{transfer_widget_timer_handler}
use ipod_to_ipod.Transfer.Queue.{
  transfer_list_reset, transfer_list_add_file, transfer_list_add_track,
}
use ipod_to_ipod.Transfer.Widget.{Event, new_transfer_window, transfer_widget_event}
use ipod_to_ipod.Transfer.Run.{sizes}

-- Whether `malloc` has returned a buffer for the transfer at hand, and whether it is still there.
abbrev pub was_allocated : Buffer → Bool
was_allocated none_yet = false
was_allocated _ = true

abbrev pub was_freed : Buffer → Bool
was_freed freed = true
was_freed _ = false

module _ (lib : Libipod) where
  open lib use {Db, Track}

  -- With the window open: a tick of its timer, a button. Without: the list is made and the window
  -- opened. At any time: what the rest of the module does to the state it shares, which never makes
  -- the status transferring.
  pub data Step : Transfer lib → Transfer lib → Type 0 where
    tick :
        {s t : Transfer lib} (io : Io)
        → s.timer ≡ true
        → s.window ≡ true
        → transfer_widget_timer_handler lib io s ≡ ok t
        → Step s t
    press :
        {s t : Transfer lib} (e : Event) (agreed : Bool)
        → s.window ≡ true
        → transfer_widget_event lib e agreed s ≡ ok t
        → Step s t
    reset :
        {s : Transfer lib} (src dst : Ptr)
        → s.window ≡ false
        → Step s (transfer_list_reset lib src dst s)
    add_file :
        {s : Transfer lib} (from : Text) (to : Option Text) (size : ℕ)
        → s.window ≡ false
        → Step s (transfer_list_add_file lib from to size s)
    add_track :
        {s t : Transfer lib} (track_id : ℕ)
        → s.window ≡ false
        → transfer_list_add_track lib track_id s ≡ ok t
        → Step s t
    begin :
        {s : Transfer lib} (got_buffer : Bool)
        → s.window ≡ false
        → Step s (new_transfer_window lib got_buffer s)
    outside :
        {s : Transfer lib} (q : Pod Db)
        → (q.rip_status ≡ transferring → s.pod.rip_status ≡ transferring)
        → Step s (record s { pod = q })

  pub data Reach (s : Transfer lib) : Transfer lib → Type 0 where
    here : Reach s s
    next : {t u : Transfer lib} → Reach s t → Step t u → Reach s u

  pub record IsSound (s : Transfer lib) : Type 0 where
    -- the list and its totals
    pub files : s.total_files ≡ length s.passed + length s.cur_file
    pub bytes : s.total_bytes ≡ ulong (sizes lib s.passed + sizes lib s.cur_file)
    -- a transfer under way has its window, its timer and its buffer
    pub busy :
        s.pod.rip_status ≡ transferring
        → (s.window ≡ true) × (s.timer ≡ true) × (s.buffer ≡ allocated)
    -- the timer of an open window never finds a freed buffer
    pub timed : s.window ≡ true → s.timer ≡ true → was_freed s.buffer ≡ false
    -- with the buffer freed, no stream is open
    pub closed : was_freed s.buffer ≡ true → (s.src_file ≡ none) × (s.dst_file ≡ none)
    -- the counts of an open window are those of the items that are done and of the file at hand
    pub files_done :
        s.window ≡ true
        → was_allocated s.buffer ≡ true
        → s.total_files_transferred ≡ length s.passed
    pub bytes_done :
        s.window ≡ true
        → was_allocated s.buffer ≡ true
        → ulong s.total_bytes_transferred ≡ ulong (sizes lib s.passed + s.file_bytes_transferred)
