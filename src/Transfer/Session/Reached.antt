-- ===== src/Transfer/Session/Reached.antt =====
-- What holds in every state that the transfer window reaches.
use ipod_to_ipod.Base.{ℕ, Bool, ◌&&◌, ◌==◌, ◌≡◌, ◌≢◌, true, false, some, none, if◌then◌else◌}
use ipod_to_ipod.Pod.{Ptr, Pod, mounted, set_db}
use ipod_to_ipod.Libipod.{Libipod}
use ipod_to_ipod.Transfer.{fault, double_free, freed, Io, Transfer}
use ipod_to_ipod.Transfer.Outcomes.{Safe, safe, Post-bind, Post-if, Post-ok, Post-fault}
use ipod_to_ipod.Transfer.Start.{close_dst}
use ipod_to_ipod.Transfer.Queue.{transfer_list_add_file}
use ipod_to_ipod.Transfer.Widget.{Event, transfer_widget_event}
use ipod_to_ipod.Transfer.Run.{run}
use ipod_to_ipod.Transfer.Session.{
  Step, Reach, IsSound, tick, press, reset, add_file, add_track, begin, outside, here, next,
}
use ipod_to_ipod.Transfer.Session.Safe.{
  transfer_widget_event-Safe, reset-IsSound, add_item-IsSound, add_track-Safe, begin-IsSound,
}
use ipod_to_ipod.Transfer.Session.Ticks.{transfer_widget_timer_handler-Safe}

module _ (lib : Libipod) where
  open lib use {Db, Track, flush}

  Step-IsSound : {s t : Transfer lib} → Step lib s t → IsSound lib s → IsSound lib t
  unfolding transfer_list_add_file
  Step-IsSound {s} (tick io on o e) i =
      Post-ok e (transfer_widget_timer_handler-Safe lib io s (i.timed o on) i)
  Step-IsSound {s} (press ev agreed o e) i =
      Post-ok e (transfer_widget_event-Safe lib ev agreed s i)
  Step-IsSound (reset src dst shut) i = reset-IsSound lib src dst _ i shut
  Step-IsSound (add_file from to size shut) i = add_item-IsSound lib _ _ shut i
  Step-IsSound (add_track track_id shut e) i = Post-ok e (add_track-Safe lib track_id _ shut i)
  Step-IsSound (begin got shut) i = begin-IsSound lib got _ shut i
  Step-IsSound (outside q never) i = record {
    files = i.files;
    bytes = i.bytes;
    busy = λ h. i.busy (never h);
    timed = i.timed;
    closed = i.closed;
    files_done = i.files_done;
    bytes_done = i.bytes_done;
  }

  -- From a state with this invariant every sequence of steps leads to one: `total_files` is the length
  -- of the list and `total_bytes` the sum of its sizes modulo 2^32; where the status is transferring,
  -- the window is open, its timer is set and the buffer is allocated; a timer that is set in an open
  -- window never finds a freed buffer; where the buffer has been freed, both streams are closed; and in
  -- an open window whose buffer was allocated, `total_files_transferred` is the number of the items
  -- before `cur_file`, and `total_bytes_transferred` modulo 2^32 the sum of their sizes and of
  -- `file_bytes_transferred`. The steps are the ticks of an open window, whatever the outside answers,
  -- its buttons, the making of a list and the opening of a window while none is open, and any change of
  -- the shared state that does not make the status transferring.
  pub Reach-IsSound : {s t : Transfer lib} → Reach lib s t → IsSound lib s → IsSound lib t
  Reach-IsSound here i = i
  Reach-IsSound (next r st) i = Step-IsSound st (Reach-IsSound r i)

  -- The timer of an open window fires once, if it is set.
  fires-Safe :
      (ios : ℕ → Io) (s : Transfer lib)
      → s.window ≡ true
      → IsSound lib s
      → Safe (IsSound lib) (run lib ios 0 1 s)
  unfolding run
  fires-Safe ios s o i =
      Post-if s.timer
        (λ on.
          Post-bind (transfer_widget_timer_handler-Safe lib (ios 0) s (i.timed o on) i)
            (λ t j. safe j))
        (λ off. safe i)

  -- In every state with an open window that is reached from one with the invariant, whether its timer
  -- is set or not (a transfer that goes on, has ended or was aborted): when the timer, if it is set,
  -- fires, whatever the outside answers, and when any button is pressed, with any answer to the
  -- dialog, `free` is not called on a buffer that has been freed.
  pub Reach-frees_once :
      {s t : Transfer lib} (ios : ℕ → Io) (e : Event) (agreed : Bool)
      → Reach lib s t
      → IsSound lib s
      → t.window ≡ true
      → (run lib ios 0 1 t ≢ fault double_free)
        × (transfer_widget_event lib e agreed t ≢ fault double_free)
  Reach-frees_once {t = t} ios e agreed r i o =
      let sound = Reach-IsSound r i in
      (
        λ h. absurd (cc (Post-fault h (fires-Safe ios t o sound))),
        λ h. absurd (cc (Post-fault h (transfer_widget_event-Safe lib e agreed t sound))),
      )

  -- The destination's database, flushed if it is dirty.
  abbrev pub flushed : Bool → Db → Ptr → Pod Db → Pod Db
  flushed dirty d dst p = record p {
    dbs = if dirty then set_db p.dbs dst (some (flush d)) else p.dbs;
    mpd_dirty = if dirty && (dst == p.local_ipod) then true else p.mpd_dirty;
  }

  -- The state that an agreed abort leaves.
  abbrev pub cancelled : Db → Transfer lib → Transfer lib
  cancelled d s = record s {
    buffer = freed;
    src_file = none;
    written = close_dst lib s.dst_file s.written;
    dst_file = none;
    timer = false;
    pod = record (flushed s.dst_ipod_dirty d s.dst_ipod s.pod) { rip_status = mounted };
  }
