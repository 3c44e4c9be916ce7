-- ===== src/System/Handlers.antt =====
-- What the handlers of transfer.c do to the state that they share with podtopod.c.
use ipod_to_ipod.Base.{
  ℕ, ◌++◌, Bool, true, false, Option, none, some, List, [], ◌∷◌, Text, length, take, drop, min,
  refl, ◌==◌,
}
use ipod_to_ipod.Pod.{Ptr, Pod, Status, disconnected, unmounted, mounted, transferring, ejected}
use ipod_to_ipod.Libipod.{Libipod}
use ipod_to_ipod.Transfer.{
  zero_bytes_read, short_write, Buffer, none_yet, allocated, freed, buffer_size, Item, Io, Transfer,
}
use ipod_to_ipod.Transfer.Outcomes.{any, Partly, safe, faulty, Post-bind, Post-if, Post-option}
use ipod_to_ipod.Transfer.Start.{abort_transfer}
use ipod_to_ipod.Transfer.Copy.{
  write_bytes, copy_bytes, do_copy, add_copy, finish_track, close_files, finish_file,
  finish_if_done, finish_if_copied, transfer_widget_timer_handler,
}
use ipod_to_ipod.Transfer.Queue.{transfer_list_reset}
use ipod_to_ipod.Transfer.Widget.{
  Event, menu_down, other_down, button_up, destroy, other_event, close_transfer, menu_button,
  transfer_widget_event,
}
use ipod_to_ipod.System.Touches.{
  Touches, put-Touches, Fits, transfer_finished-Fits, abort_transfer-Fits, start_if_unnamed-Fits,
}

module _ (lib : Libipod) (p : Pod lib.Db) where
  open lib use {Db, Track}

  write_bytes-Fits :
      (io : Io) (bytes unread : List ℕ) (f : Text × List ℕ) (s : Transfer lib)
      → (Fits lib p) s
      → Partly (Fits lib p) (write_bytes lib io bytes unread f s)
  unfolding write_bytes
  write_bytes-Fits io bytes unread f s t =
      let n = min io.accepted (length bytes) in
      Post-if (n == length bytes) (λ h. safe t)
        (λ h.
          abort_transfer-Fits lib p short_write
            (record s { src_file = some unread; dst_file = some (f.0, f.1 ++ take n bytes) }) t)

  copy_bytes-Fits :
      (io : Io) (b : Buffer) (src : Option (List ℕ)) (dst : Option (Text × List ℕ))
      (s : Transfer lib)
      → (Fits lib p) s
      → Partly (Fits lib p) (copy_bytes lib io b src dst s)
  unfolding copy_bytes
  copy_bytes-Fits io none_yet src dst s t = faulty refl
  copy_bytes-Fits io freed src dst s t = faulty refl
  copy_bytes-Fits io allocated none dst s t = faulty refl
  copy_bytes-Fits io allocated (some unread) dst s t =
      let n = min io.readable buffer_size in
      Post-if (length (take n unread) == 0) (λ h. abort_transfer-Fits lib p zero_bytes_read s t)
        (λ h.
          Post-option dst (λ e. faulty refl)
            (λ f e. write_bytes-Fits io (take n unread) (drop n unread) f s t))

  finish_track-Touches :
      (io : Io) (src dst : Ptr) (track : Option Track) (location : Text) (q : Pod Db)
      → Touches p q
      → Partly (Touches p) (finish_track lib io src dst track location q)
  unfolding finish_track
  finish_track-Touches io src dst none location q t = safe t
  finish_track-Touches io src dst (some track) location q t =
      Post-option (q.dbs src) (λ e. faulty refl)
        (λ s e.
          Post-option (q.dbs dst) (λ e. faulty refl)
            (λ d open_db.
              Post-bind (any (add_copy lib io s track location d))
                (λ d' u. safe (put-Touches p q dst d d' t open_db))))

  close_files-Fits :
      (src : Option (List ℕ)) (dst : Option (Text × List ℕ)) (s : Transfer lib)
      → (Fits lib p) s
      → Partly (Fits lib p) (close_files lib src dst s)
  unfolding close_files
  close_files-Fits none dst s t = faulty refl
  close_files-Fits (some unread) none s t = faulty refl
  close_files-Fits (some unread) (some f) s t = safe t

  finish_if_copied-Fits :
      (io : Io) (items : List (Item Track)) (s : Transfer lib)
      → (Fits lib p) s
      → Partly (Fits lib p) (finish_if_copied lib io items s)
  unfolding finish_if_copied finish_file
  finish_if_copied-Fits io [] s t = faulty refl
  finish_if_copied-Fits io (item ∷ items) s t =
      Post-if (item.filesize == s.file_bytes_transferred)
        (λ h.
          Post-bind (finish_track-Touches io s.src_ipod s.dst_ipod item.src_track _ s.pod t)
            (λ q r. Post-bind (close_files-Fits s.src_file s.dst_file _ r) (λ s' t'. safe t')))
        (λ h. safe t)

  finish_if_done-Fits :
      (items : List (Item Track)) (s : Transfer lib)
      → (Fits lib p) s
      → Partly (Fits lib p) (finish_if_done lib items s)
  unfolding finish_if_done
  finish_if_done-Fits [] s t = transfer_finished-Fits lib p s t
  finish_if_done-Fits (item ∷ items) s t = safe t

  pub tick-Fits :
      (io : Io) (s : Transfer lib)
      → (Fits lib p) s
      → Partly (Fits lib p) (transfer_widget_timer_handler lib io s)
  unfolding transfer_widget_timer_handler do_copy
  tick-Fits io s t = Post-bind (start_if_unnamed-Fits lib p io s.cur_file s t) (λ a u.
      Post-bind (copy_bytes-Fits io a.buffer a.src_file a.dst_file a u) (λ b v.
        Post-bind (finish_if_copied-Fits io b.cur_file b v)
          (λ c w. finish_if_done-Fits c.cur_file c w)))

  menu_button-Fits :
      (st : Status) (agreed : Bool) (s : Transfer lib)
      → (Fits lib p) s
      → Partly (Fits lib p) (menu_button lib st agreed s)
  unfolding menu_button abort_transfer close_transfer transfer_list_reset
  menu_button-Fits transferring true s t = transfer_finished-Fits lib p s t
  menu_button-Fits transferring false s t = safe t
  menu_button-Fits disconnected agreed s t = safe t
  menu_button-Fits unmounted agreed s t = safe t
  menu_button-Fits mounted agreed s t = safe t
  menu_button-Fits ejected agreed s t = safe t

  pub press-Fits :
      (e : Event) (agreed : Bool) (s : Transfer lib)
      → (Fits lib p) s
      → Partly (Fits lib p) (transfer_widget_event lib e agreed s)
  unfolding transfer_widget_event
  press-Fits menu_down agreed s t = menu_button-Fits s.pod.rip_status agreed s t
  press-Fits other_down agreed s t = safe t
  press-Fits button_up agreed s t = safe t
  press-Fits destroy agreed s t = safe t
  press-Fits other_event agreed s t = safe t
