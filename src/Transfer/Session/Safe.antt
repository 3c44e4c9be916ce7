-- ===== src/Transfer/Session/Safe.antt =====
-- The steps other than ticks keep the invariant of the transfer window, and free nothing twice.
use ipod_to_ipod.Base.{
  ap, ℕ, ◌+◌, Bool, true, false, Option, none, some, List, [], ◌∷◌, length, length-append, ◌≡◌, ◌≢◌,
  ◌==◌, refl, arith,
}
use ipod_to_ipod.Pod.{Ptr, null, Status, disconnected, unmounted, mounted, transferring, ejected}
use ipod_to_ipod.Libipod.{Libipod}
use ipod_to_ipod.Transfer.{fault, ok, Outcome, no_source_track, ulong, Item, Transfer}
use ipod_to_ipod.Transfer.Outcomes.{Safe, safe, faulty, Post-weaken, Post-option, Post-if}
use ipod_to_ipod.Transfer.Start.{abort_transfer, complain, start_copy}
use ipod_to_ipod.Transfer.Queue.{
  transfer_list_reset, link_last, add_item, find_track, track_item, transfer_list_add_track,
}
use ipod_to_ipod.Transfer.Widget.{
  Event, menu_down, other_down, button_up, destroy, other_event, new_transfer_window,
  close_transfer, menu_button, transfer_widget_event,
}
use ipod_to_ipod.Transfer.Run.{sizes}
use ipod_to_ipod.Transfer.Session.{IsSound, was_freed}
use ipod_to_ipod.Transfer.Session.Keeps.{sizes-append, transfer_finished-Safe}

module _ (lib : Libipod) where
  open lib use {Db, Track}

  -- The list is emptied: the window is closed, or not open.
  pub reset-IsSound :
      (src dst : Ptr) (s : Transfer lib)
      → IsSound lib s
      → s.window ≡ false
      → IsSound lib (transfer_list_reset lib src dst s)
  unfolding transfer_list_reset sizes
  reset-IsSound src dst s i shut = record {
    files = refl;
    bytes = refl;
    busy = i.busy;
    timed = i.timed;
    closed = i.closed;
    files_done = λ o a. absurd (cc (o, shut));
    bytes_done = λ o a. absurd (cc (o, shut));
  }

  close_transfer-IsSound :
      (s : Transfer lib)
      → s.pod.rip_status ≢ transferring
      → IsSound lib s
      → IsSound lib (close_transfer lib s)
  unfolding close_transfer transfer_list_reset sizes
  close_transfer-IsSound s idle i = record {
    files = refl;
    bytes = refl;
    busy = λ h. absurd (idle h);
    timed = λ o a. absurd (cc o);
    closed = i.closed;
    files_done = λ o a. absurd (cc o);
    bytes_done = λ o a. absurd (cc o);
  }

  menu_button-Safe :
      (st : Status) (agreed : Bool) (s : Transfer lib)
      → s.pod.rip_status ≡ st
      → IsSound lib s
      → Safe (IsSound lib) (menu_button lib st agreed s)
  unfolding menu_button abort_transfer
  menu_button-Safe transferring true s e i =
      let there : was_freed s.buffer ≡ false = ap was_freed (i.busy e).2 in
      Post-weaken (transfer_finished-Safe lib s there i) (λ t st. st.sound)
  menu_button-Safe transferring false s e i = safe i
  menu_button-Safe disconnected agreed s e i =
      safe (close_transfer-IsSound s (λ h. absurd (cc (e, h))) i)
  menu_button-Safe unmounted agreed s e i =
      safe (close_transfer-IsSound s (λ h. absurd (cc (e, h))) i)
  menu_button-Safe mounted agreed s e i =
      safe (close_transfer-IsSound s (λ h. absurd (cc (e, h))) i)
  menu_button-Safe ejected agreed s e i =
      safe (close_transfer-IsSound s (λ h. absurd (cc (e, h))) i)

  pub transfer_widget_event-Safe :
      (e : Event) (agreed : Bool) (s : Transfer lib)
      → IsSound lib s
      → Safe (IsSound lib) (transfer_widget_event lib e agreed s)
  unfolding transfer_widget_event
  transfer_widget_event-Safe menu_down agreed s i =
      menu_button-Safe s.pod.rip_status agreed s refl i
  transfer_widget_event-Safe other_down agreed s i = safe i
  transfer_widget_event-Safe button_up agreed s i = safe i
  transfer_widget_event-Safe destroy agreed s i = safe i
  transfer_widget_event-Safe other_event agreed s i = safe i

  link_last-IsSound :
      (items : List (Item Track)) (item : Item Track) (s : Transfer lib)
      → s.cur_file ≡ items
      → s.window ≡ false
      → IsSound lib s
      → IsSound lib (
          link_last lib items item (record s {
            total_files = s.total_files + 1;
            total_bytes = ulong (s.total_bytes + item.filesize);
          }))
  unfolding link_last sizes
  link_last-IsSound [] item s at_hand shut i = record {
    files = omega (arith, i.files, length-append s.passed (item ∷ []));
    bytes = omega (arith, i.bytes, sizes-append lib s.passed (item ∷ []));
    busy = i.busy;
    timed = i.timed;
    closed = i.closed;
    files_done = λ o a. absurd (cc (o, shut));
    bytes_done = λ o a. absurd (cc (o, shut));
  }
  link_last-IsSound (x ∷ xs) item s at_hand shut i = record {
    files = omega (arith, i.files, length-append xs (item ∷ []), ap (λ l. length l) at_hand);
    bytes = omega (arith, i.bytes, sizes-append lib xs (item ∷ []), ap (λ l. sizes lib l) at_hand);
    busy = i.busy;
    timed = i.timed;
    closed = i.closed;
    files_done = λ o a. absurd (cc (o, shut));
    bytes_done = λ o a. absurd (cc (o, shut));
  }

  pub add_item-IsSound :
      (item : Item Track) (s : Transfer lib)
      → s.window ≡ false
      → IsSound lib s
      → IsSound lib (add_item lib item s)
  unfolding add_item
  add_item-IsSound item s shut i = link_last-IsSound s.cur_file item s refl shut i

  -- The transfer window opens, with a buffer or without.
  pub begin-IsSound :
      (got_buffer : Bool) (s : Transfer lib)
      → s.window ≡ false
      → IsSound lib s
      → IsSound lib (new_transfer_window lib got_buffer s)
  unfolding new_transfer_window start_copy complain sizes
  begin-IsSound true s shut i = record {
    files = omega (arith, i.files, length-append s.passed s.cur_file);
    bytes = omega (arith, i.bytes, sizes-append lib s.passed s.cur_file);
    busy = λ h. (refl, refl, refl);
    timed = λ o a. refl;
    closed = λ h. absurd (cc h);
    files_done = λ o a. refl;
    bytes_done = λ o a. refl;
  }
  begin-IsSound false s shut i = record {
    files = i.files;
    bytes = i.bytes;
    busy = λ h. absurd (cc (shut, (i.busy h).0));
    timed = λ o a. refl;
    closed = λ h. absurd (cc h);
    files_done = λ o a. absurd (cc a);
    bytes_done = λ o a. absurd (cc a);
  }

  find_track-Safe :
      (dbs : Ptr → Option Db) (ipod : Ptr) (track_id : ℕ)
      → Safe (λ o. Unit) (find_track lib dbs ipod track_id)
  unfolding find_track
  find_track-Safe dbs ipod track_id =
      Post-if (ipod == null) (λ h. safe tt)
        (λ h.
          Post-option (dbs ipod) (λ e. faulty refl)
            (λ d e. Post-option (lib.get_by_track_id d track_id) (λ e. safe tt) (λ t e. safe tt)))

  found-Safe :
      (found : Outcome (Option (Db × Track))) (s : Transfer lib)
      → Safe (λ o. Unit) found
      → s.window ≡ false
      → IsSound lib s
      → Safe (IsSound lib) (elim found [
        | fault e ↦ fault e
        | ok none ↦ ok (record s { messages = no_source_track ∷ s.messages })
        | ok (some (d, track)) ↦ ok (add_item lib (track_item lib d track) s)
      ])
  found-Safe (fault x) s (faulty h) shut i = faulty h
  found-Safe (ok none) s h shut i = safe (record {
    files = i.files;
    bytes = i.bytes;
    busy = i.busy;
    timed = i.timed;
    closed = i.closed;
    files_done = i.files_done;
    bytes_done = i.bytes_done;
  })
  found-Safe (ok (some (d, track))) s h shut i =
      safe (add_item-IsSound (track_item lib d track) s shut i)

  pub add_track-Safe :
      (track_id : ℕ) (s : Transfer lib)
      → s.window ≡ false
      → IsSound lib s
      → Safe (IsSound lib) (transfer_list_add_track lib track_id s)
  unfolding transfer_list_add_track
  add_track-Safe track_id s shut i =
      found-Safe (find_track lib s.pod.dbs s.src_ipod track_id) s
        (find_track-Safe s.pod.dbs s.src_ipod track_id) shut i
