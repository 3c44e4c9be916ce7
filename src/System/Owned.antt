-- ===== src/System/Owned.antt =====
-- The open databases of the module as a whole.
use mathlib.Core.Path.{subst}
use ipod_to_ipod.Base.{ℕ, sym, ◌∙◌, Bool, true, false, Option, none, some, List, [], ◌∷◌, ◌≡◌, refl}
use ipod_to_ipod.Pod.{Pod}
use ipod_to_ipod.Libipod.{Libipod}
use ipod_to_ipod.Status.Events
use ipod_to_ipod.Status.Ownership.{IsOwned, Reach-IsOwned}
use ipod_to_ipod.Transfer.{Outcome, ok, fault, no_source_track, Item, Transfer}
use ipod_to_ipod.Transfer.Outcomes.{Partly, safe, faulty, Post-ok}
use ipod_to_ipod.Transfer.Start.{complain, start_copy}
use ipod_to_ipod.Transfer.Queue.{
  transfer_list_reset, link_last, add_item, track_item, transfer_list_add_file, find_track,
  transfer_list_add_track,
}
use ipod_to_ipod.Transfer.Widget.{new_transfer_window}
use ipod_to_ipod.System.{
  Step, Reach, poll, cycle, settings, configure, eject, remove, reset, add_file, add_track, begin,
  tick, press, here, next,
}
use ipod_to_ipod.System.Touches.{Touches, Touches-refl, Fits}
use ipod_to_ipod.System.Removes.{remove_tracks_do_delete-Touches}
use ipod_to_ipod.System.Handlers.{tick-Fits, press-Fits}

Touches-IsOwned : {Db : Type 0} {p q : Pod Db} → Touches p q → IsOwned p → IsOwned q
Touches-IsOwned {p = p} {q = q} t i = record {
  local_ne_null = λ e. i.local_ne_null (sym t.same_local ∙ e);
  remote_ne_local = λ e. i.remote_ne_local (sym t.same_remote ∙ e ∙ t.same_local);
  owned = λ x. t.same_open x ∙ i.owned x ∙ rw (t.same_local, t.same_remote) refl;
  closed = λ h. t.same_remote ∙ i.closed (t.idle h);
}

module _ (lib : Libipod) where
  open lib use {Db, Track}

  -- The list and its making do not touch the shared state.
  link_last-pod :
      (items : List (Item Track)) (item : Item Track) (s : Transfer lib)
      → (link_last lib items item s).pod ≡ s.pod
  unfolding link_last
  link_last-pod [] item s = refl
  link_last-pod (x ∷ xs) item s = refl

  add_item-pod : (item : Item Track) (s : Transfer lib) → (add_item lib item s).pod ≡ s.pod
  unfolding add_item
  add_item-pod item s = link_last-pod s.cur_file item _

  found-pod :
      (found : Outcome (Option (Db × Track))) (s : Transfer lib)
      → Partly
          (λ t. t.pod ≡ s.pod)
          (elim found [
            | fault e ↦ fault e
            | ok none ↦ ok (record s { messages = no_source_track ∷ s.messages })
            | ok (some (d, track)) ↦ ok (add_item lib (track_item lib d track) s)
          ])
  found-pod (fault x) s = faulty refl
  found-pod (ok none) s = safe refl
  found-pod (ok (some (d, track))) s = safe (add_item-pod (track_item lib d track) s)

  add_track-pod :
      (track_id : ℕ) (s : Transfer lib)
      → Partly (λ t. t.pod ≡ s.pod) (transfer_list_add_track lib track_id s)
  unfolding transfer_list_add_track
  add_track-pod track_id s = found-pod (find_track lib s.pod.dbs s.src_ipod track_id) s

  begin-Fits :
      (got_buffer : Bool) (s : Transfer lib) → Fits lib s.pod (new_transfer_window lib got_buffer s)
  unfolding new_transfer_window start_copy complain
  begin-Fits true s = record {
    same_remote = refl;
    same_local = refl;
    same_open = λ x. refl;
    idle = λ h. absurd (cc h);
  }
  begin-Fits false s = Touches-refl s.pod

  Step-IsOwned : {s t : Transfer lib} → Step lib s t → IsOwned s.pod → IsOwned t.pod
  unfolding transfer_list_reset transfer_list_add_file
  Step-IsOwned (poll w o) i = Reach-IsOwned (Events.next Events.here (Events.tick w o)) i
  Step-IsOwned (cycle w o) i = Reach-IsOwned (Events.next Events.here (Events.cycle w o)) i
  Step-IsOwned (settings k w o) i = Reach-IsOwned (Events.next Events.here (Events.button k w o)) i
  Step-IsOwned (configure m a) i = Reach-IsOwned (Events.next Events.here (Events.configure m a)) i
  Step-IsOwned (eject b w) i = Reach-IsOwned (Events.next Events.here (Events.eject b w)) i
  Step-IsOwned {s} (remove fuel tracks rest p h g e) i =
      Touches-IsOwned (remove_tracks_do_delete-Touches lib fuel tracks s.pod h e) i
  Step-IsOwned (reset src dst) i = i
  Step-IsOwned {s} (add_file from to size) i = subst IsOwned (sym (add_item-pod _ s)) i
  Step-IsOwned {s} (add_track track_id e) i =
      subst IsOwned (sym (Post-ok e (add_track-pod track_id s))) i
  Step-IsOwned {s} (begin got) i = Touches-IsOwned (begin-Fits got s) i
  Step-IsOwned {s} (tick io on e) i =
      Touches-IsOwned (Post-ok e (tick-Fits lib s.pod io s (Touches-refl s.pod))) i
  Step-IsOwned {s} (press ev agreed e) i =
      Touches-IsOwned (Post-ok e (press-Fits lib s.pod ev agreed s (Touches-refl s.pod))) i

  -- The module as a whole, from a state in which the open databases are exactly those of `local_ipod`
  -- and, if it is not NULL, `remote_ipod`, where the two differ, the local one is not NULL and the
  -- remote one is NULL outside the mounted and transferring statuses: every sequence of polls, cycles
  -- of the status, ejections and settings, removals of tracks, lists of items, transfer windows, ticks
  -- and buttons, each of which ends without a fault, with any answers from outside (a new database has
  -- a new handle, which is not NULL), leads to such a state again. A step that faults has no state
  -- after it, and nothing is said of it.
  pub System-IsOwned : {s t : Transfer lib} → Reach lib s t → IsOwned s.pod → IsOwned t.pod
  System-IsOwned here i = i
  System-IsOwned (next r st) i = Step-IsOwned st (System-IsOwned r i)
