-- ===== src/TransferMenu.antt =====
-- The menu over a list of selected tracks in podtopod.c: "Transfer" and "Remove".
pub mod Completes
pub mod Gathers
pub mod Queues
pub mod Removes
pub mod Stores
use ipod_to_ipod.Base.{
  ℕ, zero, suc, Bool, true, false, Option, none, some, ◌∷◌, ◌==◌, if◌then◌else◌,
}
use ipod_to_ipod.Pod.{Ptr, null, Pod, set_db}
use ipod_to_ipod.Libipod.{Libipod}
use ipod_to_ipod.Link.{Heap, Run, out_of_fuel, Cmd, ◌>>=◌, pure}
use ipod_to_ipod.ListUtils.{TrackList, track_list_pop}
use ipod_to_ipod.Transfer.{Outcome, freed_ipod, Transfer, src_ipod_not_set}
use ipod_to_ipod.Transfer.Queue.{transfer_list_reset, transfer_list_add_track}
use ipod_to_ipod.Transfer.Widget.{new_transfer_window}

-- An outcome, as a command that leaves the heap alone.
abbrev pub lift : {A L : Type 0} → Outcome L → Cmd A L
lift (Outcome.ok s) h = Run.ok s h
lift (Outcome.fault e) h = Run.fault

-- `while ((track_id = track_list_pop(tracks))) body(track_id);`
unfoldable pub drain :
    {L : Type 0} → ℕ → (ℕ → L → Outcome L) → Option TrackList → L → Cmd ℕ (Option TrackList × L)
unfolding track_list_pop
drain zero body tracks s = λ _. out_of_fuel
drain (suc fuel) body tracks s = do
  (track_id, tracks') ← track_list_pop tracks
  if track_id == 0
      then pure (tracks', s)
      else (lift (body track_id s) >>= λ s'. drain fuel body tracks' s')

module _ (lib : Libipod) where
  open lib use {Db, get_by_track_id, track_remove, flush}

  -- The tracks of `src_ipod` are queued for `dst_ipod`, and the transfer window opens.
  unfoldable pub queue_tracks :
      ℕ → Bool → Ptr → Ptr → TrackList → Transfer lib → Cmd ℕ (Option TrackList × Transfer lib)
  unfolding drain transfer_list_reset transfer_list_add_track new_transfer_window
  queue_tracks fuel got_buffer src_ipod dst_ipod tracks s = do
    (tracks', s') ←
        drain fuel (transfer_list_add_track lib) (some tracks)
          (transfer_list_reset lib src_ipod dst_ipod s)
    pure (tracks', new_transfer_window lib got_buffer s')

  unfoldable pub transfer_tracks :
      ℕ → Bool → TrackList → Transfer lib → Cmd ℕ (Option TrackList × Transfer lib)
  unfolding queue_tracks
  transfer_tracks fuel got_buffer tracks s =
      if tracks.ipod == s.pod.local_ipod
      then queue_tracks fuel got_buffer tracks.ipod s.pod.remote_ipod tracks s
      else if tracks.ipod == s.pod.remote_ipod
      then queue_tracks fuel got_buffer tracks.ipod s.pod.local_ipod tracks s
      else pure (some tracks, record s { messages = src_ipod_not_set ∷ s.messages })

  -- The loop's body in `remove_tracks_do_delete`; libipod takes `NULL` for a track, and then removes
  -- nothing.
  unfoldable pub delete_track : Ptr → ℕ → Pod Db → Outcome (Pod Db)
  delete_track ipod track_id pod = elim (pod.dbs ipod) [
    | none ↦ Outcome.fault freed_ipod
    | some d ↦ elim (get_by_track_id d track_id) [
      | none ↦ Outcome.ok pod
      | some t ↦ Outcome.ok (record pod { dbs = set_db pod.dbs ipod (some (track_remove d t)) })
    ]
  ]

  -- `ipod_flush(target_ipod)`, and mpd when it is the local one.
  unfoldable pub flush_target : Ptr → Pod Db → Outcome (Pod Db)
  flush_target ipod pod = elim (pod.dbs ipod) [
    | none ↦ Outcome.fault freed_ipod
    | some d ↦ Outcome.ok (record pod {
      dbs = set_db pod.dbs ipod (some (flush d));
      mpd_dirty = if ipod == pod.local_ipod then true else pod.mpd_dirty;
    })
  ]

  unfoldable pub remove_tracks_do_delete :
      ℕ → TrackList → Pod Db → Cmd ℕ (Option TrackList × Pod Db)
  unfolding drain delete_track flush_target
  remove_tracks_do_delete fuel tracks pod = do
    (tracks', pod') ← drain fuel (delete_track tracks.ipod) (some tracks) pod
    pod'' ← lift (flush_target tracks.ipod pod')
    pure (tracks', pod'')
