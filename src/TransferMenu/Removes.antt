-- ===== src/TransferMenu/Removes.antt =====
-- What "Remove" does to the database: every track of the list is removed, in order.
use mathlib.Core.Path.{subst}
use ipod_to_ipod.Base.{
  ℕ, zero, suc, ◌<◌, Bool, true, false, Option, none, some, List, [], ◌∷◌, length, ◌≡◌, refl, ap,
  ◌∙◌, ◌≢◌, arith, All, ◌==◌, if◌then◌else◌, inl, inr, Option-cases,
}
use ipod_to_ipod.Pod.{Ptr, Pod, set_db}
use ipod_to_ipod.Libipod.{Libipod}
use ipod_to_ipod.Link.{Heap}
use ipod_to_ipod.Link.Chain.{Cells, IsList}
use ipod_to_ipod.ListUtils.{TrackList}
use ipod_to_ipod.ListUtils.Matches.{items, Ends, ends, Ends-bind}
use ipod_to_ipod.Transfer.{Outcome}
use ipod_to_ipod.TransferMenu.{drain, delete_track, flush_target, remove_tracks_do_delete}
use ipod_to_ipod.TransferMenu.Gathers.{IsEmpty, pop-nil, pop-cons}

module _ (lib : Libipod) where
  open lib use {Db, Track, get_by_track_id, track_remove, flush}

  -- A database without the tracks of the IDs, when it has each of them as its turn comes.
  unfoldable pub removed : Db → List ℕ → Option Db
  removed d [] = some d
  removed d (id ∷ ids) = elim (get_by_track_id d id) [
    | none ↦ none
    | some t ↦ removed (track_remove d t) ids
  ]

  -- The database at the handle is `d`, and all else is as in `origin`.
  pub record Has (ipod : Ptr) (d : Db) (dirty : Bool) (origin pod : Pod Db) : Type 0 where
    pub here : pod.dbs ipod ≡ some d
    pub elsewhere : (p : Ptr) → p ≢ ipod → pod.dbs p ≡ origin.dbs p
    pub same_status : pod.rip_status ≡ origin.rip_status
    pub same_local : pod.local_ipod ≡ origin.local_ipod
    pub same_remote : pod.remote_ipod ≡ origin.remote_ipod
    pub mpd : pod.mpd_dirty ≡ dirty

  delete_track-Has :
      (ipod : Ptr) (id : ℕ) (d : Db) (t : Track) (dirty : Bool) (origin pod : Pod Db)
      → get_by_track_id d id ≡ some t
      → Has ipod d dirty origin pod
      → (pod' : Pod Db) × (delete_track lib ipod id pod ≡ Outcome.ok pod')
        × Has ipod (track_remove d t) dirty origin pod'
  unfolding delete_track set_db
  delete_track-Has ipod id d t dirty origin pod found has = (
    record pod { dbs = set_db pod.dbs ipod (some (track_remove d t)) },
    rw (has.here, found, delete_track) refl,
    record {
      here = ground arith;
      elsewhere = λ p ne. ground (arith, has.elsewhere p ne);
      same_status = has.same_status;
      same_local = has.same_local;
      same_remote = has.same_remote;
      mpd = has.mpd;
    },
  )

  removed-cons :
      (d e : Db) (id : ℕ) (ids : List ℕ)
      → removed d (id ∷ ids) ≡ some e
      → (t : Track) × (get_by_track_id d id ≡ some t) × (removed (track_remove d t) ids ≡ some e)
  unfolding removed
  removed-cons d e id ids all = elim (Option-cases (get_by_track_id d id)) [
    | inl none_there ↦ absurd (ground (arith, all, none_there))
    | inr (t, found) ↦ (t, found, ground (arith, all, found))
  ]

  drain-Has :
      (fuel : ℕ) (ipod : Ptr) (d e : Db) (dirty : Bool) (cells : Cells ℕ) (tracks : TrackList)
      (origin pod : Pod Db) (h : Heap ℕ)
      → IsList h tracks.list cells
      → All (λ id. id ≢ 0) (items cells)
      → length cells < fuel
      → removed d (items cells) ≡ some e
      → Has ipod d dirty origin pod
      → Ends
          (λ r g. IsEmpty g r.0 × Has ipod e dirty origin r.1)
          (drain fuel (delete_track lib ipod) (some tracks) pod h)
  unfolding drain removed
  drain-Has zero ipod d e dirty cells tracks origin pod h held ids enough all has =
      absurd (omega arith)
  drain-Has (suc fuel) ipod d e dirty [] tracks origin pod h held ids enough all has =
      rw (pop-nil tracks h held) (
        ends (
          (tracks, refl, held),
          subst (λ b. Has ipod b dirty origin pod) (ground (arith, all)) has,
        ))
  drain-Has (suc fuel) ipod d e dirty ((p, id) ∷ cells) tracks origin pod h held ids enough all
        has =
      let (l, h', eq, held') = pop-cons tracks id p cells h held in
      let (t, found, all') = removed-cons d e id (items cells) all in
      let (pod', eq', has') = delete_track-Has ipod id d t dirty origin pod found has in
      let more : (id == 0) ≡ false = ground (arith, ids.0) in
      rw (eq, more, eq')
        (drain-Has fuel ipod (track_remove d t) e dirty cells l origin pod' h' held' ids.1
          (omega arith) all' has')

  flush_target-Has :
      (ipod : Ptr) (d : Db) (origin pod : Pod Db)
      → Has ipod d origin.mpd_dirty origin pod
      → (pod' : Pod Db) × (flush_target lib ipod pod ≡ Outcome.ok pod')
        × Has ipod
            (flush d)
            (if ipod == origin.local_ipod then true else origin.mpd_dirty)
            origin
            pod'
  unfolding flush_target set_db
  flush_target-Has ipod d origin pod has = (
    record pod {
      dbs = set_db pod.dbs ipod (some (flush d));
      mpd_dirty = if ipod == pod.local_ipod then true else pod.mpd_dirty;
    },
    rw (has.here, flush_target) refl,
    record {
      here = ground arith;
      elsewhere = λ p ne. ground (arith, has.elsewhere p ne);
      same_status = has.same_status;
      same_local = has.same_local;
      same_remote = has.same_remote;
      mpd =
          ap (λ p. if ipod == p then true else pod.mpd_dirty) has.same_local
          ∙ ap (λ b. if ipod == origin.local_ipod then true else b) has.mpd;
    },
  )

  -- "Remove" on a list of IDs, none of them 0, of an open iPod whose database has each of them as its
  -- turn comes, with fuel for the list: it ends, with the list emptied, the database without those
  -- tracks and then flushed, mpd told if the iPod is the local one, and every other database, the
  -- status and the two handles as they were.
  pub remove_tracks_do_delete-Has :
      (fuel : ℕ) (d e : Db) (cells : Cells ℕ) (tracks : TrackList) (pod : Pod Db) (h : Heap ℕ)
      → pod.dbs tracks.ipod ≡ some d
      → IsList h tracks.list cells
      → All (λ id. id ≢ 0) (items cells)
      → length cells < fuel
      → removed d (items cells) ≡ some e
      → Ends
          (λ r g.
            IsEmpty g r.0
            × Has tracks.ipod
                (flush e)
                (if tracks.ipod == pod.local_ipod then true else pod.mpd_dirty)
                pod
                r.1)
          (remove_tracks_do_delete lib fuel tracks pod h)
  unfolding remove_tracks_do_delete
  remove_tracks_do_delete-Has fuel d e cells tracks pod h open_db held ids enough all =
      Ends-bind
        (drain-Has fuel tracks.ipod d e pod.mpd_dirty cells tracks pod pod h held ids enough all
          (record {
            here = open_db;
            elsewhere = λ p ne. refl;
            same_status = refl;
            same_local = refl;
            same_remote = refl;
            mpd = refl;
          }))
        (λ r g p.
          let (pod', eq, has) = flush_target-Has tracks.ipod e pod r.1 p.1 in
          rw eq (ends (p.0, has)))
