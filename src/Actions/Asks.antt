-- ===== src/Actions/Asks.antt =====
-- The question before tracks are removed, and what mpd is told afterwards.
use ipod_to_ipod.Base.{
  ℕ, ◌<◌, Bool, true, false, some, length, All, ◌==◌, if◌then◌else◌, ◌≡◌, ◌≢◌, refl,
}
use ipod_to_ipod.Pod.{Ptr, Pod}
use ipod_to_ipod.Libipod.{Libipod}
use ipod_to_ipod.Link.{Heap, Run}
use ipod_to_ipod.Link.Chain.{Cells, IsList}
use ipod_to_ipod.ListUtils.{TrackList}
use ipod_to_ipod.ListUtils.Matches.{items, Ends, ends, Ends-bind}
use ipod_to_ipod.TransferMenu.Removes.{Has, removed, remove_tracks_do_delete-Has}
use ipod_to_ipod.Actions.{
  Reply, up_one, up_all, no, yes, remove_tracks, choose_answer, mpd_is_dirty,
}

module _ (lib : Libipod) where
  open lib use {Db, flush}

  -- What the answer "Yes" leaves: the database without the tracks, and mpd's answer, which is given
  -- once.
  pub record Removed (ipod : Ptr) (d : Db) (dirty : Bool) (origin : Pod Db) (r : Pod Db × Reply)
      : Type 0 where
    pub has : Has lib ipod d dirty origin r.0
    pub reply : r.1 ≡ up_all
    pub told : (mpd_is_dirty r.0).0 ≡ dirty
    pub told_once : (mpd_is_dirty (mpd_is_dirty r.0).1).0 ≡ false

  -- In the popup over a list of IDs, none of them 0, of an open iPod whose database has each of them
  -- as its turn comes, with fuel for the list: "No" changes nothing and closes the popup only; "Yes"
  -- takes just these tracks out of the database, flushes it and closes all the menus, and mpd is told
  -- of a change, once, if the iPod is the local one.
  pub remove_tracks-Removed :
      (fuel : ℕ) (d e : Db) (cells : Cells ℕ) (tracks : TrackList) (pod : Pod Db) (h : Heap ℕ)
      → pod.dbs tracks.ipod ≡ some d
      → IsList h tracks.list cells
      → All (λ id. id ≢ 0) (items cells)
      → length cells < fuel
      → removed lib d (items cells) ≡ some e
      → (choose_answer lib fuel no (remove_tracks tracks) pod h ≡ Run.ok (pod, up_one) h)
        × Ends
            (λ r g.
              Removed tracks.ipod
                (flush e)
                (if tracks.ipod == pod.local_ipod then true else pod.mpd_dirty)
                pod
                r)
            (choose_answer lib fuel yes (remove_tracks tracks) pod h)
  unfolding choose_answer remove_tracks mpd_is_dirty
  remove_tracks-Removed fuel d e cells tracks pod h open_db held ids enough all = (
    refl,
    Ends-bind
        (remove_tracks_do_delete-Has lib fuel d e cells tracks pod h open_db held ids enough all)
        (λ r g (_, has).
          ends (record { has = has; reply = refl; told = has.mpd; told_once = refl })),
  )
