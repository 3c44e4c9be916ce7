-- ===== src/System/Removes.antt =====
-- What "Remove" on a list of tracks does to the state that the parts share.
use ipod_to_ipod.Base.{
  ℕ, zero, suc, Bool, true, false, Option, some, ◌≡◌, refl, ◌==◌, if◌then◌else◌,
}
use mathlib.Core.Path.{subst}
use ipod_to_ipod.Pod.{Ptr, Pod}
use ipod_to_ipod.Libipod.{Libipod}
use ipod_to_ipod.Link.{Heap, Run, Cmd, and_then}
use ipod_to_ipod.ListUtils.{TrackList, track_list_pop}
use ipod_to_ipod.Transfer.{Outcome}
use ipod_to_ipod.Transfer.Outcomes.{Partly, safe, faulty, Post-option}
use ipod_to_ipod.TransferMenu.{lift, drain, delete_track, flush_target, remove_tracks_do_delete}
use ipod_to_ipod.System.Touches.{Touches, Touches-refl, put-Touches}

-- A run that ends, if it ends, with the property.
data Partial {A L : Type 0} (P : L → Type 0) : Run A L → Type 0 where
  ends : {l : L} {h : Heap A} → P l → Partial P (Run.ok l h)
  fails : Partial P Run.fault
  unfinished : Partial P Run.out_of_fuel

module _ {A : Type 0} where
  Partial-bind :
      {L M : Type 0} {P : L → Type 0} {Q : M → Type 0} {r : Run A L} {k : L → Cmd A M}
      → Partial P r
      → ((l : L) (h : Heap A) → P l → Partial Q (k l h))
      → Partial Q (and_then r k)
  Partial-bind (ends {l} {h} p) f = f l h p
  Partial-bind fails f = fails
  Partial-bind unfinished f = unfinished

  anything : {L : Type 0} (r : Run A L) → Partial (λ l. Unit {0}) r
  anything (Run.ok l h) = ends tt
  anything Run.fault = fails
  anything Run.out_of_fuel = unfinished

  Partial-lift :
      {L : Type 0} {P : L → Type 0} {m : Outcome L} (h : Heap A) → Partly P m → Partial P (lift m h)
  Partial-lift h (safe p) = ends p
  Partial-lift h (faulty e) = fails

  Partial-ok :
      {L : Type 0} {P : L → Type 0} {r : Run A L} {l : L} {h : Heap A}
      → r ≡ Run.ok l h
      → Partial P r
      → P l
  Partial-ok {P = P} {l = l} e (ends {l = m} p) = let same : m ≡ l = cc e in subst P same p
  Partial-ok e fails = absurd (cc e)
  Partial-ok e unfinished = absurd (cc e)

Partial-if :
    {A L : Type 0} {P : L → Type 0} (m n : Cmd A L) {h : Heap A} (b : Bool)
    → Partial P (m h)
    → Partial P (n h)
    → Partial P ((if b then m else n) h)
Partial-if m n true p q = p
Partial-if m n false p q = q

drain-Partial :
    {L : Type 0} (P : L → Type 0) (body : ℕ → L → Outcome L) (fuel : ℕ) (tracks : Option TrackList)
    (s : L) (h : Heap ℕ)
    → ((id : ℕ) (t : L) → P t → Partly P (body id t))
    → P s
    → Partial (λ r. P r.1) (drain fuel body tracks s h)
unfolding drain
drain-Partial P body zero tracks s h keeps p = unfinished
drain-Partial P body (suc fuel) tracks s h keeps p =
    Partial-bind (anything (track_list_pop tracks h)) (λ popped g u.
      let more =
        Partial-bind (Partial-lift g (keeps popped.0 s p))
          (λ t g' q. drain-Partial P body fuel popped.1 t g' keeps q) in
      Partial-if _ _ (popped.0 == 0) (ends p) more)

module _ (lib : Libipod) where
  open lib use {Db, get_by_track_id, track_remove, flush}

  delete_track-Touches :
      (p : Pod Db) (ipod : Ptr) (id : ℕ) (q : Pod Db)
      → Touches p q
      → Partly (Touches p) (delete_track lib ipod id q)
  unfolding delete_track
  delete_track-Touches p ipod id q t =
      Post-option (q.dbs ipod) (λ e. faulty refl)
        (λ d e.
          Post-option (get_by_track_id d id) (λ gone. safe t)
            (λ track found. safe (put-Touches p q ipod d (track_remove d track) t e)))

  flush_target-Touches :
      (p : Pod Db) (ipod : Ptr) (q : Pod Db)
      → Touches p q
      → Partly (Touches p) (flush_target lib ipod q)
  unfolding flush_target
  flush_target-Touches p ipod q t =
      Post-option (q.dbs ipod) (λ e. faulty refl)
        (λ d e.
          let put = put-Touches p q ipod d (flush d) t e in
          safe (record {
            same_remote = put.same_remote;
            same_local = put.same_local;
            same_open = put.same_open;
            idle = put.idle;
          }))

  -- The handles, the status and which databases are open stay.
  pub remove_tracks_do_delete-Touches :
      (fuel : ℕ) (tracks : TrackList) (p : Pod Db) (h : Heap ℕ) {rest : Option TrackList}
      {q : Pod Db} {g : Heap ℕ}
      → remove_tracks_do_delete lib fuel tracks p h ≡ Run.ok (rest, q) g
      → Touches p q
  unfolding remove_tracks_do_delete
  remove_tracks_do_delete-Touches fuel tracks p h e = Partial-ok {P = λ r. Touches p r.1} e (
      Partial-bind
        (drain-Partial (Touches p) (delete_track lib tracks.ipod) fuel (some tracks) p h
          (delete_track-Touches p tracks.ipod) (Touches-refl p))
        (λ r g t.
          Partial-bind (Partial-lift g (flush_target-Touches p tracks.ipod r.1 t))
            (λ q g' u. ends u)))
