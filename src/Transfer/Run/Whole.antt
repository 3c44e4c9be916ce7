-- ===== src/Transfer/Run/Whole.antt =====
-- A run over a whole queue, by recursion on the items.
use ipod_to_ipod.Base.{
  ℕ, zero, suc, ◌≤◌, ◌<◌, false, Option, List, [], ◌∷◌, ◌++◌, Text, length, ◌≡◌, refl, ◌∙◌, arith,
  ap, if◌then◌else◌,
}
use ipod_to_ipod.Pod.{set_db}
use ipod_to_ipod.Libipod.{Libipod, KeepsBase}
use ipod_to_ipod.Transfer.{ok, ◌>>=◌, buffer_size, filename_room, Item, Io, Transfer}
use ipod_to_ipod.Transfer.Copy.{text_or_empty, finish_if_done, transfer_widget_timer_handler}
use ipod_to_ipod.Transfer.Steps.{IsGood}
use ipod_to_ipod.Transfer.Finish.{ended, finish_if_done-ended}
use ipod_to_ipod.Transfer.Run.{run, rounds_for, Connected, Copying}
use ipod_to_ipod.Transfer.Run.Advance.{after, advance-added, after-dst_open, after-Connected}
use ipod_to_ipod.Transfer.Run.Completes.{rest}
use ipod_to_ipod.Transfer.Attributes.Bases.{add_copy-base_path}
use ipod_to_ipod.Transfer.Run.Names.{all_named}
use ipod_to_ipod.Transfer.Run.Buffers.{Reaches, opened-Reaches}
use ipod_to_ipod.Transfer.Run.Landing.{Adding, Lands}
use ipod_to_ipod.Transfer.Run.Totals.{finished-Waiting, ended-Over}

module _ (lib : Libipod) (keeps : KeepsBase lib) (disk : Text → Option (List ℕ)) (ios : ℕ → Io)
    (good : (k : ℕ) → IsGood lib disk (ios k)) (base : Text)
    (room : (k : ℕ) → length (base ++ (ios k).location) < filename_room) (limit : ℕ) where
  open lib use {Db, Track}

  run-stopped : (k n : ℕ) (s : Transfer lib) → s.timer ≡ false → run lib ios k n s ≡ ok s
  unfolding run
  run-stopped k zero s off = refl
  run-stopped k (suc n) s off =
      ap
        (λ b.
          if b then transfer_widget_timer_handler lib (ios k) s >>= run lib ios (suc k) n else ok s)
        off

  -- The tick on the last buffer of a file adds the copy at hand, and goes on to the end of the tick.
  last-Adding :
      (k n : ℕ) (item : Item Track) (items : List (Item Track)) (unread : List ℕ)
      (f : Text × List ℕ) (s : Transfer lib) (c : Copying lib item items unread f s)
      (con : Connected lib s.pod.dbs s.src_ipod s.dst_ipod)
      → length unread ≤ buffer_size
      → (d : Db) × Adding lib disk con.src_db item (text_or_empty item.dst_location) con.dst_db d
        × (lib.base_path d ≡ lib.base_path con.dst_db)
        × (rest lib keeps disk ios good base room k n s ≡ (
            finish_if_done lib items (after lib disk (ios k) (good k) s item items unread f c d)
            >>= run lib ios (suc k) n))
  unfolding rest
  last-Adding k n item items unread f s c con last =
      let (d, made, same) =
        add_copy-base_path lib keeps (ios k) con.src_db c.track (text_or_empty item.dst_location)
          con.dst_db (good k).still in
      (
        d,
        record {
          track = c.track;
          is_track = c.is_track;
          io = ios k;
          still = (good k).still;
          made = made;
        },
        same,
        ap (λ o. o >>= run lib ios (suc k) n)
            (advance-added lib disk (ios k) (good k) s item items unread f c last con d made),
      )

  -- The last buffer of a file ends the run, or the next file is opened.
  pub last-Reaches :
      (items : List (Item Track)) → Reaches lib keeps disk ios good base room limit zero items
  unfolding finish_if_done rounds_for set_db
  last-Reaches [] k n item unread f s files bytes c con at_base ready fits enough below totals =
      let (d, adding, same, e) = last-Adding k n item [] unread f s c con (omega arith) in
      let over = after lib disk (ios k) (good k) s item [] unread f c d in
      let open_db = after-dst_open lib disk (ios k) (good k) s item [] unread f c d in
      (
        ended lib d over,
        e
            ∙ ap (λ o. o >>= run lib ios (suc k) n)
                (finish_if_done-ended lib over d c.buffer refl refl refl open_db)
            ∙ run-stopped (suc k) n (ended lib d over) refl,
        ended-Over lib unread f (f.0, f.1 ++ unread) item s d d files bytes (omega arith) totals,
        (
          record {
            last = d;
            files = [];
            after = d;
            adding = adding;
            lands = Lands.done;
            written = refl;
            stored = ground arith;
          },
          all_named,
        ),
      )
  last-Reaches (next ∷ items) k zero item unread f s files bytes c con at_base ready fits enough
        below totals =
      absurd (omega arith)
  last-Reaches (next ∷ items) k (suc n) item unread f s files bytes c con at_base ready fits enough
        below totals =
      let (d, adding, same, e) =
        last-Adding k (suc n) item (next ∷ items) unread f s c con (omega arith) in
      let over = after lib disk (ios k) (good k) s item (next ∷ items) unread f c d in
      let (t, e', done, (l, names)) =
        opened-Reaches lib keeps disk ios good base room limit items next (last-Reaches items)
          (suc k) (suc n) over files bytes ready c.ticking refl c.buffer refl
          (after-Connected lib disk (ios k) (good k) s item (next ∷ items) unread f c con d)
          (same ∙ at_base) (omega arith) (omega arith)
          (finished-Waiting lib (next ∷ items) unread f (f.0, f.1 ++ unread) item s d files bytes
            (omega arith) totals) in
      (
        t,
        e ∙ e',
        done,
        (
          record {
            last = l.last;
            files = l.files;
            after = d;
            adding = adding;
            lands = l.lands;
            written = l.written;
            stored = l.stored;
          },
          names,
        ),
      )
