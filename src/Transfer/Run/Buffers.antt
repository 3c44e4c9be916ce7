-- ===== src/Transfer/Run/Buffers.antt =====
-- The buffers of a file at hand, and the file that is opened next: a run reaches the end if it does
-- from the last buffer on.
use ipod_to_ipod.Base.{
  ℕ, zero, suc, ◌+◌, ◌*◌, ◌/◌, ◌≤◌, ◌<◌, true, Option, List, [], ◌∷◌, ◌++◌, Text, length,
  length-drop, take, drop, ◌≡◌, refl, ◌∙◌, arith, All, ap, inl, inr, Bool-cases, ltb,
}
use ipod_to_ipod.Libipod.{Libipod, KeepsBase}
use ipod_to_ipod.Transfer.{ok, ◌>>=◌, buffer_size, filename_room, allocated, Item, Io, Transfer}
use ipod_to_ipod.Transfer.Copy.{text_or_empty}
use ipod_to_ipod.Transfer.Start.{slashes}
use ipod_to_ipod.Transfer.Steps.{IsGood, named, opened, copied}
use ipod_to_ipod.Transfer.Run.{run, Ready, rounds_for, Connected, Copying, Over}
use ipod_to_ipod.Transfer.Run.Advance.{advance-copied, copied-Copying}
use ipod_to_ipod.Transfer.Run.Completes.{rest, run-Copying, run-Ready, opened-Copying}
use ipod_to_ipod.Transfer.Run.Names.{Named, named_at, Named-weaken}
use ipod_to_ipod.Transfer.Run.Landing.{Lands, Landed, Landed1, copied-Landed1}
use ipod_to_ipod.Transfer.Run.Totals.{Totals, Waiting, copied-Totals, opened-Totals}

module _ (lib : Libipod) (keeps : KeepsBase lib) (disk : Text → Option (List ℕ)) (ios : ℕ → Io)
    (good : (k : ℕ) → IsGood lib disk (ios k)) (base : Text)
    (room : (k : ℕ) → length (base ++ (ios k).location) < filename_room) (limit : ℕ) where
  open lib use {Db, Track}

  -- From every state in which at most `m` more buffers than one are left of the file at hand, the
  -- run reaches the end, and the items have landed.
  abbrev pub Reaches : ℕ → List (Item Track) → Type 0
  Reaches m items =
      (k n : ℕ) (item : Item Track) (unread : List ℕ) (f : Text × List ℕ) (s : Transfer lib)
      (files bytes : ℕ)
      → Copying lib item items unread f s
      → (con : Connected lib s.pod.dbs s.src_ipod s.dst_ipod) → lib.base_path con.dst_db ≡ base
      → All (Ready lib disk) items
      → length unread ≤ suc m * buffer_size
      → m + rounds_for lib items ≤ n
      → k + n < limit
      → Totals lib items unread s files bytes
      → (t : Transfer lib) × (rest lib keeps disk ios good base room k n s ≡ ok t)
        × Over lib files bytes t
        × ((l : Landed1 lib disk con.src_db s.dst_ipod item items unread f con.dst_db s.written t)
            × Named base ios limit (suc k) l.files)

  -- With one buffer more left, a tick copies a buffer.
  buffer-Reaches : (items : List (Item Track)) (m : ℕ) → Reaches zero items → Reaches m items
  unfolding rest
  buffer-Reaches items zero last k n item unread f s files bytes c con at_base ready fits enough
        below totals =
      last k n item unread f s files bytes c con at_base ready fits enough below totals
  buffer-Reaches items (suc m) last k zero item unread f s files bytes c con at_base ready fits
        enough below totals =
      absurd (omega arith)
  buffer-Reaches items (suc m) last k (suc n) item unread f s files bytes c con at_base ready fits
        enough below totals =
      elim (Bool-cases (ltb buffer_size (length unread))) [
        | inl more ↦
            let more' : buffer_size < length unread = ground arith in
            let s' = copied lib unread f s in
            let c' = copied-Copying lib disk (ios k) (good k) s item items unread f c more' in
            let f' : Text × List ℕ = (f.0, f.1 ++ take buffer_size unread) in
            let (t, e, over, (landed, names)) =
              buffer-Reaches items m last (suc k) n item (drop buffer_size unread) f' s' files bytes
                c' con at_base ready (omega (arith, length-drop buffer_size unread)) (omega arith)
                (omega arith) (copied-Totals lib items unread f s files bytes totals) in
            (
              t,
              ap (λ o. o >>= run lib ios (suc k) (suc n))
                    (advance-copied lib disk (ios k) (good k) s item items unread f c more')
                  ∙ run-Copying lib keeps disk ios good base room (suc k) n s' item items
                      (drop buffer_size unread) f' c'
                  ∙ e,
              over,
              (
                copied-Landed1 lib disk unread f landed,
                Named-weaken base ios limit (omega arith) names,
              ),
            )
        | inr less ↦
            last k (suc n) item unread f s files bytes c con at_base ready (ground arith)
              (omega arith) below totals
      ]

  -- The first of the items that wait is opened, and the run goes on with it.
  pub opened-Reaches :
      (items : List (Item Track)) (item : Item Track)
      → Reaches zero items
      → (k n : ℕ) (s : Transfer lib) (files bytes : ℕ) → All (Ready lib disk) (item ∷ items)
      → s.timer ≡ true
      → s.cur_file ≡ item ∷ items
      → s.buffer ≡ allocated
      → s.file_bytes_transferred ≡ 0
      → (con : Connected lib s.pod.dbs s.src_ipod s.dst_ipod) → lib.base_path con.dst_db ≡ base
      → rounds_for lib (item ∷ items) ≤ n
      → k + n ≤ limit
      → Waiting lib (item ∷ items) s files bytes
      → (t : Transfer lib) × (run lib ios k n s ≡ ok t)
        × Over lib files bytes t
        × ((l : Landed lib disk con.src_db s.dst_ipod (item ∷ items) con.dst_db s.written t) × Named
              base ios limit k l.files)
  unfolding rounds_for text_or_empty
  opened-Reaches items item last k zero s files bytes ready ticking at_hand b z con at_base enough
        below w =
      absurd (omega arith)
  opened-Reaches items item last k (suc n) s files bytes (r, ready) ticking at_hand b z con at_base
        enough below w =
      let name = slashes (lib.base_path con.dst_db ++ (ios k).location) in
      let (t, e, over, (l, names)) =
        buffer-Reaches items (item.filesize / buffer_size) last k n
          (named lib (ios k) con.dst_db item) r.bytes (name, [])
          (opened lib (ios k) con.dst_db item items r.bytes s) files bytes
          (opened-Copying lib keeps disk ios good base room (ios k) s item items con.dst_db r
            ticking b z con)
          con at_base ready (omega (arith, r.sized)) (omega arith) (omega arith)
          (opened-Totals lib disk (ios k) con.dst_db item items r s files bytes w) in
      (
        t,
        run-Ready lib keeps disk ios good base room k n s item items con.dst_db r ticking at_hand
              con.dst_open at_base
            ∙ e,
        over,
        (
          record {
            last = l.last;
            files = (name, r.bytes) ∷ l.files;
            lands =
                Lands.next
                  (record {
                    location = (ios k).location;
                    name = refl;
                    content = r.found;
                    adding = record {
                      track = l.adding.track;
                      is_track = l.adding.is_track;
                      io = l.adding.io;
                      still = l.adding.still;
                      made = l.adding.made;
                    };
                  })
                  l.lands;
            written = l.written;
            stored = l.stored;
          },
          named_at (omega arith) (omega arith) (ap (λ b. slashes (b ++ (ios k).location)) at_base)
              names,
        ),
      )
