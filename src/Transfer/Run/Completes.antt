-- ===== src/Transfer/Run/Completes.antt =====
-- A queue of tracks is copied whole, when nothing fails.
use ipod_to_ipod.Base.{
  length, ◌<◌, ℕ, suc, true, Option, some, List, [], ◌∷◌, ◌++◌, Text, ◌≡◌, refl, ◌∙◌, arith, ap,
  is_some, if◌then◌else◌,
}
use ipod_to_ipod.Libipod.{Libipod, KeepsBase}
use ipod_to_ipod.Transfer.{filename_room, Outcome, ok, ◌>>=◌, allocated, Item, Io, Transfer}
use ipod_to_ipod.Transfer.Copy.{transfer_widget_timer_handler, start_if_unnamed}
use ipod_to_ipod.Transfer.Start.{slashes}
use ipod_to_ipod.Transfer.Steps.{IsGood, advance, handler-advance, named, opened, start-opened}
use ipod_to_ipod.Transfer.Run.{run, Ready, Connected, Copying}

module _ (lib : Libipod) (keeps : KeepsBase lib) (disk : Text → Option (List ℕ)) (ios : ℕ → Io)
    (good : (k : ℕ) → IsGood lib disk (ios k)) (base : Text)
    (room : (k : ℕ) → length (base ++ (ios k).location) < filename_room) where
  open lib use {Db, Track}

  -- What is left of a run that has just reached `advance`.
  unfoldable pub rest : ℕ → ℕ → Transfer lib → Outcome (Transfer lib)
  rest k n s = advance lib (ios k) s >>= run lib ios (suc k) n

  run-ticking :
      (k n : ℕ) (s : Transfer lib) {t : Transfer lib}
      → s.timer ≡ true
      → start_if_unnamed lib (ios k) s.cur_file s ≡ ok t
      → run lib ios k (suc n) s ≡ rest k n t
  unfolding run rest
  run-ticking k n s {t} ticking started =
      ap
        (λ b.
          if b then transfer_widget_timer_handler lib (ios k) s >>= run lib ios (suc k) n else ok s)
        ticking
      ∙ ap (λ m. m >>= run lib ios (suc k) n)
          (handler-advance lib (ios k) s ∙ ap (λ m. m >>= advance lib (ios k)) started)

  start-named :
      (io : Io) (s : Transfer lib) (item : Item Track) (items : List (Item Track))
      → is_some item.dst_filename ≡ true
      → start_if_unnamed lib io (item ∷ items) s ≡ ok s
  unfolding start_if_unnamed
  start-named io s item items e = rw e

  -- A tick on a copy under way goes straight on to `advance`.
  pub run-Copying :
      (k n : ℕ) (s : Transfer lib) (item : Item Track) (items : List (Item Track)) (unread : List ℕ)
      (f : Text × List ℕ)
      → Copying lib item items unread f s
      → run lib ios k (suc n) s ≡ rest k n s
  run-Copying k n s item items unread f c = run-ticking k n s c.ticking (
      ap (λ l. start_if_unnamed lib (ios k) l s) c.at_hand
      ∙ start-named (ios k) s item items c.has_name)

  -- A tick that finds a waiting track opens it and goes on to `advance`.
  pub run-Ready :
      (k n : ℕ) (s : Transfer lib) (item : Item Track) (items : List (Item Track)) (d : Db)
      (r : Ready lib disk item)
      → s.timer ≡ true
      → s.cur_file ≡ item ∷ items
      → s.pod.dbs s.dst_ipod ≡ some d
      → lib.base_path d ≡ base
      → run lib ios k (suc n) s ≡ rest k n (opened lib (ios k) d item items r.bytes s)
  run-Ready k n s item items d r ticking at_hand open_db at_base = run-ticking k n s ticking (
      ap (λ l. start_if_unnamed lib (ios k) l s) at_hand
      ∙ start-opened lib disk (ios k) s d item items r.bytes r.track (good k) r.unnamed r.is_track
          r.found open_db (rw at_base (room k)))

  pub opened-Copying :
      (io : Io) (s : Transfer lib) (item : Item Track) (items : List (Item Track)) (d : Db)
      (r : Ready lib disk item)
      → s.timer ≡ true
      → s.buffer ≡ allocated
      → s.file_bytes_transferred ≡ 0
      → (c : Connected lib s.pod.dbs s.src_ipod s.dst_ipod)
      → Copying lib
          (named lib io d item)
          items
          r.bytes
          (slashes (lib.base_path d ++ io.location), [])
          (opened lib io d item items r.bytes s)
  opened-Copying io s item items d r t b z c = record {
    at_hand = refl;
    has_name = refl;
    buffer = b;
    src = refl;
    dst = refl;
    ticking = t;
    counted = omega (arith, z, r.sized);
    small = r.small;
    not_done = omega (arith, r.sized, r.not_empty);
    track = r.track;
    is_track = r.is_track;
    connected = c;
  }
