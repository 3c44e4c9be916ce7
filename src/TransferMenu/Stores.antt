-- ===== src/TransferMenu/Stores.antt =====
-- What "Transfer" on a list of tracks leaves in the destination's database.
use ipod_to_ipod.Base.{
  ℕ, ◌+◌, ◌<◌, ◌≤◌, true, Option, some, List, ◌∷◌, ◌++◌, Text, length, ◌≡◌, ◌≢◌, ◌⊎◌, All,
}
use mathlib.Core.List.{reverse_aux}
use ipod_to_ipod.Pod.{Ptr, null}
use ipod_to_ipod.Libipod.{Libipod, IsStore, KeepsBase, IsAppending}
use ipod_to_ipod.Link.{Heap}
use ipod_to_ipod.Link.Chain.{Cells, IsList}
use ipod_to_ipod.ListUtils.{TrackList}
use ipod_to_ipod.ListUtils.Matches.{items, Ends, Ends-weaken}
use ipod_to_ipod.Transfer.{filename_room, ok, Item, Io, Transfer}
use ipod_to_ipod.Transfer.Steps.{IsGood}
use ipod_to_ipod.Transfer.Run.{run, Ready, rounds_for}
use ipod_to_ipod.Transfer.Run.Names.{file_at, name_of, file_at-Named}
use ipod_to_ipod.Transfer.Run.Stores.{Keeps, Stores, Lands-Stores}
use ipod_to_ipod.TransferMenu.{transfer_tracks}
use ipod_to_ipod.TransferMenu.Gathers.{IsEmpty, items_for}
use ipod_to_ipod.TransferMenu.Queues.{other_ipod}
use ipod_to_ipod.TransferMenu.Completes.{Reached, transfer_tracks-Reached}

module _ (lib : Libipod) (store : IsStore lib) (appending : IsAppending lib) (keeps : KeepsBase lib)
    (disk : Text → Option (List ℕ)) (ios : ℕ → Io) (good : (k : ℕ) → IsGood lib disk (ios k))
    (base : Text) (room : (k : ℕ) → length (base ++ (ios k).location) < filename_room) where
  open lib use {Db, Track, track_count, flush}

  -- The run of the timer from a state on ends with a database flushed that has the items behind what
  -- `before` had, and with a file written for each, which keeps what was written to it.
  pub record Stocks (rounds : ℕ) (src : Db) (dst : Ptr) (before : Db) (listed : List (Item Track))
      (origin s : Transfer lib) : Type 0 where
    pub end : Transfer lib
    pub runs : run lib ios 0 rounds s ≡ ok end
    pub last : Db
    pub flushed : end.pod.dbs dst ≡ some (flush last)
    pub count : track_count last ≡ track_count before + length listed
    pub kept : Keeps lib before last
    pub files : List (Text × List ℕ)
    pub written : end.written ≡ reverse_aux files origin.written
    pub stores : Stores lib disk src last (track_count before) listed files
    pub on_disk : All (λ f. file_at f.0 end.written ≡ some f.1) files

  Reached-Stocks :
      {rounds : ℕ} {src before : Db} {dst : Ptr} {listed : List (Item Track)}
      {origin s : Transfer lib}
      → ((j k : ℕ) → j < k → k < rounds → name_of base ios rounds j ≢ name_of base ios rounds k)
      → Reached lib keeps disk ios good base room rounds src dst before listed origin s
      → Stocks rounds src dst before listed origin s
  Reached-Stocks {rounds = rounds} {origin = origin} fresh (t, e, over, (l, names)) =
      let (stores, kept, count) = Lands-Stores lib disk _ store appending l.lands in
      record {
        end = t;
        runs = e;
        last = l.last;
        flushed = l.stored;
        count = count;
        kept = kept;
        files = l.files;
        written = l.written;
        stores = stores;
        on_disk = rw l.written (file_at-Named base ios rounds fresh 0 l.files origin.written names);
      }

  -- "Transfer" on a list of IDs, none of them 0, of an open iPod that is the local or the remote one,
  -- with the other one open too and not the same, base path `base` of the other one, with which every
  -- location makes a name that fits its buffer and those of two different ticks make different names,
  -- fuel for the list and a buffer, where the database has at least one of the IDs, each track found has
  -- a file with as many bytes as the database says (more than 0 and less than 2^32), and nothing fails:
  -- after filesize / 65536 + 1 ticks of the timer for each item, or more ticks, the other iPod's
  -- database has been flushed with as many tracks more as there are items. Those that it had are at the
  -- same index, with the same texts and numbers. Behind them, in the order of the list, each item has
  -- its copy: with the source's text under the eleven text tags and the source's number under the 32
  -- number tags, and with a location that names its file. The streams of these files were closed in
  -- that order, after those closed before; each took the whole of the source's file, and so did the
  -- last stream that was closed under its name.
  pub transfer_tracks-Stocks :
      (fuel rounds : ℕ) (d dst_db : Db) (cells : Cells ℕ) (tracks : TrackList) (s : Transfer lib)
      (h : Heap ℕ) (item : Item Track) (rest : List (Item Track))
      → tracks.ipod ≢ null
      → (tracks.ipod ≡ s.pod.local_ipod) ⊎ (tracks.ipod ≡ s.pod.remote_ipod)
      → tracks.ipod ≢ other_ipod lib s.pod tracks.ipod
      → s.pod.dbs tracks.ipod ≡ some d
      → s.pod.dbs (other_ipod lib s.pod tracks.ipod) ≡ some dst_db
      → lib.base_path dst_db ≡ base
      → ((j k : ℕ) → j < k → k < rounds → name_of base ios rounds j ≢ name_of base ios rounds k)
      → IsList h tracks.list cells
      → All (λ id. id ≢ 0) (items cells)
      → length cells < fuel
      → items_for lib d (items cells) ≡ item ∷ rest
      → All (Ready lib disk) (item ∷ rest)
      → rounds_for lib (item ∷ rest) ≤ rounds
      → Ends
          (λ r g.
            IsEmpty g r.0
            × Stocks rounds d (other_ipod lib s.pod tracks.ipod) dst_db (item ∷ rest) s r.1)
          (transfer_tracks lib fuel true tracks s h)
  transfer_tracks-Stocks fuel rounds d dst_db cells tracks s h item rest ne known apart open_db
        dst_open at_base fresh held ids fits listed ready enough =
      Ends-weaken
        (transfer_tracks-Reached lib keeps disk ios good base room fuel rounds d dst_db cells tracks
          s h item rest ne known apart open_db dst_open at_base held ids fits listed ready enough)
        (λ r g p. (p.0, Reached-Stocks fresh p.1))
