-- ===== src/TransferMenu/Completes.antt =====
-- From the menu to the end: "Transfer" on a list of tracks, and the whole run of the timer after it.
use mathlib.Core.Path.{subst}
use mathlib.Core.List.{reverse, reverse_aux}
use ipod_to_ipod.Base.{
  ℕ, ◌<◌, ◌≤◌, true, Option, some, List, ◌∷◌, ◌++◌, map, Text, length, ◌≡◌, sym, ap, ◌∙◌, ◌≢◌, ◌⊎◌,
  arith, All,
}
use ipod_to_ipod.Pod.{Ptr, null}
use ipod_to_ipod.Libipod.{Libipod, KeepsBase}
use ipod_to_ipod.Link.{Heap}
use ipod_to_ipod.Link.Chain.{Cells, IsList}
use ipod_to_ipod.ListUtils.{TrackList}
use ipod_to_ipod.ListUtils.Matches.{items, Ends, Ends-weaken}
use ipod_to_ipod.Transfer.{filename_room, ok, Item, Io, Transfer}
use ipod_to_ipod.Transfer.Steps.{IsGood}
use ipod_to_ipod.Transfer.Run.{run, Ready, bytes_of, sizes, rounds_for, Connected, Over, Completed}
use ipod_to_ipod.Transfer.Run.Names.{Named}
use ipod_to_ipod.Transfer.Run.Landing.{Landed, Landed-Completed}
use ipod_to_ipod.Transfer.Run.Whole.{last-Reaches}
use ipod_to_ipod.Transfer.Run.Buffers.{opened-Reaches}
use ipod_to_ipod.TransferMenu.{transfer_tracks}
use ipod_to_ipod.TransferMenu.Gathers.{IsEmpty, items_for}
use ipod_to_ipod.TransferMenu.Queues.{Starts, other_ipod, transfer_tracks-Starts}

module _ (lib : Libipod) (keeps : KeepsBase lib) (disk : Text → Option (List ℕ)) (ios : ℕ → Io)
    (good : (k : ℕ) → IsGood lib disk (ios k)) (base : Text)
    (room : (k : ℕ) → length (base ++ (ios k).location) < filename_room) where
  open lib use {Db, Track}

  -- The run of the timer from a state on ends, and ends the transfer of the items.
  abbrev pub Copies : ℕ → List (Item Track) → Transfer lib → Transfer lib → Type 0
  Copies rounds listed origin s =
      (t : Transfer lib) × (run lib ios 0 rounds s ≡ ok t)
      × Completed lib (length listed) (sizes lib listed)
          (reverse (map (bytes_of lib disk) listed) ++ map (λ f. f.1) origin.written) t

  abbrev Starts-Connected :
      (src dst : Ptr) (listed : List (Item Track)) (origin s : Transfer lib)
      → Connected lib origin.pod.dbs src dst
      → Starts lib src dst listed origin s
      → Connected lib s.pod.dbs s.src_ipod s.dst_ipod
  Starts-Connected src dst listed origin s con st = record {
    src_db = con.src_db;
    src_open =
        ap (λ q. q.dbs s.src_ipod) st.same_pod
        ∙ ap (λ p. origin.pod.dbs p) st.from_src
        ∙ con.src_open;
    dst_db = con.dst_db;
    dst_open =
        ap (λ q. q.dbs s.dst_ipod) st.same_pod
        ∙ ap (λ p. origin.pod.dbs p) st.to_dst
        ∙ con.dst_open;
    apart = λ e. con.apart (sym st.from_src ∙ e ∙ st.to_dst);
  }

  -- The run of the timer from a state on ends, and the items have landed in the database of `dst`.
  abbrev pub Reached : ℕ → Db → Ptr → Db → List (Item Track) → Transfer lib → Transfer lib → Type 0
  Reached rounds src_db dst dst_db listed origin s =
      (t : Transfer lib) × (run lib ios 0 rounds s ≡ ok t)
      × Over lib (length listed) (sizes lib listed) t
      × ((l : Landed lib disk src_db dst listed dst_db origin.written t) × Named base ios rounds 0
            l.files)

  Starts-Reached :
      (src dst : Ptr) (item : Item Track) (rest : List (Item Track)) (origin s : Transfer lib)
      (rounds : ℕ) (con : Connected lib origin.pod.dbs src dst)
      → lib.base_path con.dst_db ≡ base
      → All (Ready lib disk) (item ∷ rest)
      → rounds_for lib (item ∷ rest) ≤ rounds
      → Starts lib src dst (item ∷ rest) origin s
      → Reached rounds con.src_db dst con.dst_db (item ∷ rest) origin s
  Starts-Reached src dst item rest origin s rounds con at_base ready enough st =
      let (t, e, over, (l, names)) =
        opened-Reaches lib keeps disk ios good base room rounds rest item
          (last-Reaches lib keeps disk ios good base room rounds rest) 0 rounds s
          (length (item ∷ rest)) (sizes lib (item ∷ rest)) ready st.ticking st.at_hand st.buffer
          st.nothing_yet (Starts-Connected src dst (item ∷ rest) origin s con st) at_base enough
          (omega arith)
          (record {
            files_left = omega (arith, st.no_files_yet);
            bytes_left = omega (arith, st.no_bytes_yet);
          }) in
      (
        t,
        e,
        over,
        (
          record {
            last = l.last;
            files = l.files;
            lands = l.lands;
            written = l.written ∙ ap (λ w. reverse_aux l.files w) st.same_written;
            stored = ap (λ p. t.pod.dbs p) (sym st.to_dst) ∙ l.stored;
          },
          names,
        ),
      )

  pub transfer_tracks-Reached :
      (fuel rounds : ℕ) (d dst_db : Db) (cells : Cells ℕ) (tracks : TrackList) (s : Transfer lib)
      (h : Heap ℕ) (item : Item Track) (rest : List (Item Track))
      → tracks.ipod ≢ null
      → (tracks.ipod ≡ s.pod.local_ipod) ⊎ (tracks.ipod ≡ s.pod.remote_ipod)
      → tracks.ipod ≢ other_ipod lib s.pod tracks.ipod
      → s.pod.dbs tracks.ipod ≡ some d
      → s.pod.dbs (other_ipod lib s.pod tracks.ipod) ≡ some dst_db
      → lib.base_path dst_db ≡ base
      → IsList h tracks.list cells
      → All (λ id. id ≢ 0) (items cells)
      → length cells < fuel
      → items_for lib d (items cells) ≡ item ∷ rest
      → All (Ready lib disk) (item ∷ rest)
      → rounds_for lib (item ∷ rest) ≤ rounds
      → Ends
          (λ r g.
            IsEmpty g r.0
            × Reached rounds d (other_ipod lib s.pod tracks.ipod) dst_db (item ∷ rest) s r.1)
          (transfer_tracks lib fuel true tracks s h)
  transfer_tracks-Reached fuel rounds d dst_db cells tracks s h item rest ne known apart open_db
        dst_open at_base held ids fits listed ready enough =
      let con : Connected lib s.pod.dbs tracks.ipod (other_ipod lib s.pod tracks.ipod) = record {
        src_db = d;
        src_open = open_db;
        dst_db = dst_db;
        dst_open = dst_open;
        apart = apart;
      } in
      Ends-weaken
        (transfer_tracks-Starts lib fuel d cells tracks s h ne known open_db held ids fits)
        (λ r g p. (
          p.0,
          Starts-Reached tracks.ipod (other_ipod lib s.pod tracks.ipod) item rest s r.1 rounds con
              at_base ready enough
              (subst (λ l. Starts lib tracks.ipod (other_ipod lib s.pod tracks.ipod) l s r.1) listed
                p.1),
        ))

  -- "Transfer" on a list of IDs, none of them 0, of an open iPod that is the local or the remote one,
  -- with the other one open too and not the same, base path `base` of the other one, with which every
  -- location makes a name that fits its buffer, fuel for the list and a buffer, where the database
  -- has at least one of the IDs, each track found has a file with as many bytes as the database says
  -- (more than 0 and less than 2^32), and nothing fails: it ends, with the list emptied, and filesize /
  -- 65536 + 1 ticks of the timer for each item, or more ticks, end the transfer without a fault. The
  -- status is then mounted, the timer off, `cur_file` is NULL, the streams are closed and the buffer is
  -- freed; the counts are the number of the items and the sum of their sizes modulo 2^32; and the
  -- streams written and closed took the whole files of the tracks that the database has under the IDs,
  -- in the order of the list, after those closed before.
  pub transfer_tracks-Copies :
      (fuel rounds : ℕ) (d dst_db : Db) (cells : Cells ℕ) (tracks : TrackList) (s : Transfer lib)
      (h : Heap ℕ) (item : Item Track) (rest : List (Item Track))
      → tracks.ipod ≢ null
      → (tracks.ipod ≡ s.pod.local_ipod) ⊎ (tracks.ipod ≡ s.pod.remote_ipod)
      → tracks.ipod ≢ other_ipod lib s.pod tracks.ipod
      → s.pod.dbs tracks.ipod ≡ some d
      → s.pod.dbs (other_ipod lib s.pod tracks.ipod) ≡ some dst_db
      → lib.base_path dst_db ≡ base
      → IsList h tracks.list cells
      → All (λ id. id ≢ 0) (items cells)
      → length cells < fuel
      → items_for lib d (items cells) ≡ item ∷ rest
      → All (Ready lib disk) (item ∷ rest)
      → rounds_for lib (item ∷ rest) ≤ rounds
      → Ends
          (λ r g. IsEmpty g r.0 × Copies rounds (item ∷ rest) s r.1)
          (transfer_tracks lib fuel true tracks s h)
  transfer_tracks-Copies fuel rounds d dst_db cells tracks s h item rest ne known apart open_db
        dst_open at_base held ids fits listed ready enough =
      Ends-weaken
        (transfer_tracks-Reached fuel rounds d dst_db cells tracks s h item rest ne known apart
          open_db dst_open at_base held ids fits listed ready enough)
        (λ r g p.
          let (t, e, over, (landed, _)) = p.1 in
          (p.0, (t, e, Landed-Completed lib disk over landed)))
