-- ===== src/TransferMenu/Queues.antt =====
-- What "Transfer" puts in the list of items: the tracks of the list that the database has, in order.
use mathlib.Core.List.{append-nil}
use ipod_to_ipod.Base.{
  ℕ, ◌<◌, true, some, List, [], ◌++◌, length, ◌≡◌, refl, ap, ◌∙◌, ◌≢◌, arith, All, ◌==◌,
  if◌then◌else◌, ◌⊎◌, inl, inr, Bool-cases,
}
use ipod_to_ipod.Pod.{Ptr, null, Pod, transferring}
use ipod_to_ipod.Libipod.{Libipod}
use ipod_to_ipod.Link.{Heap}
use ipod_to_ipod.Link.Chain.{Cells, IsList}
use ipod_to_ipod.ListUtils.{TrackList}
use ipod_to_ipod.ListUtils.Matches.{items, Ends, ends, Ends-bind}
use ipod_to_ipod.Transfer.{ulong, Item, Transfer, allocated}
use ipod_to_ipod.Transfer.Queue.{transfer_list_reset}
use ipod_to_ipod.Transfer.Run.{sizes}
use ipod_to_ipod.Transfer.Start.{start_copy}
use ipod_to_ipod.Transfer.Widget.{new_transfer_window}
use ipod_to_ipod.TransferMenu.{queue_tracks, transfer_tracks}
use ipod_to_ipod.TransferMenu.Gathers.{IsEmpty, items_for, Gathers, drain-Gathers}

module _ (lib : Libipod) where
  open lib use {Db, Track}

  -- The transfer of the items from `src` to `dst` is under way, at its first item.
  pub record Starts (src dst : Ptr) (listed : List (Item Track)) (origin s : Transfer lib)
      : Type 0 where
    pub from_src : s.src_ipod ≡ src
    pub to_dst : s.dst_ipod ≡ dst
    pub at_hand : s.cur_file ≡ listed
    pub passed_none : s.passed ≡ []
    pub files : s.total_files ≡ length listed
    pub bytes : s.total_bytes ≡ ulong (sizes lib listed)
    pub same_pod : s.pod ≡ record (origin.pod) { rip_status = transferring }
    pub same_written : s.written ≡ origin.written
    pub nothing_yet : s.file_bytes_transferred ≡ 0
    pub no_files_yet : s.total_files_transferred ≡ 0
    pub no_bytes_yet : s.total_bytes_transferred ≡ 0
    pub buffer : s.buffer ≡ allocated
    pub ticking : s.timer ≡ true

  reset-Gathers :
      (src dst : Ptr) (s : Transfer lib)
      → Gathers lib s src dst [] (transfer_list_reset lib src dst s)
  unfolding transfer_list_reset sizes
  reset-Gathers src dst s = record {
    same_pod = refl;
    same_written = refl;
    from_src = refl;
    to_dst = refl;
    none_at_hand = refl;
    gathered = refl;
    files = refl;
    bytes = refl;
  }

  window-Starts :
      (origin : Transfer lib) (src dst : Ptr) (listed : List (Item Track)) (s : Transfer lib)
      → Gathers lib origin src dst listed s
      → Starts src dst listed origin (new_transfer_window lib true s)
  unfolding new_transfer_window start_copy
  window-Starts origin src dst listed s g = record {
    from_src = g.from_src;
    to_dst = g.to_dst;
    at_hand = ap (λ l. s.passed ++ l) g.none_at_hand ∙ append-nil s.passed ∙ g.gathered;
    passed_none = refl;
    files = g.files;
    bytes = g.bytes;
    same_pod = ap {A = Pod Db} (λ q. record q { rip_status = transferring }) g.same_pod;
    same_written = g.same_written;
    nothing_yet = refl;
    no_files_yet = refl;
    no_bytes_yet = refl;
    buffer = refl;
    ticking = refl;
  }

  queue_tracks-Starts :
      (fuel : ℕ) (dst : Ptr) (d : Db) (cells : Cells ℕ) (tracks : TrackList) (s : Transfer lib)
      (h : Heap ℕ)
      → tracks.ipod ≢ null
      → s.pod.dbs tracks.ipod ≡ some d
      → IsList h tracks.list cells
      → All (λ id. id ≢ 0) (items cells)
      → length cells < fuel
      → Ends
          (λ r g. IsEmpty g r.0 × Starts tracks.ipod dst (items_for lib d (items cells)) s r.1)
          (queue_tracks lib fuel true tracks.ipod dst tracks s h)
  unfolding queue_tracks
  queue_tracks-Starts fuel dst d cells tracks s h ne open_db held ids enough =
      Ends-bind
        (drain-Gathers lib fuel s tracks.ipod dst d cells [] tracks
          (transfer_list_reset lib tracks.ipod dst s) h ne open_db held ids enough
          (reset-Gathers tracks.ipod dst s))
        (λ r g p.
          ends (p.0, window-Starts s tracks.ipod dst (items_for lib d (items cells)) r.1 p.1))

  -- Where a track list of the local or of the remote iPod goes to.
  unfoldable pub other_ipod : Pod Db → Ptr → Ptr
  other_ipod pod src = if src == pod.local_ipod then pod.remote_ipod else pod.local_ipod

  -- "Transfer" on a list of IDs, none of them 0, of an open iPod that is the local or the remote one,
  -- with fuel for the list and a buffer: it ends, with the list emptied, and the transfer under way at
  -- its first item, from that iPod to the other one. The items are those for the IDs that the database
  -- has, in order, and `total_files` and `total_bytes` count them (the bytes modulo 2^32).
  pub transfer_tracks-Starts :
      (fuel : ℕ) (d : Db) (cells : Cells ℕ) (tracks : TrackList) (s : Transfer lib) (h : Heap ℕ)
      → tracks.ipod ≢ null
      → (tracks.ipod ≡ s.pod.local_ipod) ⊎ (tracks.ipod ≡ s.pod.remote_ipod)
      → s.pod.dbs tracks.ipod ≡ some d
      → IsList h tracks.list cells
      → All (λ id. id ≢ 0) (items cells)
      → length cells < fuel
      → Ends
          (λ r g.
            IsEmpty g r.0
            × Starts tracks.ipod
                (other_ipod s.pod tracks.ipod)
                (items_for lib d (items cells))
                s
                r.1)
          (transfer_tracks lib fuel true tracks s h)
  unfolding transfer_tracks other_ipod
  transfer_tracks-Starts fuel d cells tracks s h ne known open_db held ids enough =
      elim (Bool-cases (tracks.ipod == s.pod.local_ipod)) [
        | inl here ↦ rw here (
            queue_tracks-Starts fuel s.pod.remote_ipod d cells tracks s h ne open_db held ids
              enough)
        | inr far ↦
            let remote : (tracks.ipod == s.pod.remote_ipod) ≡ true = ground (arith, known, far) in
            rw (far, remote)
              (queue_tracks-Starts fuel s.pod.local_ipod d cells tracks s h ne open_db held ids
                enough)
      ]
