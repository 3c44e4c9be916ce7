-- ===== src/AltMenu/Counts.antt =====
-- What the window over a track list shows: how many tracks, their sizes added up, and the entries.
use mathlib.Core.Path.{subst}
use ipod_to_ipod.Base.{
  ℕ, zero, suc, ◌+◌, ◌<◌, ◌^◌, Bool, Option, none, some, List, [], ◌∷◌, ◌++◌, map, length,
  length-map, ◌≡◌, refl, ap, sym, ◌∙◌, ◌≢◌, arith, All, ◌==◌, if◌then◌else◌,
}
use ipod_to_ipod.Pod.{Ptr, null}
use ipod_to_ipod.Libipod.{Libipod}
use ipod_to_ipod.Link.{Heap, Run, ok, at, Node, Cmd}
use ipod_to_ipod.Link.Chain.{Cells, Chain, nil, cons, IsList}
use ipod_to_ipod.Link.Refines.{ne_null, load-ok}
use ipod_to_ipod.ListUtils.{TrackList, track_id_tag}
use ipod_to_ipod.ListUtils.Tracks.{HoldsIds}
use ipod_to_ipod.ListUtils.Matches.{items}
use ipod_to_ipod.Transfer.{ulong}
use ipod_to_ipod.Transfer.Queue.{track_size_tag, find_track}
use ipod_to_ipod.AltMenu.{
  AltWindow, transfer, enqueue, remove, alt_entries, size_of, count_tracks, transfer_alt_menu,
}

module _ (lib : Libipod) (d : lib.Db) where
  open lib use {Track, get_attribute, get_by_track_id}

  -- The sizes of the tracks with the IDs.
  unfoldable pub sizes_of : List ℕ → ℕ
  sizes_of [] = 0
  sizes_of (id ∷ ids) = elim (get_by_track_id d id) [
    | none ↦ sizes_of ids
    | some t ↦ get_attribute d t track_size_tag + sizes_of ids
  ]

  -- The database has a track under the ID.
  abbrev pub Known : ℕ → Type 0
  Known id = (t : Track) × (get_by_track_id d id ≡ some t)

  -- Every track is found again by its own ID.
  abbrev pub Resolves : Track → Type 0
  Resolves t = get_by_track_id d (get_attribute d t track_id_tag) ≡ some t

  unfoldable pub total_size : List Track → ℕ
  total_size [] = 0
  total_size (t ∷ ts) = get_attribute d t track_size_tag + total_size ts

  -- The window over the tracks: it holds their IDs, counts them, adds up their sizes modulo 2^32, and
  -- has the entries that fit.
  pub record ShowsTracks (src_ipod remote_ipod : Ptr) (has_queue : Bool) (ts : List Track)
      (w : AltWindow) (h : Heap ℕ) : Type 0 where
    pub held : HoldsIds src_ipod (map (λ t. get_attribute d t track_id_tag) ts) (some w.tracks) h
    pub counted : w.num_files ≡ length ts
    pub added : w.total_bytes ≡ ulong (total_size ts)
    pub offered :
        w.entries
        ≡ (if remote_ipod == null then [] else transfer ∷ [])
          ++ ((if has_queue then enqueue ∷ [] else []) ++ remove ∷ [])

module _ (lib : Libipod) (dbs : Ptr → Option lib.Db) (src_ipod : Ptr) (d : lib.Db)
    (ne : src_ipod ≢ null) (open_db : dbs src_ipod ≡ some d) where
  open lib use {Db, Track, get_attribute, get_by_track_id}

  size_of-Known :
      (id : ℕ) (ids : List ℕ)
      → (known : Known lib d id)
      → (size_of lib dbs src_ipod id ≡ some (get_attribute d known.0 track_size_tag))
        × (sizes_of lib d (id ∷ ids) ≡ get_attribute d known.0 track_size_tag + sizes_of lib d ids)
  unfolding size_of find_track sizes_of
  size_of-Known id ids (t, e) =
      (rw (ne_null src_ipod ne, open_db, e, size_of, find_track) refl, rw (e, sizes_of) refl)

  count_tracks-step :
      (fuel : ℕ) (h : Heap ℕ) (p : Ptr) (node : Node ℕ) (num size s : ℕ)
      → p ≢ null
      → at h p ≡ some node
      → size_of lib dbs src_ipod node.item ≡ some s
      → count_tracks lib (suc fuel) dbs src_ipod p num size h
        ≡ count_tracks lib fuel dbs src_ipod node.next (num + 1) (ulong (size + s)) h
  unfolding count_tracks
  count_tracks-step fuel h p node num size s n e known =
      rw (ne_null p n, load-ok p node h n e)
        (ap {A = Option ℕ}
          (λ o.
            (elim o as (λ _. Cmd ℕ (ℕ × ℕ)) [
              | none ↦ λ _. Run.fault
              | some s ↦ count_tracks lib fuel dbs src_ipod node.next (num + 1) (ulong (size + s))
            ])
              h)
          known)

  count_tracks-sizes :
      (fuel : ℕ) {h : Heap ℕ} {p : Ptr} {cells : Cells ℕ} (num size : ℕ)
      → Chain h p cells
      → length cells < fuel
      → All (Known lib d) (items cells)
      → size < 2 ^ 32
      → (n s : ℕ) × (count_tracks lib fuel dbs src_ipod p num size h ≡ ok (n, s) h)
        × (n ≡ num + length cells)
        × (s ≡ ulong (size + sizes_of lib d (items cells)))
  unfolding count_tracks sizes_of
  count_tracks-sizes zero num size chain enough known small = absurd (omega arith)
  count_tracks-sizes (suc fuel) num size nil enough known small =
      (num, size, refl, omega arith, omega arith)
  count_tracks-sizes (suc fuel) {h} num size (cons {p} {q} {a} {xs} n e o chain) enough
        (known, rest) small =
      let (eq_size, eq_sum) = size_of-Known a (items xs) known in
      let (k, s, eq, eq_k, eq_s) =
        count_tracks-sizes fuel (num + 1) (ulong (size + get_attribute d known.0 track_size_tag))
          chain (omega arith) rest (omega arith) in
      (
        k,
        s,
        count_tracks-step fuel h p (record { item = a; next = q }) num size
              (get_attribute d known.0 track_size_tag) n e eq_size
            ∙ eq,
        omega (arith, eq_k),
        omega (arith, eq_s, eq_sum),
      )

  -- On a list of tracks that are all in the database, with fuel for it, the transfer menu ends without
  -- a write, and shows the number of the tracks and the sum of their sizes modulo 2^32; "Transfer" is
  -- in it exactly if there is a remote iPod, "Enqueue" exactly if there is a queue, "Remove" always.
  pub transfer_alt_menu-Counts :
      (fuel : ℕ) (remote_ipod : Ptr) (has_queue : Bool) (tlist : TrackList) (cells : Cells ℕ)
      (h : Heap ℕ)
      → IsList h tlist.list cells
      → length cells < fuel
      → All (Known lib d) (items cells)
      → transfer_alt_menu lib fuel dbs remote_ipod (some tlist) src_ipod has_queue h
        ≡ ok
            (record {
              tracks = tlist;
              num_files = length cells;
              total_bytes = ulong (sizes_of lib d (items cells));
              entries =
                  (if remote_ipod == null then [] else transfer ∷ [])
                  ++ ((if has_queue then enqueue ∷ [] else []) ++ remove ∷ []);
            })
            h
  unfolding transfer_alt_menu alt_entries
  transfer_alt_menu-Counts fuel remote_ipod has_queue tlist cells h held enough known =
      let (n, s, eq, eq_n, eq_s) =
        count_tracks-sizes fuel 0 0 held.chain enough known (omega arith) in
      let is_n : n ≡ length cells = omega (arith, eq_n) in
      let is_s : s ≡ ulong (sizes_of lib d (items cells)) = omega (arith, eq_s) in
      rw (eq, is_n, is_s) refl

  Resolves-Known :
      (ts : List Track)
      → All (Resolves lib d) ts
      → All (Known lib d) (map (λ t. get_attribute d t track_id_tag) ts)
        × (sizes_of lib d (map (λ t. get_attribute d t track_id_tag) ts) ≡ total_size lib d ts)
  unfolding sizes_of total_size
  Resolves-Known [] all = (tt, refl)
  Resolves-Known (t ∷ ts) (resolves, all) =
      let (known, eq) = Resolves-Known ts all in
      let (_, eq_sum) =
        size_of-Known (get_attribute d t track_id_tag)
          (map (λ t. get_attribute d t track_id_tag) ts) (t, resolves) in
      ((((t, resolves)), known), omega (arith, eq, eq_sum))

  pub transfer_alt_menu-ShowsTracks :
      (fuel : ℕ) (remote_ipod : Ptr) (has_queue : Bool) (ts : List Track) (tlist : Option TrackList)
      (h : Heap ℕ)
      → HoldsIds src_ipod (map (λ t. get_attribute d t track_id_tag) ts) tlist h
      → length ts < fuel
      → All (Resolves lib d) ts
      → (w : AltWindow) × (transfer_alt_menu lib fuel dbs remote_ipod tlist src_ipod has_queue h
          ≡ ok w h)
        × ShowsTracks lib d src_ipod remote_ipod has_queue ts w h
  transfer_alt_menu-ShowsTracks fuel remote_ipod has_queue ts tlist h held enough all =
      let ids = map (λ t. get_attribute d t track_id_tag) ts in
      let (known, sum) = Resolves-Known ts all in
      let count : length held.cells ≡ length ts = omega (
        arith,
        length-map held.cells (λ c. c.1),
        ap (λ l. length l) held.held,
        length-map ts (λ t. get_attribute d t track_id_tag),
      ) in
      let window : AltWindow = record {
        tracks = held.list;
        num_files = length held.cells;
        total_bytes = ulong (sizes_of lib d (items held.cells));
        entries =
            (if remote_ipod == null then [] else transfer ∷ [])
            ++ ((if has_queue then enqueue ∷ [] else []) ++ remove ∷ []);
      } in
      (
        window,
        ap (λ l. transfer_alt_menu lib fuel dbs remote_ipod l src_ipod has_queue h) held.is_some
            ∙ transfer_alt_menu-Counts fuel remote_ipod has_queue held.list held.cells h
                held.is_list (omega (arith, count))
                (subst (All (Known lib d)) (sym held.held) known),
        record {
          held = record {
            list = held.list;
            is_some = refl;
            cells = held.cells;
            is_list = held.is_list;
            held = held.held;
            of_ipod = held.of_ipod;
          };
          counted = count;
          added = ap (λ l. ulong (sizes_of lib d l)) held.held ∙ ap (λ n. ulong n) sum;
          offered = refl;
        },
      )
