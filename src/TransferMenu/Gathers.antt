-- ===== src/TransferMenu/Gathers.antt =====
-- Draining a list of IDs into the list of items: the tracks that the database has, in order.
use mathlib.Core.Path.{subst}
use mathlib.Core.List.{append-nil, append_assoc}
use ipod_to_ipod.Base.{
  ℕ, zero, suc, ◌+◌, ◌<◌, false, Option, none, some, List, [], ◌∷◌, ◌++◌, length, length-append,
  ◌≡◌, refl, sym, ap, ◌∙◌, ◌≢◌, arith, All, ◌==◌, inl, inr, Option-cases,
}
use ipod_to_ipod.Pod.{Ptr, null, Pod}
use ipod_to_ipod.Libipod.{Libipod}
use ipod_to_ipod.Link.{Heap, Handle, Run, ok, list_pop}
use ipod_to_ipod.Link.Chain.{Cells, IsList}
use ipod_to_ipod.Link.Refines.{Pops, pops, list_pop-Pops, list_pop-nil, ne_null}
use ipod_to_ipod.ListUtils.{TrackList, track_list_pop}
use ipod_to_ipod.ListUtils.Matches.{items, Ends, ends}
use ipod_to_ipod.Transfer.{Outcome, ulong, Item, Transfer, no_source_track}
use ipod_to_ipod.Transfer.Queue.{
  transfer_list_add_track, find_track, track_item, add_item, link_last,
}
use ipod_to_ipod.Transfer.Run.{sizes}
use ipod_to_ipod.TransferMenu.{drain}

-- A track list that is there, and holds nothing.
abbrev pub IsEmpty : Heap ℕ → Option TrackList → Type 0
IsEmpty h r = (l : TrackList) × (r ≡ some l) × IsList h l.list []

pub pop-nil :
    (tracks : TrackList) (h : Heap ℕ)
    → IsList h tracks.list []
    → track_list_pop (some tracks) h ≡ ok (0, some tracks) h
unfolding track_list_pop
pop-nil tracks h held = rw (list_pop-nil held)

pop-run :
    {h : Heap ℕ} {id : ℕ} {p : Ptr} {cells : Cells ℕ} (tracks : TrackList)
    (r : Run ℕ (Option ℕ × Handle))
    → Pops h id p cells r
    → (l : Handle) × (h' : Heap ℕ) × (r ≡ ok (some id, l) h') × IsList h' l cells
pop-run tracks _ (pops {l} {g} held _ _) = (l, g, refl, held)

pub pop-cons :
    (tracks : TrackList) (id : ℕ) (p : Ptr) (cells : Cells ℕ) (h : Heap ℕ)
    → IsList h tracks.list ((p, id) ∷ cells)
    → (l : TrackList) × (h' : Heap ℕ) × (track_list_pop (some tracks) h ≡ ok (id, some l) h')
      × IsList h' l.list cells
unfolding track_list_pop
pop-cons tracks id p cells h held =
    let (l, h', eq, held') = pop-run tracks (list_pop tracks.list h) (list_pop-Pops held) in
    (record tracks { list = l }, h', rw eq refl, held')

module _ (lib : Libipod) where
  open lib use {Db, Track, get_by_track_id}

  -- The items for the tracks that the database has under the IDs.
  unfoldable pub items_for : Db → List ℕ → List (Item Track)
  unfolding track_item
  items_for d [] = []
  items_for d (id ∷ ids) = elim (get_by_track_id d id) [
    | none ↦ items_for d ids
    | some t ↦ track_item lib d t ∷ items_for d ids
  ]

  items_for-none :
      (d : Db) (id : ℕ) (ids : List ℕ)
      → get_by_track_id d id ≡ none
      → items_for d (id ∷ ids) ≡ items_for d ids
  unfolding items_for
  items_for-none d id ids e = rw (e, items_for) refl

  items_for-some :
      (d : Db) (id : ℕ) (ids : List ℕ) (t : Track)
      → get_by_track_id d id ≡ some t
      → items_for d (id ∷ ids) ≡ track_item lib d t ∷ items_for d ids
  unfolding items_for
  items_for-some d id ids t e = rw (e, items_for) refl

  items_for-cons :
      (d : Db) (id : ℕ) (ids : List ℕ)
      → items_for d (id ∷ ids) ≡ items_for d (id ∷ []) ++ items_for d ids
  unfolding items_for
  items_for-cons d id ids = elim (Option-cases (get_by_track_id d id)) [
    | inl e ↦ rw (e, items_for) refl
    | inr (t, e) ↦ rw (e, items_for) refl
  ]

  -- The list so far, while it is gathered: what `transfer_list_add_track` keeps.
  pub record Gathers (origin : Transfer lib) (src dst : Ptr) (listed : List (Item Track))
      (s : Transfer lib) : Type 0 where
    pub same_pod : s.pod ≡ origin.pod
    pub same_written : s.written ≡ origin.written
    pub from_src : s.src_ipod ≡ src
    pub to_dst : s.dst_ipod ≡ dst
    pub none_at_hand : s.cur_file ≡ []
    pub gathered : s.passed ≡ listed
    pub files : s.total_files ≡ length listed
    pub bytes : s.total_bytes ≡ ulong (sizes lib listed)

  sizes-append : (xs ys : List (Item Track)) → sizes lib (xs ++ ys) ≡ sizes lib xs + sizes lib ys
  unfolding sizes
  sizes-append [] ys = omega arith
  sizes-append (x ∷ xs) ys = omega (arith, sizes-append xs ys)

  add_item-Gathers :
      (origin : Transfer lib) (src dst : Ptr) (listed : List (Item Track)) (item : Item Track)
      (s : Transfer lib)
      → Gathers origin src dst listed s
      → Gathers origin src dst (listed ++ item ∷ []) (add_item lib item s)
  unfolding add_item link_last sizes
  add_item-Gathers origin src dst listed item s g = rw g.none_at_hand (record {
    same_pod = g.same_pod;
    same_written = g.same_written;
    from_src = g.from_src;
    to_dst = g.to_dst;
    none_at_hand = refl;
    gathered = ap (λ l. l ++ item ∷ []) g.gathered;
    files = omega (arith, g.files, length-append listed (item ∷ []));
    bytes = omega (arith, g.bytes, sizes-append listed (item ∷ []));
  })

  find_track-eq :
      (pod : Pod Db) (src : Ptr) (d : Db) (id : ℕ) (s : Transfer lib) (o : Option (Db × Track))
      → src ≢ null
      → pod.dbs src ≡ some d
      → s.pod ≡ pod
      → s.src_ipod ≡ src
      → (elim (get_by_track_id d id) [ none ↦ Outcome.ok none | some t ↦ Outcome.ok (some (d, t)) ])
        ≡ Outcome.ok o
      → find_track lib s.pod.dbs s.src_ipod id ≡ Outcome.ok o
  unfolding find_track
  find_track-eq pod src d id s o ne open_db same from e =
      ap (λ q. find_track lib q.dbs s.src_ipod id) same
      ∙ ap (λ q. find_track lib pod.dbs q id) from
      ∙ rw (ne_null src ne, open_db) e

  add_track-Gathers :
      (origin : Transfer lib) (src dst : Ptr) (d : Db) (listed : List (Item Track)) (id : ℕ)
      (s : Transfer lib)
      → src ≢ null
      → origin.pod.dbs src ≡ some d
      → Gathers origin src dst listed s
      → (t : Transfer lib) × (transfer_list_add_track lib id s ≡ Outcome.ok t)
        × Gathers origin src dst (listed ++ items_for d (id ∷ [])) t
  unfolding transfer_list_add_track items_for
  add_track-Gathers origin src dst d listed id s ne open_db g =
      elim (Option-cases (get_by_track_id d id)) [
        | inl e ↦
            let found =
              find_track-eq origin.pod src d id s none ne open_db g.same_pod g.from_src
                (rw e refl) in
            (
              record s { messages = no_source_track ∷ s.messages },
              rw (found, transfer_list_add_track) refl,
              subst
                  (λ l.
                    Gathers origin src dst l (record s { messages = no_source_track ∷ s.messages }))
                  (sym (ap (λ l. listed ++ l) (items_for-none d id [] e) ∙ append-nil listed))
                  (record {
                    same_pod = g.same_pod;
                    same_written = g.same_written;
                    from_src = g.from_src;
                    to_dst = g.to_dst;
                    none_at_hand = g.none_at_hand;
                    gathered = g.gathered;
                    files = g.files;
                    bytes = g.bytes;
                  }),
            )
        | inr (t, e) ↦
            let found =
              find_track-eq origin.pod src d id s (some (d, t)) ne open_db g.same_pod g.from_src
                (rw e refl) in
            (
              add_item lib (track_item lib d t) s,
              rw (found, transfer_list_add_track) refl,
              subst
                  (λ l. Gathers origin src dst (listed ++ l) (add_item lib (track_item lib d t) s))
                  (sym (items_for-some d id [] t e))
                  (add_item-Gathers origin src dst listed (track_item lib d t) s g),
            )
      ]

  -- Draining a list whose IDs are not 0 gathers the items for them, and empties it.
  pub drain-Gathers :
      (fuel : ℕ) (origin : Transfer lib) (src dst : Ptr) (d : Db) (cells : Cells ℕ)
      (listed : List (Item Track)) (tracks : TrackList) (s : Transfer lib) (h : Heap ℕ)
      → src ≢ null
      → origin.pod.dbs src ≡ some d
      → IsList h tracks.list cells
      → All (λ id. id ≢ 0) (items cells)
      → length cells < fuel
      → Gathers origin src dst listed s
      → Ends
          (λ r g. IsEmpty g r.0 × Gathers origin src dst (listed ++ items_for d (items cells)) r.1)
          (drain fuel (transfer_list_add_track lib) (some tracks) s h)
  unfolding drain items_for
  drain-Gathers zero origin src dst d cells listed tracks s h ne open_db held ids enough g =
      absurd (omega arith)
  drain-Gathers (suc fuel) origin src dst d [] listed tracks s h ne open_db held ids enough g =
      rw (pop-nil tracks h held) (
        ends (
          (tracks, refl, held),
          subst (λ l. Gathers origin src dst l s) (sym (append-nil listed)) g,
        ))
  drain-Gathers (suc fuel) origin src dst d ((p, id) ∷ cells) listed tracks s h ne open_db held ids
        enough g =
      let (l, h', eq, held') = pop-cons tracks id p cells h held in
      let (t, eq_t, g') = add_track-Gathers origin src dst d listed id s ne open_db g in
      let more : (id == 0) ≡ false = ground (arith, ids.0) in
      rw (eq, more, eq_t)
        (subst
          (λ k.
            Ends (λ r g. IsEmpty g r.0 × Gathers origin src dst k r.1)
              (drain fuel (transfer_list_add_track lib) (some l) t h'))
          (append_assoc listed (items_for d (id ∷ [])) (items_for d (items cells))
            ∙ ap (λ k. listed ++ k) (sym (items_for-cons d id (items cells))))
          (drain-Gathers fuel origin src dst d cells (listed ++ items_for d (id ∷ [])) l t h' ne
            open_db held' ids.1 (omega arith) g'))
