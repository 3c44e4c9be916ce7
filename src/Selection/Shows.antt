-- ===== src/Selection/Shows.antt =====
-- What a menu shows, and what an item's handler finds: the database seen through the parameters.
use mathlib.Core.Path.{subst}
use ipod_to_ipod.Base.{
  ℕ, zero, suc, ◌<◌, ◌≤◌, true, Option, none, some, List, [], ◌∷◌, map, Text, length, length-map,
  ◌≡◌, refl, ap, sym, ◌≢◌, Bool, inl, inr, arith, ◌==◌,
}
use ipod_to_ipod.Pod.{Ptr, null}
use ipod_to_ipod.Libipod.{Libipod}
use ipod_to_ipod.Link.{Heap, Handle, Run, list_pop}
use ipod_to_ipod.Link.Chain.{Cells, IsList}
use ipod_to_ipod.Link.Refines.{Pops, pops, list_pop-Pops, list_pop-nil, ne_null}
use ipod_to_ipod.ListUtils.{
  Param, string_list_pop, track_id_tag, track_search_id, string_list_track_search,
}
use ipod_to_ipod.ListUtils.Matches.{
  IsMalloc, items, IsParams, keep, matches, tracks_from, Ends, ends,
}
use ipod_to_ipod.ListUtils.Tracks.{HoldsIds, track_search_id-HoldsIds}
use ipod_to_ipod.ListUtils.Strings.{
  has_text, Distinct, HoldsTexts, string_list_track_search-HoldsTexts,
}
use ipod_to_ipod.Selection.{
  Level, tag_of, MenuItem, Memory, Mallocs, ok, put_back, param_at, pop_items,
}
use ipod_to_ipod.Selection.Menus.{populate, search_ids}
use ipod_to_ipod.Selection.Chooses.{Carries, Gives, gives, Gives-bind}

-- The item for a name.
abbrev pub item_for : Level → Ptr → Text → MenuItem
item_for level param name = record { name = name; param = param; level = level }

-- A menu whose names are distinct and just the given texts, whose items all carry `param`.
pub record Shows (level : Level) (param : Ptr) (texts : List Text) (shown : List MenuItem)
    : Type 0 where
  pub names : List Text
  pub is_menu : shown ≡ map (item_for level param) names
  pub distinct : Distinct names
  pub same : (s : Text) → has_text s names ≡ has_text s texts
  pub short : length names ≤ length texts

put_back-Gives :
    {A B : Type 0} {P : B → Heap A → Type 0} {Q : B → Memory → Type 0} (put : Heap A → Memory)
    (r : Run A B)
    → Ends P r
    → ((b : B) (h : Heap A) → P b h → Q b (put h))
    → Gives Q (put_back put r)
unfolding put_back
put_back-Gives put _ (ends p) f = gives (f _ _ p)

pop-run :
    {h : Heap Text} {s : Text} {p : Ptr} {cells : Cells Text} (r : Run Text (Option Text × Handle))
    → Pops h s p cells r
    → (l : Handle) × (h' : Heap Text) × (r ≡ Run.ok (some s, l) h') × IsList h' l cells
pop-run _ (pops {l} {g} held _ _) = (l, g, refl, held)

pop_items-Shows :
    (fuel : ℕ) (level : Level) (param : Ptr) (l : Handle) (cells : Cells Text) (h : Heap Text)
    → IsList h l cells
    → length cells < fuel
    → (h' : Heap Text) × (pop_items fuel level param (some l) h
        ≡ Run.ok (map (item_for level param) (items cells)) h')
unfolding pop_items string_list_pop
pop_items-Shows zero level param l cells h held enough = absurd (omega arith)
pop_items-Shows (suc fuel) level param l [] h held enough =
    (h, rw (list_pop-nil held, pop_items) refl)
pop_items-Shows (suc fuel) level param l ((p, s) ∷ cells) h held enough =
    let (l', h', eq, held') = pop-run (list_pop l h) (list_pop-Pops held) in
    let (h'', eq') = pop_items-Shows fuel level param l' cells h' held' (omega arith) in
    (h'', rw (eq, eq', pop_items) refl)

length-keep : {A : Type 0} (p : A → Bool) (xs : List A) → length (keep p xs) ≤ length xs
unfolding keep
length-keep p [] = omega arith
length-keep p (x ∷ xs) = ground (arith, length-keep p xs)

module _ (lib : Libipod) (mallocs : Mallocs) (strings_new : IsMalloc mallocs.string)
    (ids_new : IsMalloc mallocs.id) (fuel : ℕ) (dbs : Ptr → Option lib.Db) (remote_ipod : Ptr)
    (d : lib.Db) (ne : remote_ipod ≢ null) (open_db : dbs remote_ipod ≡ some d)
    (room : lib.track_count d < fuel) where
  open lib use {Db, Track, track_count, get_text, get_attribute}

  length-tracks_from : (n i : ℕ) → length (tracks_from lib d n i) ≤ n
  unfolding tracks_from
  length-tracks_from zero i = omega arith
  length-tracks_from (suc n) i = ground (arith, length-tracks_from n (suc i))

  -- The tracks with the values of all the parameters.
  abbrev pub found : List Param → List Track
  found ps = keep (matches lib d ps) (tracks_from lib d (track_count d) 0)

  pub length-found : (ps : List Param) → length (found ps) ≤ track_count d
  length-found ps = omega (
    arith,
    length-keep (matches lib d ps) (tracks_from lib d (track_count d) 0),
    length-tracks_from (track_count d) 0,
  )

  param_at-Carries :
      (m : Memory) (p : Ptr) (ps : List Param)
      → Carries m p ps
      → (o : Option Handle) × (cells : Cells Param) × (param_at p m ≡ ok o m)
        × IsParams m.params o cells
        × (items cells ≡ ps)
  unfolding param_at
  param_at-Carries m p ps (inl (e, empty)) =
      let is_null : (p == null) ≡ true = ground arith in
      (none, [], rw is_null refl, refl, sym empty)
  param_at-Carries m p ps (inr c) =
      (some c.list, c.cells, rw (ne_null p c.ne, c.there) refl, c.held, c.values)

  cells_short :
      (ps : List Param) (cells : Cells Param)
      → items cells ≡ ps
      → length ps < fuel
      → length cells < fuel
  cells_short ps cells values enough =
      omega (arith, length-map cells (λ c. c.1), ap (λ l. length l) values)

  -- The strings that `populate` pops: the texts of the tracks found.
  abbrev Strings : Level → Memory → List Param → Option Handle → Memory → Type 0
  Strings level m ps l m' =
      HoldsTexts (map (λ t. get_text d t (tag_of level)) (found ps)) l m'.strings
      × (m'.params ≡ m.params)
      × (m'.lists ≡ m.lists)
      × (m'.ids ≡ m.ids)

  pop_list :
      (level : Level) (p : Ptr) (m m' : Memory) (ps : List Param) (l : Option Handle)
      → Strings level m ps l m'
      → Gives
          (λ shown m''.
            Shows level p (map (λ t. get_text d t (tag_of level)) (found ps)) shown
            × (m''.params ≡ m.params)
            × (m''.lists ≡ m.lists)
            × (m''.ids ≡ m.ids))
          (put_back (λ h. record m' { strings = h }) (pop_items fuel level p l m'.strings))
  unfolding put_back
  pop_list level p m m' ps l (held, params, lists, ids) =
      let small : length held.cells < fuel = omega (
        arith,
        held.short,
        length-map (found ps) (λ t. get_text d t (tag_of level)),
        length-found ps,
        room,
      ) in
      let (h', eq) =
        pop_items-Shows fuel level p held.list held.cells m'.strings held.is_list small in
      rw (held.is_some, eq)
        (gives (
          record {
            names = items held.cells;
            is_menu = refl;
            distinct = held.distinct;
            same = held.same;
            short = omega (arith, held.short, length-map held.cells (λ c. c.1));
          },
          params,
          lists,
          ids,
        ))

  pub populate-Shows :
      (level : Level) (m : Memory) (p : Ptr) (ps : List Param)
      → Carries m p ps
      → length ps < fuel
      → Gives
          (λ shown m'.
            Shows level p (map (λ t. get_text d t (tag_of level)) (found ps)) shown
            × (m'.params ≡ m.params)
            × (m'.lists ≡ m.lists)
            × (m'.ids ≡ m.ids))
          (populate lib mallocs fuel dbs remote_ipod level p m)
  unfolding populate
  populate-Shows level m p ps carries enough =
      let (o, cells, eq, listed, values) = param_at-Carries m p ps carries in
      rw eq (
        Gives-bind
          (put_back-Gives (λ h. record m { strings = h })
            (string_list_track_search lib fuel mallocs.string dbs remote_ipod (tag_of level) o
              m.params m.strings)
            (string_list_track_search-HoldsTexts lib mallocs.string strings_new fuel dbs remote_ipod
              d (tag_of level) o m.params cells m.strings ne open_db listed
              (cells_short ps cells values enough) (omega (arith, room)))
            (λ l h held. (
              subst (λ qs. HoldsTexts (map (λ t. get_text d t (tag_of level)) (found qs)) l h)
                  values held,
              refl,
              refl,
              refl,
            )))
          (λ l m' held. pop_list level p m m' ps l held))

  pub search_ids-HoldsIds :
      (m : Memory) (p : Ptr) (ps : List Param)
      → Carries m p ps
      → length ps < fuel
      → Gives
          (λ tlist m'.
            HoldsIds remote_ipod (map (λ t. get_attribute d t track_id_tag) (found ps)) tlist m'.ids
            × (m'.params ≡ m.params)
            × (m'.lists ≡ m.lists)
            × (m'.strings ≡ m.strings))
          (search_ids lib mallocs fuel dbs remote_ipod p m)
  unfolding search_ids
  search_ids-HoldsIds m p ps carries enough =
      let (o, cells, eq, listed, values) = param_at-Carries m p ps carries in
      rw eq (
        put_back-Gives (λ h. record m { ids = h })
          (track_search_id lib fuel mallocs.id dbs remote_ipod o m.params m.ids)
          (track_search_id-HoldsIds lib mallocs.id ids_new fuel dbs remote_ipod d o m.params cells
            m.ids ne open_db listed (cells_short ps cells values enough))
          (λ tlist h held. (
            subst
                (λ qs.
                  HoldsIds remote_ipod (map (λ t. get_attribute d t track_id_tag) (found qs)) tlist
                    h)
                values held,
            refl,
            refl,
            refl,
          )))
