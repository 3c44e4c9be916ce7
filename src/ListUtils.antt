-- ===== src/ListUtils.antt =====
-- list_utils.c: the three lists with their guards, and the searches of an iPod's tracks. A list
-- that is `NULL` is `none`. `malloc` is an argument of the loops that allocate.
pub mod Matches
pub mod Tracks
pub mod Strings
use ipod_to_ipod.Base.{
  ℕ, zero, suc, Bool, true, false, Option, none, some, Text, text_eq, ◌==◌, if◌then◌else◌,
}
use ipod_to_ipod.Pod.{Ptr, null}
use ipod_to_ipod.Libipod.{Libipod, no_tag}
use ipod_to_ipod.Link.{
  Heap, Handle, list_new, ok, fault, out_of_fuel, Cmd, ◌>>=◌, pure, load, list_add, list_pop,
}

-- `param_item` without `next`.
pub record Param : Type 0 where
  pub tag : ℕ
  pub value : Text

-- IPOD_TRACK_ID
abbrev pub track_id_tag : ℕ
track_id_tag = 2000

-- A `track_list`: the list and the iPod of its tracks.
pub record TrackList : Type 0 where
  pub list : Handle
  pub ipod : Ptr

unfoldable pub track_list_new : Ptr → TrackList
unfolding list_new
track_list_new ipod = record { list = list_new; ipod = ipod }

unfoldable pub track_list_add : Ptr → Option TrackList → ℕ → Cmd ℕ (Option TrackList)
track_list_add fresh none track_id = pure none
track_list_add fresh (some l) track_id = do
  list ← list_add fresh l.list track_id
  pure (some (record l { list = list }))

id_or_zero : Option ℕ → ℕ
id_or_zero none = 0
id_or_zero (some n) = n

-- 0 stands for an empty list.
unfoldable pub track_list_pop : Option TrackList → Cmd ℕ (ℕ × Option TrackList)
unfolding id_or_zero
track_list_pop none = pure (0, none)
track_list_pop (some l) = do
  (popped, list) ← list_pop l.list
  pure (id_or_zero popped, some (record l { list = list }))

unfoldable pub string_list_add : Ptr → Option Handle → Option Text → Cmd Text (Option Handle)
string_list_add fresh none string = pure none
string_list_add fresh (some l) none = pure (some l)
string_list_add fresh (some l) (some s) = do l' ← list_add fresh l s; pure (some l')

-- The loop of `string_list_add_unique`: whether a node from `g` on holds the string.
unfoldable pub find_string : ℕ → Text → Ptr → Cmd Text Bool
find_string zero s g = λ _. out_of_fuel
find_string (suc fuel) s g =
    if g == null
    then pure false
    else (do n ← load g; if text_eq s n.item then pure true else find_string fuel s n.next)

unfoldable pub string_list_add_unique :
    (fuel : ℕ) → Ptr → Option Handle → Option Text → Cmd Text (Option Handle)
unfolding find_string string_list_add
string_list_add_unique fuel fresh none string = pure none
string_list_add_unique fuel fresh (some l) none = pure (some l)
string_list_add_unique fuel fresh (some l) (some s) = do
  found ← find_string fuel s l.head
  if found then pure (some l) else string_list_add fresh (some l) (some s)

unfoldable pub string_list_pop : Option Handle → Cmd Text (Option Text × Option Handle)
string_list_pop none = pure (none, none)
string_list_pop (some l) = do (popped, l') ← list_pop l; pure (popped, some l')

unfoldable pub param_list_add : Ptr → Option Handle → ℕ → Text → Cmd Param (Option Handle)
param_list_add fresh none tag value = pure none
param_list_add fresh (some l) tag value =
    if tag == no_tag
    then pure (some l)
    else (do l' ← list_add fresh l (record { tag = tag; value = value }); pure (some l'))

-- Unlike the other two pops it hands the node itself over, and does not free it.
unfoldable pub param_list_pop : Option Handle → Cmd Param (Ptr × Option Handle)
param_list_pop none = pure (null, none)
param_list_pop (some l) =
    if l.head == null
    then pure (null, some l)
    else (do n ← load l.head; pure (l.head, some (record l { head = n.next })))

module _ (lib : Libipod) where
  open lib use {Db, Track, track_count, get_by_index, get_text, get_attribute}

  -- The loop of `param_list_test_track`.
  unfoldable pub test_params : ℕ → Db → Track → Ptr → Cmd Param Bool
  test_params zero d t i = λ _. out_of_fuel
  test_params (suc fuel) d t i = if i == null then pure true else (do
    n ← load i
    if text_eq (get_text d t n.item.tag) n.item.value
        then test_params fuel d t n.next
        else pure false)

  unfoldable pub param_list_test_track : ℕ → Db → Option Track → Option Handle → Cmd Param Bool
  unfolding test_params
  param_list_test_track fuel d none param = pure false
  param_list_test_track fuel d (some t) none = pure true
  param_list_test_track fuel d (some t) (some l) = test_params fuel d t l.head

  -- What the loops below do with one track: the search's own action if the track passes the test.
  unfoldable pub visit :
      {A L : Type 0}
      → ℕ
      → Db
      → Option Handle
      → Heap Param
      → (Track → L → Cmd A L)
      → Option Track
      → L
      → Cmd A L
  unfolding param_list_test_track
  visit fuel d param params action none l h = ok l h
  visit fuel d param params action (some t) l h =
      elim (param_list_test_track fuel d (some t) param params) [
        | ok b _ ↦ if b then action t l h else ok l h
        | fault ↦ fault
        | out_of_fuel ↦ out_of_fuel
      ]

  -- `for (i=0;i<numTracks;i++)` with the rounds that are left.
  unfoldable pub each_track :
      {A L : Type 0} → Db → (Option Track → L → Cmd A L) → (rounds i : ℕ) → L → Cmd A L
  each_track d body zero i l = pure l
  each_track d body (suc rounds) i l = do
    l' ← body (get_by_index d i) l
    each_track d body rounds (suc i) l'

  -- The action of `track_search_id`.
  unfoldable pub add_id : (Heap ℕ → Ptr) → Db → Track → Option TrackList → Cmd ℕ (Option TrackList)
  unfolding track_list_add
  add_id malloc d t l h = track_list_add (malloc h) l (get_attribute d t track_id_tag) h

  unfoldable pub track_search_id :
      ℕ
      → (Heap ℕ → Ptr)
      → (Ptr → Option Db)
      → Ptr
      → Option Handle
      → Heap Param
      → Cmd ℕ (Option TrackList)
  unfolding visit param_list_test_track each_track add_id track_list_new
  track_search_id fuel malloc dbs ipod param params h =
      if ipod == null then ok none h else elim (dbs ipod) [
        | none ↦ fault
        | some d ↦
            each_track d (visit fuel d param params (add_id malloc d)) (track_count d) 0
              (some (track_list_new ipod)) h
      ]

  -- The action of `string_list_track_search`.
  unfoldable pub add_text :
      ℕ → (Heap Text → Ptr) → Db → ℕ → Track → Option Handle → Cmd Text (Option Handle)
  unfolding string_list_add_unique
  add_text fuel malloc d tag t l h =
      string_list_add_unique fuel (malloc h) l (some (get_text d t tag)) h

  unfoldable pub string_list_track_search :
      ℕ
      → (Heap Text → Ptr)
      → (Ptr → Option Db)
      → Ptr
      → ℕ
      → Option Handle
      → Heap Param
      → Cmd Text (Option Handle)
  unfolding visit param_list_test_track each_track add_text list_new
  string_list_track_search fuel malloc dbs ipod tag param params h =
      if ipod == null then ok none h else elim (dbs ipod) [
        | none ↦ fault
        | some d ↦
            each_track d (visit fuel d param params (add_text fuel malloc d tag)) (track_count d) 0
              (some list_new) h
      ]
