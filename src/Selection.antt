-- ===== src/Selection.antt =====
-- The menus of artist.c, album.c and song.c over the remote iPod's database, with the structs that
-- they share: a menu item carries a pointer to a parameter list, and selecting it adds to that list.
-- `malloc`s are parameters, and windows are values that are shown or not. The functions of the three
-- files are in `Menus`.
pub mod Again
pub mod Chooses
pub mod Menus
pub mod Opens
pub mod Shows
pub mod Views
use ipod_to_ipod.Base.{
  ℕ, zero, suc, Bool, true, false, Option, none, some, List, [], ◌∷◌, Text, ◌==◌, if◌then◌else◌,
}
use ipod_to_ipod.Pod.{Ptr, null}
use ipod_to_ipod.Libipod.{Libipod}
use ipod_to_ipod.Link.{Heap, Handle, Run, Cmd, list_new}
use ipod_to_ipod.AltMenu.{AltWindow, transfer_alt_menu}
use ipod_to_ipod.ListUtils.{
  Param, TrackList, param_list_add, string_list_pop, track_search_id, string_list_track_search,
}

-- The three kinds of menu; what its items open.
pub data Level : Type 0 where
  artists albums songs : Level

-- IPOD_ARTIST, IPOD_ALBUM and IPOD_TITLE
abbrev pub tag_of : Level → ℕ
tag_of artists = 4
tag_of albums = 3
tag_of songs = 1

-- `ttk_menu_item`: `name`, `data` (a `param_list *`), and which of the three `makesub`s it has.
pub record MenuItem : Type 0 where
  pub name : Text
  pub param : Ptr
  pub level : Level

-- The `param_list` structs: the writes so far, newest first.
abbrev pub Lists : Type 0
Lists = List (Ptr × Handle)

unfoldable pub list_at : Lists → Ptr → Option Handle
list_at [] p = none
list_at ((q, l) ∷ lists) p = if p == q then some l else list_at lists p

-- The memory that the menus work on: the nodes of the three kinds of list, and the `param_list`
-- structs, which the items point at.
pub record Memory : Type 0 where
  pub params : Heap Param
  pub lists : Lists
  pub strings : Heap Text
  pub ids : Heap ℕ

-- `malloc` for a parameter's node, for a `param_list`, for a string's node and for a track's.
pub record Mallocs : Type 0 where
  pub param : Heap Param → Ptr
  pub list : Lists → Ptr
  pub string : Heap Text → Ptr
  pub id : Heap ℕ → Ptr

pub data Result (B : Type 0) : Type 0 where
  ok : B → Memory → Result B
  fault : Result B
  out_of_fuel : Result B

abbrev pub Action : Type 0 → Type 0
Action B = Memory → Result B

infixl 5 ◌>>=◌ ◌>>◌
abbrev pub and_then : {B C : Type 0} → Result B → (B → Action C) → Result C
and_then (ok b m) k = k b m
and_then fault k = fault
and_then out_of_fuel k = out_of_fuel

abbrev pub ◌>>=◌ : {B C : Type 0} → Action B → (B → Action C) → Action C
a >>= k = λ m. and_then (a m) k

abbrev pub ◌>>◌ : {B C : Type 0} → Action B → Action C → Action C
a >> b = a >>= λ _. b

abbrev pub pure : {B : Type 0} → B → Action B
pure b m = ok b m

-- A run on one of the heaps, with what it leaves put back.
unfoldable pub put_back : {A B : Type 0} → (Heap A → Memory) → Run A B → Result B
put_back put (Run.ok b h) = ok b (put h)
put_back put Run.fault = fault
put_back put Run.out_of_fuel = out_of_fuel

-- The parameter list behind a pointer, which may be `NULL`.
unfoldable pub param_at : Ptr → Action (Option Handle)
unfolding list_at
param_at p m =
    if p == null
    then ok none m
    else elim (list_at m.lists p) [ none ↦ fault | some l ↦ ok (some l) m ]

-- `if (plist == NULL) plist = param_list_new();`
unfoldable pub list_or_new : Mallocs → Ptr → Action Ptr
list_or_new mallocs p m =
    if p == null
    then (let fresh = mallocs.list m.lists in
        ok fresh (record m { lists = (fresh, list_new) ∷ m.lists }))
    else ok p m

-- `param_list_add(plist, tag, name)`, in place.
unfoldable pub add_in_place : Mallocs → Ptr → ℕ → Text → Action (Unit {0})
unfolding list_at
add_in_place mallocs p tag name m = elim (list_at m.lists p) [
  | none ↦ fault
  | some l ↦ elim (param_list_add (mallocs.param m.params) (some l) tag name m.params) [
    | Run.ok none h ↦ fault
    | Run.ok (some l') h ↦ ok tt (record m { params = h; lists = (p, l') ∷ m.lists })
    | Run.fault ↦ fault
    | Run.out_of_fuel ↦ out_of_fuel
  ]
]

-- What the handlers of an item do first, each with its own tag; `plist` is not stored in the item.
unfoldable pub choose : Mallocs → Level → MenuItem → Action Ptr
choose mallocs level item = do
  plist ← list_or_new mallocs item.param
  add_in_place mallocs plist (tag_of level) item.name
  pure plist

-- `while ((artist = string_list_pop(tlist)))`, an item for each string.
unfoldable pub pop_items : ℕ → Level → Ptr → Option Handle → Cmd Text (List MenuItem)
unfolding string_list_pop
pop_items zero level param l h = Run.out_of_fuel
pop_items (suc fuel) level param l h = elim (string_list_pop l h) [
  | Run.ok (none, l') h' ↦ Run.ok [] h'
  | Run.ok (some name, l') h' ↦ elim (pop_items fuel level param l' h') [
    | Run.ok items h'' ↦ Run.ok (record { name = name; param = param; level = level } ∷ items) h''
    | Run.fault ↦ Run.fault
    | Run.out_of_fuel ↦ Run.out_of_fuel
  ]
  | Run.fault ↦ Run.fault
  | Run.out_of_fuel ↦ Run.out_of_fuel
]

-- The window that an item opens: another menu, or the transfer menu over a track list.
pub data Window : Type 0 where
  menu : Level → List MenuItem → Window
  transfer_menu : AltWindow → Window
