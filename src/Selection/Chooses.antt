-- ===== src/Selection/Chooses.antt =====
-- What selecting an item does to the parameter list that it carries.
use mathlib.Core.List.{map-append}
use ipod_to_ipod.Base.{
  ℕ, true, false, none, some, List, [], ◌∷◌, ◌++◌, Text, ◌≡◌, refl, ap, ◌∙◌, ◌≢◌, ◌⊎◌, inl, inr,
  arith, ◌==◌,
}
use ipod_to_ipod.Pod.{Ptr, null}
use ipod_to_ipod.Link.{Heap, Handle, Run, list_new, list_add}
use ipod_to_ipod.Link.Chain.{Cells, IsList, nil}
use ipod_to_ipod.Link.Refines.{Builds, builds, list_add-Builds, ne_null}
use ipod_to_ipod.ListUtils.{Param, param_list_add}
use ipod_to_ipod.ListUtils.Matches.{IsMalloc, items}
use ipod_to_ipod.Selection.{
  Level, artists, albums, songs, tag_of, MenuItem, Memory, Mallocs, Result, ok, and_then, Lists,
  list_at, list_or_new, add_in_place, choose,
}

-- The pointer is to a parameter list in memory that holds the parameters.
pub record Denotes (m : Memory) (p : Ptr) (ps : List Param) : Type 0 where
  pub ne : p ≢ null
  pub list : Handle
  pub there : list_at m.lists p ≡ some list
  pub cells : Cells Param
  pub held : IsList m.params list cells
  pub values : items cells ≡ ps

-- What an item carries: `NULL`, which stands for no parameters, or such a list.
abbrev pub Carries : Memory → Ptr → List Param → Type 0
Carries m p ps = ((p ≡ null) × (ps ≡ [])) ⊎ Denotes m p ps

-- An action that ends, in a value and a memory with the property.
pub data Gives {B : Type 0} (P : B → Memory → Type 0) : Result B → Type 0 where
  gives : {b : B} {m : Memory} → P b m → Gives P (ok b m)

pub Gives-weaken :
    {B : Type 0} {P Q : B → Memory → Type 0} {r : Result B}
    → Gives P r
    → ((b : B) (m : Memory) → P b m → Q b m)
    → Gives Q r
Gives-weaken (gives p) f = gives (f _ _ p)

pub Gives-bind :
    {B C : Type 0} {P : B → Memory → Type 0} {Q : C → Memory → Type 0} {r : Result B}
    {k : B → Memory → Result C}
    → Gives P r
    → ((b : B) (m : Memory) → P b m → Gives Q (k b m))
    → Gives Q (and_then r k)
Gives-bind (gives p) f = f _ _ p

-- `malloc` for a `param_list` returns an address at which there is none.
abbrev pub IsListMalloc : (Lists → Ptr) → Type 0
IsListMalloc malloc =
    (lists : Lists) → (malloc lists ≢ null) × (list_at lists (malloc lists) ≡ none)

-- The parameters after the selection of an item.
abbrev pub chosen : List Param → Level → MenuItem → List Param
chosen ps level item = ps ++ record { tag = tag_of level; value = item.name } ∷ []

Builds-run :
    {h : Heap Param} {xs : Cells Param} (r : Run Param Handle)
    → Builds h xs r
    → (l : Handle) × (g : Heap Param) × (r ≡ Run.ok l g) × IsList g l xs
Builds-run _ (builds {l} {g} held _) = (l, g, refl, held)

module _ (mallocs : Mallocs) (allocates : IsMalloc mallocs.param)
    (makes : IsListMalloc mallocs.list) where
  -- The list that an item's handler adds to, before it does.
  pub list_or_new-Denotes :
      (m : Memory) (p : Ptr) (ps : List Param)
      → Carries m p ps
      → Gives
          (λ q m'.
            Denotes m' q ps × (m'.strings ≡ m.strings) × (m'.ids ≡ m.ids) × ((p ≡ null) ⊎ (q ≡ p)))
          (list_or_new mallocs p m)
  unfolding list_or_new list_new list_at
  list_or_new-Denotes m p ps (inl (e, empty)) =
      let is_null : (p == null) ≡ true = ground arith in
      let new : (mallocs.list m.lists == mallocs.list m.lists) ≡ true = ground arith in
      rw (is_null, empty)
        (gives (
          record {
            ne = (makes m.lists).0;
            list = list_new;
            there = rw new refl;
            cells = [];
            held = record { chain = nil; last = tt };
            values = refl;
          },
          refl,
          refl,
          inl e,
        ))
  list_or_new-Denotes m p ps (inr d) = rw (ne_null p d.ne) (gives (d, refl, refl, inr refl))

  param_list_add-Builds :
      (tag : ℕ) (name : Text) (h : Heap Param) (l : Handle) (ps : Cells Param)
      → (tag == 0xffff_ffff) ≡ false
      → IsList h l ps
      → (l' : Handle) × (h' : Heap Param) × (param_list_add (mallocs.param h) (some l) tag name h
          ≡ Run.ok (some l') h')
        × IsList h' l' (ps ++ (mallocs.param h, record { tag = tag; value = name }) ∷ [])
  unfolding param_list_add
  param_list_add-Builds tag name h l ps e held =
      let (l', h', eq, held') =
        Builds-run (list_add (mallocs.param h) l (record { tag = tag; value = name }) h) (
          list_add-Builds (mallocs.param h) (record { tag = tag; value = name }) held
            (allocates h).0 (allocates h).1) in
      (l', h', rw (e, eq) refl, held')

  pub add_in_place-Denotes :
      (m : Memory) (p : Ptr) (ps : List Param) (tag : ℕ) (name : Text)
      → (tag == 0xffff_ffff) ≡ false
      → Denotes m p ps
      → Gives
          (λ _ m'.
            Denotes m' p (ps ++ record { tag = tag; value = name } ∷ [])
            × (m'.strings ≡ m.strings)
            × (m'.ids ≡ m.ids))
          (add_in_place mallocs p tag name m)
  unfolding add_in_place list_at
  add_in_place-Denotes m p ps tag name e d =
      let (l', h', eq, held') = param_list_add-Builds tag name m.params d.list d.cells e d.held in
      let here : (p == p) ≡ true = ground arith in
      rw (d.there, eq, add_in_place)
        (gives (
          record {
            ne = d.ne;
            list = l';
            there = rw here refl;
            cells = d.cells ++ (mallocs.param m.params, record { tag = tag; value = name }) ∷ [];
            held = held';
            values =
                map-append _ _ _ ∙ ap (λ l. l ++ record { tag = tag; value = name } ∷ []) d.values;
          },
          refl,
          refl,
        ))

  tag_small : (level : Level) → (tag_of level == 0xffff_ffff) ≡ false
  tag_small artists = refl
  tag_small albums = refl
  tag_small songs = refl

  pub choose-Denotes :
      (m : Memory) (level : Level) (item : MenuItem) (ps : List Param)
      → Carries m item.param ps
      → Gives
          (λ q m'.
            Denotes m' q (chosen ps level item)
            × (m'.strings ≡ m.strings)
            × (m'.ids ≡ m.ids)
            × ((item.param ≡ null) ⊎ (q ≡ item.param)))
          (choose mallocs level item m)
  unfolding choose
  choose-Denotes m level item ps carries =
      Gives-bind (list_or_new-Denotes m item.param ps carries) (λ q m' before.
        Gives-bind
          (add_in_place-Denotes m' q ps (tag_of level) item.name (tag_small level) before.0)
          (λ _ m'' after. gives (after.0, after.1 ∙ before.1, after.2 ∙ before.2, before.3)))
