-- ===== src/ListUtils/Strings.antt =====
-- `string_list_track_search` of list_utils.c: the texts of the matching tracks, each once.
use mathlib.Core.List.{map-append}
use ipod_to_ipod.Base.{
  ℕ, suc, zero, ◌≤◌, ◌<◌, Bool, false, Option, some, List, [], ◌∷◌, ◌++◌, map, ◌≡◌, refl, ◌≢◌, ◌||◌,
  length, length-append, length-map, arith, inl, inr, Bool-cases, Text, text_eq, text_eq_iff,
}
use ipod_to_ipod.Pod.{Ptr, null}
use ipod_to_ipod.Libipod.{Libipod}
use ipod_to_ipod.Link.{Heap, Handle, ok, list_new, load}
use ipod_to_ipod.Link.Chain.{Cells, Chain, IsList, nil, cons}
use ipod_to_ipod.Link.Refines.{list_add-Builds, ne_null}
use ipod_to_ipod.ListUtils.{
  Param, find_string, string_list_add_unique, add_text, string_list_track_search,
}
use ipod_to_ipod.ListUtils.Matches.{
  IsMalloc, items, IsParams, keep, matches, tracks_from, Ends, ends, Ends-bind, Builds-Ends,
  each_track-Ends,
}

unfoldable pub has_text : Text → List Text → Bool
has_text s [] = false
has_text s (x ∷ xs) = text_eq s x || has_text s xs

-- No text twice.
abbrev pub Distinct : List Text → Type 0
Distinct [] = Unit {0}
Distinct (x ∷ xs) = (has_text x xs ≡ false) × Distinct xs

has_text-append :
    (s x : Text) (xs : List Text) → has_text s (xs ++ x ∷ []) ≡ (has_text s xs || text_eq s x)
unfolding has_text
has_text-append s x [] = ground arith
has_text-append s x (y ∷ xs) = ground (arith, has_text-append s x xs)

text_eq_sym : (s t : Text) → text_eq s t ≡ text_eq t s
text_eq_sym s t = ground (arith, text_eq_iff s t, text_eq_iff t s)

Distinct-append :
    (x : Text) (xs : List Text) → Distinct xs → has_text x xs ≡ false → Distinct (xs ++ x ∷ [])
unfolding has_text
Distinct-append x [] d n = (refl, tt)
Distinct-append x (y ∷ xs) d n = (
  ground (arith, has_text-append y x xs, text_eq_sym x y),
  Distinct-append x xs d.1 (ground arith),
)

-- The loop of `string_list_add_unique` decides whether the list has the text.
find_string-has_text :
    (fuel : ℕ) (s : Text) {h : Heap Text} {p : Ptr} {xs : Cells Text}
    → Chain h p xs
    → length xs < fuel
    → find_string fuel s p h ≡ ok (has_text s (items xs)) h
unfolding find_string has_text load
find_string-has_text zero s c f = absurd (omega arith)
find_string-has_text (suc fuel) s nil f = refl
find_string-has_text (suc fuel) s (cons n e o c) f = ground (arith, find_string-has_text fuel s c)

-- A list whose texts are distinct, and are just those given, in whatever number.
pub record HoldsTexts (texts : List Text) (l : Option Handle) (h : Heap Text) : Type 0 where
  pub list : Handle
  pub is_some : l ≡ some list
  pub cells : Cells Text
  pub is_list : IsList h list cells
  pub distinct : Distinct (items cells)
  pub same : (s : Text) → has_text s (items cells) ≡ has_text s texts
  pub short : length cells ≤ length texts

module _ (s : Text) (texts : List Text) {l : Option Handle} {h : Heap Text} (p : Ptr) where
  -- The state after a text that is new has been added.
  appended :
      (held : HoldsTexts texts l h)
      → has_text s (items held.cells) ≡ false
      → (l' : Handle) (g : Heap Text) → IsList g l' (held.cells ++ (p, s) ∷ [])
      → HoldsTexts (texts ++ s ∷ []) (some l') g
  appended held new l' g i = record {
    list = l';
    is_some = refl;
    cells = held.cells ++ (p, s) ∷ [];
    is_list = i;
    distinct = rw items-snoc (Distinct-append s (items held.cells) held.distinct new);
    same = λ u. ground (
      arith,
      has_text-append u s texts,
      held.same u,
      has_text-append u s (items held.cells),
      items-snoc,
    );
    short =
        rw (length-append texts (s ∷ []), length-append held.cells ((p, s) ∷ []))
          (omega (arith, held.short));
  }
    where
      items-snoc : items (held.cells ++ (p, s) ∷ []) ≡ items held.cells ++ s ∷ []
      items-snoc = map-append _ _ _

module _ (lib : Libipod) (malloc : Heap Text → Ptr) (allocates : IsMalloc malloc) where
  open lib use {Db, Track, track_count, get_text}

  -- `string_list_add_unique` adds a text that is new at the end, and leaves the list as it is
  -- otherwise.
  unique-HoldsTexts :
      (fuel : ℕ) (s : Text) (texts : List Text) (l : Option Handle) (h : Heap Text)
      → length texts < fuel
      → HoldsTexts texts l h
      → Ends (HoldsTexts (texts ++ s ∷ [])) (string_list_add_unique fuel (malloc h) l (some s) h)
  unfolding string_list_add_unique
  unique-HoldsTexts fuel s texts l h enough held =
      rw (held.is_some, find_string-has_text fuel s held.is_list.chain (omega (arith, held.short)))
        (elim (Bool-cases (has_text s (items held.cells))) [
          | inl old ↦ rw old (
              ends (record {
                list = held.list;
                is_some = refl;
                cells = held.cells;
                is_list = held.is_list;
                distinct = held.distinct;
                same = λ u. ground (arith, has_text-append u s texts, held.same u, text_eq_iff u s);
                short = rw (length-append texts (s ∷ [])) (omega (arith, held.short));
              }))
          | inr new ↦ rw new (
              Ends-bind
                (Builds-Ends
                  (list_add-Builds (malloc h) s held.is_list (allocates h).0 (allocates h).1))
                λ l' g i. ends (appended s texts (malloc h) held new l' g i))
        ])

  act :
      (fuel : ℕ) (d : Db) (tag : ℕ)
      → track_count d ≤ fuel
      → (ts : List Track) (t : Track) (l : Option Handle) (h : Heap Text)
      → length ts < track_count d
      → HoldsTexts (map (λ u. get_text d u tag) ts) l h
      → Ends
          (HoldsTexts (map (λ u. get_text d u tag) (ts ++ t ∷ [])))
          (add_text lib fuel malloc d tag t l h)
  unfolding add_text
  act fuel d tag f ts t l h b held = rw map-append (
      unique-HoldsTexts fuel (get_text d t tag) _ l h
        (omega (arith, length-map ts (λ u. get_text d u tag))) held)

  -- On an open iPod, with a parameter list in memory, fuel for it, and as much fuel as there are
  -- tracks, `string_list_track_search` returns a list of distinct texts: those that some track
  -- which matches every parameter has under the tag, and no others.
  pub string_list_track_search-HoldsTexts :
      (fuel : ℕ) (dbs : Ptr → Option Db) (ipod : Ptr) (d : Db) (tag : ℕ) (param : Option Handle)
      (params : Heap Param) (ps : Cells Param) (h : Heap Text)
      → ipod ≢ null
      → dbs ipod ≡ some d
      → IsParams params param ps
      → length ps < fuel
      → track_count d ≤ fuel
      → Ends
          (HoldsTexts (
            map
              (λ t. get_text d t tag)
              (keep (matches lib d (items ps)) (tracks_from lib d (track_count d) 0))))
          (string_list_track_search lib fuel malloc dbs ipod tag param params h)
  unfolding string_list_track_search
  string_list_track_search-HoldsTexts fuel dbs ipod d tag param params ps h ne open_db listed e f =
      rw (ne_null ipod ne, open_db)
        (each_track-Ends lib fuel d param params ps listed e (add_text lib fuel malloc d tag)
          (λ ts. HoldsTexts (map (λ t. get_text d t tag) ts)) (track_count d) (act fuel d tag f)
          (track_count d) 0 [] (some list_new) h (omega arith)
          (record {
            list = list_new;
            is_some = refl;
            cells = [];
            is_list = record { chain = nil; last = tt };
            distinct = tt;
            same = λ s. refl;
            short = omega arith;
          }))
