-- ===== src/ListUtils/Matches.antt =====
-- What the searches of list_utils.c look for: the tracks that carry every listed value.
use mathlib.Core.List.{append-nil, append_assoc}
use ipod_to_ipod.Base.{
  ℕ, zero, suc, ◌+◌, ◌≤◌, ◌<◌, Bool, true, Option, none, some, List, [], ◌∷◌, map, text_eq, ◌&&◌,
  ◌++◌, inl, inr, Bool-cases, Option-cases, ◌≡◌, refl, ◌≢◌, if◌then◌else◌, length, length-append,
  arith,
}
use ipod_to_ipod.Pod.{Ptr, null}
use ipod_to_ipod.Libipod.{Libipod}
use ipod_to_ipod.Link.{Heap, Handle, Run, ok, at, and_then, load}
use ipod_to_ipod.Link.Chain.{Cells, Chain, nil, cons, IsList}
use ipod_to_ipod.Link.Refines.{Builds, builds}
use ipod_to_ipod.ListUtils.{Param, test_params, param_list_test_track, visit, each_track}

-- `malloc` returns a free address.
abbrev pub IsMalloc : {A : Type 0} → (Heap A → Ptr) → Type 0
IsMalloc malloc = (h : Heap _) → (malloc h ≢ null) × (at h (malloc h) ≡ none)

-- The items of the cells, in order.
abbrev pub items : {A : Type 0} → Cells A → List A
items xs = map (λ c. c.1) xs

-- The parameter list at hand: none, or a list in the heap.
abbrev pub IsParams : Heap Param → Option Handle → Cells Param → Type 0
IsParams g none xs = xs ≡ []
IsParams g (some l) xs = IsList g l xs

unfoldable pub keep : {A : Type 0} → (A → Bool) → List A → List A
keep p [] = []
keep p (x ∷ xs) = let rest = keep p xs in if p x then x ∷ rest else rest

keep-cons :
    {A : Type 0} (p : A → Bool) (x : A) (xs : List A)
    → keep p (x ∷ xs) ≡ keep p (x ∷ []) ++ keep p xs
unfolding keep
keep-cons p x xs = ground arith

-- A run that ends in a state with the property.
pub data Ends {A L : Type 0} (P : L → Heap A → Type 0) : Run A L → Type 0 where
  ends : {l : L} {h : Heap A} → P l h → Ends P (ok l h)

pub Ends-bind :
    {A L M : Type 0} {P : L → Heap A → Type 0} {Q : M → Heap A → Type 0} {r : Run A L}
    {k : L → Heap A → Run A M}
    → Ends P r
    → ((l : L) (h : Heap A) → P l h → Ends Q (k l h))
    → Ends Q (and_then r k)
Ends-bind (ends p) f = f _ _ p

pub Ends-weaken :
    {A L : Type 0} {P Q : L → Heap A → Type 0} {r : Run A L}
    → Ends P r
    → ((l : L) (h : Heap A) → P l h → Q l h)
    → Ends Q r
Ends-weaken (ends p) f = ends (f _ _ p)

pub Builds-Ends :
    {A : Type 0} {h : Heap A} {xs : Cells A} {r : Run A Handle}
    → Builds h xs r
    → Ends (λ l g. IsList g l xs) r
Builds-Ends (builds i s) = ends i

module _ (lib : Libipod) where
  open lib use {Db, Track, get_by_index, get_text}

  -- The track has, under the tag of each parameter, its value.
  unfoldable pub matches : Db → List Param → Track → Bool
  matches d [] t = true
  matches d (p ∷ ps) t = text_eq (get_text d t p.tag) p.value && matches d ps t

  -- The tracks at the indices from `i` on that libipod has a track for.
  unfoldable pub tracks_from : Db → (rounds i : ℕ) → List Track
  tracks_from d zero i = []
  tracks_from d (suc rounds) i = elim (get_by_index d i) [
    | none ↦ tracks_from d rounds (suc i)
    | some t ↦ t ∷ tracks_from d rounds (suc i)
  ]

  tracks_none :
      (d : Db) (rounds i : ℕ)
      → get_by_index d i ≡ none
      → tracks_from d (suc rounds) i ≡ tracks_from d rounds (suc i)
  unfolding tracks_from
  tracks_none d rounds i e = ground arith

  tracks_some :
      (d : Db) (rounds i : ℕ) (t : Track)
      → get_by_index d i ≡ some t
      → tracks_from d (suc rounds) i ≡ t ∷ tracks_from d rounds (suc i)
  unfolding tracks_from
  tracks_some d rounds i t e = ground arith

  test_params-matches :
      (fuel : ℕ) (d : Db) (t : Track) {g : Heap Param} {p : Ptr} {xs : Cells Param}
      → Chain g p xs
      → length xs < fuel
      → test_params lib fuel d t p g ≡ ok (matches d (items xs) t) g
  unfolding test_params matches load
  test_params-matches zero d t c f = absurd (omega arith)
  test_params-matches (suc fuel) d t nil f = refl
  test_params-matches (suc fuel) d t (cons n e o c) f =
      ground (arith, test_params-matches fuel d t c)

  -- With fuel for the list, `param_list_test_track` returns 1 exactly if the track carries the
  -- value of every parameter, reads no other memory and writes none.
  pub param_list_test_track-matches :
      (fuel : ℕ) (d : Db) (t : Track) (g : Heap Param) (param : Option Handle) (xs : Cells Param)
      → IsParams g param xs
      → length xs < fuel
      → param_list_test_track lib fuel d (some t) param g ≡ ok (matches d (items xs) t) g
  unfolding param_list_test_track matches
  param_list_test_track-matches fuel d t g none xs e f = rw e
  param_list_test_track-matches fuel d t g (some l) xs i f = test_params-matches fuel d t i.chain f

  module _ {A L : Type 0} (fuel : ℕ) (d : Db) (param : Option Handle) (params : Heap Param)
      (ps : Cells Param) (listed : IsParams params param ps) (enough : length ps < fuel)
      (action : Track → L → Heap A → Run A L) (P : List Track → L → Heap A → Type 0) (limit : ℕ)
      (act : (ts : List Track) (t : Track) (l : L) (h : Heap A)
        → length ts < limit
        → P ts l h
        → Ends (P (ts ++ t ∷ [])) (action t l h)) where
    visit-none : (l : L) (h : Heap A) → visit lib fuel d param params action none l h ≡ ok l h
    unfolding visit
    visit-none l h = refl

    visit-some :
        (t : Track) (l : L) (h : Heap A)
        → visit lib fuel d param params action (some t) l h
          ≡ (if matches d (items ps) t then action t l h else ok l h)
    unfolding visit
    visit-some t l h =
        rw (param_list_test_track-matches fuel d t params param ps listed enough, visit)

    visit-Ends :
        (ts : List Track) (t : Track) (l : L) (h : Heap A)
        → length ts < limit
        → P ts l h
        → Ends
            (P (ts ++ keep (matches d (items ps)) (t ∷ [])))
            (visit lib fuel d param params action (some t) l h)
    unfolding keep
    visit-Ends ts t l h b p = rw (visit-some t l h) (elim (Bool-cases (matches d (items ps) t)) [
      | inl hit ↦ rw hit (act ts t l h b p)
      | inr miss ↦ rw (miss, append-nil) (ends p)
    ])

    kept_le :
        (rounds : ℕ) (ts : List Track) (t : Track)
        → length ts + suc rounds ≤ limit
        → length (ts ++ keep (matches d (items ps)) (t ∷ [])) + rounds ≤ limit
    unfolding keep
    kept_le rounds ts t b =
        rw (length-append ts (keep (matches d (items ps)) (t ∷ []))) (ground arith)

    -- The loop over the tracks ends, and has acted on those that match, in order.
    pub each_track-Ends :
        (rounds i : ℕ) (ts : List Track) (l : L) (h : Heap A)
        → length ts + rounds ≤ limit
        → P ts l h
        → Ends
            (P (ts ++ keep (matches d (items ps)) (tracks_from d rounds i)))
            (each_track lib d (visit lib fuel d param params action) rounds i l h)
    unfolding each_track keep tracks_from
    each_track-Ends zero i ts l h b p = rw append-nil (ends p)
    each_track-Ends (suc rounds) i ts l h b p = elim (Option-cases (get_by_index d i)) [
      | inl e ↦
          rw (e, visit-none l h, tracks_none d rounds i e)
            (each_track-Ends rounds (suc i) ts l h (omega arith) p)
      | inr (t, e) ↦
          rw (e, tracks_some d rounds i t e, keep-cons (matches d (items ps)) t, ← append_assoc)
            (Ends-bind (visit-Ends ts t l h (omega arith) p)
              (λ l' h' p'. each_track-Ends rounds (suc i) _ l' h' (kept_le rounds ts t b) p'))
    ]
