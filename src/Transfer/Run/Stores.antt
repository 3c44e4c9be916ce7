-- ===== src/Transfer/Run/Stores.antt =====
-- The destination's database behind a whole queue: what it had stays, and behind that each item has
-- its copy.
use mathlib.Core.Path.{subst}
use ipod_to_ipod.Base.{
  inl, inr, Bool-cases, ℕ, ◌+◌, ◌≤◌, ◌<◌, true, false, Option, some, List, [], ◌∷◌, ◌++◌, Text,
  length, ◌≡◌, refl, ap, ◌∙◌, arith, ◌==◌, All,
}
use ipod_to_ipod.Libipod.{Libipod, IsString, IsStore, Grows, IsAppending}
use ipod_to_ipod.Transfer.{Item}
use ipod_to_ipod.Transfer.Attributes.{text_tags, number_tags}
use ipod_to_ipod.Transfer.Attributes.Copied.{has}
use ipod_to_ipod.Transfer.Attributes.Others.{add_copy-Grows}
use ipod_to_ipod.Transfer.Copy.{location_tag}
use ipod_to_ipod.Transfer.Start.{slashes}
use ipod_to_ipod.Transfer.Finish.{Added, add_copy-Added}
use ipod_to_ipod.Transfer.Run.Landing.{Landing, Lands}

has-All {ℓ} : (P : ℕ → Type ℓ) (n : ℕ) (tags : List ℕ) → has n tags ≡ true → All P tags → P n
unfolding has
has-All P n [] h all = absurd (ground arith)
has-All P n (m ∷ ms) h all = elim (Bool-cases (n == m)) [
  | inl same ↦ let e : m ≡ n = ground arith in subst P e all.0
  | inr other ↦ has-All P n ms (ground arith) all.1
]

module _ (lib : Libipod) where
  open lib use {Db, Track, track_count, get_by_index, get_text, get_attribute, base_path}

  -- The tracks that the database had are where they were, with what they carried.
  pub record Keeps (before last : Db) : Type 0 where
    pub count : track_count before ≤ track_count last
    pub base : base_path last ≡ base_path before
    pub indexed : (i : ℕ) → i < track_count before → get_by_index last i ≡ get_by_index before i
    pub texts :
        (i : ℕ) (u : Track) (tag : ℕ)
        → i < track_count before
        → get_by_index before i ≡ some u
        → get_text last u tag ≡ get_text before u tag
    pub numbers :
        (i : ℕ) (u : Track) (tag : ℕ)
        → i < track_count before
        → get_by_index before i ≡ some u
        → get_attribute last u tag ≡ get_attribute before u tag

  Grows-Keeps : {t : Track} {before after : Db} → Grows lib t before after → Keeps before after
  Grows-Keeps g = record {
    count = omega (arith, g.count);
    base = g.base;
    indexed = g.earlier;
    texts = λ i u tag small at_i. g.texts u tag (λ e. g.fresh i small (at_i ∙ ap (λ w. some w) e));
    numbers =
        λ i u tag small at_i. g.numbers u tag (λ e. g.fresh i small (at_i ∙ ap (λ w. some w) e));
  }

  Keeps-trans : {d e f : Db} → Keeps d e → Keeps e f → Keeps d f
  Keeps-trans k l = record {
    count = omega (arith, k.count, l.count);
    base = l.base ∙ k.base;
    indexed = λ i small. l.indexed i (omega (arith, k.count)) ∙ k.indexed i small;
    texts = λ i u tag small at_i.
        l.texts i u tag (omega (arith, k.count)) (k.indexed i small ∙ at_i)
        ∙ k.texts i u tag small at_i;
    numbers = λ i u tag small at_i.
        l.numbers i u tag (omega (arith, k.count)) (k.indexed i small ∙ at_i)
        ∙ k.numbers i u tag small at_i;
  }

  module _ (disk : Text → Option (List ℕ)) (src : Db) where
    -- At the index `i` of `last` there is the copy of the item's track, with the source's texts and
    -- numbers; its location is that of the file `f`, which has the bytes of the item's file.
    pub record Stored (last : Db) (i : ℕ) (item : Item Track) (f : Text × List ℕ) : Type 0 where
      pub track : Track
      pub is_track : item.src_track ≡ some track
      pub copy : Track
      pub in_range : i < track_count last
      pub indexed : get_by_index last i ≡ some copy
      pub name : f.0 ≡ slashes (base_path last ++ get_text last copy location_tag)
      pub content : disk item.src_filename ≡ some f.1
      pub texts :
          (tag : ℕ) → has tag text_tags ≡ true → get_text last copy tag ≡ get_text src track tag
      pub numbers :
          (tag : ℕ)
          → has tag number_tags ≡ true
          → get_attribute last copy tag ≡ get_attribute src track tag

    Stored-Keeps :
        {d e : Db} {i : ℕ} {item : Item Track} {f : Text × List ℕ}
        → Keeps d e
        → Stored d i item f
        → Stored e i item f
    Stored-Keeps {i = i} {f = f} k s = record {
      track = s.track;
      is_track = s.is_track;
      copy = s.copy;
      in_range = omega (arith, s.in_range, k.count);
      indexed = k.indexed i s.in_range ∙ s.indexed;
      name = rw (k.base, k.texts i s.copy location_tag s.in_range s.indexed) s.name;
      content = s.content;
      texts = λ tag h. k.texts i s.copy tag s.in_range s.indexed ∙ s.texts tag h;
      numbers = λ tag h. k.numbers i s.copy tag s.in_range s.indexed ∙ s.numbers tag h;
    }

    -- The items are stored one behind the other from an index on.
    pub data Stores (last : Db) : ℕ → List (Item Track) → List (Text × List ℕ) → Type 0 where
      none_left : {i : ℕ} → Stores last i [] []
      stored :
          {i : ℕ} {item : Item Track} {items : List (Item Track)} {f : Text × List ℕ}
          {files : List (Text × List ℕ)}
          → Stored last i item f
          → Stores last (i + 1) items files
          → Stores last i (item ∷ items) (f ∷ files)

    -- No text tag is that of the location.
    text-location_tag_ne : (tag : ℕ) → has tag text_tags ≡ true → (tag == location_tag) ≡ false
    text-location_tag_ne tag h =
        has-All (λ n. (n == location_tag) ≡ false) tag text_tags h (ground arith)

    Landing-Added :
        {before after : Db} {item : Item Track} {f : Text × List ℕ}
        → IsStore lib
        → (l : Landing lib disk src item f before after)
        → Added lib src l.adding.track l.location before after
    Landing-Added {before = before} {after = after} store l =
        let a = l.adding in
        let (d, made, added) =
          add_copy-Added lib store a.io src a.track l.location before a.still in
        let same : d ≡ after = cc (made, a.made) in
        subst (λ x. Added lib src a.track l.location before x) same added

    Landing-Stored :
        {before after : Db} {item : Item Track} {f : Text × List ℕ}
        → IsStore lib
        → Landing lib disk src item f before after
        → Grows lib (lib.track_add before).1 before after
        → Stored after (track_count before) item f
    Landing-Stored {before = before} {after = after} {f = f} store l g =
        let a = Landing-Added store l in
        let u = (lib.track_add before).1 in
        let located : get_text after u location_tag ≡ l.location =
          a.text location_tag (omega arith) in
        record {
          track = l.adding.track;
          is_track = l.adding.is_track;
          copy = u;
          in_range = omega (arith, g.count);
          indexed = g.newest;
          name = rw (g.base, located) l.name;
          content = l.content;
          texts = λ tag h.
              a.text tag (has-All IsString tag text_tags h (omega arith))
              ∙ rw (text-location_tag_ne tag h, h) refl;
          numbers = λ tag h.
              a.number tag (has-All (λ n. n < 2100) tag number_tags h (omega arith)) ∙ rw h refl;
        }

    -- What lands is stored, behind what was there.
    pub Lands-Stores :
        {last before : Db} {items : List (Item Track)} {files : List (Text × List ℕ)}
        → IsStore lib
        → IsAppending lib
        → Lands lib disk src last items files before
        → Stores last (track_count before) items files
          × Keeps before last
          × (track_count last ≡ track_count before + length items)
    Lands-Stores {last = last} store appending Lands.done = (
      none_left,
      record {
        count = omega arith;
        base = refl;
        indexed = λ i small. refl;
        texts = λ i u tag small e. refl;
        numbers = λ i u tag small e. refl;
      },
      omega arith,
    )
    Lands-Stores {last = last} {before = before} store appending
          (Lands.next {item = item} {items = items} {f = f} {files = files} {after = after} l ls) =
        let a = l.adding in
        let g = add_copy-Grows lib appending a.io src a.track l.location before after a.made in
        let (stores, keeps, count) = Lands-Stores store appending ls in
        (
          stored (Stored-Keeps keeps (Landing-Stored store l g))
              (subst (λ i. Stores last i items files) g.count stores),
          Keeps-trans (Grows-Keeps g) keeps,
          omega (arith, count, g.count),
        )
