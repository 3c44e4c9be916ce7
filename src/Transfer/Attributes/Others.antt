-- ===== src/Transfer/Attributes/Others.antt =====
-- What `copy_track_attributes` leaves of the other tracks, and what `add_copy` makes of a database.
use ipod_to_ipod.Base.{ℕ, Bool, List, [], ◌∷◌, Text, ◌≡◌, refl, ◌∙◌, inl, inr, Bool-cases, arith}
use ipod_to_ipod.Libipod.{Libipod, Leaves, Grows, IsAppending}
use ipod_to_ipod.Transfer.{ok, Io}
use ipod_to_ipod.Transfer.Outcomes.{ok-bind}
use ipod_to_ipod.Transfer.Attributes.{
  text_tags, number_tags, copy_text_attribute, copy_texts, copy_numbers, copy_track_attributes,
}
use ipod_to_ipod.Transfer.Copy.{add_copy, location_tag}

module _ (lib : Libipod) (appending : IsAppending lib) where
  open lib use {Db, Track, set_text, get_text, set_attribute, get_attribute, track_add}

  Leaves-refl : (t : Track) (d : Db) → Leaves lib t d d
  Leaves-refl t d = record {
    count = refl;
    indexed = λ i. refl;
    base = refl;
    texts = λ u tag ne. refl;
    numbers = λ u tag ne. refl;
  }

  Leaves-trans : {t : Track} {d e f : Db} → Leaves lib t d e → Leaves lib t e f → Leaves lib t d f
  Leaves-trans l m = record {
    count = m.count ∙ l.count;
    indexed = λ i. m.indexed i ∙ l.indexed i;
    base = m.base ∙ l.base;
    texts = λ u tag ne. m.texts u tag ne ∙ l.texts u tag ne;
    numbers = λ u tag ne. m.numbers u tag ne ∙ l.numbers u tag ne;
  }

  Grows-Leaves : {t : Track} {d e f : Db} → Grows lib t d e → Leaves lib t e f → Grows lib t d f
  Grows-Leaves {d = d} g l = record {
    count = l.count ∙ g.count;
    earlier = λ i small. l.indexed i ∙ g.earlier i small;
    newest = l.indexed (lib.track_count d) ∙ g.newest;
    fresh = g.fresh;
    base = l.base ∙ g.base;
    texts = λ u tag ne. l.texts u tag ne ∙ g.texts u tag ne;
    numbers = λ u tag ne. l.numbers u tag ne ∙ g.numbers u tag ne;
  }

  module _ (src : Db) (src_track dst_track : Track) where
    copy_texts-Leaves :
        (moves : ℕ → Bool) (tags : List ℕ) (dst d : Db)
        → copy_texts lib moves src src_track dst_track tags dst ≡ ok d
        → Leaves lib dst_track dst d
    unfolding copy_texts copy_text_attribute
    copy_texts-Leaves moves [] dst d e =
        let same : dst ≡ d = cc e in rw (← same) (Leaves-refl dst_track dst)
    copy_texts-Leaves moves (tag ∷ tags) dst d e = elim (Bool-cases (moves tag)) [
      | inl moved ↦ absurd (ground arith)
      | inr still ↦
          let v = get_text src src_track tag in
          Leaves-trans (appending.set_text-Leaves dst dst_track tag v)
            (copy_texts-Leaves moves tags (set_text dst dst_track tag v) d (rw still at e))
    ]

    copy_numbers-Leaves :
        (tags : List ℕ) (dst : Db)
        → Leaves lib dst_track dst (copy_numbers lib src src_track dst_track tags dst)
    unfolding copy_numbers
    copy_numbers-Leaves [] dst = Leaves-refl dst_track dst
    copy_numbers-Leaves (tag ∷ tags) dst =
        let v = get_attribute src src_track tag in
        Leaves-trans (appending.set_attribute-Leaves dst dst_track tag v)
          (copy_numbers-Leaves tags (set_attribute dst dst_track tag v))

    copy_track_attributes-Leaves :
        (moves : ℕ → Bool) (dst d : Db)
        → copy_track_attributes lib moves src src_track dst_track dst ≡ ok d
        → Leaves lib dst_track dst d
    unfolding copy_track_attributes
    copy_track_attributes-Leaves moves dst d e =
        let (dst', made, rest) =
          ok-bind (copy_texts lib moves src src_track dst_track text_tags dst) _ d e in
        let same : copy_numbers lib src src_track dst_track number_tags dst' ≡ d = cc rest in
        rw (← same) (
          Leaves-trans (copy_texts-Leaves moves text_tags dst dst' made)
            (copy_numbers-Leaves number_tags dst'))

  -- `add_copy` adds one track behind the others.
  pub add_copy-Grows :
      (io : Io) (src : Db) (t : Track) (location : Text) (dst d : Db)
      → add_copy lib io src t location dst ≡ ok d
      → Grows lib (track_add dst).1 dst d
  unfolding add_copy
  add_copy-Grows io src t location dst d e =
      let u = (track_add dst).1 in
      let (d', made, rest) =
        ok-bind (copy_track_attributes lib io.moves src t u (track_add dst).0) _ d e in
      let same : set_text d' u location_tag location ≡ d = cc rest in
      rw (← same) (
        Grows-Leaves (appending.track_add-Grows dst) (
          Leaves-trans (copy_track_attributes-Leaves src t u io.moves (track_add dst).0 d' made)
            (appending.set_text-Leaves d' u location_tag location)))
