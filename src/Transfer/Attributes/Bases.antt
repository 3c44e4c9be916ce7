-- ===== src/Transfer/Attributes/Bases.antt =====
-- `copy_track_attributes` and the rest of `add_copy` succeed when no string is moved, and leave the
-- base path of the database.
use ipod_to_ipod.Base.{ℕ, Bool, false, List, [], ◌∷◌, Text, ◌≡◌, refl, ◌∙◌, arith}
use ipod_to_ipod.Libipod.{Libipod, KeepsBase}
use ipod_to_ipod.Transfer.{ok, Io}
use ipod_to_ipod.Transfer.Attributes.{
  text_tags, number_tags, copy_text_attribute, copy_texts, copy_numbers, copy_track_attributes,
}
use ipod_to_ipod.Transfer.Attributes.Copied.{any_of}
use ipod_to_ipod.Transfer.Copy.{add_copy, location_tag}

module _ (lib : Libipod) (keeps : KeepsBase lib) where
  open lib use {Db, Track, set_text, get_text, set_attribute, get_attribute, track_add, base_path}

  module _ (src : Db) (src_track dst_track : Track) where
    copy_texts-base_path :
        (moves : ℕ → Bool) (tags : List ℕ) (dst : Db)
        → any_of moves tags ≡ false
        → (d : Db) × (copy_texts lib moves src src_track dst_track tags dst ≡ ok d)
          × (base_path d ≡ base_path dst)
    unfolding copy_texts copy_text_attribute any_of
    copy_texts-base_path moves [] dst m = (dst, refl, refl)
    copy_texts-base_path moves (tag ∷ tags) dst m =
        let still : moves tag ≡ false = ground arith in
        let v = get_text src src_track tag in
        let (d, e, same) =
          copy_texts-base_path moves tags (set_text dst dst_track tag v) (ground arith) in
        (d, rw still e, same ∙ keeps.base_path-set_text dst dst_track tag v)

    base_path-copy_numbers :
        (tags : List ℕ) (dst : Db)
        → base_path (copy_numbers lib src src_track dst_track tags dst) ≡ base_path dst
    unfolding copy_numbers
    base_path-copy_numbers [] dst = refl
    base_path-copy_numbers (tag ∷ tags) dst =
        let v = get_attribute src src_track tag in
        base_path-copy_numbers tags (set_attribute dst dst_track tag v)
        ∙ keeps.base_path-set_attribute dst dst_track tag v

    copy_track_attributes-base_path :
        (moves : ℕ → Bool) (dst : Db)
        → any_of moves text_tags ≡ false
        → (d : Db) × (copy_track_attributes lib moves src src_track dst_track dst ≡ ok d)
          × (base_path d ≡ base_path dst)
    unfolding copy_track_attributes
    copy_track_attributes-base_path moves dst m =
        let (d, e, same) = copy_texts-base_path moves text_tags dst m in
        (
          copy_numbers lib src src_track dst_track number_tags d,
          rw e,
          base_path-copy_numbers number_tags d ∙ same,
        )

  pub add_copy-base_path :
      (io : Io) (src : Db) (t : Track) (location : Text) (dst : Db)
      → any_of io.moves text_tags ≡ false
      → (d : Db) × (add_copy lib io src t location dst ≡ ok d) × (base_path d ≡ base_path dst)
  unfolding add_copy
  add_copy-base_path io src t location dst still =
      let u = (track_add dst).1 in
      let (d, e, same) = copy_track_attributes-base_path src t u io.moves (track_add dst).0 still in
      (
        set_text d u location_tag location,
        cc e,
        keeps.base_path-set_text d u location_tag location ∙ same ∙ keeps.base_path-track_add dst,
      )
