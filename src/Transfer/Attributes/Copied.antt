-- ===== src/Transfer/Attributes/Copied.antt =====
-- What the new track carries after `copy_track_attributes`.
use ipod_to_ipod.Base.{
  ℕ, ◌<◌, ◌≢◌, Bool, false, List, [], ◌∷◌, ◌≡◌, refl, ◌∙◌, ◌||◌, ◌==◌, if◌then◌else◌, arith, All,
}
use ipod_to_ipod.Libipod.{Libipod, IsString, IsStore}
use ipod_to_ipod.Transfer.{ok}
use ipod_to_ipod.Transfer.Attributes.{
  text_tags, number_tags, copy_text_attribute, copy_texts, copy_numbers, copy_track_attributes,
}

unfoldable pub has : ℕ → List ℕ → Bool
has n [] = false
has n (m ∷ ms) = (n == m) || has n ms

-- Whether the test holds somewhere.
unfoldable pub any_of : (ℕ → Bool) → List ℕ → Bool
any_of p [] = false
any_of p (m ∷ ms) = p m || any_of p ms

module _ (lib : Libipod) (store : IsStore lib) where
  open lib use {Db, Track, get_text, set_text, get_attribute, set_attribute}

  module _ (src : Db) (src_track dst_track : Track) where
    -- The strings under the tags are the source's, the others and the numbers are as they were.
    pub record TextsCopied (tags : List ℕ) (before after : Db) : Type 0 where
      pub text :
          (tag : ℕ)
          → IsString tag
          → get_text after dst_track tag
            ≡ (if has tag tags then get_text src src_track tag else get_text before dst_track tag)
      pub number :
          (tag : ℕ)
          → tag < 2100
          → get_attribute after dst_track tag ≡ get_attribute before dst_track tag

    copy_texts-TextsCopied :
        (moves : ℕ → Bool) (tags : List ℕ) (dst : Db)
        → any_of moves tags ≡ false
        → All IsString tags
        → (d : Db) × (copy_texts lib moves src src_track dst_track tags dst ≡ ok d)
          × TextsCopied tags dst d
    unfolding copy_texts copy_text_attribute any_of has
    copy_texts-TextsCopied moves [] dst m strings =
        (dst, refl, record { text = λ tag s. refl; number = λ tag s. refl })
    copy_texts-TextsCopied moves (tag ∷ tags) dst m strings =
        let still : moves tag ≡ false = ground arith in
        let v = get_text src src_track tag in
        let (d, e, c) =
          copy_texts-TextsCopied moves tags (set_text dst dst_track tag v) (ground arith)
            strings.1 in
        (
          d,
          rw still e,
          record {
            text = λ other string. ground (
              arith,
              c.text other string,
              store.get_text-set_text dst dst_track tag v strings.0,
              λ (ne : tag ≢ other).
                  store.get_text-set_text_ne dst dst_track tag other v ne strings.0 string,
            );
            number = λ other small.
                c.number other small
                ∙ store.get_attribute-set_text dst dst_track tag other v strings.0 small;
          },
        )

    -- The numbers under the tags are the source's, the others and the texts are as they were.
    pub record NumbersCopied (tags : List ℕ) (before after : Db) : Type 0 where
      pub number :
          (tag : ℕ)
          → tag < 2100
          → get_attribute after dst_track tag ≡ (
              if has tag tags
              then get_attribute src src_track tag
              else get_attribute before dst_track tag)
      pub text :
          (tag : ℕ) → IsString tag → get_text after dst_track tag ≡ get_text before dst_track tag

    copy_numbers-NumbersCopied :
        (tags : List ℕ) (dst : Db)
        → All (λ tag. tag < 2100) tags
        → NumbersCopied tags dst (copy_numbers lib src src_track dst_track tags dst)
    unfolding copy_numbers has
    copy_numbers-NumbersCopied [] dst small = record {
      number = λ tag s. refl;
      text = λ tag s. refl;
    }
    copy_numbers-NumbersCopied (tag ∷ tags) dst small =
        let v = get_attribute src src_track tag in
        let c = copy_numbers-NumbersCopied tags (set_attribute dst dst_track tag v) small.1 in
        record {
          number = λ other s. ground (
            arith,
            c.number other s,
            small.0,
            store.get_attribute-set_attribute dst src dst_track src_track tag small.0,
            store.get_attribute-set_attribute_ne dst dst_track tag other v,
          );
          text = λ other string.
              c.text other string
              ∙ store.get_text-set_attribute dst dst_track tag other v small.0 string;
        }

    pub copy_track_attributes-copied :
        (moves : ℕ → Bool) (dst : Db)
        → any_of moves text_tags ≡ false
        → (d : Db) × (copy_track_attributes lib moves src src_track dst_track dst ≡ ok d)
          × ((tag : ℕ)
              → IsString tag
              → get_text d dst_track tag ≡ (
                  if has tag text_tags
                  then get_text src src_track tag
                  else get_text dst dst_track tag))
          × ((tag : ℕ)
              → tag < 2100
              → get_attribute d dst_track tag ≡ (
                  if has tag number_tags
                  then get_attribute src src_track tag
                  else get_attribute dst dst_track tag))
    unfolding copy_track_attributes
    copy_track_attributes-copied moves dst m =
        let (d, e, c) = copy_texts-TextsCopied moves text_tags dst m (omega arith) in
        let n = copy_numbers-NumbersCopied number_tags d (omega arith) in
        (
          copy_numbers lib src src_track dst_track number_tags d,
          rw e,
          λ tag s. n.text tag s ∙ c.text tag s,
          λ tag s. rw (← c.number tag s) (n.number tag s),
        )
