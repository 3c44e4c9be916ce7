-- ===== src/Transfer/Attributes.antt =====
-- `copy_track_attributes` of transfer.c. The macro COPY_TEXT_ATTRIBUTE drops the string that
-- `ipod_track_get_text` returns and goes on with the one it passed in, which may have been moved.
pub mod Bases
pub mod Copied
pub mod Others
use ipod_to_ipod.Base.{ℕ, Bool, List, [], ◌∷◌, if◌then◌else◌}
use ipod_to_ipod.Libipod.{Libipod}
use ipod_to_ipod.Transfer.{Outcome, ok, fault, ◌>>=◌, dangling_string}

-- IPOD_TITLE, IPOD_ALBUM, IPOD_ARTIST, IPOD_GENRE, IPOD_FILETYPE, IPOD_EQSETTING, IPOD_COMMENT,
-- IPOD_CATEGORY, IPOD_COMPOSER, IPOD_GROUPING, IPOD_DESCRIPTION
abbrev pub text_tags : List ℕ
text_tags = 1 ∷ 3 ∷ 4 ∷ 5 ∷ 6 ∷ 7 ∷ 8 ∷ 9 ∷ 12 ∷ 13 ∷ 14 ∷ []

-- IPOD_TRACK_VISIBLE to IPOD_TRACK_BOOKMARK_TIME, and IPOD_TRACK_CHECKED to
-- IPOD_TRACK_SAMPLE_COUNT, in the order of the calls.
abbrev pub number_tags : List ℕ
number_tags =
    2001 ∷ 2002 ∷ 2003 ∷ 2004 ∷ 2005 ∷ 2006 ∷ 2007 ∷ 2008 ∷ 2009 ∷ 2010 ∷ 2011 ∷ 2012 ∷ 2013 ∷ 2014
    ∷ 2015 ∷ 2016 ∷ 2017 ∷ 2018 ∷ 2019 ∷ 2020 ∷ 2021 ∷ 2022 ∷ 2023 ∷ 2024 ∷ 2027 ∷ 2028 ∷ 2029
    ∷ 2030 ∷ 2031 ∷ 2032 ∷ 2033 ∷ 2034 ∷ []

module _ (lib : Libipod) where
  open lib use {Db, Track, get_text, set_text, get_attribute, set_attribute}

  -- `moves` says whether growing the string moves it: then `s`, which `ipod_track_set_text` reads, is
  -- the string that was freed.
  unfoldable pub copy_text_attribute : (moves : ℕ → Bool) → Db → Track → Track → Db → ℕ → Outcome Db
  copy_text_attribute moves src src_track dst_track dst tag =
      if moves tag
      then fault dangling_string
      else ok (set_text dst dst_track tag (get_text src src_track tag))

  unfoldable pub copy_texts : (moves : ℕ → Bool) → Db → Track → Track → List ℕ → Db → Outcome Db
  unfolding copy_text_attribute
  copy_texts moves src src_track dst_track [] dst = ok dst
  copy_texts moves src src_track dst_track (tag ∷ tags) dst =
      copy_text_attribute moves src src_track dst_track dst tag
      >>= copy_texts moves src src_track dst_track tags

  pub copy_numbers : Db → Track → Track → List ℕ → Db → Db
  copy_numbers src src_track dst_track [] dst = dst
  copy_numbers src src_track dst_track (tag ∷ tags) dst =
      copy_numbers src src_track dst_track tags
        (set_attribute dst dst_track tag (get_attribute src src_track tag))

  unfoldable pub copy_track_attributes : (moves : ℕ → Bool) → Db → Track → Track → Db → Outcome Db
  unfolding copy_texts copy_numbers
  copy_track_attributes moves src src_track dst_track dst =
      copy_texts moves src src_track dst_track text_tags dst >>= λ dst'.
      ok (copy_numbers src src_track dst_track number_tags dst')
