-- ===== src/Libipod.antt =====
-- The interface of libipod that the module calls (libipod/include/ipod/ipod.h), as a parameter: a
-- `Db` is what an `ipod_t` points at, a `Track` what an `ipod_track_t` names in it. Tags are the
-- numbers of ipod_constants.h; -1 is the bit pattern of the `int`.
use ipod_to_ipod.Base.{ℕ, ◌+◌, Option, some, Text, ◌<◌, ◌≡◌, ◌≢◌}

pub record Libipod : Type 1 where
  pub Db : Type 0
  pub Track : Type 0
  pub track_count : Db → ℕ
  pub get_by_index : Db → ℕ → Option Track
  pub get_by_track_id : Db → ℕ → Option Track
  pub get_text : Db → Track → ℕ → Text
  pub get_attribute : Db → Track → ℕ → ℕ
  pub set_text : Db → Track → ℕ → Text → Db
  pub set_attribute : Db → Track → ℕ → ℕ → Db
  pub track_add : Db → Db × Track
  pub track_remove : Db → Track → Db
  pub flush : Db → Db
  -- `basePath`, which transfer.c reads from the private structure
  pub base_path : Db → Text

-- `int tag` is -1.
abbrev pub no_tag : ℕ
no_tag = 0xffff_ffff

-- IPOD_TITLE to IPOD_DESCRIPTION: the tags of the strings that are kept with a track. The other text
-- tags are left out: IPOD_FULL_PATH is read-only and made of the base path and IPOD_LOCATION, and those
-- from 50 on are partly unsupported.
abbrev pub IsString : ℕ → Type 0
IsString tag = (0 < tag) × (tag < 15)

-- The documented behaviour of the accessors: a string that is set is what is read, and no other string
-- and no number changes; likewise for numbers. A number is only said to be read back if it was read
-- under the same tag, since it may be narrow; the tags from 2100 on are other views of three of the
-- numbers.
pub record IsStore (lib : Libipod) : Type 0 where
  pub get_text-set_text :
      (d : lib.Db) (t : lib.Track) (tag : ℕ) (s : Text)
      → IsString tag
      → lib.get_text (lib.set_text d t tag s) t tag ≡ s
  pub get_text-set_text_ne :
      (d : lib.Db) (t : lib.Track) (tag other : ℕ) (s : Text)
      → tag ≢ other
      → IsString tag
      → IsString other
      → lib.get_text (lib.set_text d t tag s) t other ≡ lib.get_text d t other
  pub get_attribute-set_text :
      (d : lib.Db) (t : lib.Track) (tag other : ℕ) (s : Text)
      → IsString tag
      → other < 2100
      → lib.get_attribute (lib.set_text d t tag s) t other ≡ lib.get_attribute d t other
  pub get_attribute-set_attribute :
      (d e : lib.Db) (t u : lib.Track) (tag : ℕ)
      → tag < 2100
      → lib.get_attribute (lib.set_attribute d t tag (lib.get_attribute e u tag)) t tag
        ≡ lib.get_attribute e u tag
  pub get_attribute-set_attribute_ne :
      (d : lib.Db) (t : lib.Track) (tag other n : ℕ)
      → tag ≢ other
      → tag < 2100
      → other < 2100
      → lib.get_attribute (lib.set_attribute d t tag n) t other ≡ lib.get_attribute d t other
  pub get_text-set_attribute :
      (d : lib.Db) (t : lib.Track) (tag other n : ℕ)
      → tag < 2100
      → IsString other
      → lib.get_text (lib.set_attribute d t tag n) t other ≡ lib.get_text d t other

-- The base path of a database stays when a track is added or a tag is set.
pub record KeepsBase (lib : Libipod) : Type 0 where
  pub base_path-set_text :
      (d : lib.Db) (t : lib.Track) (tag : ℕ) (s : Text)
      → lib.base_path (lib.set_text d t tag s) ≡ lib.base_path d
  pub base_path-set_attribute :
      (d : lib.Db) (t : lib.Track) (tag n : ℕ)
      → lib.base_path (lib.set_attribute d t tag n) ≡ lib.base_path d
  pub base_path-track_add : (d : lib.Db) → lib.base_path (lib.track_add d).0 ≡ lib.base_path d

module _ (lib : Libipod) where
  open lib use {Db, Track, track_count, get_by_index, get_text, get_attribute, base_path}

  -- `after` is `before` but for what the track `t` carries.
  pub record Leaves (t : Track) (before after : Db) : Type 0 where
    pub count : track_count after ≡ track_count before
    pub indexed : (i : ℕ) → get_by_index after i ≡ get_by_index before i
    pub base : base_path after ≡ base_path before
    pub texts : (u : Track) (tag : ℕ) → u ≢ t → get_text after u tag ≡ get_text before u tag
    pub numbers :
        (u : Track) (tag : ℕ) → u ≢ t → get_attribute after u tag ≡ get_attribute before u tag

  -- `after` is `before` with one more track, `t`, behind the others.
  pub record Grows (t : Track) (before after : Db) : Type 0 where
    pub count : track_count after ≡ track_count before + 1
    pub earlier : (i : ℕ) → i < track_count before → get_by_index after i ≡ get_by_index before i
    pub newest : get_by_index after (track_count before) ≡ some t
    pub fresh : (i : ℕ) → i < track_count before → get_by_index before i ≢ some t
    pub base : base_path after ≡ base_path before
    pub texts : (u : Track) (tag : ℕ) → u ≢ t → get_text after u tag ≡ get_text before u tag
    pub numbers :
        (u : Track) (tag : ℕ) → u ≢ t → get_attribute after u tag ≡ get_attribute before u tag

-- A track is added behind the others, and setting a tag of a track changes no other track.
pub record IsAppending (lib : Libipod) : Type 0 where
  pub set_text-Leaves :
      (d : lib.Db) (t : lib.Track) (tag : ℕ) (s : Text) → Leaves lib t d (lib.set_text d t tag s)
  pub set_attribute-Leaves :
      (d : lib.Db) (t : lib.Track) (tag n : ℕ) → Leaves lib t d (lib.set_attribute d t tag n)
  pub track_add-Grows : (d : lib.Db) → Grows lib (lib.track_add d).1 d (lib.track_add d).0
