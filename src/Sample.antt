-- ===== src/Sample.antt =====
-- Concrete stand-ins for what the model takes as parameters: a libipod whose database is two tables,
-- a `malloc` that takes the next address, and a state of the module.
pub mod Copies
pub mod Underway
use ipod_to_ipod.Base.{
  ℕ, suc, ◌+◌, ◌≤◌, ◌<◌, true, false, none, some, [], ◌∷◌, Text, ◌≡◌, refl, ◌&&◌, ◌==◌,
  if◌then◌else◌, ltb, arith,
}
use ipod_to_ipod.Pod.{Ptr, null, Pod, World, disconnected, present}
use ipod_to_ipod.Libipod.{Libipod, IsStore, KeepsBase, IsAppending}
use ipod_to_ipod.Link.{Heap, at}
use ipod_to_ipod.ListUtils.Matches.{IsMalloc}

-- A track is its index; what it carries is a function of the index and the tag.
pub record Table : Type 0 where
  pub size : ℕ
  pub texts : ℕ → ℕ → Text
  pub numbers : ℕ → ℕ → ℕ

abbrev pub put {ℓ} : {A : Type ℓ} → (ℕ → ℕ → A) → ℕ → ℕ → A → ℕ → ℕ → A
put f t tag v u other = if (u == t) && (other == tag) then v else f u other

abbrev pub table : Libipod
table = record {
  Db = Table;
  Track = ℕ;
  track_count = λ d. d.size;
  get_by_index = λ d i. if ltb i d.size then some i else none;
  get_by_track_id = λ d id. if ltb id d.size then some id else none;
  get_text = λ d t tag. d.texts t tag;
  get_attribute = λ d t tag. d.numbers t tag;
  set_text = λ d t tag s. record d { texts = put d.texts t tag s };
  set_attribute = λ d t tag n. record d { numbers = put d.numbers t tag n };
  track_add = λ d. (record d { size = d.size + 1 }, d.size);
  track_remove = λ d t. d;
  flush = λ d. d;
  base_path = λ d. b'/' ∷ [];
}

pub table-IsStore : IsStore table
table-IsStore = record {
  get_text-set_text = λ d t tag s string. ground arith;
  get_text-set_text_ne = λ d t tag other s ne string string'. ground arith;
  get_attribute-set_text = λ d t tag other s string small. refl;
  get_attribute-set_attribute = λ d e t u tag small. ground arith;
  get_attribute-set_attribute_ne = λ d t tag other n ne small small'. ground arith;
  get_text-set_attribute = λ d t tag other n small string. refl;
}

pub table-KeepsBase : KeepsBase table
table-KeepsBase = record {
  base_path-set_text = λ d t tag s. refl;
  base_path-set_attribute = λ d t tag n. refl;
  base_path-track_add = λ d. refl;
}

pub table-IsAppending : IsAppending table
table-IsAppending = record {
  set_text-Leaves = λ d t tag s. record {
    count = refl;
    indexed = λ i. refl;
    base = refl;
    texts = λ u other ne. ground arith;
    numbers = λ u other ne. refl;
  };
  set_attribute-Leaves = λ d t tag n. record {
    count = refl;
    indexed = λ i. refl;
    base = refl;
    texts = λ u other ne. refl;
    numbers = λ u other ne. ground arith;
  };
  track_add-Grows = λ d. record {
    count = refl;
    earlier = λ i small. ground arith;
    newest = ground arith;
    fresh = λ i small. ground arith;
    base = refl;
    texts = λ u other ne. refl;
    numbers = λ u other ne. refl;
  };
}

-- One more than every address that was ever written.
abbrev pub next_address : {A : Type 0} → Heap A → Ptr
next_address [] = 1
next_address ((p, c) ∷ h) = suc p + next_address h

at_above : {A : Type 0} (h : Heap A) (a : Ptr) → next_address h ≤ a → at h a ≡ none
unfolding at
at_above [] a l = refl
at_above ((p, c) ∷ h) a l = ground (arith, at_above h a)

next_address_pos : {A : Type 0} (h : Heap A) → 0 < next_address h
next_address_pos [] = omega arith
next_address_pos ((p, c) ∷ h) = omega arith

pub next_address-IsMalloc : {A : Type 0} → IsMalloc {A = A} next_address
next_address-IsMalloc h =
    (omega (arith, next_address_pos h), at_above h (next_address h) (omega arith))

-- Two tracks: "a" and "b" by the artist "x".
abbrev pub two_tracks : Table
two_tracks = record {
  size = 2;
  texts = λ t tag. if tag == 4 then b'x' ∷ [] else if t == 0 then b'a' ∷ [] else b'b' ∷ [];
  numbers = λ t tag. if tag == 2000 then t + 7 else 3;
}

-- After `init_podtopod`: the local iPod is open at 1, no remote one is connected.
abbrev pub initial : Pod Table
initial = record {
  rip_status = disconnected;
  remote_ipod = null;
  local_ipod = 1;
  dbs = λ p. if p == 1 then some two_tracks else none;
  mpd_dirty = false;
  rip_music = true;
  automount = true;
  menu = [];
  messages = [];
  commands = [];
}

-- A device that is connected and mounted, whose database opens at 2.
abbrev pub mounted_world : World Table
mounted_world = record {
  connection = present;
  mount_poll = present;
  mount_poll_again = present;
  has_db = true;
  opened = 2;
  opened_db = two_tracks;
}
