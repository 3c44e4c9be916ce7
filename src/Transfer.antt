-- ===== src/Transfer.antt =====
-- The state of transfer.c: the list of items, the copy in progress, and what the outside answers.
-- The handlers are in the children: `Queue` builds the list, `Attributes` fills the new track, `Start`
-- and `Copy` have the copy and the timer handler, `Widget` the window and its events, `Progress` its
-- drawing. `Steps`, `Finish`, `Adds` and `Run` are about the runs in which nothing fails, `Closed`,
-- `Refusals`, `Aborts`, `Unplugged` and `Stranded` about others, `Done` and `Session` about all.
pub mod Aborts
pub mod Adds
pub mod Attributes
pub mod Closed
pub mod Copy
pub mod Done
pub mod Finish
pub mod Outcomes
pub mod Progress
pub mod Queue
pub mod Refusals
pub mod Run
pub mod Session
pub mod Start
pub mod Steps
pub mod Stranded
pub mod Unplugged
pub mod Widget
use ipod_to_ipod.Base.{ℕ, Bool, Option, List, [], Text, ◌^◌, ◌%◌}
use ipod_to_ipod.Pod.{Ptr, Pod}
use ipod_to_ipod.Libipod.{Libipod}

-- Where the program's behaviour is undefined: the use of a pointer, a stream or a string that is
-- `NULL` or dangling, a second `free`, a write past the end of a buffer.
pub data Fault : Type 0 where
  no_current_file no_stream bad_buffer double_free overflow : Fault
  freed_ipod dangling_string null_string divided_by_zero unset_buffer no_directory : Fault

pub data Outcome (A : Type 0) : Type 0 where
  ok : A → Outcome A
  fault : Fault → Outcome A

infixl 5 ◌>>=◌
abbrev pub ◌>>=◌ : {A B : Type 0} → Outcome A → (A → Outcome B) → Outcome B
ok a >>= f = f a
fault e >>= f = fault e

-- `unsigned long` on the 32-bit iPod.
abbrev pub ulong : ℕ → ℕ
ulong n = n % 2 ^ 32

-- BUFFER_SIZE
abbrev pub buffer_size : ℕ
buffer_size = 65536

-- The bytes that `dst_filename` of a track has room for.
abbrev pub filename_room : ℕ
filename_room = 256

pub data Buffer : Type 0 where
  none_yet allocated freed : Buffer

-- The messages given to `pz_error` by transfer.c.
pub data Message : Type 0 where
  no_source_track no_transfer_buffer cannot_stat already_has_dst no_dst cannot_read cannot_write
        zero_bytes_read short_write src_ipod_not_set :
      Message

-- `transfer_item`; `dst_filename` of a track is set when its copy starts.
pub record Item (Track : Type 0) : Type 0 where
  pub src_filename : Text
  pub dst_filename : Option Text
  pub filesize : ℕ
  pub src_track : Option Track
  pub dst_location : Option Text

-- What the outside answers while one handler runs.
pub record Io : Type 0 where
  -- what `stat` and `fopen` find under a name
  pub stat_ok : Text → Bool
  pub source : Text → Option (List ℕ)
  pub can_write : Text → Bool
  -- the most bytes that `fread` and `fwrite` handle
  pub readable : ℕ
  pub accepted : ℕ
  -- what `ipod_unique_track_location_wrapper` returns
  pub location : Text
  -- whether growing a string for the text of a tag moves it
  pub moves : ℕ → Bool

module _ (lib : Libipod) where
  open lib use {Db, Track}

  pub record Transfer : Type 0 where
    pub pod : Pod Db
    -- the list from `trans_list_head` on: the nodes before `cur_file`, and those from it on; where
    -- the second is empty, `cur_file` is `NULL`
    pub passed : List (Item Track)
    pub cur_file : List (Item Track)
    pub src_ipod : Ptr
    pub dst_ipod : Ptr
    pub total_files : ℕ
    pub total_bytes : ℕ
    pub total_files_transferred : ℕ
    pub total_bytes_transferred : ℕ
    pub file_bytes_transferred : ℕ
    pub dst_ipod_dirty : Bool
    -- the bytes that are still unread, and the name and the bytes of the file being written
    pub src_file : Option (List ℕ)
    pub dst_file : Option (Text × List ℕ)
    pub buffer : Buffer
    -- whether the timer of the transfer widget is set
    pub timer : Bool
    -- whether the transfer window is on the screen
    pub window : Bool
    -- newest first: the streams closed after writing, with their name and the bytes that `fwrite`
    -- took. This is not the file system: whether `fclose` brings those bytes there, the code does not
    -- ask, and a later stream of the same name truncates the file.
    pub written : List (Text × List ℕ)
    -- newest first: the tracks given to `ipod_track_free`
    pub freed_tracks : List Track
    pub messages : List Message
