-- ===== src/Polls/Sysfs.antt =====
-- `poll_connection` of connect.c as built for a desktop: the devices under SCSI_DIRNAME in sysfs.
pub mod Accepts
use ipod_to_ipod.Base.{
  ℕ, Bool, true, false, Option, none, some, List, [], ◌∷◌, Text, ◌&&◌, ◌==◌, if◌then◌else◌,
}
use ipod_to_ipod.Pod.{Poll, absent, present}
use ipod_to_ipod.Transfer.{Outcome, ok, fault, ◌>>=◌, overflow, unset_buffer, no_directory}
use ipod_to_ipod.Polls.{fgets, c_string, starts_with, accepted_vendor, accepted_model}

-- An entry of the directory, with the bytes of its files `model` and `vendor`, if `fopen` opens them.
pub record Device : Type 0 where
  pub d_name : Text
  pub model : Option (List ℕ)
  pub vendor : Option (List ℕ)

-- A newline at the end is cut off.
unfoldable pub chomp : Text → Text
chomp [] = []
chomp (c ∷ s) =
    let rest = chomp s in elim s [ [] ↦ if c == b'\n' then [] else c ∷ [] | d ∷ s' ↦ c ∷ rest ]

-- `fgets(model, 64, file)` and the cut: nothing is read from an empty file, and the byte before the
-- end of an empty string lies outside the buffer.
unfoldable pub attribute : List ℕ → Outcome Text
unfolding fgets c_string chomp
attribute [] = fault unset_buffer
attribute (c ∷ file) = elim (c_string (fgets 63 (c ∷ file)).0) [
  | [] ↦ fault overflow
  | d ∷ s ↦ ok (chomp (d ∷ s))
]

-- The rest of the loop's body, once both lines are read.
unfoldable pub if_accepted : Text → Text → Outcome Poll → Outcome Poll
if_accepted model vendor rest =
    if starts_with model accepted_model && starts_with vendor accepted_vendor
    then ok present
    else rest

-- `while ((subdir = readdir(dir)))`
unfoldable pub poll_devices : List Device → Outcome Poll
unfolding attribute if_accepted starts_with
poll_devices [] = ok absent
poll_devices (subdir ∷ devices) =
    let rest = poll_devices devices in
    if starts_with subdir.d_name (b'.' ∷ []) then rest else elim subdir.model [
      | none ↦ rest
      | some file ↦ attribute file >>= λ model. elim subdir.vendor [
        | none ↦ rest
        | some file' ↦ attribute file' >>= λ vendor. if_accepted model vendor rest
      ]
    ]

-- `none` is a directory that `opendir` does not open; it is not checked.
unfoldable pub poll_connection : Option (List Device) → Outcome Poll
unfolding poll_devices
poll_connection none = fault no_directory
poll_connection (some devices) = poll_devices devices
