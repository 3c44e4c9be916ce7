-- ===== src/Browser.antt =====
-- The action that podtopod.c adds to the file browser: browser_transfer and its predicate.
pub mod Paths
use ipod_to_ipod.Base.{
  ℕ, ◌+◌, Bool, true, false, Option, none, some, [], ◌∷◌, ◌++◌, ◌&&◌, not, Text, length, ltb,
  text_eq, ◌==◌, if◌then◌else◌,
}
use ipod_to_ipod.Pod.{Status, mounted, Pod}
use ipod_to_ipod.Transfer.{Outcome, ok, fault, ◌>>=◌, null_string, overflow}
use ipod_to_ipod.Actions.{Reply, do_nothing, rip_mountpoint}

-- `rip_status == STATUS_MOUNTED`
abbrev pub status_is_mounted : Status → Bool
status_is_mounted mounted = true
status_is_mounted _ = false

unfoldable pub browser_transfer_predicate : {Db : Type 0} → Pod Db → Bool
browser_transfer_predicate s = status_is_mounted s.rip_status

-- `PATHSIZ`
abbrev pub path_room : ℕ
path_room = 512

-- The last byte, of a text that has one.
unfoldable pub last_byte : Text → Option ℕ
last_byte [] = none
last_byte (c ∷ s) = let rest = last_byte s in elim s [ [] ↦ some c | d ∷ s' ↦ rest ]

-- `strcat`: the bytes and the NUL have to fit.
unfoldable pub strcat : Text → Text → Outcome Text
strcat buf s = if ltb (length buf + length s) path_room then ok (buf ++ s) else fault overflow

-- `full_path[strlen(full_path)-1] != '/'`
unfoldable pub add_slash : Text → Outcome Text
unfolding last_byte strcat
add_slash dir = elim (last_byte dir) [
  | none ↦ fault overflow
  | some c ↦ if c == b'/' then ok dir else strcat dir (b'/' ∷ [])
]

-- The reply; the path and `remote_src`, which are computed and not used; and whether the message
-- "File transferring not yet enabled" is given. `cwd` is what `getcwd` writes, if it fits.
unfoldable pub browser_transfer :
    (cwd : Option Text) → Status → Option Text → Outcome (Reply × Option (Text × Bool) × Bool)
unfolding add_slash strcat text_eq
browser_transfer cwd st none = ok (do_nothing, none, false)
browser_transfer none st (some name) = fault null_string
browser_transfer (some dir) st (some name) = add_slash dir >>= λ slashed.
    strcat slashed name >>= λ full_path. ok (
      do_nothing,
      some (full_path, not (text_eq full_path rip_mountpoint) && status_is_mounted st),
      true,
    )
