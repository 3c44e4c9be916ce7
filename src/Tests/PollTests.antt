-- ===== src/Tests/PollTests.antt =====
-- The polls at small files.
use ipod_to_ipod.Base.{drop, text_eq, ◌≡◌, refl, some, [], ◌∷◌, arith}
use ipod_to_ipod.Pod.{present, misplaced}
use ipod_to_ipod.Transfer.{ok, fault, null_string}
use ipod_to_ipod.Polls.{
  c_string, fgets, poll_mount, mount_line, scsi_line, split_space, after_key, starts_with,
  check_kernel_module, module_lines,
}
use ipod_to_ipod.Polls.Mounts.{Mount, IsMount, mounts, mount_of, poll_mount-mounts}

-- "a / x" and "b / x"
abbrev root : Mount
root = record { device = b'a' ∷ []; mountpoint = b'/' ∷ []; others = b'x' ∷ [] }

abbrev second : Mount
second = record (root) { device = b'b' ∷ [] }

root-IsMount : IsMount root
root-IsMount = record {
  device_clean = (ground arith, tt);
  mountpoint_clean = (ground arith, tt);
  others_clean = (ground arith, tt);
  fits = omega arith;
}

second-IsMount : IsMount second
second-IsMount = record {
  device_clean = (ground arith, tt);
  mountpoint_clean = (ground arith, tt);
  others_clean = (ground arith, tt);
  fits = omega arith;
}

poll_mount-mounts_example :
    poll_mount 3 (some (mounts (root ∷ second ∷ []))) (b'b' ∷ []) (b'm' ∷ []) ≡ some (ok misplaced)
unfolding mount_of text_eq
poll_mount-mounts_example =
    poll_mount-mounts 3 (root ∷ second ∷ []) (b'b' ∷ []) (b'm' ∷ [])
      (root-IsMount, (second-IsMount, tt)) (omega arith)

-- A line with a single space stops the program.
one_space : mount_line (b'a' ∷ []) (b'/' ∷ []) (b'a' ∷ b' ' ∷ b'/' ∷ []) ≡ fault null_string
unfolding mount_line split_space
one_space = refl

-- "Vendor: Apple Model: iPod"
scsi_line_ipod :
    scsi_line (
      b'V' ∷ b'e' ∷ b'n' ∷ b'd' ∷ b'o' ∷ b'r' ∷ b':' ∷ b' ' ∷ b'A' ∷ b'p' ∷ b'p' ∷ b'l' ∷ b'e'
      ∷ b' ' ∷ b'M' ∷ b'o' ∷ b'd' ∷ b'e' ∷ b'l' ∷ b':' ∷ b' ' ∷ b'i' ∷ b'P' ∷ b'o' ∷ b'd' ∷ [])
    ≡ ok present
unfolding scsi_line after_key starts_with drop
scsi_line_ipod = refl

-- Another module whose name begins alike counts for the one that is asked for.
sbp2_other :
    check_kernel_module 3
      (some (b'M' ∷ b'\n' ∷ b's' ∷ b'b' ∷ b'p' ∷ b'2' ∷ b'x' ∷ b'\n' ∷ []))
      (b's' ∷ b'b' ∷ b'p' ∷ b'2' ∷ [])
    ≡ some present
unfolding check_kernel_module module_lines fgets c_string starts_with
sbp2_other = refl
