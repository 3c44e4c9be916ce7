-- ===== src/Transfer/Closed.antt =====
-- The ticks that find or leave no stream to read from: they end in a fault.
use ipod_to_ipod.Base.{ℕ, Option, none, List, Text, ◌≡◌, refl, ap, ◌∙◌}
use ipod_to_ipod.Libipod.{Libipod}
use ipod_to_ipod.Transfer.{
  Fault, Outcome, ok, fault, ◌>>=◌, no_stream, bad_buffer, allocated, freed, none_yet, Buffer,
  cannot_read, Io, Transfer,
}
use ipod_to_ipod.Transfer.Start.{
  open_files, transfer_finished, abort_transfer, complain, free_buffer, flush_dst,
}
use ipod_to_ipod.Transfer.Copy.{do_copy, copy_bytes, finish_if_copied, finish_if_done}
use ipod_to_ipod.Transfer.Steps.{advance}

-- An outcome that is a fault.
abbrev pub Faults : {A : Type 0} → Outcome A → Type 0
Faults m = (e : Fault) × (m ≡ fault e)

module _ (lib : Libipod) where
  open lib use {Db, Track}

  -- A copy from a stream that is not open stops the program.
  copy_bytes-closed :
      (io : Io) (b : Buffer) (dst : Option (Text × List ℕ)) (s : Transfer lib)
      → Faults (copy_bytes lib io b none dst s)
  unfolding copy_bytes
  copy_bytes-closed io none_yet dst s = (bad_buffer, refl)
  copy_bytes-closed io allocated dst s = (no_stream, refl)
  copy_bytes-closed io freed dst s = (bad_buffer, refl)

  advance-closed : (io : Io) (s : Transfer lib) → s.src_file ≡ none → Faults (advance lib io s)
  unfolding do_copy
  advance-closed io s closed =
      let (e, eq) = copy_bytes-closed io s.buffer s.dst_file s in
      (
        e,
        ap
              (λ src. copy_bytes lib io s.buffer src s.dst_file s >>= λ copied.
                finish_if_copied lib io copied.cur_file copied >>= λ finished.
                finish_if_done lib finished.cur_file finished)
              closed
            ∙ ap
                (λ m. m >>= λ copied. finish_if_copied lib io copied.cur_file copied >>= λ finished.
                  finish_if_done lib finished.cur_file finished)
                eq,
      )

  -- An outcome whose state, if there is one, has no source file open.
  abbrev pub Closed : Outcome (Transfer lib) → Type 0
  Closed (ok s) = s.src_file ≡ none
  Closed (fault e) = Unit

  Closed->>= :
      {A : Type 0} (m : Outcome A) (f : A → Outcome (Transfer lib))
      → ((a : A) → Closed (f a))
      → Closed (m >>= f)
  Closed->>= (ok a) f closed = closed a
  Closed->>= (fault e) f closed = tt

  pub advance-Closed :
      (io : Io) (m : Outcome (Transfer lib)) → Closed m → Faults (m >>= advance lib io)
  advance-Closed io (ok s) closed = advance-closed io s closed
  advance-Closed io (fault e) closed = (e, refl)

  pub abort_transfer-Closed : (s : Transfer lib) → Closed (abort_transfer lib s)
  unfolding abort_transfer transfer_finished
  abort_transfer-Closed s =
      Closed->>= (free_buffer s.buffer) (λ b. _)
        (λ b. Closed->>= (flush_dst lib s.dst_ipod_dirty s.dst_ipod s.pod) (λ p. _) (λ p. refl))

  -- A file that cannot be read, and an item with no name.
  pub open_files-Closed :
      (io : Io) (src dst : Text) (s : Transfer lib)
      → io.source src ≡ none
      → Closed (open_files lib io src dst s)
  unfolding open_files
  open_files-Closed io src dst s missing =
      rw (missing, Closed)
        (abort_transfer-Closed (complain lib cannot_read (record s { src_file = none })))
