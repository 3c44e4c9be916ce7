-- ===== src/Transfer/Done/Runs.antt =====
-- Runs of the timer in which anything may fail.
use ipod_to_ipod.Base.{ℕ, zero, suc, true, none, ◌≡◌, refl, All}
use ipod_to_ipod.Libipod.{Libipod}
use ipod_to_ipod.Transfer.{ok, Io, Transfer}
use ipod_to_ipod.Transfer.Outcomes.{Partly, safe, Post-bind, Post-if, Post-ok}
use ipod_to_ipod.Transfer.Start.{start_copy}
use ipod_to_ipod.Transfer.Widget.{new_transfer_window}
use ipod_to_ipod.Transfer.Run.{run}
use ipod_to_ipod.Transfer.Done.{Done, Streams, shut, is_open, stopped, Honest}
use ipod_to_ipod.Transfer.Done.Copies.{Ticking, before, during}
use ipod_to_ipod.Transfer.Done.Ticks.{tick-Streams}

module _ (lib : Libipod) (ios : ℕ → Io) where
  Streams-Ticking : (s : Transfer lib) → s.timer ≡ true → Streams lib ios s → Ticking lib ios s
  Streams-Ticking s on (shut sh) = before sh
  Streams-Ticking s on (is_open o) = during o
  Streams-Ticking s on (stopped st) = absurd (cc (on, st.timer_off))

  run-Streams :
      (k n : ℕ) (s : Transfer lib)
      → Honest lib ios (Streams lib ios) s
      → Partly (Honest lib ios (Streams lib ios)) (run lib ios k n s)
  unfolding run
  run-Streams k zero s h = safe h
  run-Streams k (suc n) s h =
      Post-if s.timer
        (λ on.
          Post-bind (tick-Streams lib ios k s h.all (Streams-Ticking s on h.rest))
            (λ t g. run-Streams (suc k) n t g))
        (λ off. safe h)

  -- Whatever stat, fopen, fread and fwrite answer at each tick (files that are missing or cannot be
  -- written, reads and writes that are cut short, any location): when the transfer window opens on a
  -- list with a buffer and with no stream open, and after any number of ticks of its timer there was
  -- no fault, then every item before `cur_file` has a stream under its destination's name that was
  -- closed, and to which `fwrite` took the first bytes of what the item's source file had when it was
  -- opened, as many of them, modulo 2^32, as the item's `filesize`. The result of `fclose`, which the
  -- code does not test, and a later stream of the same name are outside the statement.
  pub run-Done :
      (s t : Transfer lib) (rounds : ℕ)
      → s.src_file ≡ none
      → s.dst_file ≡ none
      → run lib ios 0 rounds (new_transfer_window lib true s) ≡ ok t
      → All (Done lib ios t.written) t.passed
  unfolding new_transfer_window start_copy
  run-Done s t rounds src dst e =
      let start : Honest lib ios (Streams lib ios) (new_transfer_window lib true s) = record {
        all = record { done = tt };
        rest = shut (record { src = src; dst = dst; none_counted = refl });
      } in
      (Post-ok e (run-Streams 0 rounds (new_transfer_window lib true s) start)).all.done
