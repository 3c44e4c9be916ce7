-- ===== src/Transfer/Session/Keeps.antt =====
-- The end of a transfer keeps the invariant of the transfer window, and frees nothing twice.
use ipod_to_ipod.Base.{ap, sym, ◌∙◌, ◌+◌, Bool, true, false, List, [], ◌∷◌, ◌++◌, ◌≡◌, refl, arith}
use ipod_to_ipod.Pod.{Ptr, Pod}
use ipod_to_ipod.Libipod.{Libipod}
use ipod_to_ipod.Transfer.{Message, Buffer, none_yet, allocated, freed, Item, Transfer}
use ipod_to_ipod.Transfer.Outcomes.{Safe, safe, faulty, Post-bind, Post-weaken, Post-option}
use ipod_to_ipod.Transfer.Start.{
  complain, free_buffer, flush_dst, transfer_finished, abort_transfer,
}
use ipod_to_ipod.Transfer.Run.{sizes}
use ipod_to_ipod.Transfer.Session.{IsSound, was_allocated, was_freed}

free_buffer-Safe :
    (b : Buffer)
    → was_freed b ≡ false
    → Safe (λ c. was_allocated c ≡ was_allocated b) (free_buffer b)
unfolding free_buffer
free_buffer-Safe none_yet h = safe refl
free_buffer-Safe allocated h = safe refl
free_buffer-Safe freed h = absurd (cc h)

abbrev pub is_cons : {A : Type 0} → List A → Bool
is_cons [] = false
is_cons (x ∷ xs) = true

module _ (lib : Libipod) where
  open lib use {Db, Track}

  pub sizes-append :
      (xs ys : List (Item Track)) → sizes lib (xs ++ ys) ≡ sizes lib xs + sizes lib ys
  unfolding sizes
  sizes-append [] ys = omega arith
  sizes-append (x ∷ xs) ys = omega (arith, sizes-append xs ys)

  flush_dst-Safe :
      (dirty : Bool) (dst : Ptr) (p : Pod Db) → Safe (λ q. Unit) (flush_dst lib dirty dst p)
  unfolding flush_dst
  flush_dst-Safe false dst p = safe tt
  flush_dst-Safe true dst p = Post-option (p.dbs dst) (λ e. faulty refl) (λ d e. safe tt)

  -- A state with the invariant and the file at hand of another.
  pub record Stays (s t : Transfer lib) : Type 0 where
    pub sound : IsSound lib t
    pub at_hand : t.cur_file ≡ s.cur_file

  -- The end of a transfer, by itself or by an abort.
  pub transfer_finished-Safe :
      (s : Transfer lib)
      → was_freed s.buffer ≡ false
      → IsSound lib s
      → Safe (Stays s) (transfer_finished lib s)
  unfolding transfer_finished
  transfer_finished-Safe s there i = Post-bind (free_buffer-Safe s.buffer there) (λ b same.
      Post-bind (flush_dst-Safe s.dst_ipod_dirty s.dst_ipod s.pod) (λ p u. safe (record {
        sound = record {
          files = i.files;
          bytes = i.bytes;
          busy = λ h. absurd (cc h);
          timed = λ w h. absurd (cc h);
          closed = λ h. (refl, refl);
          files_done = λ w h. i.files_done w (sym same ∙ h);
          bytes_done = λ w h. i.bytes_done w (sym same ∙ h);
        };
        at_hand = refl;
      })))

  pub complain-IsSound :
      (m : Message) (s : Transfer lib) → IsSound lib s → IsSound lib (complain lib m s)
  unfolding complain
  complain-IsSound m s i = record {
    files = i.files;
    bytes = i.bytes;
    busy = i.busy;
    timed = i.timed;
    closed = i.closed;
    files_done = i.files_done;
    bytes_done = i.bytes_done;
  }

  pub abort_transfer-Safe :
      (m : Message) (s : Transfer lib)
      → was_freed s.buffer ≡ false
      → IsSound lib s
      → Safe (Stays s) (abort_transfer lib (complain lib m s))
  unfolding abort_transfer complain
  abort_transfer-Safe m s there i =
      Post-weaken (transfer_finished-Safe (complain lib m s) there (complain-IsSound m s i))
        (λ t st. record { sound = st.sound; at_hand = st.at_hand })

  -- A state with the invariant and a file at hand.
  pub record AtWork (t : Transfer lib) : Type 0 where
    pub sound : IsSound lib t
    pub busy : is_cons t.cur_file ≡ true

  Stays-AtWork : (s t : Transfer lib) → is_cons s.cur_file ≡ true → Stays s t → AtWork t
  Stays-AtWork s t busy st = record { sound = st.sound; busy = ap is_cons st.at_hand ∙ busy }

  pub abort-AtWork :
      (m : Message) (s : Transfer lib)
      → was_freed s.buffer ≡ false
      → AtWork s
      → Safe AtWork (abort_transfer lib (complain lib m s))
  abort-AtWork m s there w =
      Post-weaken (abort_transfer-Safe m s there w.sound) (λ t. Stays-AtWork s t w.busy)
