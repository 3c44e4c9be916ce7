-- ===== src/Transfer/Session/Ticks.antt =====
-- A tick of the timer keeps the invariant of the transfer window, and frees nothing twice.
use mathlib.Core.Path.{subst}
use ipod_to_ipod.Base.{
  Bool-cases, inl, inr, ap, sym, ◌∙◌, ℕ, Bool, true, false, Option, none, some, List, [], ◌∷◌, ◌++◌,
  Text, length, ◌≡◌, refl, arith, ◌==◌, is_some, length-append,
}
use ipod_to_ipod.Pod.{Ptr, Pod}
use ipod_to_ipod.Libipod.{Libipod}
use ipod_to_ipod.Transfer.{Item, Io, Transfer}
use ipod_to_ipod.Transfer.Outcomes.{
  Safe, safe, faulty, Post-bind, Post-weaken, Post-if, Post-option,
}
use ipod_to_ipod.Transfer.Copy.{
  add_copy, finish_track, close_files, finish_file, finish_if_done, finish_if_copied,
  transfer_widget_timer_handler,
}
use ipod_to_ipod.Transfer.Run.{sizes}
use ipod_to_ipod.Transfer.Attributes.{
  text_tags, copy_text_attribute, copy_texts, copy_track_attributes,
}
use ipod_to_ipod.Transfer.Session.{IsSound, was_freed}
use ipod_to_ipod.Transfer.Session.Keeps.{is_cons, sizes-append, AtWork, transfer_finished-Safe}
use ipod_to_ipod.Transfer.Session.Copies.{start_if_unnamed-Safe, do_copy-Safe}

module _ (lib : Libipod) where
  open lib use {Db, Track}

  -- The end of a tick: a file is at hand, or the buffer is there to be freed.
  record Ending (t : Transfer lib) : Type 0 where
    sound : IsSound lib t
    left : was_freed t.buffer ≡ true → is_cons t.cur_file ≡ true

  copy_texts-Safe :
      (moves : ℕ → Bool) (src : Db) (t u : Track) (tags : List ℕ) (dst : Db)
      → Safe (λ d. Unit) (copy_texts lib moves src t u tags dst)
  unfolding copy_texts copy_text_attribute
  copy_texts-Safe moves src t u [] dst = safe tt
  copy_texts-Safe moves src t u (tag ∷ tags) dst =
      Post-bind (Post-if {P = λ d. Unit} (moves tag) (λ h. faulty refl) (λ h. safe tt))
        (λ d x. copy_texts-Safe moves src t u tags d)

  add_copy-Safe :
      (io : Io) (src : Db) (t : Track) (location : Text) (dst : Db)
      → Safe (λ d. Unit) (add_copy lib io src t location dst)
  unfolding add_copy copy_track_attributes
  add_copy-Safe io src t location dst =
      Post-bind
        (Post-bind {Q = λ d. Unit}
          (copy_texts-Safe io.moves src t (lib.track_add dst).1 text_tags (lib.track_add dst).0)
          (λ d x. safe tt))
        (λ d x. safe tt)

  finish_track-Safe :
      (io : Io) (src dst : Ptr) (track : Option Track) (location : Text) (p : Pod Db)
      → Safe (λ q. q.rip_status ≡ p.rip_status) (finish_track lib io src dst track location p)
  unfolding finish_track
  finish_track-Safe io src dst none location p = safe refl
  finish_track-Safe io src dst (some t) location p =
      Post-option (p.dbs src) (λ e. faulty refl)
        (λ s e.
          Post-option (p.dbs dst) (λ e. faulty refl)
            (λ d e. Post-bind (add_copy-Safe io s t location d) (λ d' x. safe refl)))

  close_files-Safe :
      (src : Option (List ℕ)) (dst : Option (Text × List ℕ)) (s : Transfer lib)
      → Safe
          (λ t.
            (is_some src ≡ true)
            × (w : List (Text × List ℕ)) × (record s {
              src_file = none;
              dst_file = none;
              written = w;
            }
                ≡ t))
          (close_files lib src dst s)
  unfolding close_files
  close_files-Safe none dst s = faulty refl
  close_files-Safe (some unread) none s = faulty refl
  close_files-Safe (some unread) (some f) s = safe (refl, f ∷ s.written, refl)

  open-there :
      (s : Transfer lib) → IsSound lib s → is_some s.src_file ≡ true → was_freed s.buffer ≡ false
  open-there s i opened = elim (Bool-cases (was_freed s.buffer)) [
    | inl gone ↦ let closed = i.closed gone in absurd (ground (arith, closed.0, opened))
    | inr there ↦ there
  ]

  -- The file at hand has been copied: it is counted, and the next one is at hand.
  finish_file-Safe :
      (io : Io) (item : Item Track) (items : List (Item Track)) (s : Transfer lib)
      → s.cur_file ≡ item ∷ items
      → item.filesize ≡ s.file_bytes_transferred
      → IsSound lib s
      → Safe Ending (finish_file lib io item items s)
  unfolding finish_file sizes
  finish_file-Safe io item items s at_hand whole i =
      Post-bind (finish_track-Safe io s.src_ipod s.dst_ipod item.src_track _ s.pod) (λ p same.
        Post-bind (close_files-Safe s.src_file s.dst_file _) (λ t h.
          let (opened, w, e) = h in
          let there : was_freed s.buffer ≡ false = open-there s i opened in
          safe (
            subst
              (λ u. Ending (record u {
                passed = s.passed ++ item ∷ [];
                cur_file = items;
                file_bytes_transferred = 0;
              }))
              e
              (record {
                sound = record {
                  files = omega (
                    arith,
                    i.files,
                    length-append s.passed (item ∷ []),
                    ap (λ l. length l) at_hand,
                  );
                  bytes = omega (
                    arith,
                    i.bytes,
                    sizes-append lib s.passed (item ∷ []),
                    ap (λ l. sizes lib l) at_hand,
                  );
                  busy = λ b. i.busy (sym same ∙ b);
                  timed = i.timed;
                  closed = λ f. absurd (cc (f, there));
                  files_done =
                      λ o a. omega (arith, i.files_done o a, length-append s.passed (item ∷ []));
                  bytes_done = λ o a.
                      omega (arith, i.bytes_done o a, sizes-append lib s.passed (item ∷ []), whole);
                };
                left = λ f. absurd (cc (f, there));
              }))))

  finish_if_copied-Safe :
      (io : Io) (items : List (Item Track)) (s : Transfer lib)
      → s.cur_file ≡ items
      → AtWork lib s
      → Safe Ending (finish_if_copied lib io items s)
  unfolding finish_if_copied
  finish_if_copied-Safe io [] s at_hand w = faulty refl
  finish_if_copied-Safe io (item ∷ items) s at_hand w =
      Post-if (item.filesize == s.file_bytes_transferred)
        (λ h. finish_file-Safe io item items s at_hand (ground arith) w.sound)
        (λ h. safe (record { sound = w.sound; left = λ f. w.busy }))

  finish_if_done-Safe :
      (items : List (Item Track)) (s : Transfer lib)
      → s.cur_file ≡ items
      → Ending s
      → Safe (IsSound lib) (finish_if_done lib items s)
  unfolding finish_if_done
  finish_if_done-Safe [] s at_hand e = elim (Bool-cases (was_freed s.buffer)) [
    | inl gone ↦ absurd (ground (arith, e.left gone, ap is_cons at_hand))
    | inr there ↦ Post-weaken (transfer_finished-Safe lib s there e.sound) (λ t st. st.sound)
  ]
  finish_if_done-Safe (item ∷ items) s at_hand e = safe e.sound

  -- A tick on a buffer that has not been freed.
  pub transfer_widget_timer_handler-Safe :
      (io : Io) (s : Transfer lib)
      → was_freed s.buffer ≡ false
      → IsSound lib s
      → Safe (IsSound lib) (transfer_widget_timer_handler lib io s)
  unfolding transfer_widget_timer_handler
  transfer_widget_timer_handler-Safe io s there i =
      Post-bind (start_if_unnamed-Safe lib io s.cur_file s refl there i) (λ started w.
        Post-bind (do_copy-Safe lib io started w) (λ copied w'.
          Post-bind (finish_if_copied-Safe io copied.cur_file copied refl w')
            (λ finished e. finish_if_done-Safe finished.cur_file finished refl e)))
