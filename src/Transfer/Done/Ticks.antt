-- ===== src/Transfer/Done/Ticks.antt =====
-- A tick of the timer in which anything may fail.
use mathlib.Core.Path.{subst}
use mathlib.Core.List.{mem-cons_self}
use ipod_to_ipod.Base.{
  ℕ, ap, sym, ◌∙◌, true, Option, none, some, List, [], ◌∷◌, ◌++◌, Text, ◌≡◌, refl, arith, ◌==◌,
  All-append, is_some,
}
use ipod_to_ipod.Libipod.{Libipod}
use ipod_to_ipod.Transfer.{Item, Io, Transfer}
use ipod_to_ipod.Transfer.Outcomes.{any, Partly, safe, faulty, Post-bind, Post-weaken, Post-if}
use ipod_to_ipod.Transfer.Start.{close_dst}
use ipod_to_ipod.Transfer.Copy.{
  finish_track, close_files, finish_file, finish_if_copied, finish_if_done,
  transfer_widget_timer_handler,
}
use ipod_to_ipod.Transfer.Done.{
  Begun, Done, AllDone, Open, Streams, shut, is_open, stopped, Honest, Done-close_dst,
  transfer_finished-Stopped,
}
use ipod_to_ipod.Transfer.Done.Copies.{Ticking, start_if_unnamed-Started, do_copy-Streams}

module _ (lib : Libipod) (ios : ℕ → Io) where
  open lib use {Db, Track}

  Streams-Open : (s : Transfer lib) → is_some s.src_file ≡ true → Streams lib ios s → Open lib ios s
  Streams-Open s opened (shut sh) = absurd (cc (opened, ap is_some sh.src))
  Streams-Open s opened (is_open o) = o
  Streams-Open s opened (stopped st) = absurd (cc (opened, ap is_some st.src))

  close_files-closed :
      (src : Option (List ℕ)) (dst : Option (Text × List ℕ)) (s : Transfer lib)
      → Partly
          (λ t.
            (is_some src ≡ true)
            × (f : Text × List ℕ) × (dst ≡ some f)
            × (record s { src_file = none; dst_file = none; written = f ∷ s.written } ≡ t))
          (close_files lib src dst s)
  unfolding close_files
  close_files-closed none dst s = faulty refl
  close_files-closed (some unread) none s = faulty refl
  close_files-closed (some unread) (some f) s = safe (refl, f, refl, refl)

  -- The item whose copy is complete is done once its file is closed.
  Open-Done :
      (s : Transfer lib) (o : Open lib ios s) (item : Item Track) (items : List (Item Track))
      (f : Text × List ℕ)
      → s.cur_file ≡ item ∷ items
      → s.dst_file ≡ some f
      → item.filesize ≡ s.file_bytes_transferred
      → Done lib ios (f ∷ s.written) item
  Open-Done s o item items f at_hand dst whole =
      let same_item : o.item ≡ item = cc (at_hand, o.at_hand) in
      let same_file : o.f ≡ f = cc (dst, o.dst) in
      subst (λ g. Done lib ios (g ∷ s.written) item) same_file
        (record {
          f = o.f;
          unread = o.unread;
          is_written = mem-cons_self;
          begun = subst (λ i. Begun lib ios i o.unread o.f) same_item o.begun;
          whole = o.counted ∙ sym whole;
        })

  -- The file at hand is finished only if it is open; then it is done.
  finish_file-Streams :
      (io : Io) (item : Item Track) (items : List (Item Track)) (s : Transfer lib)
      → s.cur_file ≡ item ∷ items
      → item.filesize ≡ s.file_bytes_transferred
      → Honest lib ios (Streams lib ios) s
      → Partly (Honest lib ios (Streams lib ios)) (finish_file lib io item items s)
  unfolding finish_file close_dst
  finish_file-Streams io item items s at_hand whole h =
      Post-bind (any (finish_track lib io s.src_ipod s.dst_ipod item.src_track _ s.pod)) (λ p u.
        Post-bind (close_files-closed s.src_file s.dst_file _) (λ t c.
          let (opened, f, dst, e) = c in
          let done = Open-Done s (Streams-Open s opened h.rest) item items f at_hand dst whole in
          safe (
            subst
              (λ v. Honest lib ios (Streams lib ios) (record v {
                passed = s.passed ++ item ∷ [];
                cur_file = items;
                file_bytes_transferred = 0;
              }))
              e
              (record {
                all = record {
                  done =
                      All-append (Done lib ios (f ∷ s.written)) s.passed (item ∷ [])
                        (Done-close_dst lib ios (some f) s.written s.passed h.all.done) (done, tt);
                };
                rest = shut (record { src = refl; dst = refl; none_counted = refl });
              }))))

  finish_if_copied-Streams :
      (io : Io) (items : List (Item Track)) (s : Transfer lib)
      → s.cur_file ≡ items
      → Honest lib ios (Streams lib ios) s
      → Partly (Honest lib ios (Streams lib ios)) (finish_if_copied lib io items s)
  unfolding finish_if_copied
  finish_if_copied-Streams io [] s at_hand h = faulty refl
  finish_if_copied-Streams io (item ∷ items) s at_hand h =
      Post-if (item.filesize == s.file_bytes_transferred)
        (λ e. finish_file-Streams io item items s at_hand (ground arith) h) (λ e. safe h)

  finish_if_done-Streams :
      (items : List (Item Track)) (s : Transfer lib)
      → Honest lib ios (Streams lib ios) s
      → Partly (Honest lib ios (Streams lib ios)) (finish_if_done lib items s)
  unfolding finish_if_done
  finish_if_done-Streams [] s h =
      Post-weaken (transfer_finished-Stopped lib ios s h.all)
        (λ t g. record { all = g.all; rest = stopped g.rest })
  finish_if_done-Streams (item ∷ items) s h = safe h

  pub tick-Streams :
      (k : ℕ) (s : Transfer lib)
      → AllDone lib ios s
      → Ticking lib ios s
      → Partly (Honest lib ios (Streams lib ios)) (transfer_widget_timer_handler lib (ios k) s)
  unfolding transfer_widget_timer_handler
  tick-Streams k s all ticking =
      Post-bind (start_if_unnamed-Started lib ios k s.cur_file s refl all ticking) (λ started h.
        Post-bind (do_copy-Streams lib ios (ios k) started h) (λ copied h'.
          Post-bind (finish_if_copied-Streams (ios k) copied.cur_file copied refl h')
            (λ finished h''. finish_if_done-Streams finished.cur_file finished h'')))
