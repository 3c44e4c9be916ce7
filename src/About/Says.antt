-- ===== src/About/Says.antt =====
-- What the window "Info" says about the kernel modules.
use ipod_to_ipod.Base.{ℕ, Option, some, List, [], ◌∷◌, ◌++◌, map, Text, ◌≡◌, refl, ap, ◌∙◌}
use ipod_to_ipod.Pod.{Poll}
use ipod_to_ipod.Draw.{Call, text, fillrect, hline, vline, line, rect, ellipse, PzWidget, Metrics}
use ipod_to_ipod.Words.{plus}
use ipod_to_ipod.Polls.{check_kernel_module}
use ipod_to_ipod.About.{
  AboutLine, test, test2, press_button, module_line, module_calls, checked, next_line,
  draw_about_remote_ipod_widget,
}

-- The texts that are drawn, in order.
unfoldable pub texts : {L : Type 0} → List (Call L) → List L
texts [] = []
texts (text font x y ink l ∷ calls) = l ∷ texts calls
texts (c ∷ calls) = texts calls

texts-append : {L : Type 0} (xs ys : List (Call L)) → texts (xs ++ ys) ≡ texts xs ++ texts ys
unfolding texts
texts-append [] ys = refl
texts-append (text font x y ink l ∷ xs) ys = ap (λ ls. l ∷ ls) (texts-append xs ys)
texts-append (fillrect ink x1 y1 x2 y2 ∷ xs) ys = texts-append xs ys
texts-append (hline ink x1 x2 y ∷ xs) ys = texts-append xs ys
texts-append (vline ink x y1 y2 ∷ xs) ys = texts-append xs ys
texts-append (line x1 y1 x2 y2 ink ∷ xs) ys = texts-append xs ys
texts-append (rect x1 y1 x2 y2 ink ∷ xs) ys = texts-append xs ys
texts-append (ellipse x y rx ry ink ∷ xs) ys = texts-append xs ys

module _ (fuel : ℕ) (metrics : Metrics AboutLine) (wid : PzWidget) (lsmod : Text → Option (List ℕ))
    (polls : Text → Poll)
    (checks : (name : Text) → check_kernel_module fuel (lsmod name) name ≡ some (polls name)) where
  module_calls-texts :
      (names : List Text) (y : ℕ)
      → (calls : List (Call AboutLine)) × (below : ℕ) × (module_calls fuel metrics wid lsmod names y
          ≡ some (calls, below))
        × (texts calls ≡ map (λ name. module_line name (polls name)) names)
  unfolding module_calls texts
  module_calls-texts [] y = ([], y, refl, refl)
  module_calls-texts (name ∷ names) y =
      let (calls, below, eq, same) = module_calls-texts names (next_line metrics y) in
      rw (checks name, eq, module_calls)
        (_, _, refl, ap (λ ls. module_line name (polls name) ∷ ls) same)

  -- With fuel for what lsmod prints, the window "Info" says of each of the four modules that it is
  -- loaded exactly if `check_kernel_module` gives anything but 0, after the two test lines and before
  -- the last line, and nothing else.
  pub draw_about_remote_ipod_widget-texts :
      (calls : List (Call AboutLine)) × (draw_about_remote_ipod_widget fuel metrics wid lsmod
        ≡ some calls)
      × (texts calls
          ≡ test
            ∷ test2
            ∷ (map (λ name. module_line name (polls name)) checked ++ press_button ∷ []))
  unfolding draw_about_remote_ipod_widget texts
  draw_about_remote_ipod_widget-texts =
      let (calls, below, eq, same) =
        module_calls-texts checked (next_line metrics (next_line metrics (plus wid.y 5))) in
      rw (eq, draw_about_remote_ipod_widget)
        (
          _,
          refl,
          ap (λ ls. test ∷ test2 ∷ ls)
              (texts-append calls _ ∙ ap (λ ls. ls ++ press_button ∷ []) same),
        )
