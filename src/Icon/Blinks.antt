-- ===== src/Icon/Blinks.antt =====
-- What the header icon says about the remote iPod.
use mathlib.Core.Path.{ap₂}
use ipod_to_ipod.Base.{
  ℕ, Bool, true, not, length, if◌then◌else◌, ◌≡◌, refl, ap, ◌∙◌, Bool-cases, inl, inr,
}
use ipod_to_ipod.Pod.{Status, disconnected, unmounted, mounted, transferring, ejected, Pod, World}
use ipod_to_ipod.Status.{rip_icon_timer_handler}
use ipod_to_ipod.Icon.{
  Icon, icon_calls, ensure_init, rip_icon_init_widget, draw_status, rip_icon_draw_widget,
}

-- How many shapes the icon has: none unless a remote iPod is connected, three for the iPod, and two
-- more for the plug once it is mounted; while transferring, every other time only.
abbrev pub shapes : Status → Bool → ℕ
shapes disconnected blink = 0
shapes ejected blink = 0
shapes unmounted blink = 3
shapes mounted blink = 5
shapes transferring blink = if blink then 0 else 5

-- Whether the icon is off the next time, if the transfer goes on.
abbrev pub blink_after : Status → Bool → Bool
blink_after disconnected blink = blink
blink_after ejected blink = blink
blink_after transferring blink = not blink
blink_after _ blink = true

module _ {Db : Type 0} where
  draw_status-shapes :
      (colour : Bool) (st : Status) (s : Icon Db)
      → (length (draw_status colour st s).1 ≡ shapes st s.transfer_blink)
        × ((draw_status colour st s).0.transfer_blink ≡ blink_after st s.transfer_blink)
        × ((draw_status colour st s).0.pod ≡ s.pod)
        × ((draw_status colour st s).0.rip_icon ≡ s.rip_icon)
  unfolding draw_status icon_calls
  draw_status-shapes colour disconnected s = (refl, refl, refl, refl)
  draw_status-shapes colour ejected s = (refl, refl, refl, refl)
  draw_status-shapes colour unmounted s = (refl, refl, refl, refl)
  draw_status-shapes colour mounted s = (refl, refl, refl, refl)
  draw_status-shapes colour transferring s = elim (Bool-cases s.transfer_blink) [
    | inl on ↦ rw on (refl, refl, refl, refl)
    | inr off ↦ rw off (refl, refl, refl, refl)
  ]

  ensure_init-known :
      (s : Icon Db)
      → ((ensure_init s).rip_icon ≡ true)
        × ((ensure_init s).pod ≡ s.pod)
        × ((ensure_init s).transfer_blink ≡ s.transfer_blink)
  unfolding ensure_init rip_icon_init_widget
  ensure_init-known s = elim (Bool-cases s.rip_icon) [
    | inl known ↦ rw known (refl, refl, refl)
    | inr new ↦ rw new (refl, refl, refl)
  ]

  rip_icon_draw_widget-draw_status :
      (colour : Bool) (world : World Db) (s : Icon Db)
      → rip_icon_draw_widget colour world s
        ≡ draw_status colour
            (rip_icon_timer_handler world (ensure_init s).pod).rip_status
            (record (ensure_init s) { pod = rip_icon_timer_handler world (ensure_init s).pod })
  unfolding rip_icon_draw_widget
  rip_icon_draw_widget-draw_status colour world s = refl

  -- Drawing the icon polls as the timer does, and then draws by the status that the poll leaves:
  -- nothing unless an iPod is connected, three shapes if it is not mounted, five if it is. While
  -- transferring it draws five shapes and nothing in turn. The widget is known afterwards.
  pub rip_icon_draw_widget-shapes :
      (colour : Bool) (world : World Db) (s : Icon Db)
      → ((rip_icon_draw_widget colour world s).0.pod ≡ rip_icon_timer_handler world s.pod)
        × (length (rip_icon_draw_widget colour world s).1
            ≡ shapes (rip_icon_timer_handler world s.pod).rip_status s.transfer_blink)
        × ((rip_icon_draw_widget colour world s).0.transfer_blink
            ≡ blink_after (rip_icon_timer_handler world s.pod).rip_status s.transfer_blink)
        × ((rip_icon_draw_widget colour world s).0.rip_icon ≡ true)
  rip_icon_draw_widget-shapes colour world s =
      let (known, pod, blink) = ensure_init-known s in
      let polled = rip_icon_timer_handler world (ensure_init s).pod in
      let (drawn, blinks, same, kept) =
        draw_status-shapes colour polled.rip_status (record (ensure_init s) { pod = polled }) in
      let moved : polled ≡ rip_icon_timer_handler world s.pod =
        ap (rip_icon_timer_handler world) pod in
      rw (rip_icon_draw_widget-draw_status colour world s) (
        same ∙ moved,
        drawn ∙ ap₂ shapes (ap {A = Pod Db} (λ q. q.rip_status) moved) blink,
        blinks ∙ ap₂ blink_after (ap {A = Pod Db} (λ q. q.rip_status) moved) blink,
        kept ∙ known,
      )
