-- ===== src/Icon.antt =====
-- The header icon of podtopod.c, whose drawing also polls the remote iPod: rip_icon_init_widget and
-- rip_icon_draw_widget. What is drawn is a list of calls of ttk.
pub mod Blinks
use ipod_to_ipod.Base.{
  ℕ, Bool, true, false, Option, none, some, List, [], ◌∷◌, ◌++◌, Text, if◌then◌else◌,
}
use ipod_to_ipod.Pod.{Status, disconnected, unmounted, mounted, transferring, ejected, Pod, World}
use ipod_to_ipod.Status.{rip_icon_timer_handler}
use ipod_to_ipod.Words.{plus, minus}
use ipod_to_ipod.Draw.{Ink, header_fg, red, Call, rect, ellipse, PzWidget}

-- The widget of the icon, whether `rip_icon` points at it, its timer in milliseconds, and the static
-- `transfer_blink`.
pub record Icon (Db : Type 0) : Type 0 where
  pub pod : Pod Db
  pub widget : PzWidget
  pub rip_icon : Bool
  pub timer : Option ℕ
  pub transfer_blink : Bool

-- `ttk_makecol(255,10,10)` while transferring on a colour iPod, and "header.fg" otherwise.
abbrev pub icon_ink : Bool → Status → Ink
icon_ink true transferring = red
icon_ink _ _ = header_fg

-- The outline, the screen and the wheel; and, unless it is unmounted, the plug below them.
abbrev pub plug : Status → Ink → PzWidget → List (Call Text)
plug unmounted ink this = []
plug _ ink this =
    rect (plus this.x 2) (minus (plus this.y this.h) 5) (minus (plus this.x this.w) 2)
      (minus (plus this.y this.h) 3) ink
    ∷ rect (plus this.x 4) (minus (plus this.y this.h) 3) (minus (plus this.x this.w) 4)
        (minus (plus this.y this.h) 1) ink
    ∷ []

unfoldable pub icon_calls : Bool → Status → PzWidget → List (Call Text)
icon_calls colour st this =
    rect this.x (plus this.y 1) (plus this.x this.w) (minus (plus this.y this.h) 6)
      (icon_ink colour st)
    ∷ rect (plus this.x 2) (plus this.y 3) (minus (plus this.x this.w) 2) (plus this.y 8)
        (icon_ink colour st)
    ∷ ellipse (plus this.x 5) (plus this.y 11) 2 2 (icon_ink colour st)
    ∷ plug st (icon_ink colour st) this

module _ {Db : Type 0} where
  unfoldable pub rip_icon_init_widget : Icon Db → Icon Db
  rip_icon_init_widget s = record s {
    rip_icon = true;
    widget = record (s.widget) { w = 11 };
    timer = some 500;
  }

  -- `if (rip_icon == NULL) rip_icon_init_widget(this);`
  unfoldable pub ensure_init : Icon Db → Icon Db
  unfolding rip_icon_init_widget
  ensure_init s = if s.rip_icon then s else rip_icon_init_widget s

  -- What follows the poll, by the status that it leaves.
  unfoldable pub draw_status : Bool → Status → Icon Db → Icon Db × List (Call Text)
  unfolding icon_calls
  draw_status colour disconnected s = (s, [])
  draw_status colour ejected s = (s, [])
  draw_status colour transferring s =
      if s.transfer_blink
      then (record s { transfer_blink = false }, [])
      else (record s { transfer_blink = true }, icon_calls colour transferring s.widget)
  draw_status colour st s = (record s { transfer_blink = true }, icon_calls colour st s.widget)

  -- The flag says whether the iPod has a colour screen.
  unfoldable pub rip_icon_draw_widget : Bool → World Db → Icon Db → Icon Db × List (Call Text)
  unfolding ensure_init draw_status rip_icon_timer_handler
  rip_icon_draw_widget colour world s =
      let ready = ensure_init s in
      let polled = rip_icon_timer_handler world ready.pod in
      draw_status colour polled.rip_status (record ready { pod = polled })
