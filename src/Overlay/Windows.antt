-- ===== src/Overlay/Windows.antt =====
-- guest/overlay.c: windows[], the windows of the games (on_toplevel, on_toplevel_app_id,
-- on_toplevel_state, on_toplevel_closed, on_listed_app_id, on_listed_closed, game_window). A handle of Wayland is a
-- number, and a handle that is destroyed is not kept. `kept` is what snprintf keeps of a text in an
-- array of TEXT_MAX bytes.
pub mod Registry
pub mod Closing
pub mod Opening
pub mod Refined
pub mod Games
mod Tests
use Prim.Native.String.{String}
use text.Mathlib.Text.{◌==◌ as str_eq}
use anyconsole.Base.{
  ℕ, zero, suc, ◌+◌, ◌-◌, Bool, true, false, Option, none, some, ltb, ◌==◌, if◌then◌else◌,
}
use anyconsole.Base.Loop.{for_below}
use anyconsole.Base.Counts.{write}

-- struct window.
pub record Window : Type 0 where
  pub handle : ℕ
  pub listed : Option ℕ
  pub app_id : String
  pub activated : Bool

pub record Windows : Type 0 where
  pub window : ℕ → Window
  pub count : ℕ
  pub is_changed : Bool

-- WINDOWS_MAX.
abbrev pub windows_max : ℕ
windows_max = 513

-- (struct window){.handle = handle}
abbrev pub new_window : ℕ → Window
new_window handle = record { handle = handle; listed = none; app_id = ""; activated = false }

unfoldable pub on_toplevel : ℕ → Windows → Windows
on_toplevel handle s =
    if s.count == windows_max
    then s
    else record s { window = write s.window s.count (new_window handle); count = suc s.count }

-- The loops that change each window that passes.
unfoldable pub change_each : (Window → Bool) → (Window → Window) → ℕ → (ℕ → Window) → ℕ → Window
change_each test change count window =
    for_below count (λ i w. if test (w i) then write w i (change (w i)) else w) window

abbrev pub change_all : (Window → Bool) → (Window → Window) → Windows → Windows
change_all test change s = record s { window = change_each test change s.count s.window }

abbrev pub changed : Windows → Windows
changed s = record s { is_changed = true }

abbrev pub of_handle : ℕ → Window → Bool
of_handle handle w = w.handle == handle

unfoldable pub on_toplevel_app_id : (String → String) → ℕ → String → Windows → Windows
on_toplevel_app_id kept handle app_id s =
    changed (change_all (of_handle handle) (λ w. record w { app_id = kept app_id }) s)

-- Whether the states of the event name the one of an active window.
unfoldable pub on_toplevel_state : ℕ → Bool → Windows → Windows
on_toplevel_state handle activated s =
    changed (change_all (of_handle handle) (λ w. record w { activated = activated }) s)

unfoldable pub on_listed_app_id : ℕ → String → Windows → Windows
on_listed_app_id listed app_id s =
    change_all (λ w. str_eq w.app_id app_id) (λ w. record w { listed = some listed }) s

abbrev pub is_listed : Option ℕ → ℕ → Bool
is_listed none handle = false
is_listed (some h) handle = h == handle

unfoldable pub on_listed_closed : ℕ → Windows → Windows
on_listed_closed listed s =
    change_all (λ w. is_listed w.listed listed) (λ w. record w { listed = none }) s

-- The first of `n` windows from `i` on that has the app_id.
unfoldable pub window_from : String → (ℕ → Window) → ℕ → ℕ → Option ℕ
window_from key window zero i = none
window_from key window (suc n) i =
    let later = window_from key window n (suc i) in
    if str_eq (window i).app_id key then some i else later

-- The window of a game, by the game's key.
unfoldable pub game_window : String → Windows → Option ℕ
game_window key s = window_from key s.window s.count 0

-- The last window takes the place of one that goes.
unfoldable pub drop_window : ℕ → Windows → Windows
drop_window i s = record s {
  window = write s.window i (s.window (s.count - 1));
  count = s.count - 1;
}

-- The loop looks again at a place that a window has come to. Each round leaves less to look at.
unfoldable pub close_from : ℕ → ℕ → ℕ → Windows → Windows
close_from handle zero i s = s
close_from handle (suc rounds) i s =
    let again = close_from handle rounds i (drop_window i s) in
    let next = close_from handle rounds (suc i) s in
    if ltb i s.count then if of_handle handle (s.window i) then again else next else s

unfoldable pub on_toplevel_closed : ℕ → Windows → Windows
on_toplevel_closed handle s = close_from handle s.count 0 s

pub data Event : Type 0 where
  opened closed : ℕ → Event
  named : ℕ → String → Event
  activates : ℕ → Bool → Event
  listed_named : ℕ → String → Event
  listed_closed : ℕ → Event

unfoldable pub step : (String → String) → Event → Windows → Windows
step kept (opened handle) s = on_toplevel handle s
step kept (closed handle) s = on_toplevel_closed handle s
step kept (named handle app_id) s = on_toplevel_app_id kept handle app_id s
step kept (activates handle activated) s = on_toplevel_state handle activated s
step kept (listed_named listed app_id) s = on_listed_app_id listed app_id s
step kept (listed_closed listed) s = on_listed_closed listed s
