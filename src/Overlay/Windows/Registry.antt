-- ===== src/Overlay/Windows/Registry.antt =====
-- What the table of windows promises, without the order of it: a map from handles to windows, and what
-- each event does to the map.
use Prim.Native.String.{String}
use text.Mathlib.Text.{◌==◌ as str_eq}
use anyconsole.Base.{
  ℕ, suc, ◌-◌, ◌<◌, ◌≡◌, Bool, true, false, Option, none, some, ◌==◌, if◌then◌else◌,
}
use anyconsole.Overlay.Windows.{
  Window, Windows, windows_max, new_window, of_handle, is_listed, Event,
}

pub record Registry : Type 0 where
  pub at : ℕ → Option Window
  pub size : ℕ

abbrev pub change_if : (Window → Bool) → (Window → Window) → Option Window → Option Window
change_if test change none = none
change_if test change (some w) = some (if test w then change w else w)

abbrev pub change_map : (Window → Bool) → (Window → Window) → Registry → Registry
change_map test change r = record r { at = λ h. change_if test change (r.at h) }

abbrev pub is_known : Option Window → Bool
is_known none = false
is_known (some w) = true

abbrev pub add_entry : ℕ → Registry → Registry
add_entry handle r = record {
  at = λ h. if h == handle then some (new_window handle) else r.at h;
  size = suc r.size;
}

-- A window beyond the most that there may be is not noted.
unfoldable pub open_entry : ℕ → Registry → Registry
open_entry handle r = if r.size == windows_max then r else add_entry handle r

unfoldable pub close_entry : ℕ → Registry → Registry
close_entry handle r = record {
  at = λ h. if h == handle then none else r.at h;
  size = if is_known (r.at handle) then r.size - 1 else r.size;
}

unfoldable pub map_step : (String → String) → Event → Registry → Registry
map_step kept (Event.opened handle) r = open_entry handle r
map_step kept (Event.closed handle) r = close_entry handle r
map_step kept (Event.named handle app_id) r =
    change_map (of_handle handle) (λ w. record w { app_id = kept app_id }) r
map_step kept (Event.activates handle activated) r =
    change_map (of_handle handle) (λ w. record w { activated = activated }) r
map_step kept (Event.listed_named listed app_id) r =
    change_map (λ w. str_eq w.app_id app_id) (λ w. record w { listed = some listed }) r
map_step kept (Event.listed_closed listed) r =
    change_map (λ w. is_listed w.listed listed) (λ w. record w { listed = none }) r

-- The table has exactly the windows of the map, each once, under its handle.
pub record Represents (s : Windows) (r : Registry) : Type 0 where
  pub sized : s.count ≡ r.size
  pub listed : (i : ℕ) → i < s.count → r.at (s.window i).handle ≡ some (s.window i)
  pub only :
      (h : ℕ) (w : Window)
      → r.at h ≡ some w
      → (i : ℕ) × (i < s.count) × (s.window i ≡ w) × (w.handle ≡ h)
  pub distinct :
      (i k : ℕ) → i < s.count → k < s.count → (s.window i).handle ≡ (s.window k).handle → i ≡ k
