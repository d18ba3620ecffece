-- ===== src/Compositor/Displays.antt =====
-- guest/compositor.c: the displays, their modes and the GPUs, and how they compare (startup_order,
-- start_gpus, better, games_running, display_mode). The modes of an output come from wlroots, and the text of a
-- mode from snprintf: `print` is that text. A GPU is its index in `gpus`, and a display the number
-- of its output.
pub mod Modes
pub mod Order
pub mod Choice
pub mod Shown
pub mod Chosen
mod Tests
use Prim.Native.String.{String, len}
use text.Mathlib.Text.{◌==◌ as str_eq}
use anyconsole.Base.{
  ℕ, suc, ◌+◌, ◌-◌, Bool, true, false, not, ◌&&◌, ◌||◌, Option, none, some, List, [], ◌∷◌, ltb,
  ◌==◌, if◌then◌else◌,
}
use anyconsole.Base.Int.{ℤ, pos, ◌-ℤ◌, ltb_ℤ, eqb_ℤ}
use anyconsole.Base.Loop.{for_below}

-- `rank` is -1 for a GPU without Vulkan.
pub record Gpu : Type 0 where
  pub rank : ℤ
  pub has_display : Bool
  pub renders : Bool

-- A mode is told from others by its address, `id`.
pub record Mode : Type 0 where
  pub id : ℕ
  pub width : ℕ
  pub height : ℕ
  pub refresh : ℕ

pub record Display : Type 0 where
  pub id : ℕ
  pub label : String
  pub gpu : ℕ
  pub connected : ℕ
  pub preferred : Mode
  pub modes : List Mode

-- What is asked of the rest of the compositor and of wlroots: a display is enabled in a mode or
-- disabled, a GPU is written down for the next start, which ends this one, and so on.
pub data Call : Type 0 where
  commit : ℕ → Option Mode → Call
  write_gpu : ℕ → Call
  forget_still : Call
  configure_overlay : Call
  redraw : Call
  update_canvas : Call
  write_state : Call

-- What choose_display reads and writes. `sandboxed` lists the windows, and
-- `shown_refresh` is the rate that the game asks for, 0 for none.
pub record Screens : Type 0 where
  pub gpus : ℕ → Gpu
  pub render_gpu : ℕ
  pub displays : List Display
  pub sandboxed : List Bool
  pub pinned : String
  pub chosen_mode : String
  pub shown_refresh : ℕ
  pub connections : ℕ
  pub started : Bool
  pub stopping : Bool
  pub active : Option Display
  pub pending : Option Display
  pub applied_mode : Option ℕ
  pub calls : List Call

abbrev pub same_bool : Bool → Bool → Bool
same_bool true b = b
same_bool false b = not b

unfoldable pub is_pinned : String → Display → Bool
is_pinned pinned entry = not (len pinned == 0) && str_eq entry.label pinned

abbrev pub rank : Screens → Display → ℤ
rank s d = (s.gpus d.gpu).rank

unfoldable pub better_than : Screens → Display → Display → Bool
better_than s a b =
    if not (same_bool (is_pinned s.pinned a) (is_pinned s.pinned b))
    then is_pinned s.pinned a
    else if not (eqb_ℤ (rank s a) (rank s b))
    then ltb_ℤ (rank s b) (rank s a)
    else if not (a.connected == b.connected)
    then ltb b.connected a.connected
    else a.gpu == s.render_gpu && not (b.gpu == s.render_gpu)

unfoldable pub better : Screens → Display → Option Display → Bool
better s a none = true
better s a (some b) = better_than s a b

-- The loop over the displays, with the best so far.
unfoldable pub best_of : Screens → List Display → Option Display → Option Display
best_of s [] best = best
best_of s (d ∷ ds) best = best_of s ds (if better s d best then some d else best)

unfoldable pub games_running : List Bool → Bool
games_running [] = false
games_running (sandboxed ∷ ws) = sandboxed || games_running ws

-- The difference of two truth values.
abbrev pub difference : Bool → Bool → ℤ
difference true false = pos 1
difference false true = pos 0 -ℤ pos 1
difference a b = pos 0

unfoldable pub startup_order : Gpu → Gpu → Bool → Bool → ℤ
startup_order a b a_handed b_handed =
    if not (same_bool a.renders b.renders)
    then difference a.renders b.renders
    else if not (same_bool a.has_display b.has_display)
    then difference a.has_display b.has_display
    else if not (same_bool a_handed b_handed)
    then difference a_handed b_handed
    else a.rank -ℤ b.rank

-- The loop of start_gpus that chooses the GPU that renders, of `count` GPUs. `handed` tells the one
-- that was written down.
unfoldable pub first_gpu : (ℕ → Gpu) → (ℕ → Bool) → ℕ → ℕ
first_gpu gpus handed count =
    for_below (count - 1)
      (λ i best.
        if ltb_ℤ (pos 0) (startup_order (gpus (suc i)) (gpus best) (handed (suc i)) (handed best))
        then suc i
        else best)
      0

-- The mode that the settings name, with its rate, or the preferred one.
unfoldable pub chosen : (Mode → String) → String → List Mode → Mode × ℕ → Mode × ℕ
chosen print name [] base = base
chosen print name (m ∷ ms) base =
    chosen print name ms (if str_eq (print m) name then (m, m.refresh) else base)

abbrev pub off_by : ℕ → Mode → ℕ
off_by refresh m = (m.refresh - refresh) + (refresh - m.refresh)

unfoldable pub nearer : Mode → ℕ → Mode → Mode → Bool
nearer base refresh m best =
    (m.width == base.width)
    && (m.height == base.height)
    && ltb (off_by refresh m) (off_by refresh best)

unfoldable pub nearest : Mode → ℕ → List Mode → Mode → Mode
nearest base refresh [] best = best
nearest base refresh (m ∷ ms) best =
    nearest base refresh ms (if nearer base refresh m best then m else best)

abbrev pub game_refresh_mhz : ℕ
game_refresh_mhz = 60000

-- The mode whose size is shown, and the rate that is wanted.
unfoldable pub wanted_mode : (Mode → String) → Screens → Display → Mode × ℕ
wanted_mode print s d =
    let (base, refresh) = chosen print s.chosen_mode d.modes (d.preferred, game_refresh_mhz) in
    (base, if s.shown_refresh == 0 then refresh else s.shown_refresh)

unfoldable pub display_mode : (Mode → String) → Screens → Display → Mode
display_mode print s d =
    let (base, refresh) = wanted_mode print s d in nearest base refresh d.modes base
