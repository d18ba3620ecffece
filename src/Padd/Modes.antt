-- ===== src/Padd/Modes.antt =====
-- guest/padd.c: the modes and kinds of a device, and what a key code means to the menu or stands for
-- in an emulating mode (mode_named, kinds, command_of, combo_partner, emulated_code).
use Prim.Native.String.{String}
use text.Mathlib.Text.{◌==◌ as str_eq}
use anyconsole.Base.{ℕ, Bool, true, false, not, ◌||◌, Option, none, some, ◌==◌, if◌then◌else◌}
use anyconsole.Padd.Controls.{
  control, bound, key_bindings, pointer_bindings, click_bindings, Control,
}
use anyconsole.Padd.Codes.Btn
use anyconsole.Padd.Codes.Key

-- enum mode and enum kind.
pub data Mode : Type 0 where
  analog digital keys pointer desktop : Mode

pub data Kind : Type 0 where
  pad keyboard mouse : Kind

abbrev pub mode_eq : Mode → Mode → Bool
mode_eq analog analog = true
mode_eq digital digital = true
mode_eq keys keys = true
mode_eq pointer pointer = true
mode_eq desktop desktop = true
mode_eq _ _ = false

abbrev pub is_pad : Kind → Bool
is_pad pad = true
is_pad _ = false

abbrev pub is_keyboard : Kind → Bool
is_keyboard keyboard = true
is_keyboard _ = false

abbrev pub is_mouse : Kind → Bool
is_mouse mouse = true
is_mouse _ = false

-- Pads are driven only in these two modes.
abbrev pub drives_pad : Mode → Bool
drives_pad analog = true
drives_pad digital = true
drives_pad _ = false

-- The table modes[]: the names that the commands use.
unfoldable pub mode_named : String → Option Mode
mode_named name =
    if str_eq "analog" name
    then some analog
    else if str_eq "digital" name
    then some digital
    else if str_eq "keyboard" name
    then some keys
    else if str_eq "mouse" name
    then some pointer
    else if str_eq "keyboard-mouse" name
    then some desktop
    else none

-- kinds[kind].native
abbrev pub native : Kind → Mode
native pad = analog
native keyboard = keys
native mouse = pointer

-- kinds[kind].modes & MODE(mode)
abbrev pub allows : Kind → Mode → Bool
allows pad m = true
allows keyboard keys = true
allows keyboard digital = true
allows keyboard _ = false
allows mouse pointer = true
allows mouse analog = true
allows mouse _ = false

unfoldable pub command_of : ℕ → String
command_of code =
    if code == Key.up
    then "up"
    else if code == Key.down
    then "down"
    else if code == Key.left
    then "left"
    else if code == Key.right
    then "right"
    else if code == Key.pageup || code == Btn.tl
    then "page-up"
    else if code == Key.pagedown || code == Btn.tr
    then "page-down"
    else if code == Key.enter
        || code == Key.kpenter
        || code == Key.x
        || code == Btn.south
        || code == Btn.start
    then "confirm"
    else if code == Key.esc || code == Key.backspace || code == Key.z || code == Btn.east
    then "back"
    else if code == Key.space || code == Btn.west
    then "x"
    else if code == Key.tab || code == Btn.north
    then "y"
    else if code == Key.leftmeta || code == Key.rightmeta || code == Btn.mode
    then "guide"
    else "other"

-- 0 is "no partner".
unfoldable pub combo_partner : Control → ℕ
combo_partner c =
    if c.code == Btn.select then Btn.start else if c.code == Btn.start then Btn.select else 0

-- `keymap_code` is keymap[i], the game's own key for the control.
unfoldable pub emulated_code : ℕ → Mode → ℕ → ℕ
emulated_code keymap_code mode i =
    let name = (control i).name in
    let click = if mode_eq mode desktop then bound click_bindings name else 0 in
    if not (keymap_code == 0)
    then keymap_code
    else if mode_eq mode pointer
    then bound pointer_bindings name
    else if not (click == 0)
    then click
    else bound key_bindings name
