-- ===== src/Padd/Maps.antt =====
-- guest/padd.c: the mappings of a game (add_route, release_boot_key, hold_boot_key, read_boot_hold,
-- load_maps). The manifest is read by json-c, and the key names by libevdev: a `Config` is what they
-- give.
pub mod Routes
pub mod Loaded
mod Tests
use Prim.Native.String.{String, len, slice}
use text.Mathlib.Text.{starts_with}
use anyconsole.Base.{
  ℕ, ◌+◌, ◌*◌, ◌/◌, ◌%◌, Bool, true, false, not, ◌&&◌, ◌||◌, Option, none, some, List, [], ◌∷◌,
  ◌++◌, ◌==◌, if◌then◌else◌,
}
use anyconsole.Base.Int.{ℤ, pos, negsuc, ltb_ℤ, is_nonzero}
use anyconsole.Padd.Controls.{is_stick, control_named}
use anyconsole.Padd.Floats.{Floats}
use anyconsole.Padd.State.{Out, Sides, Route, Rules, Padd, update, tell}
use anyconsole.Padd.Devices.{press_key}
use anyconsole.Padd.Lifecycle.{release_all}

-- The objects `keys`, `pad` and `hold` of a game's manifest. A key name that libevdev does not know is
-- `none`, and so is a target that is no string.
pub record Config : Type 0 where
  pub keys : List (String × Option ℕ)
  pub pad_map : List (String × Option String)
  pub hold : Option (Option ℕ × ℕ)

unfoldable pub sign_of : String → ℤ
sign_of source =
    if starts_with source "+" then pos 1 else if starts_with source "-" then negsuc 0 else pos 0

-- source + abs(sign)
unfoldable pub unsigned : String → String
unsigned source = if is_nonzero (sign_of source) then slice source 1 (len source) else source

unfoldable pub turn_side : ℤ → Sides → Sides
turn_side sign sides =
    if ltb_ℤ sign (pos 0)
    then record sides { negative = true }
    else if ltb_ℤ (pos 0) sign
    then record sides { positive = true }
    else record { negative = true; positive = true }

-- add_route, once both names have been looked up.
unfoldable pub put_route : ℤ → Option ℕ → Option ℕ → Rules → Rules
put_route sign none to rules = rules
put_route sign (some from) none rules = rules
put_route sign (some from) (some to) rules =
    if is_nonzero sign && not (is_stick from) then rules else record rules {
      routes = rules.routes ++ (record { source = from; sign = sign; target = to } ∷ []);
      rerouted = update rules.rerouted from (turn_side sign (rules.rerouted from));
    }

unfoldable pub add_route : String → Option String → Rules → Rules
add_route source target rules =
    put_route (sign_of source) (control_named (some (unsigned source))) (control_named target) rules

unfoldable pub add_routes : List (String × Option String) → Rules → Rules
add_routes [] rules = rules
add_routes ((source, target) ∷ rest) rules = add_routes rest (add_route source target rules)

unfoldable pub put_key : Option ℕ → Option ℕ → (ℕ → ℕ) → ℕ → ℕ
put_key none code keymap = keymap
put_key (some i) none keymap = keymap
put_key (some i) (some code) keymap = update keymap i code

unfoldable pub map_keys : List (String × Option ℕ) → (ℕ → ℕ) → ℕ → ℕ
map_keys [] keymap = keymap
map_keys ((control, code) ∷ rest) keymap =
    map_keys rest (put_key (control_named (some control)) code keymap)

-- Routes that change no value.
abbrev pub no_sides : Sides
no_sides = record { negative = false; positive = false }

abbrev pub unmapped : Rules → Rules
unmapped rules = record rules { rerouted = λ _. no_sides; routes = [] }

module _ ⦃F : Floats⦄ where
  unfoldable pub release_boot_key : Padd → Padd
  release_boot_key s = tell (Out.hold_timer false) (press_key s.boot_key false s)

  unfoldable pub hold_boot_key : Padd → Padd
  hold_boot_key s =
      if s.boot_key == 0 then s else tell (Out.hold_timer true) (press_key s.boot_key true s)

  -- A hold whose key is not known is refused.
  unfoldable pub read_boot_hold : Option (Option ℕ × ℕ) → Padd → Padd
  read_boot_hold none s = s
  read_boot_hold (some (none, ms)) s = s
  read_boot_hold (some (some code, ms)) s = record s {
    boot_key = code;
    boot_hold = (ms / 1000, ms % 1000 * 1000000);
  }

  -- What every game starts from.
  unfoldable pub clear_maps : Padd → Padd
  clear_maps s =
      let t = release_boot_key (release_all s) in
      record t { boot_key = 0; keymap = λ _. 0; rules = unmapped t.rules }

  -- `none` for no game; a manifest without an object has an empty one.
  unfoldable pub load_maps : Option Config → Padd → Padd
  load_maps none s = clear_maps s
  load_maps (some config) s =
      let t = clear_maps s in
      read_boot_hold config.hold (record t {
        keymap = map_keys config.keys t.keymap;
        rules = add_routes config.pad_map t.rules;
      })
