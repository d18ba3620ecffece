-- ===== src/Padd/Tests.antt =====
-- Tests and examples of the input daemon: a seat with one pad, whose south button is held.
pub mod Fractions
mod Inputs
mod Watches
mod Bluetooth
use anyconsole.Base.{
  ℕ, zero, suc, ◌≡◌, refl, ◌∙◌, sym, ap, Bool, true, false, arith, Option, none, some, [], ◌∷◌, All,
  ◌<◌, ◌==◌,
}
use anyconsole.Base.Int.{ℤ, pos, negsuc}
use anyconsole.Padd.Codes.{input_devices_max}
use anyconsole.Padd.Controls.{control, control_count, rest, is_stick}
use anyconsole.Padd.Modes.{Mode, Kind, mode_named, allows}
use anyconsole.Padd.Floats.{Floats, IsIeee}
use anyconsole.Padd.State.{Sides, Route, View, Rules, Device, Outputs, Padd, views}
use anyconsole.Padd.Mapping.{
  effective, routed, mapped, routed_value, is_rerouted, driven, converted,
}
use anyconsole.Padd.Mapping.Rest.{converted-rest, effective-rest, IsResting}
use anyconsole.Padd.Sync.{merged, merge_device, sync_pad}
use anyconsole.Padd.Sync.Emitted.{emitted-sync_pad}
use anyconsole.Padd.Sync.Synced.{IsSynced}
use anyconsole.Padd.Devices.{set_raw, drive_control}
use anyconsole.Padd.Devices.Drive.{drive_control-IsSynced}
use anyconsole.Padd.Devices.Frame.{
  views-drive_control, rules-drive_control, is_plugged-drive_control,
}
use anyconsole.Padd.Lifecycle.{assign, set_mode, free_device, set_menu, release}
use anyconsole.Padd.Lifecycle.Release.{Released, release-Released}
use anyconsole.Padd.Lifecycle.Synced.{IsCalm, merged-rest}
use anyconsole.Padd.Lifecycle.Menu.{set_menu_open-rest}
use anyconsole.Padd.Lifecycle.Moves.{assign-IsSynced, free_device-IsSynced}
use anyconsole.Padd.Tests.Fractions.{fractions, fractions-IsIeee}

-- The east button stands for the south one.
abbrev swap : Route
swap = record { source = 1; sign = pos 0; target = 0 }

abbrev test_rules : Rules
test_rules = record {
  menu_open = false;
  rerouted = λ _. record { negative = false; positive = false };
  routes = swap ∷ [];
  dial = false;
  dial_absolute = false;
}

abbrev test_view : ℕ → View
test_view zero = record { id = 1; pad = some 0; mode = Mode.analog; raw = rest }
test_view (suc j) = record { id = 0; pad = none; mode = Mode.analog; raw = rest }

abbrev pub idle : Padd
idle = record {
  device = λ j. record {
    view = test_view j;
    name = "pad";
    guide = false;
    kind = Kind.pad;
    swallowed = none;
    travel = λ _. fractions.of_int (pos 0);
    evdev = none;
  };
  rules = test_rules;
  keymap = λ _. 0;
  outputs = record {
    is_plugged = λ seat. seat == 0;
    emitted = λ _. rest;
    gain = λ _. 65535;
    effects = λ _. [];
    blowing = false;
    blow_sent = false;
    blow_busy = false;
    can_spawn = true;
    out = [];
  };
  next_id = 2;
  pads = [];
  motion_source = λ _. none;
  pointing = false;
  pointer_speed = fractions.of_int (pos 0);
  canvas = pos 1920;
  boot_key = 0;
  boot_hold = (0, 0);
  clock = 0;
}

test_view-IsResting : (j : ℕ) → IsResting (test_view j)
test_view-IsResting zero c lt = refl
test_view-IsResting (suc j) c lt = refl

test_IsCalm : IsCalm test_rules
test_IsCalm = record { no_dial = refl; in_range = (omega arith, tt) }

pub idle-IsSynced : IsSynced idle
idle-IsSynced = record {
  in_step = λ seat i p lt. sym (
      merged-rest fractions-IsIeee test_rules test_view seat i test_IsCalm lt
        λ j _ _. test_view-IsResting j);
}

-- The pad's south button goes down.
abbrev pub held : Padd
held = drive_control 0 (some 0) (pos 1) idle

drive_control-IsSynced_example : IsSynced held
drive_control-IsSynced_example = drive_control-IsSynced idle 0 (some 0) (pos 1) refl idle-IsSynced

pub held-IsSynced : IsSynced held
held-IsSynced = drive_control-IsSynced idle 0 (some 0) (pos 1) refl idle-IsSynced

pub held-IsCalm : IsCalm held.rules
held-IsCalm = rw (rules-drive_control idle 0 0 (pos 1) refl) test_IsCalm

release-Released_example : Released held (release 0 held) 0 control_count
release-Released_example = release-Released held 0 held-IsCalm.no_dial held-IsSynced

assign-IsSynced_example : IsSynced (assign 0 (some 1) held)
assign-IsSynced_example = assign-IsSynced fractions-IsIeee 0 (some 1) held held-IsCalm held-IsSynced

free_device-IsSynced_example : IsSynced (free_device 0 held)
free_device-IsSynced_example =
    free_device-IsSynced fractions-IsIeee 0 held held-IsCalm held-IsSynced

set_menu_open-rest_example : (set_menu true held).emitted 0 0 ≡ rest 0
set_menu_open-rest_example =
    set_menu_open-rest fractions-IsIeee held 0 0 held-IsCalm held-IsSynced
      (ap (λ f. f 0) (is_plugged-drive_control idle 0 0 (pos 1))) (omega arith)
