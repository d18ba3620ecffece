-- ===== src/Padd/Codes.antt =====
-- The numbers that guest/padd.c takes from the kernel's input ABI (linux/input-event-codes.h), one
-- child to a prefix, and from guest/config.
pub mod Btn
pub mod Abs
pub mod Rel
pub mod Key
pub mod Ev
use Prim.Native.Nat.{ℕ}
use anyconsole.Base.Int.{ℤ, pos}

-- guest/config: PADS, INPUT_DEVICES_MAX, AXIS_MAX, AXIS_CENTER, STICK_REACH_DIVISOR.
abbrev pub pads_max : ℕ
pads_max = 4

abbrev pub input_devices_max : ℕ
input_devices_max = 64

abbrev pub axis_max : ℤ
axis_max = pos 255

abbrev pub axis_center : ℤ
axis_center = pos 128

-- AXIS_CENTER - AXIS_REACH and AXIS_CENTER + AXIS_REACH, where AXIS_REACH is AXIS_MAX / 4.
abbrev pub reach_low : ℤ
reach_low = pos 65

abbrev pub reach_high : ℤ
reach_high = pos 191

-- AXIS_MAX / 2
abbrev pub trigger_press : ℤ
trigger_press = pos 127
