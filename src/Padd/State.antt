-- ===== src/Padd/State.antt =====
-- guest/padd.c: the state that its handlers share, and what they send out.
use Prim.Native.String.{String}
use anyconsole.Base.{ℕ, Bool, false, Option, none, some, List, ◌∷◌, ◌==◌, if◌then◌else◌}
use anyconsole.Base.Int.{ℤ}
use anyconsole.Padd.Modes.{Mode, Kind}
use anyconsole.Padd.Floats.{Floats}

-- What padd writes, each with the fields of the call: events on the keyboard and on a seat's pad,
-- lines to the overlay, timers, LEDs, sensors and motors of a physical pad, the nodes of a
-- virtual pad and whether its feedback is watched, the controllers file.
pub data Out : Type 0 where
  key : ℕ → ℕ → ℤ → Out
  pad_event : ℕ → ℕ → ℕ → ℤ → Out
  press : ℕ → String → ℤ → Out
  dial : Bool → Out
  connect : ℕ → Out
  set_blow : Bool → Out
  arm_pointer : Bool → Out
  arm_rest : Out
  hold_timer : Bool → Out
  seat_light : ℕ → Option ℕ → Out
  sensors : ℕ → Bool → Out
  plugged : ℕ → Bool → Out
  watch_feedback : ℕ → Bool → Out
  rumble : ℕ → ℕ → ℕ → ℕ → Out
  controllers : Out

-- rerouted[i], a set of enum side.
pub record Sides : Type 0 where
  pub negative : Bool
  pub positive : Bool

pub record Route : Type 0 where
  pub source : ℕ
  pub sign : ℤ
  pub target : ℕ

-- struct device, the part that the pad of its seat depends on. An id of 0 is a free cell of the
-- device table, and NO_PAD is `none`.
pub record View : Type 0 where
  pub id : ℕ
  pub pad : Option ℕ
  pub mode : Mode
  pub raw : ℕ → ℤ

-- What decides which of a device's values reach a pad: the game's routes, and the modes of padd.
pub record Rules : Type 0 where
  pub menu_open : Bool
  pub rerouted : ℕ → Sides
  pub routes : List Route
  pub dial : Bool
  pub dial_absolute : Bool

module _ ⦃F : Floats⦄ where
  open F use {Double}

  -- struct device. `evdev` is the list of the keys that libevdev has as held, lowest first, and
  -- `none` for a device that is no captured one.
  pub record Device : Type 0 where
    pub view : View
    pub open view use *
    pub name : String
    pub guide : Bool
    pub kind : Kind
    pub swallowed : Option ℕ
    pub travel : ℕ → Double
    pub evdev : Option (List ℕ)

-- struct ff_effect, the part that a rumble uses; the magnitudes are 16 bits wide.
pub record Effect : Type 0 where
  pub strong : ℕ
  pub weak : ℕ
  pub length : ℕ

-- The virtual pads: pad[seat] is there or not, and what it was last told of each control. The
-- helper process of send_blow is running while `blow_busy`; `can_spawn` is whether a spawn works.
-- `out` is what has been written, newest first.
pub record Outputs : Type 0 where
  pub is_plugged : ℕ → Bool
  pub emitted : ℕ → ℕ → ℤ
  pub gain : ℕ → ℕ
  pub effects : ℕ → List Effect
  pub blowing : Bool
  pub blow_sent : Bool
  pub blow_busy : Bool
  pub can_spawn : Bool
  pub out : List Out

-- struct pad, as far as seats need it: a controller that SDL opened, and its cell of the device table.
pub record Pad : Type 0 where
  pub instance_id : ℕ
  pub input : ℕ
  pub active : ℕ

module _ ⦃F : Floats⦄ where
  open F use {Double}

  -- `canvas` is what canvas_width reads, `clock` what now() returns, `boot_hold` is in seconds and
  -- nanoseconds.
  pub record Padd : Type 0 where
    pub device : ℕ → Device
    pub rules : Rules
    pub open rules use *
    pub keymap : ℕ → ℕ
    pub outputs : Outputs
    pub open outputs use *
    pub next_id : ℕ
    pub pads : List Pad
    pub motion_source : ℕ → Option ℕ
    pub pointing : Bool
    pub pointer_speed : Double
    pub canvas : ℤ
    pub boot_key : ℕ
    pub boot_hold : ℕ × ℕ
    pub clock : ℕ

abbrev pub same_seat : Option ℕ → ℕ → Bool
same_seat none seat = false
same_seat (some n) seat = n == seat

abbrev pub update {ℓ} : {A : Type ℓ} → (ℕ → A) → ℕ → A → ℕ → A
update f i a j = if i == j then a else f j

-- One more thing written.
abbrev pub say : Out → Outputs → Outputs
say o O = record O { out = o ∷ O.out }

module _ ⦃F : Floats⦄ where
  -- The device table, as the pads see it.
  abbrev pub views : Padd → ℕ → View
  views s j = (s.device j).view

  abbrev pub tell : Out → Padd → Padd
  tell o s = record s { outputs = say o s.outputs }

  abbrev pub set_device : Padd → ℕ → Device → Padd
  set_device s j d = record s { device = update s.device j d }
