-- ===== src/Padd/Lifecycle.antt =====
-- guest/padd.c: devices that come, go and change seat or mode, the menu that opens, the pads that are
-- plugged (release, new_device, free_device, assign, set_mode, set_menu, plug, unplug, set_pads).
pub mod Release
pub mod Synced
pub mod Menu
pub mod Moves
use Prim.Native.String.{String}
use anyconsole.Base.{
  ℕ, zero, suc, ◌+◌, Bool, true, false, not, ◌&&◌, ◌||◌, Option, none, some, List, [], ◌∷◌, ◌==◌,
  ltb, if◌then◌else◌,
}
use anyconsole.Base.Int.{ℤ, pos}
use anyconsole.Base.Loop.{for_below}
use anyconsole.Padd.Codes.{input_devices_max, pads_max}
use anyconsole.Padd.Codes.Ev
use anyconsole.Padd.Controls.{control_count, rest}
use anyconsole.Padd.Modes.{Mode, mode_eq, mode_named, allows, native, Kind}
use anyconsole.Padd.Floats.{Floats}
use anyconsole.Padd.State.{
  Out, Pad, Device, Outputs, Padd, same_seat, update, say, tell, set_device,
}
use anyconsole.Padd.Mapping.{routed}
use anyconsole.Padd.Sync.{blow_seat, send_blow}
use anyconsole.Padd.Devices.{drive_control}
use anyconsole.Padd.Menu.{same_index}

-- The first cell below the count whose id is 0.
unfoldable pub free_cell : (ℕ → ℕ) → ℕ → ℕ → Option ℕ
free_cell ids zero j = none
free_cell ids (suc n) j =
    let later = free_cell ids n (suc j) in if ids j == 0 then some j else later

unfoldable pub pad_of : List Pad → ℕ → Option Pad
pad_of [] id = none
pad_of (p ∷ ps) id = if p.instance_id == id then some p else pad_of ps id

unfoldable pub pad_with_input : List Pad → ℕ → Option Pad
pad_with_input [] j = none
pad_with_input (p ∷ ps) j = if p.input == j then some p else pad_with_input ps j

-- touched's `active = now()`.
unfoldable pub touch_active : ℕ → ℕ → List Pad → List Pad
touch_active id clock [] = []
touch_active id clock (p ∷ ps) =
    if p.instance_id == id then record p { active = clock } ∷ ps else p ∷ touch_active id clock ps

module _ ⦃F : Floats⦄ where
  open F use {Double, of_int}

  unfoldable pub press_held : List ℕ → Padd → Padd
  press_held [] s = s
  press_held (code ∷ codes) s = press_held codes (tell (Out.key Ev.key code (pos 0)) s)

  -- The keys that a captured device passes on as they are go up.
  unfoldable pub release_keys : ℕ → Padd → Padd
  release_keys j s =
      let d = s.device j in
      elim d.evdev [
        | none ↦ s
        | some held ↦
            if not (routed s.rules d.view) || not (mode_eq d.mode (native d.kind))
            then s
            else press_held held s
      ]

  unfoldable pub release_controls : ℕ → Padd → Padd
  release_controls j s = for_below control_count (λ i t. drive_control j (some i) (rest i) t) s

  unfoldable pub release : ℕ → Padd → Padd
  release j s =
      let t = release_controls j (release_keys j s) in
      set_device t j (record (t.device j) { swallowed = none; travel = λ _. of_int (pos 0) })

  unfoldable pub release_all : Padd → Padd
  release_all s =
      for_below input_devices_max (λ j t. if (t.device j).id == 0 then t else release j t) s

  abbrev pub fresh_device : ℕ → String → Kind → Bool → Device
  fresh_device id name kind guide = record {
    view = record { id = id; pad = none; mode = native kind; raw = rest };
    name = name;
    guide = guide;
    kind = kind;
    swallowed = none;
    travel = λ _. of_int (pos 0);
    evdev = none;
  }

  -- `none` when the table is full.
  unfoldable pub new_device : String → Kind → Bool → Padd → Option ℕ × Padd
  new_device name kind guide s = elim (free_cell (λ j. (s.device j).id) input_devices_max 0) [
    | none ↦ (none, s)
    | some j ↦ (
      some j,
      record (set_device s j (fresh_device s.next_id name kind guide)) { next_id = s.next_id + 1 },
    )
  ]

  unfoldable pub free_device : ℕ → Padd → Padd
  free_device j s =
      let t = release j s in
      set_device t j (record (t.device j) { view = record (t.device j).view { id = 0 } })

  abbrev pub set_motion : ℕ → Option ℕ → Padd → Padd
  set_motion seat source s = record s { motion_source = update s.motion_source seat source }

  unfoldable pub forget_motion : Option Pad → Padd → Padd
  forget_motion none s = s
  forget_motion (some p) s =
      for_below pads_max
        (λ seat t.
          if same_index (t.motion_source seat) p.instance_id
          then tell (Out.sensors p.instance_id false) (set_motion seat none t)
          else t)
        s

  abbrev pub stop_sensors : Option Pad → Padd → Padd
  stop_sensors none s = s
  stop_sensors (some p) s = tell (Out.sensors p.instance_id false) s

  abbrev pub pad_at : Padd → Option ℕ → Option Pad
  pad_at s none = none
  pad_at s (some id) = pad_of s.pads id

  -- The seat's motion comes from the pad that was touched last.
  unfoldable pub touched : Pad → Padd → Padd
  touched p s =
      let v = (s.device p.input).view in
      let t = record s { pads = touch_active p.instance_id s.clock s.pads } in
      elim v.pad [
        | none ↦ t
        | some seat ↦
            if not (mode_eq v.mode Mode.analog) || same_index (s.motion_source seat) p.instance_id
            then t
            else set_motion seat (some p.instance_id) (
                tell (Out.sensors p.instance_id true)
                  (stop_sensors (pad_at s (s.motion_source seat)) t))
      ]

  abbrev pub seat_eq : Option ℕ → Option ℕ → Bool
  seat_eq none none = true
  seat_eq none (some m) = false
  seat_eq (some n) none = false
  seat_eq (some n) (some m) = n == m

  abbrev pub show_and_touch : Option Pad → Option ℕ → Padd → Padd
  show_and_touch none seat s = s
  show_and_touch (some p) seat s = touched p (tell (Out.seat_light p.instance_id seat) s)

  abbrev pub set_pad : ℕ → Option ℕ → Padd → Padd
  set_pad j seat s =
      let d = s.device j in set_device s j (record d { view = record d.view { pad = seat } })

  unfoldable pub assign : ℕ → Option ℕ → Padd → Padd
  assign j seat s =
      let p = pad_with_input s.pads j in
      if seat_eq (s.device j).pad seat
      then s
      else tell Out.controllers
          (show_and_touch p seat (set_pad j seat (forget_motion p (release j s))))

  abbrev pub set_device_mode : ℕ → Mode → Padd → Padd
  set_device_mode j mode s =
      let d = s.device j in set_device s j (record d { view = record d.view { mode = mode } })

  unfoldable pub set_mode : ℕ → String → Padd → Padd
  set_mode j name s = elim (mode_named name) [
    | none ↦ s
    | some mode ↦
        if not (allows (s.device j).kind mode) || mode_eq mode (s.device j).mode
        then s
        else tell Out.controllers
            (set_device_mode j mode (forget_motion (pad_with_input s.pads j) (release j s)))
  ]

  unfoldable pub set_menu : Bool → Padd → Padd
  set_menu is_open s =
      let t = if is_open then release_all s else s in
      record t { rules = record t.rules { menu_open = is_open } }

abbrev pub gain_max : ℕ
gain_max = 65535

-- The virtual pad of a seat, with its touchpad and its sensors, comes with every control at rest.
unfoldable pub plug : ℕ → Outputs → Outputs
plug seat O =
    if O.is_plugged seat
    then O
    else say (Out.watch_feedback seat true) (
        say (Out.plugged seat true) (record O {
          emitted = update O.emitted seat rest;
          gain = update O.gain seat gain_max;
          is_plugged = update O.is_plugged seat true;
        }))

-- They go, with the effects that a game has stored.
unfoldable pub unplug : ℕ → Outputs → Outputs
unplug seat O =
    let gone = record (say (Out.plugged seat false) (say (Out.watch_feedback seat false) O)) {
      is_plugged = update O.is_plugged seat false;
      effects = update O.effects seat [];
    } in
    if not (O.is_plugged seat) then O else if seat == blow_seat then send_blow false gone else gone

-- `if (seat < count || !seat)`: the first pad stays.
unfoldable pub set_pads : ℕ → Outputs → Outputs
set_pads count O =
    for_below pads_max
      (λ seat P. if ltb seat count || seat == 0 then plug seat P else unplug seat P) O
