-- ===== src/Padd/Sync.antt =====
-- guest/padd.c: what a seat's pad is told (hat, send_blow, sync_control, sync_pad).
pub mod Emitted
pub mod Synced
use anyconsole.Base.{ℕ, Bool, true, false, not, ◌&&◌, ◌||◌, Option, none, some, ◌==◌, if◌then◌else◌}
use anyconsole.Base.Int.{ℤ, pos, ◌+ℤ◌, ltb_ℤ, eqb_ℤ, is_nonzero}
use anyconsole.Base.Loop.{for_below}
use anyconsole.Padd.Codes.{input_devices_max}
use anyconsole.Padd.Codes.Ev
use anyconsole.Padd.Codes.Btn
use anyconsole.Padd.Controls.{control, control_count, rest, control_index}
use anyconsole.Padd.Floats.{Floats}
use anyconsole.Padd.State.{Out, View, Rules, Outputs, same_seat, update, say}
use anyconsole.Padd.Mapping.{truth, stronger, effective}

abbrev pub blow_seat : ℕ
blow_seat = 0

-- The value of a hat axis: the directions of its controls that are emitted, added up.
unfoldable pub hat : Outputs → ℕ → ℕ → ℤ
hat O seat code =
    for_below control_count
      (λ i value.
        if (control i).code == code
          && is_nonzero (control i).direction
          && is_nonzero (O.emitted seat i)
        then value +ℤ (control i).direction
        else value)
      (pos 0)

abbrev pub same_flag : Bool → Bool → Bool
same_flag true b = b
same_flag false b = not b

-- The helper is started only when none runs and the value differs from the one sent last.
unfoldable pub send_blow : Bool → Outputs → Outputs
send_blow on O =
    let asked = record O { blowing = on } in
    if O.blow_busy || same_flag on O.blow_sent
    then asked
    else if O.can_spawn
    then record (say (Out.set_blow on) asked) { blow_busy = true; blow_sent = on }
    else asked

-- The helper has ended: send what was asked for meanwhile.
unfoldable pub sent_blow : Outputs → Outputs
sent_blow O = send_blow O.blowing (record O { blow_busy = false })

abbrev pub emitted_at : Outputs → ℕ → Option ℕ → ℤ
emitted_at O seat none = pos 0
emitted_at O seat (some i) = O.emitted seat i

abbrev pub is_thumb : ℕ → Bool
is_thumb code = code == Btn.thumbl || code == Btn.thumbr

-- The blow of sync_control, once `emitted` has the new value.
unfoldable pub sync_blow : ℕ → ℕ → Outputs → Outputs
sync_blow seat i O =
    if seat == blow_seat && is_thumb (control i).code
    then send_blow
        (is_nonzero (emitted_at O seat (control_index Ev.key Btn.thumbl))
          && is_nonzero (emitted_at O seat (control_index Ev.key Btn.thumbr)))
        O
    else O

-- The events of sync_control.
unfoldable pub write_control : ℕ → ℕ → ℤ → Outputs → Outputs
write_control seat i value O =
    let c = control i in
    if c.kind == Ev.key
    then say (Out.pad_event seat Ev.key c.code value) O
    else if is_nonzero c.direction
    then say (Out.pad_event seat Ev.abs c.code (hat O seat c.code)) O
    else let moved = say (Out.pad_event seat Ev.abs c.code value) O in
      if not (c.button == 0)
      then say (Out.pad_event seat Ev.key c.button (truth (ltb_ℤ (pos 0) value))) moved
      else moved

abbrev pub set_emitted : ℕ → ℕ → ℤ → Outputs → Outputs
set_emitted seat i value O = record O {
  emitted = update O.emitted seat (update (O.emitted seat) i value);
}

-- The rest of sync_control, with the merged value of the control.
unfoldable pub emit_control : ℕ → ℕ → ℤ → Outputs → Outputs
emit_control seat i value O =
    if eqb_ℤ value (O.emitted seat i)
    then O
    else write_control seat i value (sync_blow seat i (set_emitted seat i value O))

-- device->id && device->pad == seat
abbrev pub sits : View → ℕ → Bool
sits v seat = not (v.id == 0) && same_seat v.pad seat

module _ ⦃F : Floats⦄ where
  -- A round of the loop of sync_control over the devices.
  unfoldable pub merge_device : Rules → (ℕ → View) → ℕ → ℕ → ℕ → ℤ → ℤ
  merge_device rules views seat i j value =
      if sits (views j) seat then stronger i value (effective rules (views j) i) else value

  -- The strongest value of those devices that sit at the pad.
  unfoldable pub merged : Rules → (ℕ → View) → ℕ → ℕ → ℤ
  merged rules views seat i = for_below input_devices_max (merge_device rules views seat i) (rest i)

  unfoldable pub sync_control : Rules → (ℕ → View) → ℕ → ℕ → Outputs → Outputs
  sync_control rules views seat i O = emit_control seat i (merged rules views seat i) O

  -- The test on pad[seat] of the loop is made once: a round does not change it.
  unfoldable pub sync_pad : Rules → (ℕ → View) → ℕ → Outputs → Outputs
  sync_pad rules views seat O =
      if O.is_plugged seat
      then for_below control_count (λ i. sync_control rules views seat i) O
      else O
