-- ===== src/Overlay/Players/Session.antt =====
-- guest/overlay.c: the players and devices that are taken over when the overlay or padd starts, and a
-- device that comes (load_session, adopt_members, reset_devices, connected).
use anyconsole.Base.{
  ℕ, ◌+◌, ◌-◌, Bool, false, not, ◌&&◌, ◌||◌, none, List, [], ◌∷◌, ltb, leb, ◌==◌, if◌then◌else◌,
}
use anyconsole.Overlay.Players.{Told, Lobby, tell, pads_max, same_device, seat_devices, open_picker}

-- players[] of the last session, whose profiles the file lists.
unfoldable pub load_session : List ℕ → Lobby → Lobby
load_session [] s = s
load_session (profile ∷ profiles) s =
    if ltb s.player_count pads_max
    then load_session profiles (record s {
      player = λ k. if s.player_count == k then profile else s.player k;
      player_count = s.player_count + 1;
    })
    else s

-- A device of the controllers file: its id, and padd's number of its seat, 0 for none.
pub record Listed : Type 0 where
  pub id : ℕ
  pub pad : ℕ

-- The loop of adopt_members: a device on a seat plays for the profile of that seat, and one on a seat
-- that nobody has is taken off it.
unfoldable pub adopt_each : List Listed → Lobby → Lobby
adopt_each [] s = s
adopt_each (d ∷ ds) s = adopt_each ds (
    if not (d.pad == 0) && leb d.pad s.player_count
    then record s {
      member = λ k.
          if s.member_count == k
          then record { device = d.id; profile = s.player (d.pad - 1) }
          else s.member k;
      member_count = s.member_count + 1;
    }
    else if d.pad == 0
    then s
    else tell (Told.assign d.id 0) s)

unfoldable pub adopt_members : List Listed → Lobby → Lobby
adopt_members listed s = adopt_each listed (record s { member_count = 0 })

-- reset_devices, for what it does to the players: the controllers file has been read.
unfoldable pub reset_devices : List Listed → Lobby → Lobby
reset_devices listed s = seat_devices (record (adopt_members listed s) {
  picker = none;
  focus = none;
  input_device = none;
  guide_shown = false;
})

-- connected: a new device opens the picker when it is wireless, or has no guide button of its own.
unfoldable pub connected : Bool → Bool → ℕ → Lobby → Lobby
connected is_wireless has_guide device s =
    if same_device s.picker none && (is_wireless || (not (s.player_count == 0) && not has_guide))
    then open_picker device s
    else s
