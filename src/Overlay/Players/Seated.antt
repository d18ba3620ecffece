-- ===== src/Overlay/Players/Seated.antt =====
-- Logging in and out keeps every member on a seat that a player has.
use anyconsole.Base.{
  ℕ, ◌+◌, ◌≤◌, ◌<◌, ◌≡◌, refl, ◌∙◌, sym, Bool, true, false, ◌&&◌, arith, ◌==◌, ==_iff, ltb,
  if◌then◌else◌, Option, none, some, Bool-cases, inl, inr, List, [], ◌∷◌,
}
use anyconsole.Base.Loop.{for_below_inv}
use anyconsole.Overlay.Players.{
  Member, Owned, Lobby, Told, pads_max, tell, seat_of, seat_devices, seat_for, open_first,
  take_seat, same_device, close_picker, close_owned,
}
use anyconsole.Overlay.Players.Search.{first_from-cases}
use anyconsole.Overlay.Players.Drops.{IsSame, IsDropped}

-- There are at most as many players as pads, no profile plays twice, and every member's profile plays.
pub record IsSeated (s : Lobby) : Type 0 where
  pub few : s.player_count ≤ pads_max
  pub distinct :
      (i k : ℕ) → i < s.player_count → k < s.player_count → s.player i ≡ s.player k → i ≡ k
  pub seated :
      (i : ℕ)
      → i < s.member_count
      → (k : ℕ) × (k < s.player_count) × (s.player k ≡ (s.member i).profile)

abbrev pub HasSeat : Lobby → ℕ → Type 0
HasSeat s profile = (k : ℕ) × (k < s.player_count) × (s.player k ≡ profile)

pub IsSame-refl : (s : Lobby) → IsSame s s
IsSame-refl s = record {
  same_member = refl;
  same_members = refl;
  same_player = refl;
  same_players = refl;
}

pub IsSame-trans : {s t u : Lobby} → IsSame s t → IsSame t u → IsSame s u
IsSame-trans a b = record {
  same_member = b.same_member ∙ a.same_member;
  same_members = b.same_members ∙ a.same_members;
  same_player = b.same_player ∙ a.same_player;
  same_players = b.same_players ∙ a.same_players;
}

pub if-IsSame : {s t u : Lobby} (b : Bool) → IsSame s t → IsSame s u → IsSame s (if b then t else u)
if-IsSame true h k = h
if-IsSame false h k = k

pub tell-IsSame : (t : Told) (s : Lobby) → IsSame s (tell t s)
tell-IsSame t s = record {
  same_member = refl;
  same_members = refl;
  same_player = refl;
  same_players = refl;
}

pub seat_devices-IsSame : (s : Lobby) → IsSame s (seat_devices s)
unfolding seat_devices
seat_devices-IsSame s =
    IsSame-trans
      (for_below_inv (λ n t. IsSame s t) _ (λ i t h. IsSame-trans h (tell-IsSame _ t))
        s.member_count (tell (Told.pads s.player_count) (tell Told.session_saved s))
        (record {
          same_member = refl;
          same_members = refl;
          same_player = refl;
          same_players = refl;
        }))
      (record { same_member = refl; same_members = refl; same_player = refl; same_players = refl })

pub close_owned-IsSame :
    (profile : ℕ) (gs : List Owned) (i : ℕ) (s : Lobby) → IsSame s (close_owned profile gs i s)
unfolding close_owned
close_owned-IsSame profile [] i s = IsSame-refl s
close_owned-IsSame profile (g ∷ gs) i s =
    IsSame-trans
      (if-IsSame (g.owner == profile && g.running) (tell-IsSame (Told.close_game i) s)
        (IsSame-refl s))
      (close_owned-IsSame profile gs (i + 1) _)

pub close_picker-IsSame : (device : Option ℕ) (s : Lobby) → IsSame s (close_picker device s)
close_picker-IsSame device s =
    if-IsSame (same_device device s.picker)
      (record { same_member = refl; same_members = refl; same_player = refl; same_players = refl })
      (IsSame-refl s)

pub open_first-IsSame : (s : Lobby) → IsSame s (open_first s)
unfolding open_first
open_first-IsSame s =
    if-IsSame (s.player_count == 0)
      (record { same_member = refl; same_members = refl; same_player = refl; same_players = refl })
      (IsSame-refl s)

pub IsSeated-IsSame : {s t : Lobby} → IsSame s t → IsSeated s → IsSeated t
IsSeated-IsSame v h = record {
  few = rw v.same_players h.few;
  distinct = rw (v.same_players, v.same_player) h.distinct;
  seated = rw (v.same_players, v.same_player, v.same_members, v.same_member) h.seated;
}

pub IsSeated-IsDropped :
    {test : Member → Bool} {n : ℕ} {s t : Lobby} → IsDropped test n s t → IsSeated s → IsSeated t
IsSeated-IsDropped {t} d h = record {
  few = rw d.same_players h.few;
  distinct = rw (d.same_players, d.same_player) h.distinct;
  seated = λ i lt.
      let (k, below, e) = d.from i lt in
      let (j, under, f) = h.seated k below in (j, rw d.same_players under, rw (d.same_player, e) f);
}

abbrev seat_next : ℕ → Lobby → Lobby
seat_next profile s = record s {
  player = λ k. if s.player_count == k then profile else s.player k;
  player_count = s.player_count + 1;
}

seat_next-player :
    (profile : ℕ) (s : Lobby) (k : ℕ)
    → k < s.player_count
    → (seat_next profile s).player k ≡ s.player k
seat_next-player profile s k lt = ground arith

seat_next-last : (profile : ℕ) (s : Lobby) → (seat_next profile s).player s.player_count ≡ profile
seat_next-last profile s = ground arith

seat_next-IsSeated :
    (profile : ℕ) (s : Lobby)
    → s.player_count < pads_max
    → ((k : ℕ) → k < s.player_count → (s.player k == profile) ≡ false)
    → IsSeated s
    → IsSeated (seat_next profile s)
seat_next-IsSeated profile s room fresh h = record {
  few = omega arith;
  distinct = λ i k lt under e. apart_or i k (ground arith) (ground arith) e;
  seated = λ i lt.
      let (k, under, e) = h.seated i lt in (k, omega arith, seat_next-player profile s k under ∙ e);
}
  where
    apart_or :
        (i k : ℕ)
        → i ≤ s.player_count
        → k ≤ s.player_count
        → (seat_next profile s).player i ≡ (seat_next profile s).player k
        → i ≡ k
    apart_or i k lt under e = elim (Bool-cases (s.player_count == i)) [
      | inl last ↦ elim (Bool-cases (s.player_count == k)) [
        | inl end ↦ sym ((==_iff _ i).0 last) ∙ (==_iff _ k).0 end
        | inr inner ↦ ground (arith, fresh k)
      ]
      | inr first ↦ elim (Bool-cases (s.player_count == k)) [
        | inl end ↦ ground (arith, fresh i)
        | inr inner ↦ h.distinct i k (ground arith) (ground arith) (ground arith)
      ]
    ]

room_for :
    (profile : ℕ) (s : Lobby) (seat : ℕ)
    → seat_of s profile ≡ none
    → seat_for s profile ≡ some seat
    → s.player_count < pads_max
unfolding seat_for
room_for profile s seat at e = elim (Bool-cases (ltb s.player_count pads_max)) [
  | inl lt ↦ ground arith
  | inr full ↦ ground (arith, e, at, full)
]

-- A profile that plays keeps its seat, and one that does not gets the next.
pub take_seat-IsSeated :
    (profile : ℕ) (s : Lobby) (seat : ℕ)
    → seat_for s profile ≡ some seat
    → IsSeated s
    → IsSeated (take_seat profile s) × HasSeat (take_seat profile s) profile
unfolding take_seat seat_of
take_seat-IsSeated profile s seat e h =
    elim (first_from-cases (λ i. s.player i == profile) s.player_count 0) [
      | inl (k, at, f) ↦
          rw (at, take_seat)
            (h, (k, omega (arith, f.high), (==_iff (s.player k) profile).0 f.passes))
      | inr (at, missing) ↦
          rw (at, take_seat)
            (
              seat_next-IsSeated profile s (room_for profile s seat at e)
                  (λ k lt. missing k (omega arith) (omega arith)) h,
              (s.player_count, omega arith, seat_next-last profile s),
            )
    ]
