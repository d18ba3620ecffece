-- ===== src/Overlay/Players/Adopt.antt =====
-- Taking over the devices that padd has seated: who the members are, and that they play.
use anyconsole.Base.{
  ℕ, zero, suc, ◌+◌, ◌-◌, ◌≤◌, ◌<◌, ◌≡◌, refl, sym, ◌∙◌, ap, true, false, not, ◌&&◌, arith, ◌==◌,
  leb, if◌then◌else◌, if_true, if_false, Bool-cases, inl, inr, none, List, [], ◌∷◌, ◌++◌,
}
use mathlib.Core.List.{append_assoc, append-nil}
use anyconsole.Overlay.Players.{Member, Lobby, Told, pads_max, tell, seat_devices}
use anyconsole.Overlay.Players.Session.{Listed, adopt_each, adopt_members, reset_devices}
use anyconsole.Overlay.Players.Seated.{
  IsSeated, tell-IsSame, seat_devices-IsSame, IsSeated-IsSame, if-IsSame, IsSame-refl,
}

abbrev adopted : Listed → Lobby → Lobby
adopted d s = record s {
  member = λ k.
      if s.member_count == k
      then record { device = d.id; profile = s.player (d.pad - 1) }
      else s.member k;
  member_count = s.member_count + 1;
}

adopted-IsSeated :
    (d : Listed) (s : Lobby)
    → (not (d.pad == 0) && leb d.pad s.player_count) ≡ true
    → IsSeated s
    → IsSeated (adopted d s)
adopted-IsSeated d s on h = record {
  few = h.few;
  distinct = h.distinct;
  seated = λ i lt. elim (Bool-cases (s.member_count == i)) [
    | inl last ↦ rw last (d.pad - 1, ground arith, refl)
    | inr first ↦ rw first (h.seated i (ground arith))
  ];
}

adopt_each-IsSeated : (ds : List Listed) (s : Lobby) → IsSeated s → IsSeated (adopt_each ds s)
unfolding adopt_each
adopt_each-IsSeated [] s h = h
adopt_each-IsSeated (d ∷ ds) s h =
    elim (Bool-cases (not (d.pad == 0) && leb d.pad s.player_count)) [
      | inl on ↦ rw on (adopt_each-IsSeated ds _ (adopted-IsSeated d s on h))
      | inr off ↦ rw off (
          adopt_each-IsSeated ds _ (
            IsSeated-IsSame
              (if-IsSame (d.pad == 0) (IsSame-refl s) (tell-IsSame (Told.assign d.id 0) s)) h))
    ]

-- The first `n` members.
abbrev pub first_members : ℕ → (ℕ → Member) → List Member
first_members zero member = []
first_members (suc n) member = first_members n member ++ (member n ∷ [])

-- The listed devices that are on a player's seat, each with the profile of that player.
abbrev pub listed_members : (ℕ → ℕ) → ℕ → List Listed → List Member
listed_members player count [] = []
listed_members player count (d ∷ ds) =
    let rest = listed_members player count ds in
    if not (d.pad == 0) && leb d.pad count
    then record { device = d.id; profile = player (d.pad - 1) } ∷ rest
    else rest

first_members-same :
    (n : ℕ) (f g : ℕ → Member)
    → ((k : ℕ) → k < n → f k ≡ g k)
    → first_members n f ≡ first_members n g
first_members-same zero f g h = refl
first_members-same (suc n) f g h =
    ap (λ ms. ms ++ (f n ∷ [])) (first_members-same n f g (λ k lt. h k (omega arith)))
    ∙ ap (λ m. first_members n g ++ (m ∷ [])) (h n (omega arith))

first_members-write :
    (n : ℕ) (f : ℕ → Member) (m : Member)
    → first_members (n + 1) (λ k. if n == k then m else f k) ≡ first_members n f ++ (m ∷ [])
first_members-write n f m =
    let own : (n == n) ≡ true = ground arith in
    let next : n + 1 ≡ suc n = omega arith in
    ap (λ j. first_members j (λ k. if n == k then m else f k)) next
    ∙ ap (λ (x : Member). first_members n (λ k. if n == k then m else f k) ++ (x ∷ []))
        (if_true m (f n) own)
    ∙ ap (λ ms. ms ++ (m ∷ [])) (first_members-same n _ f (λ k lt. if_false m (f k) (ground arith)))

adopt_each-on :
    (d : Listed) (ds : List Listed) (s : Lobby)
    → (not (d.pad == 0) && leb d.pad s.player_count) ≡ true
    → adopt_each (d ∷ ds) s ≡ adopt_each ds (adopted d s)
unfolding adopt_each
adopt_each-on d ds s on = rw on refl

adopt_each-off :
    (d : Listed) (ds : List Listed) (s : Lobby)
    → (not (d.pad == 0) && leb d.pad s.player_count) ≡ false
    → adopt_each (d ∷ ds) s ≡ adopt_each ds (if d.pad == 0 then s else tell (Told.assign d.id 0) s)
unfolding adopt_each
adopt_each-off d ds s off = rw off refl

abbrev members_of : Lobby → List Member
members_of s = first_members s.member_count s.member

abbrev with_listed : List Listed → Lobby → List Member
with_listed ds s = members_of s ++ listed_members s.player s.player_count ds

with_listed-told :
    (d : Listed) (ds : List Listed) (s : Lobby)
    → with_listed ds (if d.pad == 0 then s else tell (Told.assign d.id 0) s) ≡ with_listed ds s
with_listed-told d ds s =
    let same = if-IsSame (d.pad == 0) (IsSame-refl s) (tell-IsSame (Told.assign d.id 0) s) in
    rw (same.same_member)
      (rw (same.same_members) (rw (same.same_player) (rw (same.same_players) refl)))

adopt_each-members :
    (ds : List Listed) (s : Lobby) → members_of (adopt_each ds s) ≡ with_listed ds s
unfolding adopt_each
adopt_each-members [] s = sym (append-nil _)
adopt_each-members (d ∷ ds) s = elim (Bool-cases (not (d.pad == 0) && leb d.pad s.player_count)) [
  | inl on ↦
      ap members_of (adopt_each-on d ds s on)
      ∙ adopt_each-members ds (adopted d s)
      ∙ ap (λ ms. ms ++ listed_members s.player s.player_count ds)
          (first_members-write s.member_count s.member
            (record { device = d.id; profile = s.player (d.pad - 1) }))
      ∙ append_assoc (members_of s) _ _
      ∙ ap (λ ms. members_of s ++ ms) (sym (if_true _ _ on))
  | inr off ↦
      ap members_of (adopt_each-off d ds s off)
      ∙ adopt_each-members ds _
      ∙ with_listed-told d ds s
      ∙ ap (λ ms. members_of s ++ ms) (sym (if_false _ _ off))
]

-- There are at most as many players as pads, and no profile plays twice.
pub record HasPlayers (s : Lobby) : Type 0 where
  pub few : s.player_count ≤ pads_max
  pub distinct :
      (i k : ℕ) → i < s.player_count → k < s.player_count → s.player i ≡ s.player k → i ≡ k

-- After padd restarts, with no profile playing twice and no more players than pads: whatever members
-- there were, seated or not, the members are exactly the listed devices that are on a player's seat, in
-- the order of the list, each for that player's profile; and each member's profile plays.
pub reset_devices-IsSeated :
    (listed : List Listed) (s : Lobby)
    → HasPlayers s
    → let t = reset_devices listed s in
      IsSeated t
      × (first_members t.member_count t.member ≡ listed_members s.player s.player_count listed)
unfolding reset_devices adopt_members
reset_devices-IsSeated listed s h = (
  IsSeated-IsSame (seat_devices-IsSame u) (
      IsSeated-IsSame
        (record {
          same_member = refl;
          same_members = refl;
          same_player = refl;
          same_players = refl;
        })
        (adopt_each-IsSeated listed none_of
          (record { few = h.few; distinct = h.distinct; seated = λ i lt. absurd (omega arith) }))),
  ap (λ n. first_members n (seat_devices u).member) (seat_devices-IsSame u).same_members
      ∙ ap (λ f. first_members u.member_count f) (seat_devices-IsSame u).same_member
      ∙ adopt_each-members listed none_of,
)
  where
    none_of : Lobby
    none_of = record s { member_count = 0 }

    u : Lobby
    u = record (adopt_each listed none_of) {
      picker = none;
      focus = none;
      input_device = none;
      guide_shown = false;
    }
