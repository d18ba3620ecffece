-- ===== src/Compositor/Displays/Order.antt =====
-- The display that is chosen is one that no display beats: better and best_of.
use anyconsole.Base.{
  ℕ, ◌≡◌, refl, inl, inr, Bool, true, false, Option, none, some, List, [], ◌∷◌, All, ◌==◌, ltb, not,
  ◌&&◌, if◌then◌else◌, arith, Bool-cases,
}
use anyconsole.Base.Int.{ℤ, eqb_ℤ, ltb_ℤ}
use anyconsole.Compositor.Displays.{
  Display, Screens, rank, is_pinned, same_bool, better_than, better, best_of,
}

-- The order of displays by pin, rank, connection and GPU, first difference first.
abbrev beats : Bool → Bool → ℤ → ℤ → ℕ → ℕ → Bool → Bool → Bool
beats pa pb ra rb ca cb ga gb =
    if not (same_bool pa pb)
    then pa
    else if not (eqb_ℤ ra rb)
    then ltb_ℤ rb ra
    else if not (ca == cb)
    then ltb cb ca
    else ga && not gb

beats_irrefl : (p : Bool) (r : ℤ) (c : ℕ) (g : Bool) → beats p p r r c c g g ≡ false
beats_irrefl p r c g = ground arith

-- At each place: what comes after a tie keeps the order, so this does.
pin_trans :
    (a b d : Bool) (ab db da : Bool)
    → (ab ≡ true → db ≡ false → da ≡ false)
    → (if not (same_bool a b) then a else ab) ≡ true
    → (if not (same_bool d b) then d else db) ≡ false
    → (if not (same_bool d a) then d else da) ≡ false
pin_trans true true true ab db da next h k = next h k
pin_trans true true false ab db da next h k = refl
pin_trans true false true ab db da next h k = absurd (ground arith)
pin_trans true false false ab db da next h k = refl
pin_trans false true true ab db da next h k = absurd (ground arith)
pin_trans false true false ab db da next h k = absurd (ground arith)
pin_trans false false true ab db da next h k = absurd (ground arith)
pin_trans false false false ab db da next h k = next h k

rank_trans :
    (a b d : ℤ) (ab db da : Bool)
    → (ab ≡ true → db ≡ false → da ≡ false)
    → (if not (eqb_ℤ a b) then ltb_ℤ b a else ab) ≡ true
    → (if not (eqb_ℤ d b) then ltb_ℤ b d else db) ≡ false
    → (if not (eqb_ℤ d a) then ltb_ℤ a d else da) ≡ false
rank_trans a b d ab db da next h k = ground arith

count_trans :
    (a b d : ℕ) (ab db da : Bool)
    → (ab ≡ true → db ≡ false → da ≡ false)
    → (if not (a == b) then ltb b a else ab) ≡ true
    → (if not (d == b) then ltb b d else db) ≡ false
    → (if not (d == a) then ltb a d else da) ≡ false
count_trans a b d ab db da next h k = ground arith

gpu_trans : (a b d : Bool) → (a && not b) ≡ true → (d && not b) ≡ false → (d && not a) ≡ false
gpu_trans a b d h k = ground arith

better_than_irrefl : (s : Screens) (d : Display) → better_than s d d ≡ false
unfolding better_than
better_than_irrefl s d =
    beats_irrefl (is_pinned s.pinned d) (rank s d) d.connected (d.gpu == s.render_gpu)

-- What does not beat the best so far does not beat what beats that.
better_than_trans :
    (s : Screens) (a b d : Display)
    → better_than s a b ≡ true
    → better_than s d b ≡ false
    → better_than s d a ≡ false
unfolding better_than
better_than_trans s a b d =
    pin_trans (is_pinned s.pinned a) (is_pinned s.pinned b) (is_pinned s.pinned d) _ _ _ (
      rank_trans (rank s a) (rank s b) (rank s d) _ _ _ (
        count_trans a.connected b.connected d.connected _ _ _
          (gpu_trans (a.gpu == s.render_gpu) (b.gpu == s.render_gpu) (d.gpu == s.render_gpu))))

-- None of the displays beats `best`, and there is one if there is a display.
abbrev pub IsBest : Screens → List Display → Option Display → Type 0
IsBest s ds none = ds ≡ []
IsBest s ds (some best) = All (λ d. better_than s d best ≡ false) ds

-- What has been seen does not beat the best so far.
abbrev Unbeaten : Screens → Display → Option Display → Type 0
Unbeaten s d none = ⊥
Unbeaten s d (some best) = better_than s d best ≡ false

step_Unbeaten :
    (s : Screens) (a d : Display) (best : Option Display)
    → Unbeaten s d best
    → Unbeaten s d (if better s a best then some a else best)
unfolding better
step_Unbeaten s a d none h = absurd h
step_Unbeaten s a d (some b) h = elim (Bool-cases (better_than s a b)) [
  | inl e ↦ rw e (better_than_trans s a b d e h)
  | inr e ↦ rw e h
]

new_Unbeaten :
    (s : Screens) (d : Display) (best : Option Display)
    → Unbeaten s d (if better s d best then some d else best)
unfolding better
new_Unbeaten s d none = better_than_irrefl s d
new_Unbeaten s d (some b) = elim (Bool-cases (better_than s d b)) [
  | inl e ↦ rw e (better_than_irrefl s d)
  | inr e ↦ rw e e
]

best_of-Unbeaten :
    (s : Screens) (ds : List Display) (d : Display) (best : Option Display)
    → Unbeaten s d best
    → Unbeaten s d (best_of s ds best)
unfolding best_of
best_of-Unbeaten s [] d best h = h
best_of-Unbeaten s (a ∷ ds) d best h = best_of-Unbeaten s ds d _ (step_Unbeaten s a d best h)

best_of-All :
    (s : Screens) (ds : List Display) (best : Option Display)
    → All (λ d. Unbeaten s d (best_of s ds best)) ds
unfolding best_of
best_of-All s [] best = tt
best_of-All s (d ∷ ds) best =
    (best_of-Unbeaten s ds d _ (new_Unbeaten s d best), best_of-All s ds _)

IsBest-Unbeaten :
    (s : Screens) (ds : List Display) (best : Option Display)
    → All (λ d. Unbeaten s d best) ds
    → IsBest s ds best
IsBest-Unbeaten s [] none h = refl
IsBest-Unbeaten s (d ∷ ds) none h = absurd h.0
IsBest-Unbeaten s ds (some b) h = h

-- None of the displays beats the one that is found.
pub best_of-IsBest : (s : Screens) (ds : List Display) → IsBest s ds (best_of s ds none)
best_of-IsBest s ds = IsBest-Unbeaten s ds (best_of s ds none) (best_of-All s ds none)
