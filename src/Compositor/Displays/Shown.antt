-- ===== src/Compositor/Displays/Shown.antt =====
-- How the compositor goes on with a display: show_display.
use Prim.Native.String.{String}
use anyconsole.Base.{
  ℕ, ◌≡◌, refl, sym, ◌∙◌, ap, ◌⊎◌, inl, inr, Bool, true, false, not, ◌||◌, Option, none, some, List,
  [], ◌∷◌, ◌++◌, ==_iff, if◌then◌else◌, arith, Bool-cases,
}
use mathlib.Core.List.{map, reverse, append_assoc, reverse-cons}
use anyconsole.Compositor.Displays.{Mode, Display, Call, Screens}
use anyconsole.Compositor.Displays.Choice.{
  id_of, is_id, same_id, activate_each, activate, changes_mode, show_display,
}

same_id→eq : (a b : Option ℕ) → same_id a b ≡ true → a ≡ b
same_id→eq none none h = refl
same_id→eq none (some j) h = absurd (ground arith)
same_id→eq (some i) none h = absurd (ground arith)
same_id→eq (some i) (some j) h = ap some ((==_iff i j).0 h)

-- The GPUs that have been written down for the next start.
abbrev pub written : List Call → List ℕ
written [] = []
written (Call.write_gpu gpu ∷ calls) = gpu ∷ written calls
written (c ∷ calls) = written calls

-- The displays that have been enabled, with true, and disabled, with false; the last one first.
abbrev pub committed : List Call → List (ℕ × Bool)
committed [] = []
committed (Call.commit id none ∷ calls) = (id, false) ∷ committed calls
committed (Call.commit id (some mode) ∷ calls) = (id, true) ∷ committed calls
committed (c ∷ calls) = committed calls

-- Each display, and whether it is the wanted one.
abbrev pub switched : Option ℕ → List Display → List (ℕ × Bool)
switched wanted ds = map (λ (d : Display). (d.id, is_id wanted d.id)) ds

-- The compositor goes on with the display, and writes down no GPU. Unless the display was active before,
-- it is enabled and every other one disabled.
pub record GoesOn (s t : Screens) (wanted : Option Display) : Type 0 where
  pub stopping : t.stopping ≡ false
  pub is_active : id_of t.active ≡ id_of wanted
  pub told : List Call
  pub called : t.calls ≡ Call.write_state ∷ Call.update_canvas ∷ told
  pub keeps_gpu : written told ≡ written s.calls
  pub commits :
      (committed told ≡ reverse (switched (id_of wanted) s.displays) ++ committed s.calls)
      ⊎ ((id_of wanted ≡ id_of s.active) × (committed told ≡ committed s.calls))

if_keeps {ℓ} :
    {A : Type ℓ} (f : Screens → A) (a : A) {t u : Screens} (b : Bool)
    → f t ≡ a
    → f u ≡ a
    → f (if b then t else u) ≡ a
if_keeps f a true h k = h
if_keeps f a false h k = k

written-commit :
    (b : Bool) (s : Screens) (id applied : ℕ) (mode : Option Mode)
    → written
        (if b
          then record s { applied_mode = some applied; calls = Call.commit id mode ∷ s.calls }
          else record s { calls = Call.commit id none ∷ s.calls }).calls
      ≡ written s.calls
written-commit true s id applied mode = refl
written-commit false s id applied mode = refl

committed-commit :
    (b : Bool) (s : Screens) (id applied : ℕ) (mode : Mode)
    → committed
        (if b
          then record s {
            applied_mode = some applied;
            calls = Call.commit id (some mode) ∷ s.calls;
          }
          else record s { calls = Call.commit id none ∷ s.calls }).calls
      ≡ (id, b) ∷ committed s.calls
committed-commit true s id applied mode = refl
committed-commit false s id applied mode = refl

module _ (print : Mode → String) (accepts : ℕ → Mode → Bool) where
  activate_each-Kept :
      (wanted : Option ℕ) (ds : List Display) (s : Screens)
      → let t = activate_each print accepts wanted ds s in
        (t.stopping ≡ s.stopping) × (t.pending ≡ s.pending) × (written t.calls ≡ written s.calls)
  unfolding activate_each
  activate_each-Kept wanted [] s = (refl, refl, refl)
  activate_each-Kept wanted (d ∷ ds) s =
      let (stopping, pending, gpus) = activate_each-Kept wanted ds _ in
      (
        stopping ∙ if_keeps (λ t. t.stopping) s.stopping _ refl refl,
        pending ∙ if_keeps (λ t. t.pending) s.pending _ refl refl,
        gpus ∙ written-commit (is_id wanted d.id) s d.id _ _,
      )

  activate_each-committed :
      (wanted : Option ℕ) (ds : List Display) (s : Screens)
      → committed (activate_each print accepts wanted ds s).calls
        ≡ reverse (switched wanted ds) ++ committed s.calls
  unfolding activate_each
  activate_each-committed wanted [] s = refl
  activate_each-committed wanted (d ∷ ds) s =
      activate_each-committed wanted ds _
      ∙ ap (λ cs. reverse (switched wanted ds) ++ cs)
          (committed-commit (is_id wanted d.id) s d.id _ _)
      ∙ sym (
          append_assoc (reverse (switched wanted ds)) ((d.id, is_id wanted d.id) ∷ [])
            (committed s.calls))
      ∙ ap (λ cs. cs ++ committed s.calls)
          (sym (reverse-cons (d.id, is_id wanted d.id) (switched wanted ds)))

  pub show_display-GoesOn :
      (wanted : Option Display) (s : Screens)
      → s.stopping ≡ false
      → GoesOn s (show_display print accepts wanted s) wanted
        × ((show_display print accepts wanted s).pending ≡ s.pending)
  unfolding show_display activate
  show_display-GoesOn wanted s off =
      elim (Bool-cases
        (not (same_id (id_of wanted) (id_of s.active)) || changes_mode print accepts s wanted)) [
          | inl e ↦ rw e (
              let (stopping, pending, gpus) = activate_each-Kept (id_of wanted) s.displays s in
              (
                record {
                  stopping = stopping ∙ off;
                  is_active = refl;
                  told = _;
                  called = refl;
                  keeps_gpu = gpus;
                  commits = inl (activate_each-committed (id_of wanted) s.displays s);
                },
                pending,
              ))
          | inr e ↦ rw e (
            record {
              stopping = off;
              is_active = sym (same_id→eq (id_of wanted) (id_of s.active) (ground arith));
              told = s.calls;
              called = refl;
              keeps_gpu = refl;
              commits = inr (same_id→eq (id_of wanted) (id_of s.active) (ground arith), refl);
            },
            refl,
          )
        ]
