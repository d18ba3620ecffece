-- ===== src/Padd/Lifecycle/Menu.antt =====
-- Opening the menu lets go of every control: release_all and set_menu.
use anyconsole.Base.{
  ℕ, suc, ◌<◌, ◌≡◌, refl, ◌∙◌, sym, ap, true, false, arith, ◌==◌, ==_iff, subst, if◌then◌else◌,
  Bool-cases, inl, inr,
}
use anyconsole.Base.Loop.{for_below_inv}
use anyconsole.Padd.Codes.{input_devices_max}
use anyconsole.Padd.Controls.{control_count, rest}
use anyconsole.Padd.Floats.{Floats, IsIeee}
use anyconsole.Padd.State.{Rules, Padd, views}
use anyconsole.Padd.Mapping.Rest.{IsResting}
use anyconsole.Padd.Sync.Synced.{IsSynced}
use anyconsole.Padd.Lifecycle.{release, release_all, set_menu}
use anyconsole.Padd.Lifecycle.Release.{Released, release-Released}
use anyconsole.Padd.Lifecycle.Synced.{IsCalm, merged-rest}

module _ ⦃F : Floats⦄ where
  -- From `s` to `t` the pads stay in step, and the devices of the first `n` cells come to rest.
  pub record Emptied (s t : Padd) (n : ℕ) : Type 0 where
    pub synced : IsSynced t
    pub same_rules : t.rules ≡ s.rules
    pub same_plugs : t.is_plugged ≡ s.is_plugged
    pub same_ids : (k : ℕ) → (views t k).id ≡ (views s k).id
    pub still : (k : ℕ) → k < n → ((views t k).id == 0) ≡ false → IsResting (views t k)

  ids-release :
      (s t u : Padd) (j : ℕ)
      → ((k : ℕ) → (views t k).id ≡ (views s k).id)
      → Released t u j control_count
      → (k : ℕ) → (views u k).id ≡ (views s k).id
  ids-release s t u j same r k = elim (Bool-cases (j == k)) [
    | inl e ↦ subst (λ n. (views u n).id ≡ (views s n).id) ((==_iff j k).0 e) (r.same_id ∙ same j)
    | inr e ↦ ap (λ v. v.id) (r.others k e) ∙ same k
  ]

  -- A free cell has no control to let go of.
  skip-Emptied :
      (s : Padd) (j : ℕ) (t : Padd)
      → ((t.device j).id == 0) ≡ true
      → Emptied s t j
      → Emptied s t (suc j)
  skip-Emptied s j t free h = record {
    synced = h.synced;
    same_rules = h.same_rules;
    same_plugs = h.same_plugs;
    same_ids = h.same_ids;
    still = λ k lt used. elim (Bool-cases (j == k)) [
      | inl e ↦ cc (ap (λ n. (views t n).id == 0) ((==_iff j k).0 e))
      | inr e ↦ h.still k (ground arith) used
    ];
  }

  release-Emptied :
      (s : Padd)
      → s.dial ≡ false
      → (j : ℕ) (t : Padd) → Emptied s t j
      → Emptied s (release j t) (suc j)
  release-Emptied s off j t h = record {
    synced = r.synced;
    same_rules = r.same_rules ∙ h.same_rules;
    same_plugs = r.same_plugs ∙ h.same_plugs;
    same_ids = ids-release s t (release j t) j h.same_ids r;
    still = λ k lt used. elim (Bool-cases (j == k)) [
      | inl e ↦ subst (λ n. IsResting (views (release j t) n)) ((==_iff j k).0 e) r.at_rest
      | inr e ↦ (λ c m.
          ap (λ v. v.raw c) (r.others k e)
          ∙ h.still k (ground arith) (ap (λ v. v.id == 0) (sym (r.others k e)) ∙ used) c m)
    ];
  }
    where
      r : Released t (release j t) j control_count
      r = release-Released t j (ap (λ (q : Rules). q.dial) h.same_rules ∙ off) h.synced

  round-Emptied :
      (s : Padd)
      → s.dial ≡ false
      → (j : ℕ) (t : Padd) → Emptied s t j
      → Emptied s (if (t.device j).id == 0 then t else release j t) (suc j)
  round-Emptied s off j t h = elim (Bool-cases ((t.device j).id == 0)) [
    | inl free ↦ rw free (skip-Emptied s j t free h)
    | inr used ↦ rw used (release-Emptied s off j t h)
  ]

  pub release_all-Emptied :
      (s : Padd) → s.dial ≡ false → IsSynced s → Emptied s (release_all s) input_devices_max
  unfolding release_all
  release_all-Emptied s off h =
      for_below_inv (λ n t. Emptied s t n) _ (round-Emptied s off) input_devices_max s
        (record {
          synced = h;
          same_rules = refl;
          same_plugs = refl;
          same_ids = λ k. refl;
          still = λ k lt. absurd (omega arith);
        })

  -- No stuck control: with the pads in step, no dial and routes from the table, opening the menu leaves
  -- every control of every plugged pad at rest.
  pub set_menu_open-rest :
      (ieee : IsIeee F) (s : Padd) (seat i : ℕ)
      → IsCalm s.rules
      → IsSynced s
      → s.is_plugged seat ≡ true
      → i < control_count
      → (set_menu true s).emitted seat i ≡ rest i
  unfolding set_menu
  set_menu_open-rest ieee s seat i calm h p lt =
      let e = release_all-Emptied s calm.no_dial h in
      e.synced.in_step seat i (ap (λ f. f seat) e.same_plugs ∙ p) lt
      ∙ merged-rest ieee (release_all s).rules (views (release_all s)) seat i (rw e.same_rules calm)
          lt λ j below here. e.still j below (ground arith)
