-- ===== src/Padd/Maps/Loaded.antt =====
-- A game's mappings take the place of the last game's: load_maps.
use anyconsole.Base.{
  ℕ, ◌<◌, ◌≡◌, refl, ◌∙◌, sym, ap, true, false, ◌==◌, Option, none, some, arith, subst,
}
use anyconsole.Padd.Codes.{input_devices_max}
use anyconsole.Padd.Floats.{Floats, IsIeee}
use anyconsole.Padd.State.{Out, Padd, views}
use anyconsole.Padd.Mapping.Rest.{IsResting}
use anyconsole.Padd.Devices.SameView.{SameView, SameView-trans, press_key-SameView, tell-SameView}
use anyconsole.Padd.Sync.{sits}
use anyconsole.Padd.Sync.Synced.{IsSynced}
use anyconsole.Padd.Lifecycle.{release_all}
use anyconsole.Padd.Lifecycle.Synced.{IsCalm, merged-rest}
use anyconsole.Padd.Lifecycle.Menu.{release_all-Emptied}
use anyconsole.Padd.Maps.{Config, release_boot_key, read_boot_hold, clear_maps, load_maps}
use anyconsole.Padd.Maps.Routes.{add_routes-IsRouted}

module _ ⦃F : Floats⦄ where
  -- Every pad is at rest, whatever the rules.
  record IsStill (s : Padd) : Type 0 where
    pub synced : IsSynced s
    pub calm : IsCalm s.rules
    pub still :
        (k : ℕ) → k < input_devices_max → ((views s k).id == 0) ≡ false → IsResting (views s k)

  release_boot_key-SameView : (s : Padd) → SameView s (release_boot_key s)
  unfolding release_boot_key
  release_boot_key-SameView s =
      SameView-trans (press_key-SameView s.boot_key false s)
        (tell-SameView (Out.hold_timer false) _)

  sits-used : (s : Padd) (j seat : ℕ) → sits (views s j) seat ≡ true → ((views s j).id == 0) ≡ false
  sits-used s j seat here = ground arith

  -- What is at rest stays so when the rules change.
  change-IsStill :
      (ieee : IsIeee F) (s t : Padd)
      → IsStill s
      → IsCalm t.rules
      → views t ≡ views s
      → t.is_plugged ≡ s.is_plugged
      → t.emitted ≡ s.emitted
      → IsStill t
  change-IsStill ieee s t h calm vs ps es = record {
    synced = record {
      in_step = λ seat i p lt.
          ap (λ f. f seat i) es
          ∙ h.synced.in_step seat i (ap (λ f. f seat) (sym ps) ∙ p) lt
          ∙ merged-rest ieee s.rules (views s) seat i h.calm lt
              (λ j below here. h.still j below (sits-used s j seat here))
          ∙ sym (
              merged-rest ieee t.rules (views t) seat i calm lt
                λ j below here. still' j below (sits-used t j seat here));
    };
    calm = calm;
    still = still';
  }
    where
      still' :
          (k : ℕ) → k < input_devices_max → ((views t k).id == 0) ≡ false → IsResting (views t k)
      still' k below used =
          subst (λ f. IsResting (f k)) (sym vs)
            (h.still k below (ap (λ f. (f k).id == 0) (sym vs) ∙ used))

  release_all-IsStill : (s : Padd) → IsCalm s.rules → IsSynced s → IsStill (release_all s)
  release_all-IsStill s calm h =
      let e = release_all-Emptied s calm.no_dial h in
      record { synced = e.synced; calm = subst IsCalm (sym e.same_rules) calm; still = e.still }

  release_boot_key-IsStill : (ieee : IsIeee F) (s : Padd) → IsStill s → IsStill (release_boot_key s)
  release_boot_key-IsStill ieee s h =
      let v = release_boot_key-SameView s in
      change-IsStill ieee s (release_boot_key s) h (subst IsCalm (sym v.same_rules) h.calm)
        v.same_views v.same_plugs v.same_emitted

  clear_maps-IsStill :
      (ieee : IsIeee F) (s : Padd) → IsCalm s.rules → IsSynced s → IsStill (clear_maps s)
  unfolding clear_maps
  clear_maps-IsStill ieee s calm h =
      let t = release_boot_key (release_all s) in
      let old = release_boot_key-IsStill ieee (release_all s) (release_all-IsStill s calm h) in
      change-IsStill ieee t _ old (record { no_dial = old.calm.no_dial; in_range = tt }) refl refl
        refl

  read_boot_hold-IsStill :
      (ieee : IsIeee F) (hold : Option (Option ℕ × ℕ)) (s : Padd)
      → IsStill s
      → IsStill (read_boot_hold hold s)
  unfolding read_boot_hold
  read_boot_hold-IsStill ieee none s h = h
  read_boot_hold-IsStill ieee (some (none, ms)) s h = h
  read_boot_hold-IsStill ieee (some (some code, ms)) s h =
      change-IsStill ieee s _ h h.calm refl refl refl

  load_maps-IsStill :
      (ieee : IsIeee F) (config : Option Config) (s : Padd)
      → IsCalm s.rules
      → IsSynced s
      → IsStill (load_maps config s)
  unfolding load_maps
  load_maps-IsStill ieee none s calm h = clear_maps-IsStill ieee s calm h
  load_maps-IsStill ieee (some config) s calm h =
      let t = clear_maps s in
      let cleared = clear_maps-IsStill ieee s calm h in
      let r = add_routes-IsRouted config.pad_map t.rules in
      read_boot_hold-IsStill ieee config.hold _ (
        change-IsStill ieee t _ cleared
          (record {
            no_dial = r.same_dial ∙ cleared.calm.no_dial;
            in_range = r.in_range cleared.calm.in_range;
          })
          refl refl refl)

  -- With the pads in step, no dial and routes from the table, loading the maps of a game or of none
  -- leaves the pads in step under the new rules, and every new route reads a control of the table.
  pub load_maps-IsSynced :
      (ieee : IsIeee F) (config : Option Config) (s : Padd)
      → IsCalm s.rules
      → IsSynced s
      → IsSynced (load_maps config s) × IsCalm (load_maps config s).rules
  load_maps-IsSynced ieee config s calm h =
      let r = load_maps-IsStill ieee config s calm h in (r.synced, r.calm)
