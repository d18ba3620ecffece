-- ===== src/Padd/Maps/Routes.antt =====
-- The routes of a game read controls of the table, and change nothing else of the rules.
use Prim.Native.String.{String}
use anyconsole.Base.{
  ℕ, ◌<◌, ◌≡◌, refl, ◌∙◌, Bool, true, false, Option, none, some, List, [], ◌∷◌, ◌++◌, All,
  if◌then◌else◌,
}
use anyconsole.Base.Int.{ℤ}
use anyconsole.Padd.Controls.{control_count, control_named, control_named-lt}
use anyconsole.Padd.State.{Route, Rules}
use anyconsole.Padd.Mapping.Rest.{RoutesInRange}
use anyconsole.Padd.Maps.{sign_of, unsigned, put_route, add_route, add_routes}

All-append {ℓ κ} :
    {A : Type ℓ} (P : A → Type κ) (xs : List A) (x : A) → All P xs → P x → All P (xs ++ (x ∷ []))
All-append P [] x all here = (here, tt)
All-append P (y ∷ ys) x (at, all) here = (at, All-append P ys x all here)

-- The rules stay ones whose routes are in range, with the same menu and dial.
pub record IsRouted (a b : Rules) : Type 0 where
  pub in_range : RoutesInRange a.routes → RoutesInRange b.routes
  pub same_menu : b.menu_open ≡ a.menu_open
  pub same_dial : b.dial ≡ a.dial

IsRouted-refl : (a : Rules) → IsRouted a a
IsRouted-refl a = record { in_range = λ h. h; same_menu = refl; same_dial = refl }

IsRouted-trans : {a b c : Rules} → IsRouted a b → IsRouted b c → IsRouted a c
IsRouted-trans p q = record {
  in_range = λ h. q.in_range (p.in_range h);
  same_menu = q.same_menu ∙ p.same_menu;
  same_dial = q.same_dial ∙ p.same_dial;
}

if-IsRouted :
    {a b c : Rules} (t : Bool) → IsRouted a b → IsRouted a c → IsRouted a (if t then b else c)
if-IsRouted true h k = h
if-IsRouted false h k = k

put_route-IsRouted :
    (sign : ℤ) (from to : Option ℕ) (rules : Rules)
    → ((k : ℕ) → from ≡ some k → k < control_count)
    → IsRouted rules (put_route sign from to rules)
unfolding put_route
put_route-IsRouted sign none to rules known = IsRouted-refl rules
put_route-IsRouted sign (some from) none rules known = IsRouted-refl rules
put_route-IsRouted sign (some from) (some to) rules known =
    if-IsRouted _ (IsRouted-refl rules) (record {
      in_range = λ h.
          All-append (λ (r : Route). r.source < control_count) rules.routes _ h (known from refl);
      same_menu = refl;
      same_dial = refl;
    })

pub add_routes-IsRouted :
    (pairs : List (String × Option String)) (rules : Rules)
    → IsRouted rules (add_routes pairs rules)
unfolding add_routes add_route
add_routes-IsRouted [] rules = IsRouted-refl rules
add_routes-IsRouted ((source, target) ∷ rest) rules =
    IsRouted-trans
      (put_route-IsRouted (sign_of source) (control_named (some (unsigned source)))
        (control_named target) rules λ k e. control_named-lt (unsigned source) k e)
      (add_routes-IsRouted rest _)
