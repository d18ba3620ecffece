-- ===== src/Padd/Effects/Stored.antt =====
-- A stored effect is found again, and the others are kept.
use anyconsole.Base.{
  ℕ, zero, suc, ◌≡◌, refl, arith, true, none, some, List, [], ◌∷◌, length, get_elem?, leb,
  if◌then◌else◌, ◌==◌,
}
use anyconsole.Padd.State.{Effect}
use anyconsole.Padd.Effects.{silent, store}

get_elem-beyond : (es : List Effect) (k : ℕ) → leb (length es) k ≡ true → get_elem? es k ≡ none
get_elem-beyond [] k le = refl
get_elem-beyond (x ∷ xs) zero le = ground arith
get_elem-beyond (x ∷ xs) (suc k) le = get_elem-beyond xs k (ground arith)

-- What is found under each id after an effect has been stored: the effect itself under its id, what was
-- there before under another id, and a silent one in a cell that the table has grown by.
pub get_elem-store :
    (es : List Effect) (id : ℕ) (e : Effect) (k : ℕ)
    → get_elem? (store es id e) k ≡ (
        if k == id
        then some e
        else if leb (length es) k
        then (if leb id k then none else some silent)
        else get_elem? es k)
unfolding store
get_elem-store [] zero e zero = refl
get_elem-store [] zero e (suc k) = ground arith
get_elem-store [] (suc id) e zero = ground arith
get_elem-store [] (suc id) e (suc k) = ground (arith, get_elem-store [] id e k)
get_elem-store (x ∷ xs) zero e zero = refl
get_elem-store (x ∷ xs) zero e (suc k) = ground (arith, get_elem-beyond xs k)
get_elem-store (x ∷ xs) (suc id) e zero = ground arith
get_elem-store (x ∷ xs) (suc id) e (suc k) = ground (arith, get_elem-store xs id e k)
