-- ===== src/Scene/Atlas/Packed.antt =====
-- No two bitmaps of the atlas overlap: place.
use anyconsole.Base.{
  ℕ, suc, ◌+◌, ◌≤◌, ◌<◌, ◌≡◌, refl, inl, inr, Option, List, [], ◌∷◌, length, All, All-map, ltb,
  ◌==◌, arith, Bool-cases,
}
use anyconsole.Scene.Atlas.{
  Page, Spot, atlas_size, atlas_pages_max, glyph_padding, blank, break_shelf, advance, put_on,
  put_on_new, place, add_spot, place_all,
}

-- On a page that there may be, and inside it.
pub record InBounds (r : Spot) : Type 0 where
  pub page_lt : r.page < atlas_pages_max
  pub right : r.x + r.width ≤ atlas_size
  pub bottom : r.y + r.height ≤ atlas_size

-- Two spots on different pages, or one beside or below the other, with a padding between.
pub data Apart (q r : Spot) : Type 0 where
  older_page : q.page < r.page → Apart q r
  left : q.x + q.width + glyph_padding ≤ r.x → Apart q r
  above : q.y + q.height + glyph_padding ≤ r.y → Apart q r

abbrev pub AllApart : List Spot → Type 0
AllApart [] = Unit
AllApart (r ∷ rs) = All (λ q. Apart q r) rs × AllApart rs

-- A spot is out of the way of what page `n`, the one that is filled, still has to give.
pub data Clear (n : ℕ) (p : Page) (q : Spot) : Type 0 where
  before : q.page < n → Clear n p q
  on_shelf :
      q.page ≤ n
      → q.x + q.width + glyph_padding ≤ p.x
      → q.y + q.height + glyph_padding ≤ p.y + p.shelf
      → Clear n p q
  over_shelf : q.page ≤ n → q.y + q.height + glyph_padding ≤ p.y → Clear n p q

abbrev pub AllClear : List Page → List Spot → Type 0
AllClear [] spots = spots ≡ []
AllClear (p ∷ ps) spots = All (Clear (length ps) p) spots

pub record Packed (pages : List Page) (spots : List Spot) : Type 0 where
  pub few : length pages ≤ atlas_pages_max
  pub in_bounds : All InBounds spots
  pub apart : AllApart spots
  pub clear : AllClear pages spots

Clear-advance : (n w h : ℕ) (p : Page) (q : Spot) → Clear n p q → Clear n (advance w h p) q
unfolding advance
Clear-advance n w h p q (before lt) = before lt
Clear-advance n w h p q (on_shelf le x y) = on_shelf le (omega arith) (ground arith)
Clear-advance n w h p q (over_shelf le y) = over_shelf le y

Clear-break_shelf : (n w : ℕ) (p : Page) (q : Spot) → Clear n p q → Clear n (break_shelf w p) q
unfolding break_shelf
Clear-break_shelf n w p q c = elim (Bool-cases (ltb atlas_size (p.x + w))) [
  | inl e ↦ rw e (broken c)
  | inr e ↦ rw e c
]
  where
    broken : Clear n p q → Clear n (record { x = 0; y = p.y + p.shelf; shelf = 0 }) q
    broken (before lt) = before lt
    broken (on_shelf le x y) = over_shelf le y
    broken (over_shelf le y) = over_shelf le (omega arith)

Clear-Apart :
    (n w h : ℕ) (p : Page) (q : Spot)
    → Clear n p q
    → Apart q (record { page = n; x = p.x; y = p.y; width = w; height = h })
Clear-Apart n w h p q (before lt) = older_page lt
Clear-Apart n w h p q (on_shelf le x y) = left x
Clear-Apart n w h p q (over_shelf le y) = above y

Clear-lt : (n : ℕ) (p : Page) (q : Spot) → Clear n p q → q.page < suc n
Clear-lt n p q (before lt) = omega arith
Clear-lt n p q (on_shelf le x y) = omega arith
Clear-lt n p q (over_shelf le y) = omega arith

-- The spots and the pages after a call.
abbrev Keeps : List Spot → Option Spot × List Page → Type 0
Keeps spots (spot, pages) = Packed pages (add_spot spot spots)

put_on-Packed :
    (w h : ℕ) (p : Page) (rest : List Page) (spots : List Spot)
    → length rest < atlas_pages_max
    → p.x + w ≤ atlas_size
    → p.y + h ≤ atlas_size
    → All InBounds spots
    → AllApart spots
    → All (Clear (length rest) p) spots
    → Keeps spots (put_on w h p rest)
unfolding put_on advance
put_on-Packed w h p rest spots few right bottom bounds apart clear = record {
  few = omega arith;
  in_bounds = (record { page_lt = few; right = right; bottom = bottom }, bounds);
  apart = (All-map spots (λ q c. Clear-Apart (length rest) w h p q c) clear, apart);
  clear = (
    on_shelf (omega arith) (omega arith) (ground arith),
    All-map spots (λ q c. Clear-advance (length rest) w h p q c) clear,
  );
}

put_on_new-Packed :
    (w h : ℕ) (pages : List Page) (spots : List Spot)
    → w ≤ atlas_size
    → h ≤ atlas_size
    → Packed pages spots
    → All (λ q. q.page < length pages) spots
    → Keeps spots (put_on_new w h pages)
unfolding put_on_new
put_on_new-Packed w h pages spots wide high k older =
    elim (Bool-cases (length pages == atlas_pages_max)) [
      | inl e ↦ rw e k
      | inr e ↦ rw e (
          put_on-Packed w h blank pages spots (let few = k.few in ground arith) (omega arith)
            (omega arith) k.in_bounds k.apart (All-map spots (λ q lt. before lt) older))
    ]

break_shelf-fits : (w : ℕ) (p : Page) → w ≤ atlas_size → (break_shelf w p).x + w ≤ atlas_size
unfolding break_shelf
break_shelf-fits w p wide = ground arith

-- A place for a bitmap that fits a page leaves the atlas packed.
pub place-Packed :
    (w h : ℕ) (pages : List Page) (spots : List Spot)
    → w ≤ atlas_size
    → h ≤ atlas_size
    → Packed pages spots
    → Keeps spots (place w h pages)
unfolding place
place-Packed w h [] spots wide high k = put_on_new-Packed w h [] spots wide high k (rw k.clear tt)
place-Packed w h (p ∷ rest) spots wide high k = elim (Bool-cases (ltb atlas_size (broken.y + h))) [
  | inl e ↦ rw e (
      put_on_new-Packed w h (broken ∷ rest) spots wide high
        (record { few = k.few; in_bounds = k.in_bounds; apart = k.apart; clear = clear })
        (All-map spots (λ q c. Clear-lt (length rest) broken q c) clear))
  | inr e ↦ rw e (
      put_on-Packed w h broken rest spots (let few = k.few in omega arith) (fits p) (ground arith)
        k.in_bounds k.apart clear)
]
  where
    broken : Page
    broken = break_shelf w p

    clear : All (Clear (length rest) broken) spots
    clear = All-map spots (λ q c. Clear-break_shelf (length rest) w p q c) k.clear

    fits : (p : Page) → (break_shelf w p).x + w ≤ atlas_size
    fits p = break_shelf-fits w p wide

place_all-Packed :
    (sizes : List (ℕ × ℕ)) (atlas : List Page × List Spot)
    → All (λ size. (size.0 ≤ atlas_size) × (size.1 ≤ atlas_size)) sizes
    → Packed atlas.0 atlas.1
    → Packed (place_all sizes atlas).0 (place_all sizes atlas).1
unfolding place_all
place_all-Packed [] atlas small k = k
place_all-Packed ((w, h) ∷ sizes) atlas (small, rest) k =
    place_all-Packed sizes _ rest (place-Packed w h atlas.0 atlas.1 small.0 small.1 k)

-- From an empty atlas, bitmaps that fit a page each get a place inside a page, or none, and no two
-- places on a page overlap or touch.
pub place_all-AllApart :
    (sizes : List (ℕ × ℕ))
    → All (λ size. (size.0 ≤ atlas_size) × (size.1 ≤ atlas_size)) sizes
    → All InBounds (place_all sizes ([], [])).1 × AllApart (place_all sizes ([], [])).1
place_all-AllApart sizes small =
    let k =
      place_all-Packed sizes ([], []) small
        (record { few = omega arith; in_bounds = tt; apart = tt; clear = refl }) in
    (k.in_bounds, k.apart)
