-- ===== src/Scene/Images/Owned.antt =====
-- While a job is in some list its image stays what it is: image_entry and the steps of the decoder.
use Prim.Native.String.{String}
use text.Mathlib.Text.{◌==◌ as str_eq}
use text.Mathlib.TextEquality.{eq_iff}
use anyconsole.Base.{
  ℕ, zero, suc, ◌+◌, ◌≡◌, refl, sym, ◌∙◌, ap, inl, inr, Bool, true, false, ◌&&◌, Option, none, some,
  List, ◌==◌, ==_iff, if◌then◌else◌, arith, Bool-cases, if_both,
}
use mathlib.Core.Option.{some-injective, some-ne-none}
use anyconsole.Base.Counts.{write, one_if}
use anyconsole.Base.Loop.{for_below_inv}
use anyconsole.Scene.Images.{
  Image, Job, Images, find_from, find_image, images_max, is_older, is_idle, least_recently_drawn,
  new_image, evict, entry_of, image_entry,
}
use anyconsole.Scene.Images.Counted.{jobs_for, AllFor, AllFor-write, AllFor-keep}

-- An image that is idle, of all that are looked at.
record IsIdleOf (table : ℕ → Image) (found : Option ℕ) : Type 0 where
  idles : (i : ℕ) → found ≡ some i → is_idle (table i) ≡ true

and_first : (a b : Bool) → (a && b) ≡ true → a ≡ true
and_first true b e = refl
and_first false b e = e

least_recently_drawn-IsIdleOf : (table : ℕ → Image) → IsIdleOf table (least_recently_drawn table)
unfolding least_recently_drawn
least_recently_drawn-IsIdleOf table =
    for_below_inv (λ n found. IsIdleOf table found)
      (λ i oldest. if is_idle (table i) && is_older table i oldest then some i else oldest)
      (λ i oldest h.
        if_both (IsIdleOf table) (is_idle (table i) && is_older table i oldest)
          (λ e. record {
            idles =
                λ j f. ap (λ k. is_idle (table k)) (sym (some-injective _ _ f)) ∙ and_first _ _ e;
          })
          (λ e. h))
      images_max none (record { idles = λ i e. absurd (some-ne-none _ (sym e)) })

find_from-key :
    (key : String) (table : ℕ → Image) (n i k : ℕ)
    → find_from key table n i ≡ some k
    → (table k).key ≡ key
unfolding find_from
find_from-key key table zero i k e = absurd (some-ne-none _ (sym e))
find_from-key key table (suc n) i k e = elim (Bool-cases (str_eq (table i).key key)) [
  | inl same ↦
      let here : some i ≡ some k = rw same at e in
      ap (λ j. (table j).key) (sym (some-injective _ _ here)) ∙ (eq_iff (table i).key key).0 same
  | inr other ↦ find_from-key key table n (suc i) k (rw other at e)
]

pub find_image-key :
    (key : String) (table : ℕ → Image) (i : ℕ) → find_image key table ≡ some i → (table i).key ≡ key
unfolding find_image
find_image-key key table i e = find_from-key key table images_max 0 i e

-- What image_entry does: it finds the key, there is no idle image, or an idle one gets the key.
pub data Entry (key : String) (table : ℕ → Image) : Option ℕ × (ℕ → Image) → Type 0 where
  found : (i : ℕ) → (table i).key ≡ key → Entry key table (some i, table)
  full : Entry key table (none, table)
  evicted :
      (i : ℕ) → is_idle (table i) ≡ true → Entry key table (some i, write table i (new_image key))

pub image_entry-Entry : (key : String) (table : ℕ → Image) → Entry key table (image_entry key table)
unfolding image_entry
image_entry-Entry key table = go (find_image key table) refl
  where
    none_idle :
        (o : Option ℕ) → least_recently_drawn table ≡ o → Entry key table (evict key table o)
    none_idle none e = Entry.full
    none_idle (some i) e = Entry.evicted i ((least_recently_drawn-IsIdleOf table).idles i e)

    go : (o : Option ℕ) → find_image key table ≡ o → Entry key table (entry_of key table o)
    go none e = none_idle (least_recently_drawn table) refl
    go (some i) e = Entry.found i (find_image-key key table i e)

idle-pending : (image : Image) → is_idle image ≡ true → image.pending ≡ false
unfolding is_idle
idle-pending image e = ground arith

idle-users : (image : Image) → is_idle image ≡ true → image.users ≡ 0
unfolding is_idle
idle-users image e = ground arith

entry_kept :
    (key : String) (table : ℕ → Image) (r : Option ℕ × (ℕ → Image)) (j : ℕ)
    → Entry key table r
    → is_idle (table j) ≡ false
    → r.1 j ≡ table j
entry_kept key table r j (Entry.found i e) busy = refl
entry_kept key table r j Entry.full busy = refl
entry_kept key table r j (Entry.evicted i e) busy =
    let other : (i == j) ≡ false = elim (Bool-cases (i == j)) [
      | inl same ↦ absurd (cc (ap (λ k. is_idle (table k)) ((==_iff i j).0 same), e, busy))
      | inr other ↦ other
    ] in
    rw other refl

entry_key :
    (key : String) (table : ℕ → Image) (r : Option ℕ × (ℕ → Image)) (i : ℕ)
    → Entry key table r
    → r.0 ≡ some i
    → (r.1 i).key ≡ key
entry_key key table r i (Entry.found k e) f =
    ap (λ j. (table j).key) (sym (some-injective _ _ f)) ∙ e
entry_key key table r i Entry.full f = absurd (some-ne-none _ (sym f))
entry_key key table r i (Entry.evicted k e) f =
    let own : (k == i) ≡ true = (==_iff k i).1 (some-injective _ _ f) in rw own refl

-- The image that is found or made for a key has that key, and no image changes that has a user or that
-- a job is for.
pub image_entry-kept :
    (key : String) (table : ℕ → Image)
    → ((i : ℕ) → (image_entry key table).0 ≡ some i → ((image_entry key table).1 i).key ≡ key)
      × ((j : ℕ) → is_idle (table j) ≡ false → (image_entry key table).1 j ≡ table j)
image_entry-kept key table =
    let entry = image_entry-Entry key table in
    (
      λ i e. entry_key key table (image_entry key table) i entry e,
      λ j busy. entry_kept key table (image_entry key table) j entry busy,
    )

-- There is one job for each image that is pending, and none for any other; and the image has the key of
-- what each of its jobs decodes.
pub record Owns (baked : String → ℕ → Option String) (table : ℕ → Image)
    (requested batch decoded : List Job) : Type 0 where
  pub counted :
      (i : ℕ)
      → jobs_for i requested + jobs_for i batch + jobs_for i decoded ≡ one_if (table i).pending
  pub requested_for : AllFor baked table requested
  pub batch_for : AllFor baked table batch
  pub decoded_for : AllFor baked table decoded

abbrev pub IsOwned : (String → ℕ → Option String) → Images → Type 0
IsOwned baked s = Owns baked s.table s.requested s.batch s.decoded

module _ {baked : String → ℕ → Option String} {table : ℕ → Image}
    {requested batch decoded : List Job} (h : Owns baked table requested batch decoded) where
  pub keep-Owns :
      (i : ℕ) (v : Image)
      → v.key ≡ (table i).key
      → v.pending ≡ (table i).pending
      → Owns baked (write table i v) requested batch decoded
  keep-Owns i v e f = record {
    counted = λ k. h.counted k ∙ (elim (Bool-cases (i == k)) [
      | inl same ↦
          rw same (ap one_if (ap (λ j. (table j).pending) (sym ((==_iff i k).0 same)) ∙ sym f))
      | inr other ↦ rw other refl
    ]);
    requested_for = AllFor-keep baked table i v requested e h.requested_for;
    batch_for = AllFor-keep baked table i v batch e h.batch_for;
    decoded_for = AllFor-keep baked table i v decoded e h.decoded_for;
  }

  evict-Owns :
      (i : ℕ) (key : String)
      → (table i).pending ≡ false
      → Owns baked (write table i (new_image key)) requested batch decoded
  evict-Owns i key e =
      let idle : one_if (table i).pending ≡ 0 = ap one_if e in
      record {
        counted = λ k. h.counted k ∙ (elim (Bool-cases (i == k)) [
          | inl same ↦
              rw same (ap (λ j. one_if (table j).pending) (sym ((==_iff i k).0 same)) ∙ idle)
          | inr other ↦ rw other refl
        ]);
        requested_for =
            AllFor-write baked table i (new_image key) requested (omega (arith, h.counted i, idle))
              h.requested_for;
        batch_for =
            AllFor-write baked table i (new_image key) batch (omega (arith, h.counted i, idle))
              h.batch_for;
        decoded_for =
            AllFor-write baked table i (new_image key) decoded (omega (arith, h.counted i, idle))
              h.decoded_for;
      }

  pub entry-Owns :
      {key : String} {r : Option ℕ × (ℕ → Image)}
      → Entry key table r
      → Owns baked r.1 requested batch decoded
  entry-Owns (Entry.found i e) = h
  entry-Owns Entry.full = h
  entry-Owns {key} (Entry.evicted i e) = evict-Owns i key (idle-pending (table i) e)
