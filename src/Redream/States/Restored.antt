-- ===== src/Redream/States/Restored.antt =====
-- The saves behind a state are restored as they were: save_with_saves and restore_saves.
use mathlib.Core.List.{append_assoc, append-nil}
use anyconsole.Base.{
  ℕ, suc, ◌+◌, ◌-◌, ◌<◌, ◌≡◌, refl, sym, ◌∙◌, ap, true, false, Option, none, some, List, [], ◌∷◌,
  ◌++◌, length, length-append, All, ltb, arith,
}
use anyconsole.Redream.States.{
  to_bytes, size_bytes, append_saves, save_with_saves, skip_bytes, first_bytes, slice_of, read_size,
  negative_from, take_save, take_sized, last_save, append_last, then_last, restore_from,
  restore_saves,
}
use anyconsole.Redream.States.Sizes.{of_bytes-to_bytes, length-to_bytes}

skip_bytes-append : (a b : List ℕ) → skip_bytes (length a) (a ++ b) ≡ b
skip_bytes-append [] b = refl
skip_bytes-append (x ∷ a) b = skip_bytes-append a b

first_bytes-append : (a b : List ℕ) → first_bytes (length a) (a ++ b) ≡ a
first_bytes-append [] b = refl
first_bytes-append (x ∷ a) b = ap (λ l. x ∷ l) (first_bytes-append a b)

slice_of-append :
    (a b c file : List ℕ) (start n : ℕ)
    → file ≡ a ++ (b ++ c)
    → start ≡ length a
    → n ≡ length b
    → slice_of start n file ≡ b
slice_of-append a b c file start n e f g =
    ap (λ k. slice_of k n file) f
    ∙ ap (λ k. slice_of (length a) k file) g
    ∙ ap (λ l. slice_of (length a) (length b) l) e
    ∙ ap (λ l. first_bytes (length b) l) (skip_bytes-append a (b ++ c))
    ∙ first_bytes-append b c

read_size-lem :
    (a rest file : List ℕ) (size start : ℕ)
    → size < negative_from
    → file ≡ a ++ (to_bytes size_bytes size ++ rest)
    → start ≡ length a
    → read_size start file ≡ some size
unfolding read_size
read_size-lem a rest file size start small e f =
    let bytes : slice_of start size_bytes file ≡ to_bytes size_bytes size =
      slice_of-append a (to_bytes size_bytes size) rest file start size_bytes e f
        (sym (length-to_bytes size_bytes size)) in
    rw bytes (
      rw (length-to_bytes size_bytes size)
        (ap some (of_bytes-to_bytes size_bytes size (omega arith))))

-- What is written for one save.
abbrev block : List ℕ → List ℕ
block copy = copy ++ to_bytes size_bytes (length copy)

take_save-block :
    (state copy after file : List ℕ) (end : ℕ)
    → length copy < negative_from
    → file ≡ state ++ (copy ++ after)
    → end ≡ length state + length copy
    → take_save end file (length copy) ≡ some (copy, length state)
unfolding take_save
take_save-block state copy after file end small e f =
    let fits : ltb (length copy) negative_from ≡ true = ground arith in
    let room : ltb end (length copy) ≡ false = ground arith in
    let start : end - length copy ≡ length state = omega arith in
    rw (fits, room, start)
      (ap (λ l. some (l, length state))
        (slice_of-append state copy after file (length state) (length copy) e refl refl))

last_save-block :
    (state copy rest file : List ℕ) (end : ℕ)
    → length copy < negative_from
    → file ≡ state ++ (copy ++ (to_bytes size_bytes (length copy) ++ rest))
    → end ≡ length state + length copy + size_bytes
    → last_save end file ≡ some (copy, length state)
unfolding last_save take_sized
last_save-block state copy rest file end small e f =
    let room : ltb end size_bytes ≡ false = ground arith in
    let size : read_size (end - size_bytes) file ≡ some (length copy) =
      read_size-lem (state ++ copy) rest file (length copy) (end - size_bytes) small
        (e ∙ sym (append_assoc state copy (to_bytes size_bytes (length copy) ++ rest)))
        (omega (arith, length-append state copy)) in
    rw (room, size)
      (take_save-block state copy (to_bytes size_bytes (length copy) ++ rest) file
        (end - size_bytes) small e (omega arith))

-- The saves go behind the state.
behind :
    (state : List ℕ) (copies : List (List ℕ))
    → (rest : List ℕ) × (append_saves state copies ≡ state ++ rest)
unfolding append_saves
behind state [] = ([], sym (append-nil state))
behind state (copy ∷ copies) =
    let (rest, e) = behind (state ++ block copy) copies in
    (block copy ++ rest, e ∙ append_assoc state (block copy) rest)

length-block :
    (state copy : List ℕ) → length (state ++ block copy) ≡ length state + length copy + size_bytes
length-block state copy = omega (
  arith,
  length-append state (block copy),
  length-append copy (to_bytes size_bytes (length copy)),
  length-to_bytes size_bytes (length copy),
)

abbrev append_last_all : List (List ℕ) → Option (List (List ℕ)) → Option (List (List ℕ))
append_last_all copies none = none
append_last_all copies (some saves) = some (saves ++ copies)

append_last_all-nil : (o : Option (List (List ℕ))) → append_last_all [] o ≡ o
append_last_all-nil none = refl
append_last_all-nil (some saves) = ap some (append-nil saves)

append_last_all-append_last :
    (copy : List ℕ) (copies : List (List ℕ)) (o : Option (List (List ℕ)))
    → append_last_all copies (append_last copy o) ≡ append_last_all (copy ∷ copies) o
append_last_all-append_last copy copies none = refl
append_last_all-append_last copy copies (some saves) =
    ap some (append_assoc saves (copy ∷ []) copies)

restore_from-suc :
    (file : List ℕ) (n end before : ℕ) (copy : List ℕ)
    → last_save end file ≡ some (copy, before)
    → restore_from file (suc n) end ≡ append_last copy (restore_from file n before)
unfolding restore_from then_last
restore_from-suc file n end before copy e = ap (λ o. then_last o (restore_from file n)) e

restore_from-zero : (file : List ℕ) (end : ℕ) → restore_from file 0 end ≡ some []
unfolding restore_from
restore_from-zero file end = refl

-- The saves behind a state come back in front of those before it.
restore_from-append_saves :
    (copies : List (List ℕ)) (file state : List ℕ) (n : ℕ)
    → All (λ copy. length copy < negative_from) copies
    → file ≡ append_saves state copies
    → restore_from file (length copies + n) (length file)
      ≡ append_last_all copies (restore_from file n (length state))
unfolding append_saves
restore_from-append_saves [] file state n small e =
    let zero_add : 0 + n ≡ n = omega arith in
    ap (λ k. restore_from file k (length file)) zero_add
    ∙ ap (λ l. restore_from file n (length l)) e
    ∙ sym (append_last_all-nil (restore_from file n (length state)))
restore_from-append_saves (copy ∷ copies) file state n (here, small) e =
    let (rest, after) = behind (state ++ block copy) copies in
    let shape : file ≡ state ++ (copy ++ (to_bytes size_bytes (length copy) ++ rest)) =
      e
      ∙ after
      ∙ append_assoc state (block copy) rest
      ∙ ap (λ l. state ++ l) (append_assoc copy (to_bytes size_bytes (length copy)) rest) in
    let moved : suc (length copies) + n ≡ length copies + suc n = omega arith in
    ap (λ k. restore_from file k (length file)) moved
    ∙ restore_from-append_saves copies file (state ++ block copy) (suc n) small e
    ∙ ap (append_last_all copies) (
        restore_from-suc file n (length (state ++ block copy)) (length state) copy (
          last_save-block state copy rest file (length (state ++ block copy)) here shape
            (length-block state copy)))
    ∙ append_last_all-append_last copy copies (restore_from file n (length state))

-- The saves written behind a state, each shorter than an off_t can say, are restored as they were.
pub restore_saves-save_with_saves :
    (state : List ℕ) (copies : List (List ℕ))
    → All (λ copy. length copy < negative_from) copies
    → (file : List ℕ) × (save_with_saves (some state) copies ≡ some file)
      × (restore_saves file (length copies) ≡ some copies)
unfolding save_with_saves restore_saves
restore_saves-save_with_saves state copies small =
    let file = append_saves state copies in
    let add_zero : length copies ≡ length copies + 0 = omega arith in
    (
      file,
      refl,
      ap (λ k. restore_from file k (length file)) add_zero
          ∙ restore_from-append_saves copies file state 0 small refl
          ∙ ap (append_last_all copies) (restore_from-zero file (length state)),
    )
