-- ===== src/Redream/States.antt =====
-- app/recipes/redream/commands.c: a state with the saves of the game behind it (save_with_saves,
-- restore_saves). A file is its bytes. What redream itself writes is a parameter, and a failed call,
-- which ends the process, is `none`.
pub mod Sizes
pub mod Restored
mod Tests
use anyconsole.Base.{
  ℕ, zero, suc, ◌+◌, ◌-◌, ◌*◌, ◌/◌, ◌%◌, Bool, true, false, Option, none, some, List, [], ◌∷◌, ◌++◌,
  length, ltb, if◌then◌else◌,
}

-- The bytes of a number, the lowest first.
unfoldable pub to_bytes : ℕ → ℕ → List ℕ
to_bytes zero n = []
to_bytes (suc k) n = n % 256 ∷ to_bytes k (n / 256)

unfoldable pub of_bytes : List ℕ → ℕ
of_bytes [] = 0
of_bytes (b ∷ bs) = b + 256 * of_bytes bs

-- sizeof(off_t)
abbrev pub size_bytes : ℕ
size_bytes = 8

-- Behind a state, each save with its size after it.
unfoldable pub append_saves : List ℕ → List (List ℕ) → List ℕ
append_saves state [] = state
append_saves state (copy ∷ copies) =
    append_saves (state ++ (copy ++ to_bytes size_bytes (length copy))) copies

-- The partial file takes the path's place once it is whole. `state` is what SAVE_STATE wrote, if it
-- could.
unfoldable pub save_with_saves : Option (List ℕ) → List (List ℕ) → Option (List ℕ)
save_with_saves none copies = none
save_with_saves (some state) copies = some (append_saves state copies)

abbrev pub skip_bytes : ℕ → List ℕ → List ℕ
skip_bytes zero xs = xs
skip_bytes (suc n) [] = []
skip_bytes (suc n) (x ∷ xs) = skip_bytes n xs

abbrev pub first_bytes : ℕ → List ℕ → List ℕ
first_bytes zero xs = []
first_bytes (suc n) [] = []
first_bytes (suc n) (x ∷ xs) = x ∷ first_bytes n xs

abbrev pub slice_of : ℕ → ℕ → List ℕ → List ℕ
slice_of start n file = first_bytes n (skip_bytes start file)

-- pread: fewer bytes than wanted are a failure.
unfoldable pub read_size : ℕ → List ℕ → Option ℕ
read_size at file =
    let bytes = slice_of at size_bytes file in
    if ltb (length bytes) size_bytes then none else some (of_bytes bytes)

-- An off_t from here on is negative.
abbrev pub negative_from : ℕ
negative_from = 9223372036854775808

-- The save that ends before its size, and where it starts. Nothing is sent for a size below 0, and
-- sendfile fails for a start below 0.
unfoldable pub take_save : ℕ → List ℕ → ℕ → Option (List ℕ × ℕ)
take_save end file size =
    if ltb size negative_from
    then (if ltb end size then none else some (slice_of (end - size) size file, end - size))
    else some ([], end + (negative_from * 2 - size))

unfoldable pub take_sized : ℕ → List ℕ → Option ℕ → Option (List ℕ × ℕ)
take_sized end file none = none
take_sized end file (some size) = take_save end file size

-- A round of the loop of restore_saves.
unfoldable pub last_save : ℕ → List ℕ → Option (List ℕ × ℕ)
last_save end file =
    if ltb end size_bytes
    then none
    else take_sized (end - size_bytes) file (read_size (end - size_bytes) file)

abbrev pub append_last : List ℕ → Option (List (List ℕ)) → Option (List (List ℕ))
append_last save none = none
append_last save (some saves) = some (saves ++ (save ∷ []))

-- The saves in their order: the one that was read stands behind those before it.
unfoldable pub then_last :
    Option (List ℕ × ℕ) → (ℕ → Option (List (List ℕ))) → Option (List (List ℕ))
then_last none before = none
then_last (some (save, end)) before = append_last save (before end)

-- The rounds for the first `count` saves, the last of which ends at `end`.
unfoldable pub restore_from : List ℕ → ℕ → ℕ → Option (List (List ℕ))
restore_from file zero end = some []
restore_from file (suc count) end = then_last (last_save end file) (restore_from file count)

unfoldable pub restore_saves : List ℕ → ℕ → Option (List (List ℕ))
restore_saves file count = restore_from file count (length file)
