-- ===== src/Scene/Images/Counted.antt =====
-- How many jobs there are for an image, and which key a job is for.
use Prim.Native.String.{String}
use text.Mathlib.Text.{◌==◌ as str_eq}
use anyconsole.Base.{
  ℕ, ◌+◌, ◌≡◌, refl, sym, ◌∙◌, ap, inl, inr, Bool, true, false, Option, some, List, [], ◌∷◌, ◌++◌,
  ◌==◌, ==_iff, arith, Bool-cases,
}
use anyconsole.Base.Counts.{write, one_if}
use anyconsole.Scene.Images.{Image, Job, take_path, give_picture}
use anyconsole.Scene.Images.Nodes.{key_of}

abbrev pub jobs_for : ℕ → List Job → ℕ
jobs_for i [] = 0
jobs_for i (job ∷ rest) = one_if (job.image == i) + jobs_for i rest

pub jobs_for-append :
    (i : ℕ) (xs ys : List Job) → jobs_for i (xs ++ ys) ≡ jobs_for i xs + jobs_for i ys
jobs_for-append i [] ys = omega arith
jobs_for-append i (x ∷ xs) ys = omega (arith, jobs_for-append i xs ys)

pub jobs_for-give_picture :
    (i : ℕ) (p : Bool) (jobs : List Job) → jobs_for i (give_picture p jobs) ≡ jobs_for i jobs
unfolding give_picture
jobs_for-give_picture i p [] = refl
jobs_for-give_picture i p (job ∷ rest) =
    ap (λ n. one_if (job.image == i) + n) (jobs_for-give_picture i p rest)

-- The image of every job has the key of what the job decodes.
module _ (baked : String → ℕ → Option String) where
  abbrev pub IsFor : (ℕ → Image) → Job → Type 0
  IsFor table job = key_of baked job.path job.blur ≡ some (table job.image).key

  abbrev pub AllFor : (ℕ → Image) → List Job → Type 0
  AllFor table [] = Unit {0}
  AllFor table (job ∷ rest) = IsFor table job × AllFor table rest

  pub AllFor-append :
      (table : ℕ → Image) (xs ys : List Job)
      → AllFor table xs
      → AllFor table ys
      → AllFor table (xs ++ ys)
  AllFor-append table [] ys h k = k
  AllFor-append table (x ∷ xs) ys (h, hs) k = (h, AllFor-append table xs ys hs k)

  pub AllFor-give_picture :
      (table : ℕ → Image) (p : Bool) (jobs : List Job)
      → AllFor table jobs
      → AllFor table (give_picture p jobs)
  unfolding give_picture
  AllFor-give_picture table p [] h = tt
  AllFor-give_picture table p (job ∷ rest) (h, hs) = (h, AllFor-give_picture table p rest hs)

  -- An entry that no job is for may change.
  pub AllFor-write :
      (table : ℕ → Image) (i : ℕ) (v : Image) (jobs : List Job)
      → jobs_for i jobs ≡ 0
      → AllFor table jobs
      → AllFor (write table i v) jobs
  AllFor-write table i v [] z h = tt
  AllFor-write table i v (job ∷ rest) z (h, hs) =
      let other : (i == job.image) ≡ false = ground arith in
      (rw other h, AllFor-write table i v rest (omega arith) hs)

  -- An entry may change that keeps its key.
  pub AllFor-keep :
      (table : ℕ → Image) (i : ℕ) (v : Image) (jobs : List Job)
      → v.key ≡ (table i).key
      → AllFor table jobs
      → AllFor (write table i v) jobs
  AllFor-keep table i v [] e h = tt
  AllFor-keep table i v (job ∷ rest) e (h, hs) =
      let k : (write table i v job.image).key ≡ (table job.image).key =
        elim (Bool-cases (i == job.image)) [
          | inl same ↦ rw same (e ∙ ap (λ j. (table j).key) ((==_iff i job.image).0 same))
          | inr other ↦ rw other refl
        ] in
      (h ∙ ap some (sym k), AllFor-keep table i v rest e hs)

-- What take_path takes and leaves.
pub jobs_for-take_path :
    (i : ℕ) (path : String) (jobs taken : List Job)
    → jobs_for i (take_path path jobs taken).0 + jobs_for i (take_path path jobs taken).1
      ≡ jobs_for i taken + jobs_for i jobs
unfolding take_path
jobs_for-take_path i path [] taken = refl
jobs_for-take_path i path (job ∷ rest) taken = elim (Bool-cases (str_eq job.path path)) [
  | inl e ↦ rw e (omega (arith, jobs_for-take_path i path rest (job ∷ taken)))
  | inr e ↦ rw e (omega (arith, jobs_for-take_path i path rest taken))
]

pub AllFor-take_path :
    (baked : String → ℕ → Option String) (table : ℕ → Image) (path : String) (jobs taken : List Job)
    → AllFor baked table jobs
    → AllFor baked table taken
    → AllFor baked table (take_path path jobs taken).0
      × AllFor baked table (take_path path jobs taken).1
unfolding take_path
AllFor-take_path baked table path [] taken h k = (k, tt)
AllFor-take_path baked table path (job ∷ rest) taken (h, hs) k =
    elim (Bool-cases (str_eq job.path path)) [
      | inl e ↦ rw e (AllFor-take_path baked table path rest (job ∷ taken) hs (h, k))
      | inr e ↦ (let (a, b) = AllFor-take_path baked table path rest taken hs k in rw e (a, (h, b)))
    ]

-- Every job that is taken has the path, and none that is left has it.
abbrev pub AllOnPath : Bool → String → List Job → Type 0
AllOnPath on path [] = Unit {0}
AllOnPath on path (job ∷ rest) = (str_eq job.path path ≡ on) × AllOnPath on path rest

pub take_path-AllOnPath :
    (path : String) (jobs taken : List Job)
    → AllOnPath true path taken
    → AllOnPath true path (take_path path jobs taken).0
      × AllOnPath false path (take_path path jobs taken).1
unfolding take_path
take_path-AllOnPath path [] taken h = (h, tt)
take_path-AllOnPath path (job ∷ rest) taken h = elim (Bool-cases (str_eq job.path path)) [
  | inl e ↦ rw e (take_path-AllOnPath path rest (job ∷ taken) (e, h))
  | inr e ↦ (let (a, b) = take_path-AllOnPath path rest taken h in rw e (a, (e, b)))
]
