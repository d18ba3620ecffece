-- ===== src/Scene/Images/Decoding.antt =====
-- Every job stays a job for its image: scene_image, release_image, the decoder's thread and
-- upload_decoded.
use Prim.Native.String.{String}
use anyconsole.Base.{
  ℕ, zero, suc, ◌+◌, ◌≤◌, ◌≡◌, refl, sym, ◌∙◌, ap, subst, inl, inr, Bool, true, false, Option, none,
  some, List, [], ◌∷◌, ◌==◌, ==_iff, arith, Bool-cases,
}
use anyconsole.Base.Counts.{write, one_if}
use anyconsole.Scene.Images.{
  Image, Job, Images, given, give, scene_image, release_of, release_image, take_first, start_batch,
  give_picture, finish_batch, set_pending, request_decode, uploaded, upload_rounds, upload_decoded,
}
use anyconsole.Scene.Images.Nodes.{key_of}
use anyconsole.Scene.Images.Counted.{
  jobs_for, jobs_for-append, jobs_for-give_picture, AllFor, AllFor-append, AllFor-give_picture,
  AllFor-keep, jobs_for-take_path, AllFor-take_path,
}
use anyconsole.Scene.Images.Owned.{image_entry-Entry, Owns, IsOwned, keep-Owns, entry-Owns}

module _ {baked : String → ℕ → Option String} where
  give-IsOwned :
      (picture : Bool) (s : Images) (r : Option ℕ × (ℕ → Image))
      → Owns baked r.1 s.requested s.batch s.decoded
      → IsOwned baked (give picture s r)
  give-IsOwned picture s (none, table) h = h
  give-IsOwned picture s (some i, table) h = keep-Owns h i (given picture (table i)) refl refl

  pub scene_image-IsOwned :
      (name : String) (picture : Bool) (s : Images)
      → IsOwned baked s
      → IsOwned baked (scene_image name picture s)
  unfolding scene_image
  scene_image-IsOwned name picture s h =
      give-IsOwned picture s _ (entry-Owns h (image_entry-Entry name s.table))

  release_of-IsOwned :
      (image : Option ℕ) (node : ℕ) (s : Images)
      → IsOwned baked s
      → IsOwned baked (release_of image node s)
  release_of-IsOwned none node s h = h
  release_of-IsOwned (some i) node s h = keep-Owns h i _ refl refl

  pub release_image-IsOwned :
      (node : ℕ) (s : Images) → IsOwned baked s → IsOwned baked (release_image node s)
  unfolding release_image
  release_image-IsOwned node s h = release_of-IsOwned (s.of_node node) node s h

  -- A request for an image that is not pending, for what it has the key of.
  pub request_decode-IsOwned :
      (i : ℕ) (path : String) (blur mtime : ℕ) (s : Images)
      → (s.table i).pending ≡ false
      → key_of baked path blur ≡ some (s.table i).key
      → IsOwned baked s
      → IsOwned baked (request_decode i path blur mtime s)
  unfolding request_decode
  request_decode-IsOwned i path blur mtime s idle e h =
      let own : (i == i) ≡ true = ground arith in
      record {
        counted = λ k. elim (Bool-cases (i == k)) [
          | inl same ↦ rw same (
              let none_yet : one_if (s.table k).pending ≡ 0 =
                ap one_if (ap (λ j. (s.table j).pending) (sym ((==_iff i k).0 same)) ∙ idle) in
              omega (arith, h.counted k, none_yet))
          | inr other ↦ rw other (omega (arith, h.counted k))
        ];
        requested_for = (
          rw own e,
          AllFor-keep baked s.table i (set_pending (s.table i)) s.requested refl h.requested_for,
        );
        batch_for = AllFor-keep baked s.table i (set_pending (s.table i)) s.batch refl h.batch_for;
        decoded_for =
            AllFor-keep baked s.table i (set_pending (s.table i)) s.decoded refl h.decoded_for;
      }

  take_first-IsOwned :
      (s : Images) (jobs : List Job)
      → jobs ≡ s.requested
      → s.batch ≡ []
      → IsOwned baked s
      → IsOwned baked (take_first s jobs)
  take_first-IsOwned s [] e z h = h
  take_first-IsOwned s (job ∷ rest) e z h =
      let (a, b) =
        AllFor-take_path baked s.table job.path (job ∷ rest) []
          (subst (AllFor baked s.table) (sym e) h.requested_for) tt in
      record {
        counted = λ i. omega (
          arith,
          jobs_for-take_path i job.path (job ∷ rest) [],
          ap (jobs_for i) e,
          ap (jobs_for i) z,
          h.counted i,
        );
        requested_for = b;
        batch_for = a;
        decoded_for = h.decoded_for;
      }

  pub start_batch-IsOwned : (s : Images) → IsOwned baked s → IsOwned baked (start_batch s)
  unfolding start_batch
  start_batch-IsOwned s h = go s.batch refl
    where
      go :
          (jobs : List Job)
          → s.batch ≡ jobs
          → IsOwned baked (elim jobs [ [] ↦ take_first s s.requested | job ∷ rest ↦ s ])
      go [] e = take_first-IsOwned s s.requested refl e h
      go (job ∷ rest) e = h

  pub finish_batch-IsOwned :
      (picture : Bool) (s : Images) → IsOwned baked s → IsOwned baked (finish_batch picture s)
  unfolding finish_batch
  finish_batch-IsOwned picture s h = record {
    counted = λ i. omega (
      arith,
      h.counted i,
      jobs_for-append i (give_picture picture s.batch) s.decoded,
      jobs_for-give_picture i picture s.batch,
    );
    requested_for = h.requested_for;
    batch_for = tt;
    decoded_for =
        AllFor-append baked s.table (give_picture picture s.batch) s.decoded
          (AllFor-give_picture baked s.table picture s.batch h.batch_for) h.decoded_for;
  }

  -- The job that is uploaded was the only one for its image.
  upload_one-Owns :
      (table : ℕ → Image) (job : Job) (requested batch rest : List Job)
      → Owns baked table requested batch (job ∷ rest)
      → Owns baked (write table job.image (uploaded job (table job.image))) requested batch rest
  upload_one-Owns table job requested batch rest h =
      let i = job.image in
      let own : (i == i) ≡ true = ground arith in
      let done : jobs_for i requested + jobs_for i batch + jobs_for i rest ≡ 0 =
        (let one : one_if (job.image == i) ≡ 1 = ap one_if own in
          let most : one_if (table i).pending ≤ 1 = ground arith in
          omega (arith, h.counted i, one, most)) in
      record {
        counted = λ k. elim (Bool-cases (i == k)) [
          | inl same ↦ rw same (
              subst (λ j. jobs_for j requested + jobs_for j batch + jobs_for j rest ≡ 0)
                ((==_iff i k).0 same) done)
          | inr other ↦ rw other (omega (arith, h.counted k, ap one_if other))
        ];
        requested_for =
            AllFor-keep baked table i (uploaded job (table i)) requested refl h.requested_for;
        batch_for = AllFor-keep baked table i (uploaded job (table i)) batch refl h.batch_for;
        decoded_for = AllFor-keep baked table i (uploaded job (table i)) rest refl h.decoded_for.1;
      }

  upload_rounds-IsOwned :
      (n : ℕ) (jobs : List Job) (s : Images)
      → Owns baked s.table s.requested s.batch jobs
      → IsOwned baked (upload_rounds n jobs s)
  unfolding upload_rounds
  upload_rounds-IsOwned zero [] s h = h
  upload_rounds-IsOwned zero (job ∷ rest) s h = h
  upload_rounds-IsOwned (suc n) [] s h = h
  upload_rounds-IsOwned (suc n) (job ∷ rest) s h =
      upload_rounds-IsOwned n rest _ (upload_one-Owns s.table job s.requested s.batch rest h)

  pub upload_decoded-IsOwned : (s : Images) → IsOwned baked s → IsOwned baked (upload_decoded s)
  unfolding upload_decoded
  upload_decoded-IsOwned s h = upload_rounds-IsOwned s.loads_left s.decoded s h
