-- ===== src/Storage/Laws.antt =====
-- What a read sees after each storage operation.
use ai_virtual_try_on.Prelude.{
  ℕ, String, ◌≡◌, refl, not, ◌&&◌, none, some, List, [], ◌∷◌, arith, ◌==◌, str_eq, eq_iff, select,
  if◌then◌else◌,
}
use ai_virtual_try_on.Storage.{
  Bytes, TempFile, ResultFile, Disk, is_at, find_temp, find_result, save_temp_upload,
  load_temp_upload, save_result, get_result, delete_result, cleanup_temp,
}

find_temp-select :
    (i k : ℕ) (n m : String) (files : List TempFile)
    → find_temp k m (select (λ f. not (is_at i n f)) files)
      ≡ (if i == k && str_eq n m then none else find_temp k m files)
find_temp-select i k n m [] = ground arith
find_temp-select i k n m (f ∷ files) =
    ground (arith, find_temp-select i k n m files, eq_iff f.name n, eq_iff f.name m, eq_iff n m)

find_temp-cleanup :
    (i k : ℕ) (m : String) (files : List TempFile)
    → find_temp k m (select (λ f. not (f.job_id == i)) files)
      ≡ (if i == k then none else find_temp k m files)
find_temp-cleanup i k m [] = ground arith
find_temp-cleanup i k m (f ∷ files) = ground (arith, find_temp-cleanup i k m files)

module _ {Image : Type 0} where
  find_result-select :
      (i k : ℕ) (files : List (ResultFile Image))
      → find_result k (select (λ f. not (f.job_id == i)) files)
        ≡ (if i == k then none else find_result k files)
  find_result-select i k [] = ground arith
  find_result-select i k (f ∷ files) = ground (arith, find_result-select i k files)

  pub load-save_temp :
      (i k : ℕ) (n m : String) (b : Bytes) (d : Disk Image)
      → load_temp_upload k m (save_temp_upload i n b d)
        ≡ (if i == k && str_eq n m then some b else load_temp_upload k m d)
  unfolding load_temp_upload save_temp_upload
  load-save_temp i k n m b d = ground (arith, find_temp-select i k n m d.tmp, eq_iff n m)

  pub load-cleanup_temp :
      (i k : ℕ) (m : String) (d : Disk Image)
      → load_temp_upload k m (cleanup_temp i d) ≡ (if i == k then none else load_temp_upload k m d)
  unfolding load_temp_upload cleanup_temp
  load-cleanup_temp i k m d = find_temp-cleanup i k m d.tmp

  pub load-save_result :
      (i k : ℕ) (m : String) (image : Image) (d : Disk Image)
      → load_temp_upload k m (save_result i image d) ≡ load_temp_upload k m d
  unfolding load_temp_upload save_result
  load-save_result i k m image d = refl

  pub get-save_result :
      (i k : ℕ) (image : Image) (d : Disk Image)
      → get_result k (save_result i image d) ≡ (if i == k then some image else get_result k d)
  unfolding get_result save_result
  get-save_result i k image d = ground (arith, find_result-select i k d.results)

  pub get-delete_result :
      (i k : ℕ) (d : Disk Image)
      → get_result k (delete_result i d) ≡ (if i == k then none else get_result k d)
  unfolding get_result delete_result
  get-delete_result i k d = find_result-select i k d.results

  pub get-cleanup_temp :
      (i k : ℕ) (d : Disk Image) → get_result k (cleanup_temp i d) ≡ get_result k d
  unfolding get_result cleanup_temp
  get-cleanup_temp i k d = refl

  pub get-save_temp :
      (i k : ℕ) (n : String) (b : Bytes) (d : Disk Image)
      → get_result k (save_temp_upload i n b d) ≡ get_result k d
  unfolding get_result save_temp_upload
  get-save_temp i k n b d = refl

  pub load-delete_result :
      (i k : ℕ) (m : String) (d : Disk Image)
      → load_temp_upload k m (delete_result i d) ≡ load_temp_upload k m d
  unfolding load_temp_upload delete_result
  load-delete_result i k m d = refl
