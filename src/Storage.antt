-- ===== src/Storage.antt =====
-- class LocalStorageService of backend/app/services/storage.py: the files under tmp/ (one for each
-- job id and name) and under results/ (one for each job id), as lists of files. The image library
-- is a parameter: images are a type, and PNG encoding is an argument where it is used.
pub mod Laws
use ai_virtual_try_on.Prelude.{
  ℕ, String, Bool, not, ◌&&◌, Option, none, some, List, [], ◌∷◌, ◌==◌, str_eq, select,
  if◌then◌else◌,
}

abbrev pub Bytes : Type 0
Bytes = List ℕ

pub record TempFile : Type 0 where
  pub job_id : ℕ
  pub name : String
  pub content : Bytes

pub record ResultFile (Image : Type 0) : Type 0 where
  pub job_id : ℕ
  pub image : Image

pub record Disk (Image : Type 0) : Type 0 where
  pub tmp : List TempFile
  pub results : List (ResultFile Image)

-- `_temp_path`
abbrev pub is_at : ℕ → String → TempFile → Bool
is_at i name f = f.job_id == i && str_eq f.name name

abbrev find_temp : ℕ → String → List TempFile → Option Bytes
find_temp i name [] = none
find_temp i name (f ∷ files) = if is_at i name f then some f.content else find_temp i name files

module _ {Image : Type 0} where
  abbrev find_result : ℕ → List (ResultFile Image) → Option Image
  find_result i [] = none
  find_result i (f ∷ files) = if f.job_id == i then some f.image else find_result i files

  -- `write_bytes` replaces the file.
  unfoldable pub save_temp_upload : ℕ → String → Bytes → Disk Image → Disk Image
  save_temp_upload i name content d = record d {
    tmp =
        record { job_id = i; name = name; content = content }
        ∷ select (λ f. not (is_at i name f)) d.tmp;
  }

  unfoldable pub load_temp_upload : ℕ → String → Disk Image → Option Bytes
  load_temp_upload i name d = find_temp i name d.tmp

  unfoldable pub save_result : ℕ → Image → Disk Image → Disk Image
  save_result i image d = record d {
    results = record { job_id = i; image = image } ∷ select (λ f. not (f.job_id == i)) d.results;
  }

  -- The image behind the path, where the source returns the path.
  unfoldable pub get_result : ℕ → Disk Image → Option Image
  get_result i d = find_result i d.results

  -- `unlink(missing_ok=True)`
  unfoldable pub delete_result : ℕ → Disk Image → Disk Image
  delete_result i d = record d { results = select (λ f. not (f.job_id == i)) d.results }

  -- `shutil.rmtree(tmp/<job_id>, ignore_errors=True)`
  unfoldable pub cleanup_temp : ℕ → Disk Image → Disk Image
  cleanup_temp i d = record d { tmp = select (λ f. not (f.job_id == i)) d.tmp }
