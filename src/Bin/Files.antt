-- ===== src/Bin/Files.antt =====
-- The file system as the binaries use it through `std::fs` and `std::path`, and what their
-- documentation says of it where no other program writes the files.
use Prim.Native.String.{String}
use ort.Prelude.{ℕ, ◌≡◌, ◌≢◌, List, Bool, true, Option, ok}
use ort.Net.Error.{IoError, IoResult}
use ort.Net.Io.{Io}

pub record Files : Type 1 where
  pub State : Type 0
  pub FilePath : Type 0
  pub display : FilePath → String
  pub parent : FilePath → Option FilePath
  -- `as_os_str().is_empty()`
  pub is_empty : FilePath → Bool
  pub join : FilePath → String → FilePath
  pub exists : FilePath → State → Bool
  pub read : FilePath → State → IoResult (List ℕ)
  pub write : FilePath → List ℕ → Io IoError State (Unit {0})
  pub create_dir_all : FilePath → Io IoError State (Unit {0})
  -- with the mode
  pub set_permissions : ℕ → FilePath → Io IoError State (Unit {0})

-- What was written is read, and what could be read stays when another file is written, a directory
-- is made, or a file is made its owner's alone. A file that can be read exists.
pub record IsFileSystem (F : Files) : Type 0 where
  pub read-write :
      (p : F.FilePath) (bs : List ℕ) (s : F.State)
      → (F.write p bs s).0 ≡ ok tt
      → F.read p (F.write p bs s).1 ≡ ok bs
  pub read-write_other :
      (p q : F.FilePath) (bs bs' : List ℕ) (s : F.State)
      → p ≢ q
      → F.read q s ≡ ok bs'
      → F.read q (F.write p bs s).1 ≡ ok bs'
  pub read-create_dir_all :
      (d q : F.FilePath) (bs' : List ℕ) (s : F.State)
      → F.read q s ≡ ok bs'
      → F.read q (F.create_dir_all d s).1 ≡ ok bs'
  pub read-set_permissions :
      (p q : F.FilePath) (bs' : List ℕ) (s : F.State)
      → F.read q s ≡ ok bs'
      → F.read q (F.set_permissions 0o600 p s).1 ≡ ok bs'
  pub exists-read :
      (q : F.FilePath) (bs' : List ℕ) (s : F.State) → F.read q s ≡ ok bs' → F.exists q s ≡ true
