-- ===== src/Bin/Cli.antt =====
-- crates/ort-cli/src/lib.rs: key files and hexadecimal text. Text is a list of the numbers of its
-- characters, and an error of the crate `anyhow` the contexts that were put around its cause.
pub mod Keys
pub mod Hex
use Prim.Native.Char.{code}
use Prim.Native.String.{String, ◌++◌}
use ort.Prelude.{
  ℕ, ◌+◌, ◌-◌, ◌/◌, ◌%◌, List, [], ◌∷◌, Bool, Option, none, some, Result, ok, map_err,
  if◌then◌else◌, ltb,
}
use ort.Core.Error
use ort.Net.Error.{IoError}
use ort.Net.Io.{Io, ◌>>=◌, ◌>>◌, lift}
use ort.Bin.Files.{Files}

pub data CliError : Type 0 where
  io : IoError → CliError
  core : Error.Error → CliError
  -- an error of the crate `rcgen`
  rcgen : String → CliError
  context : String → CliError → CliError

-- The numbers of a text's characters.
abbrev pub codes : String → List ℕ
codes String.[] = []
codes (String.◌∷◌ c s) = code c ∷ codes s

-- The character of a hexadecimal digit.
unfoldable pub hex_digit : ℕ → ℕ
hex_digit n = if ltb n 10 then b'0' + n else b'a' + (n - 10)

unfoldable pub hex : List ℕ → List ℕ
unfolding hex_digit
hex [] = []
hex (b ∷ bs) = hex_digit (b / 16) ∷ hex_digit (b % 16) ∷ hex bs

module _ (F : Files) where
  abbrev pub with_context : {A : Type 0} → String → Io IoError F.State A → Io CliError F.State A
  with_context what m s = let (r, s') = m s in (map_err (λ e. context what (io e)) r, s')

  unfoldable pub read_key : F.FilePath → Io CliError F.State (List ℕ)
  read_key path = with_context ("reading key " ++ F.display path) λ s. (F.read path s, s)

  -- `if let Some(parent) = path.parent()`
  make_parent : Option F.FilePath → Io CliError F.State (Unit {0})
  make_parent none = lift (ok tt)
  make_parent (some parent) =
      if F.is_empty parent
      then lift (ok tt)
      else with_context ("creating " ++ F.display parent) (F.create_dir_all parent)

  -- An error of `set_permissions` is dropped.
  restrict : F.FilePath → Io CliError F.State (Unit {0})
  restrict path s = (ok tt, (F.set_permissions 0o600 path s).1)

  unfoldable pub write_key : F.FilePath → List ℕ → Io CliError F.State (Unit {0})
  unfolding make_parent restrict
  write_key path bytes = do
    make_parent (F.parent path)
    with_context ("writing key " ++ F.display path) (F.write path bytes)
    restrict path
