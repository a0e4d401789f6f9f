-- ===== src/Capture.antt =====
-- plugin/input_file_dir.go, `getFilesAndDirs`: which entries of a directory are captures to replay.
use grpcreplay.Base.{
  Bool, true, false, ◌&&◌, ◌||◌, not, List, [], ◌∷◌, ◌++◌, Bytes, codes, if◌then◌else◌, Option,
  none, some,
}
use grpcreplay.Base.Text.{has_prefix, has_suffix}
pub mod Names

-- `os.DirEntry`
pub record Entry : Type 0 where
  pub name : Bytes
  pub is_dir : Bool

-- The loop over the entries; `files` holds what it has found.
unfoldable pub scan : Bytes → List Entry → List Bytes → List Bytes
scan dir_pth [] files = files
scan dir_pth (fi ∷ rest) files = scan dir_pth rest (
    if fi.is_dir
    then files
    else if not (has_prefix fi.name (codes "capture"))
    then files
    else if has_suffix fi.name (codes ".log") || has_suffix fi.name (codes ".log.gz")
    then files ++ (dir_pth ++ codes "/" ++ fi.name) ∷ []
    else files)

-- What `os.ReadDir` gave, or `none` for its error.
unfoldable pub get_files_and_dirs : Bytes → Option (List Entry) → Option (List Bytes)
unfolding scan
get_files_and_dirs dir_pth none = none
get_files_and_dirs dir_pth (some entries) = some (scan dir_pth entries [])
