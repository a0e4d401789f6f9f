-- ===== src/Capture/Names.antt =====
-- The paths that a scan finds, as one description of each entry.
use grpcreplay.Base.{
  ◌≡◌, refl, sym, ap, ◌∙◌, Bool, true, false, ◌&&◌, ◌||◌, not, List, [], ◌∷◌, ◌++◌, append-nil,
  append_assoc, Bytes, codes, if◌then◌else◌, some,
}
use grpcreplay.Base.Text.{has_prefix, has_suffix}
use grpcreplay.Capture.{Entry, scan, get_files_and_dirs}

-- A file called capture….log or capture….log.gz.
abbrev pub is_capture : Entry → Bool
is_capture fi =
    not fi.is_dir
    && (has_prefix fi.name (codes "capture")
        && (has_suffix fi.name (codes ".log") || has_suffix fi.name (codes ".log.gz")))

abbrev pub captures : Bytes → List Entry → List Bytes
captures dir [] = []
captures dir (fi ∷ rest) =
    let found = captures dir rest in
    if is_capture fi then (dir ++ codes "/" ++ fi.name) ∷ found else found

chosen :
    (d p s : Bool) (files : List Bytes) (path : Bytes)
    → (if d then files else if not p then files else if s then files ++ path ∷ [] else files)
      ≡ (if not d && (p && s) then files ++ path ∷ [] else files)
chosen true p s files path = refl
chosen false true s files path = refl
chosen false false s files path = refl

moved :
    (b : Bool) (files found : List Bytes) (path : Bytes)
    → (if b then files ++ path ∷ [] else files) ++ found
      ≡ files ++ (if b then path ∷ found else found)
moved true files found path = append_assoc files (path ∷ []) found
moved false files found path = refl

scan_lem :
    (dir : Bytes) (entries : List Entry) (files : List Bytes)
    → scan dir entries files ≡ files ++ captures dir entries
unfolding scan
scan_lem dir [] files = sym (append-nil files)
scan_lem dir (fi ∷ rest) files =
    let path = dir ++ codes "/" ++ fi.name in
    let named = has_suffix fi.name (codes ".log") || has_suffix fi.name (codes ".log.gz") in
    scan_lem dir rest _
    ∙ ap (λ fs. fs ++ captures dir rest)
        (chosen fi.is_dir (has_prefix fi.name (codes "capture")) named files path)
    ∙ moved (is_capture fi) files (captures dir rest) path

-- Where the directory can be read, the files to replay are the captures among its entries and no
-- others, each with the directory before its name, in the directory's order.
pub get_files_and_dirs_lem :
    (dir : Bytes) (entries : List Entry)
    → get_files_and_dirs dir (some entries) ≡ some (captures dir entries)
unfolding get_files_and_dirs
get_files_and_dirs_lem dir entries = ap some (scan_lem dir entries [])
