-- ===== src/Settings.antt =====
-- config/settings.go and `parseSettings` of main.go: the options of the program. The replay speed,
-- a floating point number, is left out.
use grpcreplay.Base.{Bool, Option, none, some, List, [], ◌∷◌, ◌++◌, Bytes, codes, if◌then◌else◌}
use grpcreplay.Base.Int.{ℤ, pos}
use grpcreplay.Base.Decimal.{atoi}
use grpcreplay.Base.Text.{has_suffix, is_empty, trim_space}
use grpcreplay.StringSet.{StringSet, new_string_set, add, to_array}

pub record AppSettings : Type 0 where
  pub exit_after : ℤ
  pub input_raw : List Bytes
  pub input_file_dir : List Bytes
  pub input_file_read_depth : ℤ
  pub input_rocketmq_name_server : List Bytes
  pub input_rocketmq_topic : Bytes
  pub input_rocketmq_access_key : Bytes
  pub input_rocketmq_secret_key : Bytes
  pub input_rocketmq_group_name : Bytes
  pub output_stdout : Bool
  pub output_grpc : List Bytes
  pub output_grpc_worker_number : ℤ
  pub output_file_dir : List Bytes
  pub output_file_max_size : ℤ
  pub output_file_max_backups : ℤ
  pub output_file_max_age : ℤ
  pub output_rocketmq_name_server : List Bytes
  pub output_rocketmq_topic : Bytes
  pub output_rocketmq_access_key : Bytes
  pub output_rocketmq_secret_key : Bytes
  pub include_filter_method_match : Bytes
  pub rate_limit_qps : ℤ
  pub codec : Bytes
  pub record_response : Bool
  pub proto_file_str : Bytes
  pub proto_files : List Bytes
  pub wait_default_duration : ℤ

-- `MultiStringOption.Set`; a nil pointer is `none`.
unfoldable pub set_string : Option (List Bytes) → Bytes → Option (List Bytes)
set_string none value = none
set_string (some params) value = some (params ++ value ∷ [])

abbrev or_zero : Option ℤ → ℤ
or_zero none = pos 0
or_zero (some n) = n

-- `MultiIntOption.Set`: what `Atoi` returns beside a syntax error is 0. It returns the nearest
-- number there is beside a range error, which is not modelled.
unfoldable pub set_int : Option (List ℤ) → Bytes → Option (List ℤ)
set_int none value = none
set_int (some params) value = some (params ++ or_zero (atoi value) ∷ [])

mutual
  -- What a directory holds: the entries in the order in which they are read. `unreadable`: it can
  -- not be opened or read.
  pub data Directory : Type 0 where
    entries : DirEntries → Directory
    unreadable : Directory

  pub data DirEntries : Type 0 where
    no_entries : DirEntries
    file_entry : Bytes → DirEntries → DirEntries
    dir_entry : Bytes → Directory → DirEntries → DirEntries

abbrev pub join_path : Bytes → Bytes → Bytes
join_path dir name = dir ++ (b'/' ∷ name)

abbrev pub add_proto : StringSet → Bytes → StringSet
add_proto set path = if has_suffix path (codes ".proto") then add set path else set

unfoldable mutual
  -- `ListFilesRecursively`; `none` is an error. The directory's name is clean and has no slash at its end.
  pub list_files_recursively : Bytes → Directory → StringSet → Option StringSet
  list_files_recursively dir unreadable set = none
  list_files_recursively dir (entries es) set = list_entries dir es set

  pub list_entries : Bytes → DirEntries → StringSet → Option StringSet
  list_entries dir no_entries set = some set
  list_entries dir (file_entry name es) set =
      list_entries dir es (add_proto set (join_path dir name))
  list_entries dir (dir_entry name d es) set =
      elim (list_files_recursively (join_path dir name) d set) [
        | none ↦ none
        | some set' ↦ list_entries dir es set'
      ]

-- What `os.Stat` tells of a path.
pub data FileInfo : Type 0 where
  is_file : FileInfo
  is_dir : Directory → FileInfo

-- The settings, and the duration that http2's default is set to; `none`: the program ends.
proto_files_of : AppSettings → Option FileInfo → Option (AppSettings × Option ℤ)
proto_files_of settings none = none
proto_files_of settings (some is_file) = some (
  record settings { proto_files = settings.proto_file_str ∷ [] },
  some settings.wait_default_duration,
)
proto_files_of settings (some (is_dir d)) =
    elim (list_files_recursively settings.proto_file_str d new_string_set) [
      | none ↦ none
      | some file_set ↦
          some (
            record settings { proto_files = to_array file_set },
            some settings.wait_default_duration,
          )
    ]

unfoldable pub parse_settings :
    (Bytes → Option FileInfo) → AppSettings → Option (AppSettings × Option ℤ)
unfolding proto_files_of
parse_settings stat settings =
    let s = record settings { proto_file_str = trim_space settings.proto_file_str } in
    if is_empty s.proto_file_str then some (s, none) else proto_files_of s (stat s.proto_file_str)
