-- ===== src/MethodFinder.antt =====
-- http2/pb_finder.go: the message types of a method, by the descriptors of a service. What the
-- program asks of the descriptor packages is a parameter.
pub mod Cache
pub mod Files
pub mod Symbol
use grpcreplay.Base.{
  ℕ, suc, Bool, true, false, Option, none, some, List, [], ◌∷◌, ◌++◌, Bytes, bytes_key, ◌==◌,
  if◌then◌else◌, take, drop, Result, ok, err, panic, ◌>>=◌,
}
use grpcreplay.Base.Split.{last_index}
use grpcreplay.GoMap.{GoMap, get, put}
use grpcreplay.StringSet.{StringSet, new_string_set, has, add}

mutual
  -- A file and those that it imports, which protoc admits only without cycles.
  pub data FileDescriptor : Type 0 where
    file : Bytes → FileDescriptors → FileDescriptor

  pub data FileDescriptors : Type 0 where
    no_files : FileDescriptors
    files : FileDescriptor → FileDescriptors → FileDescriptors

abbrev pub file_name : FileDescriptor → Bytes
file_name (file name dependencies) = name

-- github.com/jhump/protoreflect and google.golang.org/protobuf. `find_symbol` fails, or finds a
-- service, by the two types of its methods, or something else; `find_descriptor` fails, or finds
-- a message, or something else. `Content` is what a dynamic message holds, `empty` of a new one.
pub record Descriptors : Type 1 where
  pub Message : Type 0
  pub file_of : Message → FileDescriptor
  pub full_name : Message → Bytes
  pub find_symbol : Bytes → Option (Option (Bytes → Option (Message × Message)))
  pub Files : Type 0
  pub new_files : List FileDescriptor → Option Files
  pub MessageType : Type 0
  pub find_descriptor : Files → Bytes → Option (Option MessageType)
  pub Content : Type 0
  pub empty : Content

pub data FinderError : Type 0 where
  no_symbol not_a_service bad_files no_descriptor not_a_message : FinderError

abbrev pub strip_slash : Bytes → Bytes
strip_slash [] = []
strip_slash (c ∷ s) = if c == b'/' then s else c ∷ s

abbrev pub cut_at : Bytes → ℕ → Bytes × Bytes
cut_at s i = (take i s, drop (suc i) s)

-- The panic is the index of an empty string.
unfoldable pub parse_symbol : Bytes → Result FinderError (Bytes × Bytes)
parse_symbol [] = panic
parse_symbol (c ∷ s) =
    let symbol = strip_slash (c ∷ s) in
    elim (last_index symbol b'/') [
      | some i ↦ ok (cut_at symbol i)
      | none ↦ elim (last_index symbol b'.') [ some i ↦ ok (cut_at symbol i) | none ↦ ok ([], []) ]
    ]

unfoldable mutual
  pub construct_file_descriptor_set :
      StringSet → List FileDescriptor → FileDescriptor → StringSet × List FileDescriptor
  construct_file_descriptor_set set fd_set (file name dependencies) =
      if has set name
      then construct_dependencies set fd_set dependencies
      else construct_dependencies (add set name) (fd_set ++ file name dependencies ∷ [])
          dependencies

  pub construct_dependencies :
      StringSet → List FileDescriptor → FileDescriptors → StringSet × List FileDescriptor
  construct_dependencies set fd_set no_files = (set, fd_set)
  construct_dependencies set fd_set (files fd fds) =
      let r = construct_file_descriptor_set set fd_set fd in construct_dependencies r.0 r.1 fds

module _ ⦃d : Descriptors⦄ where
  message_of : Option (Option d.MessageType) → Result FinderError d.MessageType
  message_of none = err no_descriptor
  message_of (some none) = err not_a_message
  message_of (some (some type)) = ok type

  unfoldable pub get_data_type : d.Message → Result FinderError d.MessageType
  unfolding message_of
  get_data_type data_type =
      elim (d.new_files (construct_file_descriptor_set new_string_set [] (d.file_of data_type)).1) [
        | none ↦ err bad_files
        | some pr_files ↦ message_of (d.find_descriptor pr_files (d.full_name data_type))
      ]

  -- A dynamic message.
  pub record ProtoMessage : Type 0 where
    pub message_type : d.MessageType
    pub content : d.Content

  abbrev pub new_message : d.MessageType → ProtoMessage
  new_message type = record { message_type = type; content = d.empty }

  pub record MethodInputOutput : Type 0 where
    pub in_type : ProtoMessage
    pub out_type : ProtoMessage

  -- No method of the name is a nil pointer, which is dereferenced.
  types_of : Option (d.Message × d.Message) → Result FinderError MethodInputOutput
  types_of none = panic
  types_of (some (input, output)) = get_data_type input >>= λ in_type.
      get_data_type output >>= λ out_type.
      ok (record { in_type = new_message in_type; out_type = new_message out_type })

  in_symbol :
      Option (Option (Bytes → Option (d.Message × d.Message)))
      → Bytes
      → Result FinderError MethodInputOutput
  unfolding types_of
  in_symbol none method = err no_symbol
  in_symbol (some none) method = err not_a_service
  in_symbol (some (some find_method_by_name)) method = types_of (find_method_by_name method)

  unfoldable pub find : Bytes → Result FinderError MethodInputOutput
  unfolding in_symbol
  find svc_and_method = parse_symbol svc_and_method >>= λ s. in_symbol (d.find_symbol s.0) s.1

  found :
      GoMap Bytes MethodInputOutput
      → Bytes
      → Result FinderError MethodInputOutput
      → GoMap Bytes MethodInputOutput × Result FinderError MethodInputOutput
  found inner_cache svc_and_method (ok m) = (put inner_cache svc_and_method m, ok m)
  found inner_cache svc_and_method (err e) = (inner_cache, err e)
  found inner_cache svc_and_method panic = (inner_cache, panic)

  answered :
      GoMap Bytes MethodInputOutput
      → Bytes
      → Option MethodInputOutput
      → GoMap Bytes MethodInputOutput × Result FinderError MethodInputOutput
  unfolding found
  answered inner_cache svc_and_method (some cached) = (inner_cache, ok cached)
  answered inner_cache svc_and_method none = found inner_cache svc_and_method (find svc_and_method)

  -- `Get`. The value that is put into the cache is the one that the caller gets, with the messages it
  -- may write into; a cached value is cloned, with what its messages hold by then.
  unfoldable pub get_method :
      GoMap Bytes MethodInputOutput
      → Bytes
      → GoMap Bytes MethodInputOutput × Result FinderError MethodInputOutput
  unfolding answered
  get_method inner_cache svc_and_method =
      answered inner_cache svc_and_method (get inner_cache svc_and_method)
