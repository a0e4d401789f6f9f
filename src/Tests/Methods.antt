-- ===== src/Tests/Methods.antt =====
-- The method finder and the calls with packages that behave as the real ones do: there is one
-- service, and every message has the type named like itself.
use grpcreplay.Base.{
  ◌≡◌, true, false, none, some, List, [], ◌∷◌, Bytes, bytes_key, bytes_eq, codes, arith,
  if◌then◌else◌, ok,
}
use grpcreplay.Base.Int.{pos}
use grpcreplay.GoMap.Keys.{in_list}
use grpcreplay.StringSet.{new_string_set, has}
use grpcreplay.Protocol.{Message}
use grpcreplay.MethodFinder.{
  FileDescriptor, file, files, no_files, Descriptors, parse_symbol, construct_file_descriptor_set,
}
use grpcreplay.MethodFinder.Cache.{Event, asks, writes, get_methods, answers, get_methods_lem}
use grpcreplay.MethodFinder.Files.{
  tree_names, Distinct, Collected, listed, construct_file_descriptor_set_lem,
}
use grpcreplay.MethodFinder.Symbol.{parse_symbol_lem}
use grpcreplay.GrpcOutput.{Grpcurl}
use grpcreplay.GrpcOutput.Cached.{
  Query, services_query, symbol_query, extensions_query, ask_all, plain_all, ask_all_lem,
}

abbrev common : FileDescriptor
common = file (codes "common.proto") no_files

-- The common file is imported twice.
abbrev search : FileDescriptor
search =
    file (codes "search.proto")
      (files (file (codes "types.proto") (files common no_files)) (files common no_files))

instance abbrev descriptors : Descriptors
descriptors = record {
  Message = Bytes;
  file_of = λ m. search;
  full_name = λ m. m;
  find_symbol = λ s.
      if bytes_eq s (codes "Search")
      then some (some (λ m. some (codes "In", codes "Out")))
      else none;
  Files = List FileDescriptor;
  new_files = λ fds. some fds;
  MessageType = Bytes;
  find_descriptor = λ fds name. some (some name);
  Content = Bytes;
  empty = [];
}

-- The first caller for the method writes into its messages, and the second gets a clone of them.
abbrev calls : List Event
calls =
    asks (codes "/Search/A")
    ∷ asks (codes "/Other/A")
    ∷ writes (codes "/Search/A") (codes "q") (codes "r")
    ∷ asks (codes "/Search/A")
    ∷ []

get_methods_lem_example : get_methods [] calls ≡ answers [] calls
get_methods_lem_example = get_methods_lem calls

construct_file_descriptor_set_example :
    (r : Collected) × (construct_file_descriptor_set new_string_set [] search ≡ r)
    × Distinct (listed r.1)
    × ((name : Bytes) → in_list (listed r.1) name ≡ in_list (tree_names search) name)
    × ((name : Bytes) → has r.0 name ≡ in_list (tree_names search) name)
construct_file_descriptor_set_example = construct_file_descriptor_set_lem search

parse_symbol_example :
    (parse_symbol (codes "/S/M") ≡ ok (codes "S", codes "M"))
    × (parse_symbol (codes "S/M") ≡ ok (codes "S", codes "M"))
    × (parse_symbol (codes "S.M") ≡ ok (codes "S", codes "M"))
parse_symbol_example =
    parse_symbol_lem b'S' [] (codes "M") (omega arith, tt) (omega arith, tt) (omega arith, tt)

instance abbrev grpcurl : Grpcurl
grpcurl = record {
  Descriptor = Bytes;
  Extension = Bytes;
  list_services = some (codes "Search" ∷ []);
  find_symbol = λ s. if bytes_eq s (codes "Search") then some s else none;
  all_extensions_for_type = λ s. some [];
  request_parser = λ body. true;
  invoke_rpc = λ symbol headers body. bytes_eq symbol (codes "Search/A");
}

abbrev queries : List Query
queries =
    symbol_query (codes "Search")
    ∷ services_query
    ∷ extensions_query (codes "Search")
    ∷ symbol_query (codes "Search")
    ∷ symbol_query (codes "Other")
    ∷ []

ask_all_example : ask_all [] queries ≡ plain_all queries
ask_all_example = ask_all_lem queries

abbrev calling : Bytes → Message
calling method = record {
  meta = record { version = pos 2; uuid = codes "u"; timestamp = pos 1; contain_response = false };
  method = method;
  request = some (record {
    headers = (codes ":path", codes "/") ∷ (codes "k", codes "v") ∷ [];
    body = codes "{}";
  });
  response = none;
}
