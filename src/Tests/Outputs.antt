-- ===== src/Tests/Outputs.antt =====
-- From the captures of a directory to the outputs.
use grpcreplay.Base.{
  ◌≡◌, refl, true, false, Option, none, some, List, [], ◌∷◌, Bytes, codes, if◌then◌else◌, ltb,
}
use grpcreplay.Base.Int.{pos}
use grpcreplay.Base.Text.{contains, is_empty}
use grpcreplay.Packages.{Regexps}
use grpcreplay.Protocol.{Message}
use grpcreplay.Filter.{FilterChain, Filter, chain_filter, method_exclude_filter, new_filter_chain}
use grpcreplay.Filter.Passing.{compiled, may_pass, new_filter_chain_passes}
use grpcreplay.Emitter.{Copy, copy_multy}
use grpcreplay.Emitter.Copying.{passed, allowed, appended, copy_multy_lem}
use grpcreplay.Capture.{Entry, get_files_and_dirs}
use grpcreplay.Capture.Names.{captures, get_files_and_dirs_lem}

-- An expression that matches what contains it.
instance abbrev substrings : Regexps
substrings = record {
  Regexp = Bytes;
  compile = λ expr. some expr;
  match_string = λ expr s. contains s expr;
}

abbrev pattern : Bytes
pattern = codes "Search"

pattern_compiles : compiled pattern ≡ some (some pattern)
unfolding is_empty
pattern_compiles = refl

new_filter_chain_passes_example :
    (c : FilterChain) × (new_filter_chain pattern ≡ some c)
    × ((msg : Message)
        → chain_filter c msg ≡ (if may_pass (some pattern) msg.method then some msg else none))
new_filter_chain_passes_example = new_filter_chain_passes pattern (some pattern) pattern_compiles

abbrev call : Bytes → Message
call method = record {
  meta = record { version = pos 2; uuid = codes "u"; timestamp = pos 5; contain_response = false };
  method = method;
  request = none;
  response = none;
}

abbrev no_reflection : Filter
no_reflection = method_exclude_filter (codes "reflection")

abbrev two_outputs : Copy
two_outputs = record { allow_calls = 0; written = [] ∷ [] ∷ [] }

abbrev reads : List (Option Message)
reads =
    some (call (codes "/Search/a"))
    ∷ none
    ∷ some (call (codes "/reflection/b"))
    ∷ some (call (codes "/Search/c"))
    ∷ []

copy_multy_example :
    (copy_multy no_reflection (some (λ n. ltb n 1)) two_outputs reads).written
    ≡ appended (allowed (some (λ n. ltb n 1)) 0 (passed no_reflection reads)) ([] ∷ [] ∷ [])
copy_multy_example = copy_multy_lem no_reflection (some (λ n. ltb n 1)) two_outputs reads

abbrev entries : List Entry
entries =
    record { name = codes "capture.log"; is_dir = false }
    ∷ record { name = codes "capture"; is_dir = true }
    ∷ record { name = codes "notes.log"; is_dir = false }
    ∷ []

get_files_and_dirs_example :
    get_files_and_dirs (codes "/data") (some entries) ≡ some (captures (codes "/data") entries)
get_files_and_dirs_example = get_files_and_dirs_lem (codes "/data") entries
