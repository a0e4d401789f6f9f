-- ===== src/Plugins.antt =====
-- biz/plugins.go: the plugins that the settings name. A plugin is what its constructor was called
-- with; that the constructors of outputs and queues dial or open what they need is not modelled.
pub mod Order
use grpcreplay.Base.{
  ℕ, Bool, true, false, Option, none, some, List, [], ◌∷◌, ◌++◌, Bytes, codes, if◌then◌else◌, take,
  Result, ok, err, panic,
}
use grpcreplay.Base.Int.{ℤ, pos, negsuc}
use grpcreplay.Base.Split.{last_index}
use grpcreplay.Base.Text.{contains, is_empty}
use grpcreplay.RawInput.{Interface, RawInput, InputError, new_raw_input}
use grpcreplay.Settings.{AppSettings}

-- What the program asks of the system and of Go's net packages: `stat_dir` is `os.Stat` by whether
-- the path is a directory, `url_host` the host of a parsed URL, `parse_ip` whether a text is an IP.
pub record System : Type 0 where
  pub split_host_port : Bytes → Option (Bytes × Bytes)
  pub interfaces : Option (List Interface)
  pub stat_dir : Bytes → Option Bool
  pub url_host : Bytes → Option Bytes
  pub parse_ip : Bytes → Bool

-- Where the types of the methods come from.
pub data PbFinder : Type 0 where
  file_pb_finder : List Bytes → PbFinder
  reflection_pb_finder : Bytes → PbFinder

-- `raw_input none`: a nil pointer.
pub data Plugin : Type 0 where
  raw_input : Option RawInput → PbFinder → Plugin
  file_dir_input : Bytes → Bytes → ℤ → Plugin
  rocketmq_input : List Bytes → Bytes → Bytes → Plugin
  std_output : Bytes → Plugin
  rocketmq_output : List Bytes → Bytes → Plugin
  grpc_output : Bytes → ℤ → PbFinder → Plugin
  file_dir_output : Bytes → Bytes → ℤ → ℤ → ℤ → Plugin

-- Which plugins have a `Read` method; the others have `Write`.
abbrev pub is_reader : Plugin → Bool
is_reader (raw_input i f) = true
is_reader (file_dir_input c p d) = true
is_reader (rocketmq_input n t g) = true
is_reader (std_output c) = false
is_reader (rocketmq_output n t) = false
is_reader (grpc_output a w f) = false
is_reader (file_dir_output c p s b a) = false

pub record InOutPlugins : Type 0 where
  pub inputs : List Plugin
  pub outputs : List Plugin
  pub all : List Plugin

abbrev pub no_plugins : InOutPlugins
no_plugins = record { inputs = []; outputs = []; all = [] }

unfoldable pub register_plugin : InOutPlugins → Plugin → InOutPlugins
register_plugin plugins plugin =
    if is_reader plugin
    then record {
      inputs = plugins.inputs ++ plugin ∷ [];
      outputs = plugins.outputs;
      all = plugins.all ++ plugin ∷ [];
    }
    else record {
      inputs = plugins.inputs;
      outputs = plugins.outputs ++ plugin ∷ [];
      all = plugins.all ++ plugin ∷ [];
    }

module _ ⦃s : System⦄ where
  unfoldable pub is_ipv4 : Bytes → Bool
  is_ipv4 ip_addr = if s.parse_ip ip_addr then contains ip_addr (codes ".") else false

  unfoldable pub is_ipv6 : Bytes → Bool
  is_ipv6 ip_addr = if s.parse_ip ip_addr then contains ip_addr (codes ":") else false

  abbrev pub addr_port : Bytes → Bytes → Bytes
  addr_port host port = host ++ (b':' ∷ port)

  -- The first IPv4 address among those of an interface. Panics: an address without a slash.
  unfoldable pub first_ipv4 : List Bytes → Result InputError (Option Bytes)
  unfolding is_ipv4
  first_ipv4 [] = ok none
  first_ipv4 (addr ∷ addrs) =
      let rest = first_ipv4 addrs in
      elim (last_index addr b'/') [
        | none ↦ panic
        | some idx ↦ if is_ipv4 (take idx addr) then ok (some (take idx addr)) else rest
      ]

  unfoldable pub first_server : List Interface → Result InputError (Option Bytes)
  first_server [] = ok none
  first_server (itf ∷ itfs) =
      let rest = first_server itfs in
      elim (first_ipv4 itf.addrs) [
        | ok found ↦ elim found [ none ↦ rest | some ip ↦ ok (some ip) ]
        | err e ↦ err e
        | panic ↦ panic
      ]

  server_of : Bytes → Bytes → Result InputError (Option Bytes) → Option Bytes
  server_of host port (ok none) = some (addr_port host port)
  server_of host port (ok (some ip)) = some (addr_port ip port)
  server_of host port (err e) = none
  server_of host port panic = none

  -- `none`: a panic.
  unfoldable pub find_one_server_addr : Bytes → Bytes → Option Bytes
  unfolding server_of
  find_one_server_addr host port =
      if is_empty host
      then elim s.interfaces [ none ↦ none | some itfs ↦ server_of host port (first_server itfs) ]
      else some (addr_port host port)

  unfoldable pub extract_addr : Bytes → Option Bytes
  extract_addr output_grpc =
      if contains output_grpc (codes "grpc://")
      then s.url_host output_grpc
      else s.url_host (codes "grpc://" ++ output_grpc)

  -- `IsValidDir`
  unfoldable pub is_valid_dir : Bytes → Bool
  is_valid_dir dir_path = elim (s.stat_dir dir_path) [ none ↦ false | some dir ↦ dir ]

  pub record Building : Type 0 where
    pub finder : Option PbFinder
    pub plugins : InOutPlugins

  abbrev pub registered : Building → Plugin → Building
  registered b plugin = record b { plugins = register_plugin b.plugins plugin }

  -- One stage of the construction behind another; `none`: the program has ended.
  abbrev pub next_stage : Option Building → (Building → Option Building) → Option Building
  next_stage none stage = none
  next_stage (some b) stage = stage b

  use_finder :
      Option PbFinder
      → Option Bytes
      → Building
      → (PbFinder → Building → Option Building)
      → Option Building
  use_finder (some f) addr b stage = stage f b
  use_finder none none b stage = none
  use_finder none (some addr) b stage =
      stage (reflection_pb_finder addr) (record b { finder = some (reflection_pb_finder addr) })

  -- The finder there is, or one by the reflection of the server at this address, if there is one.
  unfoldable pub with_finder :
      Building → Option Bytes → (PbFinder → Building → Option Building) → Option Building
  unfolding use_finder
  with_finder b addr stage = use_finder b.finder addr b stage

  abbrev pub register_raw : Result InputError RawInput → PbFinder → Building → Option Building
  register_raw (ok i) f b = some (registered b (raw_input (some i) f))
  register_raw (err e) f b = some (registered b (raw_input none f))
  register_raw panic f b = none

  -- An address that is not split is passed over.
  abbrev pub raw_at : AppSettings → Building → Bytes → Option (Bytes × Bytes) → Option Building
  raw_at settings b item none = some b
  raw_at settings b item (some (host, port)) =
      with_finder b (find_one_server_addr host port)
        (register_raw (new_raw_input s.split_host_port s.interfaces item settings.record_response))

  unfoldable pub add_raw : AppSettings → Building → Bytes → Option Building
  add_raw settings b item = raw_at settings b item (s.split_host_port item)

  unfoldable pub add_file_input : AppSettings → Building → Bytes → Option Building
  add_file_input settings b path =
      if is_valid_dir path
      then some (registered b (file_dir_input settings.codec path settings.input_file_read_depth))
      else none

  abbrev pub grpc_at : AppSettings → Building → Option Bytes → Option Building
  grpc_at settings b none = none
  grpc_at settings b (some addr) =
      with_finder b (some addr)
        (λ f b'. some (registered b' (grpc_output addr settings.output_grpc_worker_number f)))

  unfoldable pub add_grpc : AppSettings → Building → Bytes → Option Building
  add_grpc settings b item = grpc_at settings b (extract_addr item)

  unfoldable pub add_file_output : AppSettings → Building → Bytes → Option Building
  add_file_output settings b path =
      if is_valid_dir path
      then some (
          registered b (
            file_dir_output settings.codec path settings.output_file_max_size
              settings.output_file_max_backups settings.output_file_max_age))
      else none

  -- A `for` over the values of an option.
  unfoldable pub each :
      (Building → Bytes → Option Building) → Building → List Bytes → Option Building
  each stage b [] = some b
  each stage b (item ∷ items) = next_stage (stage b item) (λ b'. each stage b' items)

  abbrev pub has_any : List Bytes → Bool
  has_any [] = false
  has_any (x ∷ xs) = true

  unfoldable pub add_queue_input : AppSettings → Building → Option Building
  add_queue_input settings b =
      if has_any settings.input_rocketmq_name_server
      then some (
          registered b (
            rocketmq_input settings.input_rocketmq_name_server settings.input_rocketmq_topic
              settings.input_rocketmq_group_name))
      else some b

  unfoldable pub add_stdout : AppSettings → Building → Option Building
  add_stdout settings b =
      if settings.output_stdout then some (registered b (std_output settings.codec)) else some b

  unfoldable pub add_queue_output : AppSettings → Building → Option Building
  add_queue_output settings b =
      if has_any settings.output_rocketmq_name_server
      then some (
          registered b
            (rocketmq_output settings.output_rocketmq_name_server settings.output_rocketmq_topic))
      else some b

  unfoldable pub first_finder : List Bytes → Option PbFinder
  first_finder proto_files = if has_any proto_files then some (file_pb_finder proto_files) else none

  abbrev pub the_inputs : AppSettings → Option Building
  the_inputs settings =
      next_stage
        (next_stage
          (each (add_raw settings)
            (record { finder = first_finder settings.proto_files; plugins = no_plugins })
            settings.input_raw)
          (λ b. each (add_file_input settings) b settings.input_file_dir))
        (add_queue_input settings)

  abbrev pub the_outputs : AppSettings → Building → Option Building
  the_outputs settings b =
      next_stage
        (next_stage (next_stage (add_stdout settings b) (add_queue_output settings))
          (λ b'. each (add_grpc settings) b' settings.output_grpc))
        (λ b'. each (add_file_output settings) b' settings.output_file_dir)

  -- `NewPlugins`, with the finder that it ends with.
  unfoldable pub new_plugins : AppSettings → Option Building
  new_plugins settings = next_stage (the_inputs settings) (the_outputs settings)
