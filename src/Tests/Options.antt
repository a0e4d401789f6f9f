-- ===== src/Tests/Options.antt =====
-- The plugins and the options at concrete settings.
use grpcreplay.Base.{◌≡◌, refl, true, false, none, some, [], ◌∷◌, codes}
use grpcreplay.Base.Int.{pos}
use grpcreplay.Base.Text.{contains, has_prefix}
use grpcreplay.Settings.{AppSettings, set_string}
use grpcreplay.Plugins.{
  System, Building, file_dir_input, std_output, grpc_output, file_pb_finder, new_plugins, each,
  add_file_input, add_queue_input, add_stdout, add_queue_output, add_grpc, add_file_output, add_raw,
  first_finder, with_finder, register_plugin, extract_addr, is_valid_dir,
}
use grpcreplay.Plugins.Order.{IsOrdered, new_plugins-IsOrdered}

instance abbrev system : System
system = record {
  split_host_port = λ address. none;
  interfaces = none;
  stat_dir = λ path. some true;
  url_host = λ url. some (codes "127.0.0.1:80");
  parse_ip = λ ip. true;
}

abbrev settings : AppSettings
settings = record {
  exit_after = pos 0;
  input_raw = codes "nowhere" ∷ [];
  input_file_dir = codes "/tmp/in" ∷ [];
  input_file_read_depth = pos 100;
  input_rocketmq_name_server = [];
  input_rocketmq_topic = [];
  input_rocketmq_access_key = [];
  input_rocketmq_secret_key = [];
  input_rocketmq_group_name = [];
  output_stdout = true;
  output_grpc = codes "127.0.0.1:80" ∷ [];
  output_grpc_worker_number = pos 5;
  output_file_dir = [];
  output_file_max_size = pos 500;
  output_file_max_backups = pos 10;
  output_file_max_age = pos 30;
  output_rocketmq_name_server = [];
  output_rocketmq_topic = [];
  output_rocketmq_access_key = [];
  output_rocketmq_secret_key = [];
  include_filter_method_match = [];
  rate_limit_qps = pos 0;
  codec = codes "simple";
  record_response = false;
  proto_file_str = codes "a.proto";
  proto_files = codes "a.proto" ∷ [];
  wait_default_duration = pos 1;
}

abbrev built_plugins : Building
built_plugins = record {
  finder = some (file_pb_finder (codes "a.proto" ∷ []));
  plugins = record {
    inputs = file_dir_input (codes "simple") (codes "/tmp/in") (pos 100) ∷ [];
    outputs =
        std_output (codes "simple")
        ∷ grpc_output (codes "127.0.0.1:80") (pos 5) (file_pb_finder (codes "a.proto" ∷ []))
        ∷ [];
    all =
        file_dir_input (codes "simple") (codes "/tmp/in") (pos 100)
        ∷ std_output (codes "simple")
        ∷ grpc_output (codes "127.0.0.1:80") (pos 5) (file_pb_finder (codes "a.proto" ∷ []))
        ∷ [];
  };
}

built : new_plugins settings ≡ some built_plugins
unfolding new_plugins each add_file_input add_queue_input add_stdout add_queue_output add_grpc
    add_file_output add_raw first_finder with_finder register_plugin extract_addr is_valid_dir
    contains has_prefix
built = refl

new_plugins-IsOrdered_example : IsOrdered built_plugins
new_plugins-IsOrdered_example = new_plugins-IsOrdered settings built_plugins built

two_addresses :
    set_string (some (codes "127.0.0.1:80" ∷ [])) (codes "127.0.0.1:81")
    ≡ some (codes "127.0.0.1:80" ∷ codes "127.0.0.1:81" ∷ [])
unfolding set_string
two_addresses = refl
