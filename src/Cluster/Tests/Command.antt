-- ===== src/Cluster/Tests/Command.antt =====
-- The command `node-evidence` on concrete arguments.
use mac_llm_ops_lab.Prelude.{
  ℤ, pos, ℕ, String, ◌≡◌, refl, true, false, Option, none, some, [], ◌∷◌, ◌==◌, string_eq,
  if◌then◌else◌,
}
use mac_llm_ops_lab.Py.Str.{
  is_space, lstrip, rstrip, strip, partition, split_on, join, ends_with, str_ltb,
}
use mac_llm_ops_lab.Py.Dict.{Dict, get, put, contains}
use mac_llm_ops_lab.Py.Value.{Value, int, str, dict, field, end}
use mac_llm_ops_lab.Py.Url.{netloc, port_text, url_port, accept_all}
use mac_llm_ops_lab.Py.FilePath.{
  root_of, parse_path, parts, is_absolute, as_posix, is_relative_to, suffix,
}
use mac_llm_ops_lab.Py.Sorted.{insert_item, sort_items}
use mac_llm_ops_lab.Py.Result.{ok}
use mac_llm_ops_lab.Cluster.Checks.{
  non_empty_string, non_empty_strings, positive_int, non_negative_int, boolean, validated_url,
  validated_high_ports, validated_high_port_url, validated_health_urls,
}
use mac_llm_ops_lab.Cluster.Node.{register_cluster_node, to_inventory_record}
use mac_llm_ops_lab.Cluster.Paths.{relative_path, validated_artifact_dir, validated_evidence_path}
use mac_llm_ops_lab.Cluster.Evidence.{
  report_suffix, item, checked_file, checked_files, validated_command,
  validated_node_report_evidence_files,
}
use mac_llm_ops_lab.Cluster.Report.{
  Report, report_of, build_node_evidence_report, parse_key_value_pairs, parse_pair, pair_value,
}
use mac_llm_ops_lab.Cluster.Main.{NodeEvidenceArgs, node_of, report_args_of, main}
use mac_llm_ops_lab.Cluster.Main.Written.{main-written}
use mac_llm_ops_lab.Cluster.Tests.Evidence.{report, inventory}

abbrev args : NodeEvidenceArgs
args = record {
  node_id = "studio-a";
  hostname = "studio.local";
  api_base_url = "http://127.0.0.1:28000";
  backend_base_url = "http://127.0.0.1:28100/v1";
  backend_id = "mlx";
  chip = "M2 Ultra";
  memory_gib = pos 192;
  model_id = "qwen";
  model_revision = "main";
  macos_version = "15.0";
  capability = "chat" ∷ [];
  port = "api=28000" ∷ [];
  health_url = "api=http://127.0.0.1:28000/health" ∷ [];
  phoenix_url = "http://127.0.0.1:26006";
  git_sha = "abc";
  command = "make" ∷ [];
  artifact_dir = "artifacts/runtime/run";
  api_log = "artifacts/runtime/run/api.log";
  backend_log = "artifacts/runtime/run/backend.log";
  phoenix_spans = "artifacts/runtime/run/spans.json";
  metrics = "artifacts/runtime/run/metrics.json";
  output = "artifacts/runtime/run/node.json";
}

abbrev parse_int : String → Option ℤ
parse_int s = if s == "28000" then some (pos 28000) else none

abbrev ports : Dict String (Value ℕ)
ports = ("api", int (pos 28000)) ∷ []

abbrev urls : Dict String (Value ℕ)
urls = ("api", str "http://127.0.0.1:28000/health") ∷ []

ports_parsed : parse_key_value_pairs parse_int args.port "port" true [] ≡ ok ports
unfolding parse_key_value_pairs parse_pair pair_value put partition non_empty_string strip lstrip
    rstrip is_space
ports_parsed = refl

urls_parsed : parse_key_value_pairs parse_int args.health_url "health-url" false [] ≡ ok urls
unfolding parse_key_value_pairs parse_pair pair_value put partition non_empty_string strip lstrip
    rstrip is_space
urls_parsed = refl

abbrev command_report : Report ℕ
command_report = record report {
  node =
      put "queue_depth" (int (pos 0))
        (put "ports" (dict (field "api" (int (pos 28000)) end)) inventory);
}

report_built :
    build_node_evidence_report accept_all (node_of args ports) (report_args_of args urls)
    ≡ ok command_report
unfolding put node_of report_args_of build_node_evidence_report report_of
    validated_node_report_evidence_files report_suffix checked_files checked_file item
    to_inventory_record validated_command validated_health_urls get contains ends_with
    validated_artifact_dir validated_evidence_path relative_path parse_path parts is_absolute
    as_posix root_of split_on join is_relative_to suffix register_cluster_node non_empty_string
    non_empty_strings positive_int non_negative_int boolean validated_url validated_high_ports
    validated_high_port_url url_port netloc port_text partition strip lstrip rstrip is_space
    sort_items insert_item str_ltb
report_built = refl

main-written_example :
    (path : String) × (get "node_evidence" command_report.evidence_files ≡ some path)
    × (main accept_all parse_int args ≡ ok (command_report, path))
main-written_example =
    main-written accept_all parse_int args ports urls command_report ports_parsed urls_parsed
      report_built
