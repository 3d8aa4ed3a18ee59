-- ===== src/Cluster/Tests/Evidence.antt =====
-- Manifests and reports on concrete values.
use mac_llm_ops_lab.Prelude.{
  ℕ, pos, String, ◌≡◌, refl, true, false, none, some, List, [], ◌∷◌, elem, string_eq, map, is_nil,
}
use mac_llm_ops_lab.Py.Str.{
  is_space, lstrip, rstrip, strip, partition, split_on, join, ends_with, str_ltb,
}
use mac_llm_ops_lab.Py.Dict.{Dict, get, contains, keys}
use mac_llm_ops_lab.Py.Value.{Value, null, bool, int, str, list, dict, nil, cons, field, end}
use mac_llm_ops_lab.Py.Url.{netloc, port_text, url_port, accept_all}
use mac_llm_ops_lab.Py.FilePath.{
  root_of, parse_path, parts, is_absolute, as_posix, is_relative_to, suffix,
}
use mac_llm_ops_lab.Py.Sorted.{sorted_texts, insert_item, sort_items}
use mac_llm_ops_lab.Py.Result.{Result, ok, map_result}
use mac_llm_ops_lab.Cluster.Checks.{
  sequence, non_empty_string, non_empty_strings, positive_int, non_negative_int, boolean,
  validated_url, validated_high_ports, validated_high_port_url, validated_health_urls,
}
use mac_llm_ops_lab.Cluster.Node.{ClusterNode, as_raw, register_cluster_node, to_inventory_record}
use mac_llm_ops_lab.Cluster.Route.{RoutingDecision, to_record}
use mac_llm_ops_lab.Cluster.Paths.{
  under_runtime, relative_path, validated_artifact_dir, validated_evidence_path,
}
use mac_llm_ops_lab.Cluster.Paths.Inside.{IsInside}
use mac_llm_ops_lab.Cluster.Evidence.{
  RawDecision, required_node_report_evidence_labels, report_suffix, item, checked_file,
  checked_files, validated_command, node_files, validated_node_evidence,
  validated_node_report_evidence_files,
}
use mac_llm_ops_lab.Cluster.Evidence.Files.{AllInside, AllEvidence}
use mac_llm_ops_lab.Cluster.Manifest.{
  Manifest, node_ids_of, references, validated_route_decision, manifest_of,
  build_cluster_evidence_manifest,
}
use mac_llm_ops_lab.Cluster.Manifest.Grounded.{build_cluster_evidence_manifest-IsGrounded}
use mac_llm_ops_lab.Cluster.Report.{
  Report, ReportArgs, report_of, build_node_evidence_report, write_node_evidence_report,
}
use mac_llm_ops_lab.Cluster.Report.Listed.{write_node_evidence_report-IsListed}
use mac_llm_ops_lab.Cluster.Tests.{node}

abbrev files : Dict String (Value ℕ)
files =
    ("api_log", str "artifacts/runtime/run/api.log")
    ∷ ("backend_log", str "artifacts/runtime/run/backend.log")
    ∷ ("phoenix_spans", str "artifacts/runtime/run/spans.json")
    ∷ ("metrics", str "artifacts/runtime/run/metrics.json")
    ∷ ("node_evidence", str "artifacts/runtime/run/node.json")
    ∷ []

abbrev raw_decision : RawDecision ℕ
raw_decision = record {
  node_id = str "studio-a";
  backend_id = str "mlx";
  model_id = str "qwen";
  api_base_url = none;
  reason = str "least_queue_depth";
  fallback = bool false;
}

abbrev built : Result (Manifest ℕ)
built =
    build_cluster_evidence_manifest accept_all (str "abc") (sequence (str "make" ∷ []))
      (str "artifacts/runtime/run") (node 1 "studio-a" ∷ []) (raw_decision ∷ [])
      (("studio-a", files) ∷ [])

abbrev pub inventory : Dict String (Value ℕ)
inventory =
    ("node_id", str "studio-a")
    ∷ ("hostname", str "studio.local")
    ∷ ("api_base_url", str "http://127.0.0.1:28000")
    ∷ ("backend_base_url", str "http://127.0.0.1:28100/v1")
    ∷ ("backend_id", str "mlx")
    ∷ ("chip", str "M2 Ultra")
    ∷ ("memory_gib", int (pos 192))
    ∷ ("models", list (cons (str "qwen") nil))
    ∷ ("queue_depth", int (pos 1))
    ∷ ("ready", bool true)
    ∷ ("healthy", bool true)
    ∷ ("capabilities", list (cons (str "chat") nil))
    ∷ ("ports", dict (field "api" (int (pos 28000)) (field "metrics" (int (pos 29000)) end)))
    ∷ []

abbrev decision_record : Dict String (Value ℕ)
decision_record =
    ("node_id", str "studio-a")
    ∷ ("backend_id", str "mlx")
    ∷ ("model_id", str "qwen")
    ∷ ("api_base_url", null)
    ∷ ("reason", str "least_queue_depth")
    ∷ ("fallback", bool false)
    ∷ []

abbrev manifest : Manifest ℕ
manifest = record {
  schema_version = "cluster-evidence-manifest/v1";
  git_sha = "abc";
  command = "make" ∷ [];
  artifact_dir = "artifacts/runtime/run";
  requires_real_multi_node_proof = true;
  nodes = inventory ∷ [];
  route_decisions = decision_record ∷ [];
  node_evidence =
      (
        "studio-a",
        ("api_log", "artifacts/runtime/run/api.log")
            ∷ ("backend_log", "artifacts/runtime/run/backend.log")
            ∷ ("phoenix_spans", "artifacts/runtime/run/spans.json")
            ∷ ("metrics", "artifacts/runtime/run/metrics.json")
            ∷ [],
      )
      ∷ [];
}

builds : built ≡ ok manifest
unfolding build_cluster_evidence_manifest manifest_of validated_route_decision
    validated_node_evidence node_files checked_files checked_file item to_record to_inventory_record
    validated_command get contains ends_with validated_artifact_dir validated_evidence_path
    relative_path parse_path parts is_absolute as_posix root_of split_on join is_relative_to suffix
    register_cluster_node non_empty_string non_empty_strings positive_int non_negative_int boolean
    validated_url validated_high_ports validated_high_port_url url_port netloc port_text partition
    strip lstrip rstrip is_space sort_items insert_item str_ltb
builds = refl

build_cluster_evidence_manifest-IsGrounded_example :
    (nodes : List ClusterNode) × (decisions : List RoutingDecision) × (map_result
        (register_cluster_node accept_all)
        (node 1 "studio-a" ∷ [])
      ≡ ok nodes)
    × (map_result (validated_route_decision accept_all) (raw_decision ∷ []) ≡ ok decisions)
    × (is_nil nodes ≡ false)
    × (is_nil decisions ≡ false)
    × (references (node_ids_of nodes) decisions ≡ true)
    × (under_runtime (parts (parse_path "artifacts/runtime/run")) ≡ true)
    × (map_result (λ n. to_inventory_record accept_all (as_raw n)) nodes ≡ ok (inventory ∷ []))
    × (decision_record ∷ [] ≡ map to_record decisions)
    × (keys manifest.node_evidence ≡ sorted_texts (node_ids_of nodes))
    × AllEvidence "artifacts/runtime/run" manifest.node_evidence
build_cluster_evidence_manifest-IsGrounded_example =
    build_cluster_evidence_manifest-IsGrounded accept_all (str "abc") (sequence (str "make" ∷ []))
      (str "artifacts/runtime/run") (node 1 "studio-a" ∷ []) (raw_decision ∷ [])
      (("studio-a", files) ∷ []) manifest builds

abbrev args : ReportArgs ℕ
args = record {
  git_sha = str "abc";
  command = sequence (str "make" ∷ []);
  artifact_dir = str "artifacts/runtime/run";
  macos_version = str "15.0";
  model_id = str "qwen";
  model_revision = str "main";
  health_urls = ("api", str "http://127.0.0.1:28000/health") ∷ [];
  phoenix_url = str "http://127.0.0.1:26006";
  evidence_files = files;
}

abbrev pub report : Report ℕ
report = record {
  schema_version = "mac-studio-node-evidence/v1";
  git_sha = "abc";
  artifact_dir = "artifacts/runtime/run";
  command = "make" ∷ [];
  requires_real_multi_node_proof = true;
  node = inventory;
  host_hostname = "studio.local";
  host_chip = "M2 Ultra";
  host_memory_gib = pos 192;
  host_macos_version = "15.0";
  backend_backend_id = "mlx";
  backend_model_id = "qwen";
  backend_model_revision = "main";
  service_api_base_url = "http://127.0.0.1:28000";
  service_backend_base_url = "http://127.0.0.1:28100/v1";
  service_health_urls = ("api", "http://127.0.0.1:28000/health") ∷ [];
  service_phoenix_url = "http://127.0.0.1:26006";
  evidence_files =
      ("api_log", "artifacts/runtime/run/api.log")
      ∷ ("backend_log", "artifacts/runtime/run/backend.log")
      ∷ ("metrics", "artifacts/runtime/run/metrics.json")
      ∷ ("node_evidence", "artifacts/runtime/run/node.json")
      ∷ ("phoenix_spans", "artifacts/runtime/run/spans.json")
      ∷ [];
}

abbrev output : Value ℕ
output = str "artifacts/runtime/run/node.json"

writes :
    write_node_evidence_report accept_all output (node 1 "studio-a") args
    ≡ ok (report, "artifacts/runtime/run/node.json")
unfolding write_node_evidence_report build_node_evidence_report report_of
    validated_node_report_evidence_files report_suffix checked_files checked_file item
    to_inventory_record validated_command validated_health_urls get contains ends_with
    validated_artifact_dir validated_evidence_path relative_path parse_path parts is_absolute
    as_posix root_of split_on join is_relative_to suffix register_cluster_node non_empty_string
    non_empty_strings positive_int non_negative_int boolean validated_url validated_high_ports
    validated_high_port_url url_port netloc port_text partition strip lstrip rstrip is_space
    sort_items insert_item str_ltb
writes = refl

write_node_evidence_report-IsListed_example :
    (r : ClusterNode) × (register_cluster_node accept_all (node 1 "studio-a") ≡ ok r)
    × (to_inventory_record accept_all (as_raw r) ≡ ok inventory)
    × (elem "qwen" r.models ≡ true)
    × (under_runtime (parts (parse_path "artifacts/runtime/run")) ≡ true)
    × (keys report.evidence_files ≡ required_node_report_evidence_labels)
    × AllInside "artifacts/runtime/run" report_suffix report.evidence_files
    × (get "node_evidence" report.evidence_files ≡ some "artifacts/runtime/run/node.json")
    × IsInside "artifacts/runtime/run" ".json" "artifacts/runtime/run/node.json"
write_node_evidence_report-IsListed_example =
    write_node_evidence_report-IsListed accept_all output (node 1 "studio-a") args report
      "artifacts/runtime/run/node.json" writes
