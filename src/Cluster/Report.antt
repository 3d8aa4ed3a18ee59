-- ===== src/Cluster/Report.antt =====
-- cluster.py: the evidence report of a node, and the parsing of `name=value` arguments. The report is
-- written to a file behind the last check, which is not modelled.
pub mod Listed
use mac_llm_ops_lab.Prelude.{
  ℤ, String, Bool, true, false, not, Option, none, some, List, [], ◌∷◌, elem, ◌==◌, string_eq,
  if◌then◌else◌,
}
use mac_llm_ops_lab.Py.Str.{◌<>◌, partition}
use mac_llm_ops_lab.Py.Dict.{Dict, get, put}
use mac_llm_ops_lab.Py.Value.{Value, str, int}
use mac_llm_ops_lab.Py.Result.{Result, ok, err, value_error, key_error, ◌>>=◌, ◌>>◌, raise_if}
use mac_llm_ops_lab.Cluster.Checks.{
  Strings, non_empty_string, validated_high_port_url, validated_health_urls,
}
use mac_llm_ops_lab.Cluster.Node.{
  RawNode, ClusterNode, as_raw, register_cluster_node, to_inventory_record,
}
use mac_llm_ops_lab.Cluster.Paths.{validated_artifact_dir, validated_evidence_path}
use mac_llm_ops_lab.Cluster.Evidence.{validated_command, validated_node_report_evidence_files, item}

-- The nested dictionaries of the report, laid flat: `host`, `backend` and `service_endpoints`.
pub record Report (Float : Type 0) : Type 0 where
  pub schema_version : String
  pub git_sha : String
  pub artifact_dir : String
  pub command : List String
  pub requires_real_multi_node_proof : Bool
  pub node : Dict String (Value Float)
  pub host_hostname : String
  pub host_chip : String
  pub host_memory_gib : ℤ
  pub host_macos_version : String
  pub backend_backend_id : String
  pub backend_model_id : String
  pub backend_model_revision : String
  pub service_api_base_url : String
  pub service_backend_base_url : String
  pub service_health_urls : Dict String String
  pub service_phoenix_url : String
  pub evidence_files : Dict String String

-- The keyword arguments of the report, without the node.
pub record ReportArgs (Float : Type 0) : Type 0 where
  pub git_sha : Value Float
  pub command : Strings Float
  pub artifact_dir : Value Float
  pub macos_version : Value Float
  pub model_id : Value Float
  pub model_revision : Value Float
  pub health_urls : Dict String (Value Float)
  pub phoenix_url : Value Float
  pub evidence_files : Dict String (Value Float)

module _ {Float : Type 0} (host_ok : String → Bool) where
  unfoldable pub report_of :
      ReportArgs Float → ClusterNode → String → String → Result (Report Float)
  report_of args node model_id artifact_dir = do
    git_sha ← non_empty_string args.git_sha "git_sha"
    command ← validated_command args.command
    inventory ← to_inventory_record host_ok (as_raw node)
    macos_version ← non_empty_string args.macos_version "macos_version"
    model_revision ← non_empty_string args.model_revision "model_revision"
    health_urls ← validated_health_urls host_ok args.health_urls
    phoenix_url ← validated_high_port_url host_ok args.phoenix_url "phoenix_url"
    evidence_files ← validated_node_report_evidence_files args.evidence_files artifact_dir
    ok (record {
      schema_version = "mac-studio-node-evidence/v1";
      git_sha = git_sha;
      artifact_dir = artifact_dir;
      command = command;
      requires_real_multi_node_proof = true;
      node = inventory;
      host_hostname = node.hostname;
      host_chip = node.chip;
      host_memory_gib = node.memory_gib;
      host_macos_version = macos_version;
      backend_backend_id = node.backend_id;
      backend_model_id = model_id;
      backend_model_revision = model_revision;
      service_api_base_url = node.api_base_url;
      service_backend_base_url = node.backend_base_url;
      service_health_urls = health_urls;
      service_phoenix_url = phoenix_url;
      evidence_files = evidence_files;
    })

  unfoldable pub build_node_evidence_report :
      RawNode Float → ReportArgs Float → Result (Report Float)
  build_node_evidence_report node args = do
    normalized_node ← register_cluster_node host_ok node
    model_id ← non_empty_string args.model_id "model_id"
    raise_if (not (elem model_id normalized_node.models))
        (value_error "model_id must be listed in node.models")
    artifact_dir ← validated_artifact_dir args.artifact_dir
    report_of args normalized_node model_id artifact_dir

  -- The report, and the path it is written to.
  unfoldable pub write_node_evidence_report :
      Value Float → RawNode Float → ReportArgs Float → Result (Report Float × String)
  write_node_evidence_report output_path node args = do
    report ← build_node_evidence_report node args
    path ← validated_evidence_path output_path report.artifact_dir "output_path" ".json"
    node_evidence ← item "node_evidence" report.evidence_files
    raise_if (not (node_evidence == path))
        (value_error "output_path must match evidence_files.node_evidence")
    ok (report, path)

-- `_parse_key_value_pairs`: `integer` reads a value, or keeps the text. Python's `int` of a text is
-- a parameter, with `none` where it raises.
module _ {Float : Type 0} (parse_int : String → Option ℤ) where
  unfoldable pub pair_value : Bool → String → String → Result (Value Float)
  pair_value false field_name text = ok (str text)
  pair_value true field_name text = elim (parse_int text) [
    | none ↦ err (value_error (field_name <> " must be an integer"))
    | some n ↦ ok (int n)
  ]

  -- One round of the loop.
  unfoldable pub parse_pair :
      String → Bool → String → Dict String (Value Float) → Result (Dict String (Value Float))
  parse_pair field_name integer_values value parsed = do
    let split = partition b'=' value
    raise_if (not split.1) (value_error (field_name <> " entries must use name=value"))
    key ← non_empty_string {Float = Float} (str split.0) (field_name <> " name")
    text ← non_empty_string {Float = Float} (str split.2) (field_name <> "." <> key)
    read ← pair_value integer_values (field_name <> "." <> key) text
    ok (put key read parsed)

  unfoldable pub parse_key_value_pairs :
      List String → String → Bool → Dict String (Value Float) → Result (Dict String (Value Float))
  parse_key_value_pairs [] field_name integer_values parsed = ok parsed
  parse_key_value_pairs (v ∷ vs) field_name integer_values parsed =
      parse_pair field_name integer_values v parsed >>= λ next.
      parse_key_value_pairs vs field_name integer_values next
