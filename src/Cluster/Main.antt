-- ===== src/Cluster/Main.antt =====
-- cluster.py, `main`: the command `node-evidence`. Its arguments are texts, as argparse gives them;
-- an option that can stand more than once is a list with at least one text.
pub mod Written
use mac_llm_ops_lab.Prelude.{ℤ, pos, String, Bool, true, false, Option, List, [], ◌∷◌}
use mac_llm_ops_lab.Py.Dict.{Dict}
use mac_llm_ops_lab.Py.Value.{Value, bool, int, str}
use mac_llm_ops_lab.Py.Result.{Result, ◌>>=◌}
use mac_llm_ops_lab.Cluster.Checks.{sequence}
use mac_llm_ops_lab.Cluster.Checks.Accepted.{strs}
use mac_llm_ops_lab.Cluster.Node.{RawNode}
use mac_llm_ops_lab.Cluster.Report.{
  Report, ReportArgs, write_node_evidence_report, parse_key_value_pairs,
}

pub record NodeEvidenceArgs : Type 0 where
  pub node_id : String
  pub hostname : String
  pub api_base_url : String
  pub backend_base_url : String
  pub backend_id : String
  pub chip : String
  pub memory_gib : ℤ
  pub model_id : String
  pub model_revision : String
  pub macos_version : String
  pub capability : List String
  pub port : List String
  pub health_url : List String
  pub phoenix_url : String
  pub git_sha : String
  pub command : List String
  pub artifact_dir : String
  pub api_log : String
  pub backend_log : String
  pub phoenix_spans : String
  pub metrics : String
  pub output : String

module _ {Float : Type 0} where
  abbrev pub evidence_files_of : NodeEvidenceArgs → Dict String (Value Float)
  evidence_files_of args =
      ("node_evidence", str args.output)
      ∷ ("api_log", str args.api_log)
      ∷ ("backend_log", str args.backend_log)
      ∷ ("phoenix_spans", str args.phoenix_spans)
      ∷ ("metrics", str args.metrics)
      ∷ []

  unfoldable pub node_of : NodeEvidenceArgs → Dict String (Value Float) → RawNode Float
  node_of args ports = record {
    node_id = str args.node_id;
    hostname = str args.hostname;
    api_base_url = str args.api_base_url;
    backend_base_url = str args.backend_base_url;
    backend_id = str args.backend_id;
    chip = str args.chip;
    memory_gib = int args.memory_gib;
    models = sequence (str args.model_id ∷ []);
    queue_depth = int (pos 0);
    ready = bool true;
    healthy = bool true;
    capabilities = sequence (strs args.capability);
    ports = ports;
  }

  unfoldable pub report_args_of : NodeEvidenceArgs → Dict String (Value Float) → ReportArgs Float
  report_args_of args health_urls = record {
    git_sha = str args.git_sha;
    command = sequence (strs args.command);
    artifact_dir = str args.artifact_dir;
    macos_version = str args.macos_version;
    model_id = str args.model_id;
    model_revision = str args.model_revision;
    health_urls = health_urls;
    phoenix_url = str args.phoenix_url;
    evidence_files = evidence_files_of args;
  }

  -- The report, and the path it is written to.
  unfoldable pub main :
      (String → Bool) → (String → Option ℤ) → NodeEvidenceArgs → Result (Report Float × String)
  main host_ok parse_int args = do
    ports ← parse_key_value_pairs parse_int args.port "port" true []
    health_urls ← parse_key_value_pairs parse_int args.health_url "health-url" false []
    write_node_evidence_report host_ok (str args.output) (node_of args ports)
        (report_args_of args health_urls)
