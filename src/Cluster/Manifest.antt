-- ===== src/Cluster/Manifest.antt =====
-- cluster.py: `build_cluster_evidence_manifest`.
pub mod Grounded
use mac_llm_ops_lab.Prelude.{
  String, Bool, true, not, ◌||◌, Option, none, some, List, [], ◌∷◌, map, all, is_nil, elem,
  string_eq,
}
use mac_llm_ops_lab.Py.Dict.{Dict}
use mac_llm_ops_lab.Py.Value.{Value}
use mac_llm_ops_lab.Py.Result.{Result, ok, err, value_error, ◌>>=◌, ◌>>◌, raise_if, map_result}
use mac_llm_ops_lab.Cluster.Checks.{Strings, non_empty_string, boolean, validated_high_port_url}
use mac_llm_ops_lab.Cluster.Node.{
  RawNode, ClusterNode, as_raw, register_cluster_node, to_inventory_record,
}
use mac_llm_ops_lab.Cluster.Route.{RoutingDecision, to_record}
use mac_llm_ops_lab.Cluster.Paths.{validated_artifact_dir}
use mac_llm_ops_lab.Py.Sorted.{set_of}
use mac_llm_ops_lab.Cluster.Evidence.{RawDecision, validated_command, validated_node_evidence}

pub record Manifest (Float : Type 0) : Type 0 where
  pub schema_version : String
  pub git_sha : String
  pub command : List String
  pub artifact_dir : String
  pub requires_real_multi_node_proof : Bool
  pub nodes : List (Dict String (Value Float))
  pub route_decisions : List (Dict String (Value Float))
  pub node_evidence : Dict String (Dict String String)

abbrev pub node_ids_of : List ClusterNode → List String
node_ids_of nodes = set_of (map (λ n. n.node_id) nodes)

-- Every decision is a fallback, or names a node.
abbrev pub references : List String → List RoutingDecision → Bool
references node_ids decisions = all (λ d. d.fallback || elem d.node_id node_ids) decisions

module _ {Float : Type 0} (host_ok : String → Bool) where
  abbrev checked_url : Option (Value Float) → Result (Option String)
  checked_url none = ok none
  checked_url (some url) =
      validated_high_port_url host_ok url "decision.api_base_url" >>= λ u. ok (some u)

  unfoldable pub validated_route_decision : RawDecision Float → Result RoutingDecision
  validated_route_decision decision = do
    node_id ← non_empty_string decision.node_id "decision.node_id"
    backend_id ← non_empty_string decision.backend_id "decision.backend_id"
    model_id ← non_empty_string decision.model_id "decision.model_id"
    api_base_url ← checked_url decision.api_base_url
    reason ← non_empty_string decision.reason "decision.reason"
    fallback ← boolean decision.fallback "decision.fallback"
    ok (record {
      node_id = node_id;
      backend_id = backend_id;
      model_id = model_id;
      api_base_url = api_base_url;
      reason = reason;
      fallback = fallback;
    })

  -- The dictionary that is returned, with the checks that stand inside it.
  unfoldable pub manifest_of :
      Value Float
      → Strings Float
      → String
      → List ClusterNode
      → List RoutingDecision
      → Dict String (Dict String (Value Float))
      → Result (Manifest Float)
  manifest_of git_sha command artifact_dir nodes decisions node_evidence = do
    sha ← non_empty_string git_sha "git_sha"
    parts ← validated_command command
    records ← map_result (λ n. to_inventory_record host_ok (as_raw n)) nodes
    evidence ← validated_node_evidence node_evidence (node_ids_of nodes) artifact_dir
    ok (record {
      schema_version = "cluster-evidence-manifest/v1";
      git_sha = sha;
      command = parts;
      artifact_dir = artifact_dir;
      requires_real_multi_node_proof = true;
      nodes = records;
      route_decisions = map to_record decisions;
      node_evidence = evidence;
    })

  unfoldable pub build_cluster_evidence_manifest :
      Value Float
      → Strings Float
      → Value Float
      → List (RawNode Float)
      → List (RawDecision Float)
      → Dict String (Dict String (Value Float))
      → Result (Manifest Float)
  build_cluster_evidence_manifest git_sha command artifact_dir nodes route_decisions node_evidence =
      do
        dir ← validated_artifact_dir artifact_dir
        normalized_nodes ← map_result (register_cluster_node host_ok) nodes
        raise_if (is_nil normalized_nodes) (value_error "nodes must contain at least one node")
        decisions ← map_result validated_route_decision route_decisions
        raise_if (is_nil decisions)
            (value_error "route_decisions must contain at least one decision")
        raise_if (not (references (node_ids_of normalized_nodes) decisions))
            (value_error "route_decisions must reference registered nodes")
        manifest_of git_sha command dir normalized_nodes decisions node_evidence
