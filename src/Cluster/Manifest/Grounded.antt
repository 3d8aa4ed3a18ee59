-- ===== src/Cluster/Manifest/Grounded.antt =====
-- What holds of the manifests that are built.
use mac_llm_ops_lab.Prelude.{
  negated, String, Bool, ◌≡◌, refl, sym, true, false, not, List, map, is_nil,
}
use mac_llm_ops_lab.Py.Dict.{Dict, keys}
use mac_llm_ops_lab.Py.Value.{Value}
use mac_llm_ops_lab.Py.Result.{ok, map_result, bind-ok, ok_inj, raise_if-ok}
use mac_llm_ops_lab.Py.FilePath.{parse_path, parts}
use mac_llm_ops_lab.Cluster.Checks.{Strings, non_empty_string}
use mac_llm_ops_lab.Cluster.Node.{
  RawNode, ClusterNode, as_raw, register_cluster_node, to_inventory_record,
}
use mac_llm_ops_lab.Cluster.Route.{RoutingDecision, to_record}
use mac_llm_ops_lab.Cluster.Paths.{under_runtime, validated_artifact_dir}
use mac_llm_ops_lab.Cluster.Paths.Inside.{validated_artifact_dir-IsUnder}
use mac_llm_ops_lab.Py.Sorted.{sorted_texts}
use mac_llm_ops_lab.Cluster.Evidence.{RawDecision, validated_command, validated_node_evidence}
use mac_llm_ops_lab.Cluster.Evidence.Files.{AllEvidence, validated_node_evidence-AllEvidence}
use mac_llm_ops_lab.Cluster.Manifest.{
  Manifest, node_ids_of, references, validated_route_decision, manifest_of,
  build_cluster_evidence_manifest,
}

module _ {Float : Type 0} (host_ok : String → Bool) where
  -- The parts of a manifest that the last step fills in.
  manifest_of-ok :
      (git_sha : Value Float) (command : Strings Float) (dir : String) (nodes : List ClusterNode)
      (decisions : List RoutingDecision) (evidence : Dict String (Dict String (Value Float)))
      (m : Manifest Float)
      → manifest_of host_ok git_sha command dir nodes decisions evidence ≡ ok m
      → (m.artifact_dir ≡ dir)
        × (map_result (λ n. to_inventory_record host_ok (as_raw n)) nodes ≡ ok m.nodes)
        × (m.route_decisions ≡ map to_record decisions)
        × (keys m.node_evidence ≡ sorted_texts (node_ids_of nodes))
        × AllEvidence dir m.node_evidence
  unfolding manifest_of
  manifest_of-ok git_sha command dir nodes decisions evidence m h =
      let s = bind-ok (non_empty_string git_sha "git_sha") _ h in
      let c = bind-ok (validated_command command) _ s.2 in
      let r = bind-ok (map_result (λ n. to_inventory_record host_ok (as_raw n)) nodes) _ c.2 in
      let e = bind-ok (validated_node_evidence evidence (node_ids_of nodes) dir) _ r.2 in
      let inside = validated_node_evidence-AllEvidence evidence dir (node_ids_of nodes) e.0 e.1 in
      rw (sym (ok_inj e.2)) (refl, r.1, refl, inside.0, inside.1)

  -- A manifest that is built has at least one node and one decision; its node records are those of
  -- the registered nodes, in their order; every decision that is no fallback names one of them; its
  -- directory is under artifacts/runtime; and its evidence has exactly one entry for each node
  -- identifier, in sorted order, with the required labels and with files inside that directory.
  pub build_cluster_evidence_manifest-IsGrounded :
      (git_sha : Value Float) (command : Strings Float) (artifact_dir : Value Float)
      (nodes : List (RawNode Float)) (route_decisions : List (RawDecision Float))
      (evidence : Dict String (Dict String (Value Float))) (m : Manifest Float)
      → build_cluster_evidence_manifest host_ok git_sha command artifact_dir nodes route_decisions
          evidence
        ≡ ok m
      → (registered : List ClusterNode) × (decisions : List RoutingDecision) × (map_result
            (register_cluster_node host_ok)
            nodes
          ≡ ok registered)
        × (map_result (validated_route_decision host_ok) route_decisions ≡ ok decisions)
        × (is_nil registered ≡ false)
        × (is_nil decisions ≡ false)
        × (references (node_ids_of registered) decisions ≡ true)
        × (under_runtime (parts (parse_path m.artifact_dir)) ≡ true)
        × (map_result (λ n. to_inventory_record host_ok (as_raw n)) registered ≡ ok m.nodes)
        × (m.route_decisions ≡ map to_record decisions)
        × (keys m.node_evidence ≡ sorted_texts (node_ids_of registered))
        × AllEvidence m.artifact_dir m.node_evidence
  unfolding build_cluster_evidence_manifest
  build_cluster_evidence_manifest-IsGrounded git_sha command artifact_dir nodes route_decisions
        evidence m h =
      let a = bind-ok (validated_artifact_dir artifact_dir) _ h in
      let n = bind-ok (map_result (register_cluster_node host_ok) nodes) _ a.2 in
      let some_node = raise_if-ok (is_nil n.0) _ _ n.2 in
      let d =
        bind-ok (map_result (validated_route_decision host_ok) route_decisions) _ some_node.1 in
      let some_decision = raise_if-ok (is_nil d.0) _ _ d.2 in
      let known = raise_if-ok (not (references (node_ids_of n.0) d.0)) _ _ some_decision.1 in
      let filled = manifest_of-ok git_sha command a.0 n.0 d.0 evidence m known.1 in
      let under = validated_artifact_dir-IsUnder artifact_dir a.0 a.1 in
      (
        n.0,
        d.0,
        n.1,
        d.1,
        some_node.0,
        some_decision.0,
        negated (references (node_ids_of n.0) d.0) known.0,
        rw filled.0 under.2,
        filled.1,
        filled.2,
        filled.3,
        rw filled.0 filled.4,
      )
