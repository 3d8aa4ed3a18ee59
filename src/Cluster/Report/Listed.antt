-- ===== src/Cluster/Report/Listed.antt =====
-- What holds of the node reports that are written.
use mac_llm_ops_lab.Prelude.{
  negated, String, Bool, ◌≡◌, refl, sym, ap, ◌∙◌, true, not, some, elem, ◌==◌, string_eq,
}
use mac_llm_ops_lab.Py.Dict.{keys, get}
use mac_llm_ops_lab.Py.Value.{Value}
use mac_llm_ops_lab.Py.Result.{ok, bind-ok, ok_inj, raise_if-ok}
use mac_llm_ops_lab.Py.FilePath.{parse_path, parts}
use mac_llm_ops_lab.Cluster.Checks.{
  non_empty_string, validated_high_port_url, validated_health_urls,
}
use mac_llm_ops_lab.Cluster.Node.{
  RawNode, ClusterNode, as_raw, register_cluster_node, to_inventory_record,
}
use mac_llm_ops_lab.Cluster.Paths.{under_runtime, validated_artifact_dir, validated_evidence_path}
use mac_llm_ops_lab.Cluster.Paths.Inside.{
  IsInside, validated_artifact_dir-IsUnder, validated_evidence_path-IsInside,
}
use mac_llm_ops_lab.Cluster.Evidence.{
  required_node_report_evidence_labels, report_suffix, item, validated_command,
  validated_node_report_evidence_files,
}
use mac_llm_ops_lab.Cluster.Evidence.Files.{AllInside, checked_files-AllInside, item-ok}
use mac_llm_ops_lab.Cluster.Report.{
  Report, ReportArgs, report_of, build_node_evidence_report, write_node_evidence_report,
}

module _ {Float : Type 0} (host_ok : String → Bool) where
  report_of-ok :
      (args : ReportArgs Float) (node : ClusterNode) (model_id dir : String) (r : Report Float)
      → report_of host_ok args node model_id dir ≡ ok r
      → (r.artifact_dir ≡ dir)
        × (r.backend_model_id ≡ model_id)
        × (to_inventory_record host_ok (as_raw node) ≡ ok r.node)
        × (keys r.evidence_files ≡ required_node_report_evidence_labels)
        × AllInside dir report_suffix r.evidence_files
  unfolding report_of validated_node_report_evidence_files
  report_of-ok args node model_id dir r h =
      let c0 = bind-ok (non_empty_string args.git_sha "git_sha") _ h in
      let c1 = bind-ok (validated_command args.command) _ c0.2 in
      let c2 = bind-ok (to_inventory_record host_ok (as_raw node)) _ c1.2 in
      let c3 = bind-ok (non_empty_string args.macos_version "macos_version") _ c2.2 in
      let c4 = bind-ok (non_empty_string args.model_revision "model_revision") _ c3.2 in
      let c5 = bind-ok (validated_health_urls host_ok args.health_urls) _ c4.2 in
      let c6 = bind-ok (validated_high_port_url host_ok args.phoenix_url "phoenix_url") _ c5.2 in
      let c7 = bind-ok (validated_node_report_evidence_files args.evidence_files dir) _ c6.2 in
      let files =
        checked_files-AllInside dir "evidence_files." report_suffix args.evidence_files
          "evidence_files" required_node_report_evidence_labels c7.0 c7.1 in
      rw (sym (ok_inj c7.2)) (refl, refl, c2.1, files.0, files.1)

  -- A report that is built.
  abbrev IsListed : RawNode Float → Report Float → Type 0
  IsListed node r =
      (registered : ClusterNode) × (register_cluster_node host_ok node ≡ ok registered)
      × (to_inventory_record host_ok (as_raw registered) ≡ ok r.node)
      × (elem r.backend_model_id registered.models ≡ true)
      × (under_runtime (parts (parse_path r.artifact_dir)) ≡ true)
      × (keys r.evidence_files ≡ required_node_report_evidence_labels)
      × AllInside r.artifact_dir report_suffix r.evidence_files

  build-IsListed :
      (node : RawNode Float) (args : ReportArgs Float) (r : Report Float)
      → build_node_evidence_report host_ok node args ≡ ok r
      → IsListed node r
  unfolding build_node_evidence_report
  build-IsListed node args r h =
      let n = bind-ok (register_cluster_node host_ok node) _ h in
      let m = bind-ok (non_empty_string args.model_id "model_id") _ n.2 in
      let listed = raise_if-ok (not (elem m.0 n.0.models)) _ _ m.2 in
      let a = bind-ok (validated_artifact_dir args.artifact_dir) _ listed.1 in
      let made = report_of-ok args n.0 m.0 a.0 r a.2 in
      let under = validated_artifact_dir-IsUnder args.artifact_dir a.0 a.1 in
      (
        n.0,
        n.1,
        made.2,
        rw made.1 (negated (elem m.0 n.0.models) listed.0),
        rw made.0 under.2,
        made.3,
        rw made.0 made.4,
      )

  written-ok :
      (output_path : Value Float) (node : RawNode Float) (args : ReportArgs Float)
      (r : Report Float) (path : String)
      → write_node_evidence_report host_ok output_path node args ≡ ok (r, path)
      → (build_node_evidence_report host_ok node args ≡ ok r)
        × (get "node_evidence" r.evidence_files ≡ some path)
        × IsInside r.artifact_dir ".json" path
  unfolding write_node_evidence_report
  written-ok output_path node args r path h =
      let b = bind-ok (build_node_evidence_report host_ok node args) _ h in
      let p =
        bind-ok (validated_evidence_path output_path b.0.artifact_dir "output_path" ".json") _
          b.2 in
      let e = bind-ok (item "node_evidence" b.0.evidence_files) _ p.2 in
      let same = raise_if-ok (not (e.0 == p.0)) _ _ e.2 in
      let at_path = (string_eq.beq_iff e.0 p.0).0 (negated (e.0 == p.0) same.0) in
      let out = ok_inj same.1 in
      rw (sym (ap (λ x. x.0) out), sym (ap (λ x. x.1) out))
        (
          b.1,
          item-ok "node_evidence" b.0.evidence_files e.0 e.1 ∙ ap some at_path,
          validated_evidence_path-IsInside output_path b.0.artifact_dir "output_path" ".json" p.0
              p.1,
        )

  -- A report that is written is the report of a registered node which lists the reported model. Its
  -- directory is under artifacts/runtime, its evidence files have the required labels and stand
  -- inside that directory with the suffixes of their labels, and it is written to the path it gives
  -- for its own `node_evidence`.
  pub write_node_evidence_report-IsListed :
      (output_path : Value Float) (node : RawNode Float) (args : ReportArgs Float)
      (r : Report Float) (path : String)
      → write_node_evidence_report host_ok output_path node args ≡ ok (r, path)
      → (registered : ClusterNode) × (register_cluster_node host_ok node ≡ ok registered)
        × (to_inventory_record host_ok (as_raw registered) ≡ ok r.node)
        × (elem r.backend_model_id registered.models ≡ true)
        × (under_runtime (parts (parse_path r.artifact_dir)) ≡ true)
        × (keys r.evidence_files ≡ required_node_report_evidence_labels)
        × AllInside r.artifact_dir report_suffix r.evidence_files
        × (get "node_evidence" r.evidence_files ≡ some path)
        × IsInside r.artifact_dir ".json" path
  write_node_evidence_report-IsListed output_path node args r path h =
      let w = written-ok output_path node args r path h in
      let b = build-IsListed node args r w.0 in (b.0, b.1, b.2, b.3, b.4, b.5, b.6, w.1, w.2)
