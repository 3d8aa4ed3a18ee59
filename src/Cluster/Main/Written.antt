-- ===== src/Cluster/Main/Written.antt =====
-- The command writes every report that it builds.
use mac_llm_ops_lab.Prelude.{
  ℤ, String, Bool, ◌≡◌, refl, sym, ap, ◌∙◌, true, false, not, Option, none, some, List, [], ◌∷◌,
  elem, is_nil, keep, ◌==◌, string_eq, ==_refl, arith, Bool-cases, inl, inr,
}
use mac_llm_ops_lab.Py.Str.{◌<>◌}
use mac_llm_ops_lab.Py.Dict.{Dict, get, contains}
use mac_llm_ops_lab.Py.Value.{Value, str}
use mac_llm_ops_lab.Py.FilePath.{parse_path, is_relative_to, suffix}
use mac_llm_ops_lab.Py.Result.{ok, err, key_error, bind-ok, ok_inj, raise_if-ok, map_result}
use mac_llm_ops_lab.Cluster.Checks.{
  non_empty_string, validated_high_port_url, validated_health_urls,
}
use mac_llm_ops_lab.Cluster.Node.{RawNode, as_raw, register_cluster_node, to_inventory_record}
use mac_llm_ops_lab.Cluster.Paths.{
  is_traversal, relative_path, validated_artifact_dir, validated_evidence_path,
}
use mac_llm_ops_lab.Cluster.Evidence.{
  required_node_report_evidence_labels, report_suffix, item, checked_file, checked_files,
  validated_command, validated_node_report_evidence_files,
}
use mac_llm_ops_lab.Cluster.Evidence.Files.{item-ok}
use mac_llm_ops_lab.Cluster.Report.{
  Report, ReportArgs, report_of, build_node_evidence_report, write_node_evidence_report,
  parse_key_value_pairs,
}
use mac_llm_ops_lab.Cluster.Main.{NodeEvidenceArgs, node_of, report_args_of, main}

module _ {Float : Type 0} where
  -- A path that is accepted is accepted under any name of its field.
  text-named :
      (v : Value Float) (f g t : String) → non_empty_string v f ≡ ok t → non_empty_string v g ≡ ok t
  unfolding non_empty_string
  text-named (str s) f g t h = ground arith
  text-named _ f g t h = cc

  path-named :
      (v : Value Float) (dir f g suf p : String)
      → validated_evidence_path v dir f suf ≡ ok p
      → validated_evidence_path v dir g suf ≡ ok p
  unfolding validated_evidence_path relative_path
  path-named v dir f g suf p h =
      let r = bind-ok (relative_path v f) _ h in
      let t = bind-ok (non_empty_string v f) _ r.1 in
      let a = raise_if-ok (is_traversal (parse_path t.0)) _ _ t.2 in
      let b = raise_if-ok (not (is_relative_to r.0 (parse_path dir))) _ _ r.2 in
      let c = raise_if-ok (not (suffix r.0 == suf)) _ _ b.1 in
      rw (text-named v f g t.0 t.1, a.0, ok_inj a.1, b.0, c.0) c.1

  -- The file of a label among the checked files.
  checked-get :
      (dir prefix label : String) (files : Dict String (Value Float)) (labels : List String)
      (out : Dict String String)
      → map_result (checked_file dir prefix report_suffix files) labels ≡ ok out
      → elem label labels ≡ true
      → (v : Value Float) × (expected path : String) × (get label files ≡ some v)
        × (report_suffix label ≡ ok expected)
        × (validated_evidence_path v dir (prefix <> label) expected ≡ ok path)
        × (get label out ≡ some path)
  unfolding checked_file get
  checked-get dir prefix label files [] out h e = cc
  checked-get dir prefix label files (l ∷ labels) out h e =
      let c = bind-ok (checked_file dir prefix report_suffix files l) _ h in
      let r = bind-ok (map_result (checked_file dir prefix report_suffix files) labels) _ c.2 in
      let v = bind-ok (item l files) _ c.1 in
      let x = bind-ok (report_suffix l) _ v.2 in
      let p = bind-ok (validated_evidence_path v.0 dir (prefix <> l) x.0) _ x.2 in
      let out_is = sym (ok_inj r.2) ∙ ap (λ y. y ∷ r.0) (sym (ok_inj p.2)) in
      elim (Bool-cases (label == l)) [
        | inl here ↦ rw ((string_eq.beq_iff label l).0 here) (
          v.0,
          x.0,
          p.0,
          item-ok l files v.0 v.1,
          x.1,
          p.1,
          ap (get l) out_is ∙ rw (==_refl l) refl,
        )
        | inr there ↦
            let i = checked-get dir prefix label files labels r.0 r.1 (rw there at e) in
            (i.0, i.1, i.2, i.3, i.4, i.5, ap (get label) out_is ∙ rw there i.6)
      ]

  files-get :
      (files : Dict String (Value Float)) (dir label : String) (out : Dict String String)
      → validated_node_report_evidence_files files dir ≡ ok out
      → elem label required_node_report_evidence_labels ≡ true
      → (v : Value Float) × (expected path : String) × (get label files ≡ some v)
        × (report_suffix label ≡ ok expected)
        × (validated_evidence_path v dir ("evidence_files." <> label) expected ≡ ok path)
        × (get label out ≡ some path)
  unfolding validated_node_report_evidence_files checked_files
  files-get files dir label out h e =
      let q =
        raise_if-ok
          (not (is_nil (keep (λ l. not (contains l files)) required_node_report_evidence_labels))) _
          _ h in
      checked-get dir "evidence_files." label files required_node_report_evidence_labels out q.1 e

some_inj : {A : Type 0} {a b : A} → some a ≡ some b → a ≡ b
some_inj h = cc

suffix_json : report_suffix "node_evidence" ≡ ok ".json"
unfolding report_suffix item get
suffix_json = refl

item-found :
    {V : Type 0} (key : String) (d : Dict String V) (v : V) → get key d ≡ some v → item key d ≡ ok v
unfolding item
item-found key d v h = go (get key d) h
  where
    go : (o : Option _) → o ≡ some v → elim o [ none ↦ err key_error | some w ↦ ok w ] ≡ ok v
    go none e = cc
    go (some w) e = ap ok (some_inj e)

module _ {Float : Type 0} (host_ok : String → Bool) where
  -- The evidence files of a report that is built.
  built-files :
      (node : RawNode Float) (args : ReportArgs Float) (r : Report Float)
      → build_node_evidence_report host_ok node args ≡ ok r
      → validated_node_report_evidence_files args.evidence_files r.artifact_dir
        ≡ ok r.evidence_files
  unfolding build_node_evidence_report report_of
  built-files node args r h =
      let n = bind-ok (register_cluster_node host_ok node) _ h in
      let m = bind-ok (non_empty_string args.model_id "model_id") _ n.2 in
      let l = raise_if-ok (not (elem m.0 n.0.models)) _ _ m.2 in
      let a = bind-ok (validated_artifact_dir args.artifact_dir) _ l.1 in
      let c0 = bind-ok (non_empty_string args.git_sha "git_sha") _ a.2 in
      let c1 = bind-ok (validated_command args.command) _ c0.2 in
      let c2 = bind-ok (to_inventory_record host_ok (as_raw n.0)) _ c1.2 in
      let c3 = bind-ok (non_empty_string args.macos_version "macos_version") _ c2.2 in
      let c4 = bind-ok (non_empty_string args.model_revision "model_revision") _ c3.2 in
      let c5 = bind-ok (validated_health_urls host_ok args.health_urls) _ c4.2 in
      let c6 = bind-ok (validated_high_port_url host_ok args.phoenix_url "phoenix_url") _ c5.2 in
      let c7 = bind-ok (validated_node_report_evidence_files args.evidence_files a.0) _ c6.2 in
      rw (sym (ok_inj c7.2)) c7.1

  written :
      (output : Value Float) (node : RawNode Float) (args : ReportArgs Float) (r : Report Float)
      → get "node_evidence" args.evidence_files ≡ some output
      → build_node_evidence_report host_ok node args ≡ ok r
      → (path : String) × (get "node_evidence" r.evidence_files ≡ some path)
        × (write_node_evidence_report host_ok output node args ≡ ok (r, path))
  unfolding write_node_evidence_report
  written output node args r o h =
      let f =
        files-get args.evidence_files r.artifact_dir "node_evidence" r.evidence_files
          (built-files node args r h) refl in
      let suffix_is = ok_inj (sym suffix_json ∙ f.4) in
      let same = some_inj (sym f.3 ∙ o) in
      let accepted =
        ap (validated_evidence_path output r.artifact_dir "evidence_files.node_evidence") suffix_is
        ∙ sym (
            ap (λ v. validated_evidence_path v r.artifact_dir "evidence_files.node_evidence" f.1)
              same)
        ∙ f.5 in
      let path_is =
        path-named output r.artifact_dir "evidence_files.node_evidence" "output_path" ".json" f.2
          accepted in
      let found = item-found "node_evidence" r.evidence_files f.2 f.6 in
      (f.2, f.6, rw h (rw (path_is, found, ==_refl f.2) refl))

  -- The command writes every report that it builds: where its ports and health URLs can be parsed
  -- and the report of its node is built, the command succeeds with that report. In particular its
  -- output is always the file that the report gives for its own evidence.
  pub main-written :
      (parse_int : String → Option ℤ) (args : NodeEvidenceArgs)
      (ports urls : Dict String (Value Float)) (r : Report Float)
      → parse_key_value_pairs parse_int args.port "port" true [] ≡ ok ports
      → parse_key_value_pairs parse_int args.health_url "health-url" false [] ≡ ok urls
      → build_node_evidence_report host_ok (node_of args ports) (report_args_of args urls) ≡ ok r
      → (path : String) × (get "node_evidence" r.evidence_files ≡ some path)
        × (main host_ok parse_int args ≡ ok (r, path))
  unfolding main report_args_of get
  main-written parse_int args ports urls r hp hu h =
      let w = written (str args.output) (node_of args ports) (report_args_of args urls) r refl h in
      (w.0, w.1, rw (hp, hu) w.2)
