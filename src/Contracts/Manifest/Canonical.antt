-- ===== src/Contracts/Manifest/Canonical.antt =====
-- A manifest that is built is accepted when it is read again, and is unchanged.
use mac_llm_ops_lab.Prelude.{String, ◌≡◌, refl, sym, ap, ◌∙◌, List, string_eq}
use mac_llm_ops_lab.Py.Dict.{get}
use mac_llm_ops_lab.Py.Value.{Value, str, Fields, items_of}
use mac_llm_ops_lab.Py.Result.{ok, bind-ok, ok_inj}
use mac_llm_ops_lab.Artifacts.Checks.{
  value_at, mapping_field, sequence_field, validated_non_empty_string, validated_command,
  validated_host, validated_artifact_dir,
}
use mac_llm_ops_lab.Artifacts.Record.{items}
use mac_llm_ops_lab.Contracts.Checks.{
  validated_json_path_in_artifact_dir, validated_high_ports, validated_env, validated_no_leak_scan,
}
use mac_llm_ops_lab.Contracts.Checks.Paths.{IsText, artifact_dir-IsDirectory, json_path_again}
use mac_llm_ops_lab.Contracts.Checks.Again.{
  text_again, non_empty-IsText, command_again, host_again, ports_again, env_again,
  no_leak_scan_again,
}
use mac_llm_ops_lab.Contracts.Manifest.{
  ManifestArgs, manifest_of, build_benchmark_artifact_manifest, manifest_args,
  canonical_benchmark_artifact_manifest,
}

module _ {Float : Type 0} where
  -- The parts of a manifest, each accepted by its check.
  module _ (sha dir raw summary model revision : String) (ps : List (Value Float))
      (host ports env scan : Fields Float) where
    abbrev made : Fields Float
    made = manifest_of sha ps dir raw summary model revision host ports env scan

    abbrev args_again : ManifestArgs Float
    args_again = record {
      git_sha = str sha;
      command = items ps;
      artifact_dir = dir;
      raw_benchmark_path = raw;
      summary_path = summary;
      model_id = str model;
      model_revision = str revision;
      host = host;
      ports = ports;
      env = env;
      no_leak_scan = scan;
    }

    manifest_args_again :
        IsText sha
        → IsText dir
        → IsText raw
        → IsText summary
        → IsText model
        → IsText revision
        → manifest_args made ≡ ok args_again
    unfolding manifest_args manifest_of mapping_field sequence_field value_at get
    manifest_args_again a b c d e f =
        rw
          (
            text_again Float sha "git_sha" a,
            text_again Float dir "artifact_dir" b,
            text_again Float raw "raw_benchmark_path" c,
            text_again Float summary "summary_path" d,
            text_again Float model "model_id" e,
            text_again Float revision "model_revision" f,
          )
          refl

    canonical_made :
        manifest_args made ≡ ok args_again
        → canonical_benchmark_artifact_manifest made ≡ build_benchmark_artifact_manifest args_again
    unfolding canonical_benchmark_artifact_manifest manifest_of value_at get
    canonical_made h = rw h refl

    build_again :
        validated_artifact_dir dir ≡ ok dir
        → validated_non_empty_string {Float = Float} (str sha) "git_sha" ≡ ok sha
        → validated_command (items_of (items ps)) ≡ ok ps
        → validated_json_path_in_artifact_dir raw dir "raw_benchmark_path" ≡ ok raw
        → validated_json_path_in_artifact_dir summary dir "summary_path" ≡ ok summary
        → validated_non_empty_string {Float = Float} (str model) "model_id" ≡ ok model
        → validated_non_empty_string {Float = Float} (str revision) "model_revision" ≡ ok revision
        → validated_host host ≡ ok host
        → validated_high_ports ports ≡ ok ports
        → validated_env env ≡ ok env
        → validated_no_leak_scan scan dir ≡ ok scan
        → build_benchmark_artifact_manifest args_again ≡ ok made
    unfolding build_benchmark_artifact_manifest
    build_again a b c d e f g h i j k = rw (a, b, c, d, e, f, g, h, i, j, k) refl

  -- A benchmark manifest that is built from any arguments is accepted when it is read again, and
  -- reading it gives the same manifest: its paths, its ports, its environment and its leak scan
  -- pass every check once more and nothing is changed.
  pub canonical-build :
      (a : ManifestArgs Float) (m : Fields Float)
      → build_benchmark_artifact_manifest a ≡ ok m
      → canonical_benchmark_artifact_manifest m ≡ ok m
  unfolding build_benchmark_artifact_manifest
  canonical-build a m h =
      let (dir, h1, k1) = bind-ok (validated_artifact_dir a.artifact_dir) _ h in
      let (sha, h2, k2) = bind-ok (validated_non_empty_string a.git_sha "git_sha") _ k1 in
      let (ps, h3, k3) = bind-ok (validated_command (items_of a.command)) _ k2 in
      let (raw, h4, k4) =
        bind-ok (validated_json_path_in_artifact_dir a.raw_benchmark_path dir "raw_benchmark_path")
          _ k3 in
      let (summary, h5, k5) =
        bind-ok (validated_json_path_in_artifact_dir a.summary_path dir "summary_path") _ k4 in
      let (model, h6, k6) = bind-ok (validated_non_empty_string a.model_id "model_id") _ k5 in
      let (revision, h7, k7) =
        bind-ok (validated_non_empty_string a.model_revision "model_revision") _ k6 in
      let (host, h8, k8) = bind-ok (validated_host a.host) _ k7 in
      let (ports, h9, k9) = bind-ok (validated_high_ports a.ports) _ k8 in
      let (env, h10, k10) = bind-ok (validated_env a.env) _ k9 in
      let (scan, h11, k11) = bind-ok (validated_no_leak_scan a.no_leak_scan dir) _ k10 in
      let d = artifact_dir-IsDirectory a.artifact_dir dir h1 in
      let r = json_path_again a.raw_benchmark_path dir "raw_benchmark_path" raw d h4 in
      let s = json_path_again a.summary_path dir "summary_path" summary d h5 in
      let t2 = non_empty-IsText a.git_sha "git_sha" sha h2 in
      let t6 = non_empty-IsText a.model_id "model_id" model h6 in
      let t7 = non_empty-IsText a.model_revision "model_revision" revision h7 in
      let read =
        manifest_args_again sha dir raw summary model revision ps host ports env scan t2 d.2 r.1 s.1
          t6 t7 in
      ap canonical_benchmark_artifact_manifest (sym (ok_inj k11))
      ∙ canonical_made sha dir raw summary model revision ps host ports env scan read
      ∙ build_again sha dir raw summary model revision ps host ports env scan d.1
          (text_again Float sha "git_sha" t2) (command_again (items_of a.command) ps h3) r.0 s.0
          (text_again Float model "model_id" t6) (text_again Float revision "model_revision" t7)
          (host_again a.host host h8) (ports_again a.ports ports h9) (env_again a.env env h10)
          (no_leak_scan_again a.no_leak_scan scan dir d h11)
      ∙ k11
