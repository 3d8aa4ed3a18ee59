-- ===== src/Contracts/Files/Again.antt =====
-- A manifest that is written is loaded again.
use mac_llm_ops_lab.Prelude.{String, ◌≡◌, sym, ap, not, string_eq}
use mac_llm_ops_lab.Py.Value.{dict, Fields}
use mac_llm_ops_lab.Py.FilePath.{PurePath}
use mac_llm_ops_lab.Py.Result.{ok, bind-ok, ok_inj, raise_if-ok}
use mac_llm_ops_lab.Artifacts.Checks.{value_at, is_text}
use mac_llm_ops_lab.Contracts.Manifest.{
  schema, manifest_args, canonical_benchmark_artifact_manifest,
}
use mac_llm_ops_lab.Contracts.Manifest.Canonical.{canonical-build}
use mac_llm_ops_lab.Contracts.Files.{
  write_benchmark_artifact_manifest, load_benchmark_artifact_manifest,
}

module _ {Float : Type 0} where
  canonical-canonical :
      (given m : Fields Float)
      → canonical_benchmark_artifact_manifest given ≡ ok m
      → canonical_benchmark_artifact_manifest m ≡ ok m
  unfolding canonical_benchmark_artifact_manifest
  canonical-canonical given m h =
      let s = raise_if-ok (not (is_text (value_at "schema_version" given) schema)) _ _ h in
      let a = bind-ok (manifest_args given) _ s.1 in canonical-build a.0 m a.2

  -- The object that is written for a manifest is accepted by the loader, which gives it back.
  load-write :
      (given m : Fields Float) (root : String) (path : PurePath)
      → write_benchmark_artifact_manifest given root ≡ ok (path, m)
      → load_benchmark_artifact_manifest (dict m) ≡ ok m
  unfolding write_benchmark_artifact_manifest load_benchmark_artifact_manifest
  load-write given m root path h =
      let c = bind-ok (canonical_benchmark_artifact_manifest given) _ h in
      rw (sym (ap (λ q. q.1) (ok_inj c.2))) (canonical-canonical given c.0 c.1)
