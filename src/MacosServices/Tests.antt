-- ===== src/MacosServices/Tests.antt =====
-- A service bundle on a concrete machine.
use mac_llm_ops_lab.Prelude.{
  pos, ℕ, String, ◌≡◌, refl, Bool, true, false, List, [], ◌∷◌, ◌==◌, string_eq, ℤ, if◌then◌else◌,
}
use mac_llm_ops_lab.Py.Str.{strip, lstrip, rstrip, is_space, split_on, join, str_ltb}
use mac_llm_ops_lab.Py.Number.{str_of_int, str_of_nat}
use mac_llm_ops_lab.Py.Dict.{get}
use mac_llm_ops_lab.Py.Value.{bool, int, str}
use mac_llm_ops_lab.Py.FilePath.{
  PurePath, parse_path, parts, is_absolute, as_posix, join_path, root_of,
}
use mac_llm_ops_lab.Py.Sorted.{sort_items, insert_item}
use mac_llm_ops_lab.Py.Result.{ok}
use mac_llm_ops_lab.Cluster.Checks.{non_empty_string, boolean}
use mac_llm_ops_lab.Cluster.Paths.{relative_path, validated_artifact_dir}
use mac_llm_ops_lab.MacosServices.{
  Machine, LaunchdPlist, ServiceBundle, Contents, plist, manifest, ServiceArgs, validated_high_port,
  bool_env, expand_user, absolute_path, validated_repo_dir, validated_script, build_launchd_plist,
  build_macos_launchd_service_bundle, write_macos_launchd_service_bundle,
}
use mac_llm_ops_lab.MacosServices.Confined.{
  IsConfined, IsUnderRuntime, files_of, write_bundle-IsConfined,
}

abbrev a_machine : Machine
a_machine = record {
  cwd = record { root = "/"; segments = "work" ∷ [] };
  expanduser = λ s. if s == "~" then "/home" else s;
  exists = λ p. true;
  is_dir = λ p. true;
  is_file = λ p. true;
}

abbrev a_request : ServiceArgs ℕ
a_request = record {
  repo_dir = "~/lab";
  artifact_dir = str "artifacts/runtime/mac/";
  model_id = str "m";
  backend_port = int (pos 28100);
  model_download_approved = bool false;
  backend_host = str "127.0.0.1";
}

abbrev the_plist : LaunchdPlist
the_plist = record {
  environment_variables =
      ("HF_HOME", "/home/lab/model-cache/huggingface")
      ∷ ("MAC_LLM_OPS_MODEL_DOWNLOAD_APPROVED", "false")
      ∷ ("MODEL_DOWNLOAD_GATE_REPORT", "artifacts/runtime/mac/vllm-mlx-model-download-gate.json")
      ∷ ("MODEL_ID", "m")
      ∷ ("SERVED_MODEL_NAME", "m")
      ∷ ("VLLM_MLX_HOST", "127.0.0.1")
      ∷ ("VLLM_MLX_PORT", "28100")
      ∷ [];
  keep_alive = false;
  label = "dev.mac_llm_ops.vllm-mlx";
  program_arguments = "/home/lab/scripts/run-vllm-mlx-backend.sh" ∷ [];
  run_at_load = false;
  standard_error_path = "/work/artifacts/runtime/mac/backend.err.log";
  standard_out_path = "/work/artifacts/runtime/mac/backend.out.log";
  working_directory = "/home/lab";
}

abbrev the_bundle : ServiceBundle
the_bundle = record {
  schema_version = "macos-launchd-service-bundle/v2";
  artifact_dir = "artifacts/runtime/mac";
  install_boundary = "generate_only_do_not_install";
  ports = ("backend", pos 28100) ∷ [];
  plist_files = ("backend", "artifacts/runtime/mac/dev.mac_llm_ops.vllm-mlx.plist") ∷ [];
  services = ("backend", the_plist) ∷ [];
}

abbrev at_artifacts : String → PurePath
at_artifacts name = record {
  root = "/";
  segments = "work" ∷ "artifacts" ∷ "runtime" ∷ "mac" ∷ name ∷ [];
}

abbrev the_files : List (PurePath × Contents)
the_files =
    (at_artifacts "dev.mac_llm_ops.vllm-mlx.plist", plist the_plist)
    ∷ (at_artifacts "launchd-manifest.json", manifest the_bundle)
    ∷ []

written : write_macos_launchd_service_bundle a_machine a_request ≡ ok (the_bundle, the_files)
unfolding write_macos_launchd_service_bundle build_macos_launchd_service_bundle build_launchd_plist
    validated_repo_dir validated_script absolute_path expand_user validated_high_port bool_env
    boolean non_empty_string validated_artifact_dir relative_path sort_items insert_item str_ltb get
    parse_path root_of split_on parts is_absolute as_posix join join_path strip lstrip rstrip
    is_space str_of_int str_of_nat
written = refl

write_bundle-IsConfined_example :
    (p : LaunchdPlist) × (port : ℤ) × (approved : Bool) × IsConfined a_machine the_bundle p port
      approved
    × IsUnderRuntime the_bundle.artifact_dir
    × (a_request.backend_port ≡ int port)
    × (a_request.model_download_approved ≡ bool approved)
    × (the_files ≡ files_of a_machine the_bundle p)
write_bundle-IsConfined_example =
    write_bundle-IsConfined a_machine a_request the_bundle the_files written
