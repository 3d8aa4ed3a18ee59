-- ===== src/MacosServices.antt =====
-- macos_services.py: the launchd service of the backend, and the files that are written for it. The
-- machine is a parameter; `plistlib.dumps` and `json.dumps` are left out, so that a file stands with
-- what it holds. Checks that are the same code in cluster.py are taken from Cluster.
mod Tests
pub mod Confined
use mac_llm_ops_lab.Prelude.{
  ℤ, String, Bool, true, false, not, ◌||◌, Option, none, some, List, [], ◌∷◌, ◌++◌, string_eq,
  if◌then◌else◌,
}
use mac_llm_ops_lab.Py.Str.{◌<>◌, starts_with_char}
use mac_llm_ops_lab.Py.Number.{str_of_int}
use mac_llm_ops_lab.Py.Dict.{Dict, get}
use mac_llm_ops_lab.Py.Value.{Value, int, str}
use mac_llm_ops_lab.Py.FilePath.{PurePath, parse_path, is_absolute, as_posix, join_path}
use mac_llm_ops_lab.Py.Sorted.{sort_items}
use mac_llm_ops_lab.Py.Result.{
  Result, ok, err, value_error, runtime_error, key_error, ◌>>=◌, ◌>>◌, raise_if, map_result,
}
use mac_llm_ops_lab.Cluster.Checks.{non_empty_string, boolean, is_high_port_ℤ}
use mac_llm_ops_lab.Cluster.Paths.{validated_artifact_dir}

abbrev pub backend_label : String
backend_label = "dev.mac_llm_ops.vllm-mlx"

-- The machine: its current directory, `os.path.expanduser`, and the tests on its files.
pub record Machine : Type 0 where
  pub cwd : PurePath
  pub expanduser : String → String
  pub exists : PurePath → Bool
  pub is_dir : PurePath → Bool
  pub is_file : PurePath → Bool

pub record LaunchdPlist : Type 0 where
  pub environment_variables : Dict String String
  pub keep_alive : Bool
  pub label : String
  pub program_arguments : List String
  pub run_at_load : Bool
  pub standard_error_path : String
  pub standard_out_path : String
  pub working_directory : String

pub record ServiceBundle : Type 0 where
  pub schema_version : String
  pub artifact_dir : String
  pub install_boundary : String
  pub ports : Dict String ℤ
  pub plist_files : Dict String String
  pub services : Dict String LaunchdPlist

-- What a written file holds.
pub data Contents : Type 0 where
  plist : LaunchdPlist → Contents
  manifest : ServiceBundle → Contents

pub record ServiceArgs (Float : Type 0) : Type 0 where
  pub repo_dir : String
  pub artifact_dir : Value Float
  pub model_id : Value Float
  pub backend_port : Value Float
  pub model_download_approved : Value Float
  pub backend_host : Value Float

abbrev pub true_or_false : Bool → String
true_or_false b = if b then "true" else "false"

module _ {Float : Type 0} where
  unfoldable pub validated_high_port : Value Float → String → Result ℤ
  validated_high_port (int port) field_name =
      if is_high_port_ℤ port
      then ok port
      else err (value_error (field_name <> " must stay in the 20000-50000 range"))
  validated_high_port _ field_name = err (value_error (field_name <> " must be an integer"))

  unfoldable pub bool_env : Value Float → Result String
  bool_env value = boolean value "model_download_approved" >>= λ b. ok (true_or_false b)

abbrev pub checked_variable : String × String → Result (String × String)
checked_variable (key, value) = do
  k ← non_empty_string {Float = Unit {0}} (str key) "environment key"
  v ← non_empty_string {Float = Unit {0}} (str value) ("environment." <> key)
  ok (k, v)

abbrev pub backend_environment :
    PurePath → String → String → String → ℤ → String → Dict String String
backend_environment repo_dir artifact_dir model_id host port approved =
    ("MODEL_ID", model_id)
    ∷ ("SERVED_MODEL_NAME", model_id)
    ∷ ("VLLM_MLX_HOST", host)
    ∷ ("VLLM_MLX_PORT", str_of_int port)
    ∷ ("HF_HOME", as_posix (join_path repo_dir (parse_path "model-cache/huggingface")))
    ∷ ("MAC_LLM_OPS_MODEL_DOWNLOAD_APPROVED", approved)
    ∷ ("MODEL_DOWNLOAD_GATE_REPORT", artifact_dir <> "/vllm-mlx-model-download-gate.json")
    ∷ []

module _ (machine : Machine) where
  -- `path.expanduser()`
  unfoldable pub expand_user : PurePath → Result PurePath
  expand_user path = if is_absolute path then ok path else first_part path.segments
    where
      first_part : List String → Result PurePath
      first_part [] = ok path
      first_part (first ∷ rest) =
          let home = machine.expanduser first in
          if not (starts_with_char b'~' first)
          then ok path
          else if starts_with_char b'~' home
          then err (runtime_error "Could not determine home directory.")
          else ok (join_path (parse_path home) (record { root = ""; segments = rest }))

  unfoldable pub absolute_path : PurePath → String → Result PurePath
  absolute_path value field_name = do
    path ← expand_user value
    raise_if (not (is_absolute path)) (value_error (field_name <> " must be an absolute path"))
    ok path

  unfoldable pub validated_repo_dir : PurePath → Result PurePath
  validated_repo_dir value = do
    path ← expand_user value
    raise_if (not (is_absolute path)) (value_error "repo_dir must be an absolute path")
    raise_if (not (machine.exists path) || not (machine.is_dir path))
        (value_error "repo_dir must exist and be a directory")
    ok path

  unfoldable pub validated_script : PurePath → String → Result PurePath
  validated_script value field_name = do
    path ← absolute_path value field_name
    raise_if (not (machine.exists path) || not (machine.is_file path))
        (value_error (field_name <> " must exist"))
    ok path

  abbrev pub absolute_texts : List PurePath → Result (List String)
  absolute_texts paths =
      map_result (λ value. absolute_path value "program_argument" >>= λ p. ok (as_posix p)) paths

  unfoldable pub build_launchd_plist :
      String
      → List PurePath
      → PurePath
      → Dict String String
      → PurePath
      → PurePath
      → Result LaunchdPlist
  build_launchd_plist label program_arguments working_directory environment stdout_path
        stderr_path =
      do
        variables ← map_result checked_variable (sort_items environment)
        name ← non_empty_string {Float = Unit {0}} (str label) "label"
        program ← absolute_texts program_arguments
        stderr ← absolute_path stderr_path "stderr_path"
        stdout ← absolute_path stdout_path "stdout_path"
        directory ← absolute_path working_directory "working_directory"
        ok (record {
          environment_variables = variables;
          keep_alive = false;
          label = name;
          program_arguments = program;
          run_at_load = false;
          standard_error_path = as_posix stderr;
          standard_out_path = as_posix stdout;
          working_directory = as_posix directory;
        })

  unfoldable pub build_macos_launchd_service_bundle :
      {Float : Type 0} → ServiceArgs Float → Result ServiceBundle
  build_macos_launchd_service_bundle args = do
    repo_dir ← validated_repo_dir (parse_path args.repo_dir)
    artifact_dir ← validated_artifact_dir args.artifact_dir
    model_id ← non_empty_string args.model_id "model_id"
    port ← validated_high_port args.backend_port "backend_port"
    let artifact_root = join_path machine.cwd (parse_path artifact_dir)
    script ←
        validated_script (join_path repo_dir (parse_path "scripts/run-vllm-mlx-backend.sh"))
          "backend_script"
    host ← non_empty_string args.backend_host "backend_host"
    approved ← bool_env args.model_download_approved
    backend_plist ←
        build_launchd_plist backend_label (script ∷ []) repo_dir
          (backend_environment repo_dir artifact_dir model_id host port approved)
          (join_path artifact_root (parse_path "backend.out.log"))
          (join_path artifact_root (parse_path "backend.err.log"))
    ok (record {
      schema_version = "macos-launchd-service-bundle/v2";
      artifact_dir = artifact_dir;
      install_boundary = "generate_only_do_not_install";
      ports = ("backend", port) ∷ [];
      plist_files = ("backend", artifact_dir <> "/" <> backend_label <> ".plist") ∷ [];
      services = ("backend", backend_plist) ∷ [];
    })

  abbrev pub plist_file : Dict String LaunchdPlist → String × String → Result (PurePath × Contents)
  plist_file services (service_name, plist_path) = elim (get service_name services) [
    | none ↦ err key_error
    | some service ↦ ok (join_path machine.cwd (parse_path plist_path), plist service)
  ]

  -- The bundle, and the files that are written, in order.
  unfoldable pub write_macos_launchd_service_bundle :
      {Float : Type 0} → ServiceArgs Float → Result (ServiceBundle × List (PurePath × Contents))
  write_macos_launchd_service_bundle args = do
    bundle ← build_macos_launchd_service_bundle args
    let artifact_root = join_path machine.cwd (parse_path bundle.artifact_dir)
    files ← map_result (plist_file bundle.services) bundle.plist_files
    ok (
      bundle,
      files
          ++ ((join_path artifact_root (parse_path "launchd-manifest.json"), manifest bundle) ∷ []),
    )
