-- ===== src/MacosServices/Confined.antt =====
-- What a written service bundle is: where its files stand, and what the service may do.
use mac_llm_ops_lab.Prelude.{
  negated, ℤ, String, ◌≡◌, refl, sym, ap, ◌∙◌, Bool, true, false, not, ◌||◌, some, List, [], ◌∷◌,
  arith, elem, string_eq, Bool-cases, inl, inr,
}
use mac_llm_ops_lab.Py.Str.{◌<>◌, is_empty, strip, str_ltb, split_on}
use mac_llm_ops_lab.Py.Number.{str_of_int}
use mac_llm_ops_lab.Py.Dict.{Dict, get}
use mac_llm_ops_lab.Py.Value.{Value, bool, int, str}
use mac_llm_ops_lab.Py.FilePath.{
  PurePath, parse_path, parts, is_absolute, as_posix, join_path, root_of,
}
use mac_llm_ops_lab.Py.FilePath.Parts.{join_path-slash}
use mac_llm_ops_lab.Py.Sorted.{sort_items, insert_item}
use mac_llm_ops_lab.Py.Result.{ok, bind-ok, ok_inj, raise_if-ok, test-ok, map_result}
use mac_llm_ops_lab.Cluster.Checks.{non_empty_string, boolean, is_high_port_ℤ}
use mac_llm_ops_lab.Cluster.Paths.{under_runtime, validated_artifact_dir}
use mac_llm_ops_lab.Cluster.Paths.Inside.{validated_artifact_dir-IsUnder}
use mac_llm_ops_lab.MacosServices.{
  backend_label, Machine, LaunchdPlist, ServiceBundle, Contents, plist, manifest, ServiceArgs,
  validated_high_port, bool_env, true_or_false, expand_user, absolute_path, validated_repo_dir,
  validated_script, checked_variable, absolute_texts, build_launchd_plist, backend_environment,
  build_macos_launchd_service_bundle, plist_file, write_macos_launchd_service_bundle,
}

high_port-ok :
    {Float : Type 0} (v : Value Float) (name : String) (port : ℤ)
    → validated_high_port v name ≡ ok port
    → (v ≡ int port) × (is_high_port_ℤ port ≡ true)
unfolding validated_high_port
high_port-ok (int n) name port h =
    let t = test-ok (is_high_port_ℤ n) _ h in rw (sym t.1) (refl, t.0)
high_port-ok _ name port h = cc

bool_env-ok :
    {Float : Type 0} (v : Value Float) (text : String)
    → bool_env v ≡ ok text
    → (b : Bool) × (v ≡ bool b) × (true_or_false b ≡ text)
unfolding bool_env boolean
bool_env-ok (bool b) text h = (b, refl, ok_inj h)
bool_env-ok _ text h = cc

non_empty-same :
    (s name t : String) → non_empty_string {Float = Unit {0}} (str s) name ≡ ok t → t ≡ s
unfolding non_empty_string
non_empty-same s name t h = elim (Bool-cases (is_empty (strip s))) [
  | inl blank ↦ cc (rw blank at h)
  | inr text ↦ sym (ok_inj (rw text at h))
]

pair-same : {k k' v v' : String} → k ≡ k' → v ≡ v' → ◌≡◌ {A = String × String} (k, v) (k', v')
pair-same e f = rw (e, f) refl

variable-same : (k v : String) (e : String × String) → checked_variable (k, v) ≡ ok e → e ≡ (k, v)
variable-same k v e h =
    let x = bind-ok (non_empty_string {Float = Unit {0}} (str k) "environment key") _ h in
    let y = bind-ok (non_empty_string {Float = Unit {0}} (str v) ("environment." <> k)) _ x.2 in
    sym (ok_inj y.2) ∙ pair-same (non_empty-same k _ x.0 x.1) (non_empty-same v _ y.0 y.1)

variables-same : (d e : Dict String String) → map_result checked_variable d ≡ ok e → e ≡ d
variables-same [] e h = sym (ok_inj h)
variables-same ((k, v) ∷ d) e h =
    let c = bind-ok (checked_variable (k, v)) _ h in
    let r = bind-ok (map_result checked_variable d) _ c.2 in
    sym (ok_inj r.2)
    ∙ ap (λ x. x ∷ r.0) (variable-same k v c.0 c.1)
    ∙ ap (λ rest. (k, v) ∷ rest) (variables-same d r.0 r.1)

-- The directory that files are written to, as a path from the current directory.
abbrev pub IsUnderRuntime : String → Type 0
IsUnderRuntime dir =
    (is_absolute (parse_path dir) ≡ false)
    × (elem ".." (parts (parse_path dir)) ≡ false)
    × (under_runtime (parts (parse_path dir)) ≡ true)

module _ (machine : Machine) where
  absolute-ok :
      (p : PurePath) (name : String) (q : PurePath)
      → absolute_path machine p name ≡ ok q
      → is_absolute q ≡ true
  unfolding absolute_path
  absolute-ok p name q h =
      let e = bind-ok (expand_user machine p) _ h in
      let r = raise_if-ok (not (is_absolute e.0)) _ _ e.2 in
      rw (sym (ok_inj r.1)) (negated (is_absolute e.0) r.0)

  expand-absolute : (p : PurePath) → is_absolute p ≡ true → expand_user machine p ≡ ok p
  unfolding expand_user
  expand-absolute p h = rw h refl

  script-ok :
      (p : PurePath) (name : String) (q : PurePath)
      → validated_script machine p name ≡ ok q
      → (is_absolute q ≡ true) × (machine.exists q ≡ true) × (machine.is_file q ≡ true)
  unfolding validated_script
  script-ok p name q h =
      let a = bind-ok (absolute_path machine p name) _ h in
      let r = raise_if-ok (not (machine.exists a.0) || not (machine.is_file a.0)) _ _ a.2 in
      rw (sym (ok_inj r.1)) (absolute-ok p name a.0 a.1, ground arith, ground arith)

  absolute_path-absolute :
      (p : PurePath) (name : String) → is_absolute p ≡ true → absolute_path machine p name ≡ ok p
  unfolding absolute_path
  absolute_path-absolute p name h = rw (expand-absolute p h) (rw h refl)

  programs-same :
      (p : PurePath) (texts : List String)
      → is_absolute p ≡ true
      → absolute_texts machine (p ∷ []) ≡ ok texts
      → texts ≡ as_posix p ∷ []
  programs-same p texts a h = sym (ok_inj (rw (absolute_path-absolute p "program_argument" a) at h))

  -- What a service may be: its program is the one script, which is a file at an absolute path, and
  -- launchd starts it neither by itself nor again. `port` and `approved` are what was asked for.
  abbrev pub IsConfined : ServiceBundle → LaunchdPlist → ℤ → Bool → Type 0
  IsConfined b p port approved =
      (b.services ≡ ("backend", p) ∷ [])
      × (b.ports ≡ ("backend", port) ∷ [])
      × (is_high_port_ℤ port ≡ true)
      × ((script : PurePath) × (p.program_arguments ≡ as_posix script ∷ [])
          × (is_absolute script ≡ true)
          × (machine.is_file script ≡ true))
      × (p.run_at_load ≡ false)
      × (p.keep_alive ≡ false)
      × (get "VLLM_MLX_PORT" p.environment_variables ≡ some (str_of_int port))
      × (get "MAC_LLM_OPS_MODEL_DOWNLOAD_APPROVED" p.environment_variables
          ≡ some (true_or_false approved))
      × (get "MODEL_DOWNLOAD_GATE_REPORT" p.environment_variables
          ≡ some (b.artifact_dir <> "/vllm-mlx-model-download-gate.json"))

  plist-ok :
      (script repo out error : PurePath) (dir model host approved : String) (port : ℤ)
      (p : LaunchdPlist)
      → is_absolute script ≡ true
      → build_launchd_plist machine backend_label
          (script ∷ [])
          repo
          (backend_environment repo dir model host port approved)
          out
          error
        ≡ ok p
      → (p.environment_variables
          ≡ sort_items (backend_environment repo dir model host port approved))
        × (p.program_arguments ≡ as_posix script ∷ [])
        × (p.run_at_load ≡ false)
        × (p.keep_alive ≡ false)
  unfolding build_launchd_plist
  plist-ok script repo out error dir model host approved port p a h =
      let env = sort_items (backend_environment repo dir model host port approved) in
      let v = bind-ok (map_result checked_variable env) _ h in
      let l = bind-ok (non_empty_string {Float = Unit {0}} (str backend_label) "label") _ v.2 in
      let t = bind-ok (absolute_texts machine (script ∷ [])) _ l.2 in
      let e = bind-ok (absolute_path machine error "stderr_path") _ t.2 in
      let o = bind-ok (absolute_path machine out "stdout_path") _ e.2 in
      let d = bind-ok (absolute_path machine repo "working_directory") _ o.2 in
      rw (sym (ok_inj d.2)) (variables-same env v.0 v.1, programs-same script t.0 a t.1, refl, refl)

  -- The two files, in order: the property list and the manifest, in the bundle's directory.
  abbrev pub files_of : ServiceBundle → LaunchdPlist → List (PurePath × Contents)
  files_of b p =
      let root = join_path machine.cwd (parse_path b.artifact_dir) in
      (join_path root (parse_path "dev.mac_llm_ops.vllm-mlx.plist"), plist p)
      ∷ (join_path root (parse_path "launchd-manifest.json"), manifest b)
      ∷ []

  build-IsConfined :
      {Float : Type 0} (args : ServiceArgs Float) (b : ServiceBundle)
      → build_macos_launchd_service_bundle machine args ≡ ok b
      → (p : LaunchdPlist) × (port : ℤ) × (approved : Bool) × IsConfined b p port approved
        × IsUnderRuntime b.artifact_dir
        × (args.backend_port ≡ int port)
        × (args.model_download_approved ≡ bool approved)
        × (b.plist_files ≡ ("backend", b.artifact_dir <> "/" <> backend_label <> ".plist") ∷ [])
  unfolding build_macos_launchd_service_bundle sort_items insert_item str_ltb get
  build-IsConfined args b h =
      let r = bind-ok (validated_repo_dir machine (parse_path args.repo_dir)) _ h in
      let d = bind-ok (validated_artifact_dir args.artifact_dir) _ r.2 in
      let m = bind-ok (non_empty_string args.model_id "model_id") _ d.2 in
      let n = bind-ok (validated_high_port args.backend_port "backend_port") _ m.2 in
      let root = join_path machine.cwd (parse_path d.0) in
      let s =
        bind-ok
          (validated_script machine (join_path r.0 (parse_path "scripts/run-vllm-mlx-backend.sh"))
            "backend_script")
          _ n.2 in
      let t = bind-ok (non_empty_string args.backend_host "backend_host") _ s.2 in
      let a = bind-ok (bool_env args.model_download_approved) _ t.2 in
      let p =
        bind-ok
          (build_launchd_plist machine backend_label (s.0 ∷ []) r.0
            (backend_environment r.0 d.0 m.0 t.0 n.0 a.0)
            (join_path root (parse_path "backend.out.log"))
            (join_path root (parse_path "backend.err.log")))
          _ a.2 in
      let script = script-ok _ "backend_script" s.0 s.1 in
      let port = high_port-ok args.backend_port "backend_port" n.0 n.1 in
      let (approved, given, text) = bool_env-ok args.model_download_approved a.0 a.1 in
      let made = plist-ok s.0 r.0 _ _ d.0 m.0 t.0 a.0 n.0 p.0 script.0 p.1 in
      let dir = validated_artifact_dir-IsUnder args.artifact_dir d.0 d.1 in
      rw (sym (ok_inj p.2)) (
        p.0,
        n.0,
        approved,
        (
          refl,
          refl,
          port.1,
          (s.0, made.1, script.0, script.2),
          made.2,
          made.3,
          ap (get "VLLM_MLX_PORT") made.0,
          ap (get "MAC_LLM_OPS_MODEL_DOWNLOAD_APPROVED") made.0 ∙ ap some (sym text),
          ap (get "MODEL_DOWNLOAD_GATE_REPORT") made.0,
        ),
        (dir.0, dir.1, dir.2),
        port.0,
        given,
        refl,
      )

  not_empty : (dir : String) → under_runtime (parts (parse_path dir)) ≡ true → is_empty dir ≡ false
  unfolding parse_path root_of split_on parts
  not_empty String.[] h = cc
  not_empty (String.◌∷◌ c s) h = refl

  plist_path :
      (dir : String)
      → IsUnderRuntime dir
      → join_path machine.cwd (parse_path (dir <> "/" <> backend_label <> ".plist"))
        ≡ join_path
            (join_path machine.cwd (parse_path dir))
            (parse_path "dev.mac_llm_ops.vllm-mlx.plist")
  unfolding parse_path root_of is_absolute
  plist_path dir u =
      join_path-slash machine.cwd dir "dev.mac_llm_ops.vllm-mlx.plist" (not_empty dir u.2) u.0 refl

  loop-ok :
      (b : ServiceBundle) (p : LaunchdPlist) (path : String) (found : List (PurePath × Contents))
      → b.plist_files ≡ ("backend", path) ∷ []
      → b.services ≡ ("backend", p) ∷ []
      → map_result (plist_file machine b.services) b.plist_files ≡ ok found
      → found ≡ (join_path machine.cwd (parse_path path), plist p) ∷ []
  unfolding get
  loop-ok b p path found e f h = sym (ok_inj (rw (e, f) at h))

  -- Writing the service bundle that the arguments ask for, when it succeeds: two files are written,
  -- the property list and the manifest, both directly in the artifact directory, which is a relative
  -- path without `..` under artifacts/runtime; the one service runs one script, a file at an absolute
  -- path; launchd starts it neither by itself nor again; its port is the one asked for and stands
  -- between 20000 and 50000; and its environment has that port, the approval of a download exactly as
  -- it was given, and the report of the gate in the artifact directory.
  pub write_bundle-IsConfined :
      {Float : Type 0} (args : ServiceArgs Float) (b : ServiceBundle)
      (files : List (PurePath × Contents))
      → write_macos_launchd_service_bundle machine args ≡ ok (b, files)
      → (p : LaunchdPlist) × (port : ℤ) × (approved : Bool) × IsConfined b p port approved
        × IsUnderRuntime b.artifact_dir
        × (args.backend_port ≡ int port)
        × (args.model_download_approved ≡ bool approved)
        × (files ≡ files_of b p)
  unfolding write_macos_launchd_service_bundle
  write_bundle-IsConfined args b files h =
      let c = bind-ok (build_macos_launchd_service_bundle machine args) _ h in
      let (p, port, approved, confined, under, asked, given, one) = build-IsConfined args c.0 c.1 in
      let l = bind-ok (map_result (plist_file machine c.0.services) c.0.plist_files) _ c.2 in
      let found = loop-ok c.0 p _ l.0 one confined.0 l.1 in
      let same = plist_path c.0.artifact_dir under in
      let pair = ok_inj l.2 in
      rw (sym (ap (λ q. q.0) pair)) (
        p,
        port,
        approved,
        confined,
        under,
        asked,
        given,
        sym (ap (λ q. q.1) pair) ∙ rw (found, same) refl,
      )
