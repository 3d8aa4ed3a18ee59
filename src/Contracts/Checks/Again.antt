-- ===== src/Contracts/Checks/Again.antt =====
-- A value that a check accepted is accepted again, and is unchanged.
use mac_llm_ops_lab.Prelude.{
  pos, String, ◌≡◌, refl, sym, ap, ◌∙◌, true, not, List, [], ◌∷◌, string_eq,
}
use mac_llm_ops_lab.Py.Str.{strip, is_empty}
use mac_llm_ops_lab.Py.Dict.{get}
use mac_llm_ops_lab.Py.Value.{
  Value, null, bool, int, float, str, list, dict, Fields, end, field, items_of,
}
use mac_llm_ops_lab.Py.Result.{ok, bind-ok, ok_inj, raise_if-ok}
use mac_llm_ops_lab.Artifacts.Checks.{
  value_at, validated_non_empty_string, validated_command, validated_non_empty_mapping,
  validated_host,
}
use mac_llm_ops_lab.Artifacts.Record.{items}
use mac_llm_ops_lab.Contracts.Checks.{
  validated_json_path_in_artifact_dir, validated_high_ports, validated_env, is_true, is_zero,
  validated_no_leak_scan,
}
use mac_llm_ops_lab.Contracts.Checks.Paths.{IsText, IsDirectory, json_path_again}

pub text_again :
    (Float : Type 0) (s name : String)
    → IsText s
    → validated_non_empty_string {Float = Float} (str s) name ≡ ok s
unfolding validated_non_empty_string
text_again Float s name h = rw h refl

module _ {Float : Type 0} where
  pub non_empty-IsText :
      (v : Value Float) (name s : String) → validated_non_empty_string v name ≡ ok s → IsText s
  unfolding validated_non_empty_string
  non_empty-IsText (str t) name s h =
      let r = raise_if-ok (is_empty (strip t)) _ _ h in rw (sym (ok_inj r.1)) r.0
  non_empty-IsText null name s h = cc
  non_empty-IsText (bool b) name s h = cc
  non_empty-IsText (int n) name s h = cc
  non_empty-IsText (float x) name s h = cc
  non_empty-IsText (list x) name s h = cc
  non_empty-IsText (dict x) name s h = cc

  items_of-items : (vs : List (Value Float)) → items_of (items vs) ≡ vs
  items_of-items [] = refl
  items_of-items (v ∷ vs) = ap (λ rest. v ∷ rest) (items_of-items vs)

  command_same : (c ps : List (Value Float)) → validated_command c ≡ ok ps → c ≡ ps
  unfolding validated_command
  command_same c ps h = let r = raise_if-ok _ _ _ h in ok_inj r.1

  pub command_again :
      (c ps : List (Value Float))
      → validated_command c ≡ ok ps
      → validated_command (items_of (items ps)) ≡ ok ps
  command_again c ps h = rw (items_of-items ps) (rw (command_same c ps h) at h)

  mapping_again :
      (f g : Fields Float) (name : String) → validated_non_empty_mapping f name ≡ ok g → f ≡ g
  unfolding validated_non_empty_mapping
  mapping_again f g name h = let r = raise_if-ok _ _ _ h in ok_inj r.1

  host_same : (f g : Fields Float) → validated_host f ≡ ok g → f ≡ g
  unfolding validated_host
  host_same f g h =
      let (n, hn, k) = bind-ok (validated_non_empty_mapping f "host") _ h in
      let r = raise_if-ok _ _ _ k in mapping_again f n "host" hn ∙ ok_inj r.1

  pub host_again : (f g : Fields Float) → validated_host f ≡ ok g → validated_host g ≡ ok g
  host_again f g h = rw (host_same f g h) at h

  ports_same : (f g : Fields Float) → validated_high_ports f ≡ ok g → f ≡ g
  unfolding validated_high_ports
  ports_same f g h =
      let (n, hn, k) = bind-ok (validated_non_empty_mapping f "ports") _ h in
      let r = raise_if-ok _ _ _ k in mapping_again f n "ports" hn ∙ ok_inj r.1

  pub ports_again :
      (f g : Fields Float) → validated_high_ports f ≡ ok g → validated_high_ports g ≡ ok g
  ports_again f g h = rw (ports_same f g h) at h

  env_same : (f g : Fields Float) → validated_env f ≡ ok g → f ≡ g
  unfolding validated_env
  env_same f g h =
      let (n, hn, k) = bind-ok (validated_non_empty_mapping f "env") _ h in
      let r = raise_if-ok _ _ _ k in mapping_again f n "env" hn ∙ ok_inj r.1

  pub env_again : (f g : Fields Float) → validated_env f ≡ ok g → validated_env g ≡ ok g
  env_again f g h = rw (env_same f g h) at h

  abbrev scan_of : String → Fields Float
  scan_of s =
      field "path" (str s) (field "passed" (bool true) (field "findings_count" (int (pos 0)) end))

  scan_again :
      (s dir : String)
      → validated_non_empty_string {Float = Float} (str s) "no_leak_scan.path" ≡ ok s
      → validated_json_path_in_artifact_dir s dir "no_leak_scan.path" ≡ ok s
      → validated_no_leak_scan (scan_of s) dir ≡ ok (scan_of s)
  unfolding validated_no_leak_scan validated_non_empty_mapping value_at get
  scan_again s dir t p = rw (t, p) refl

  pub no_leak_scan_again :
      (f g : Fields Float) (dir : String)
      → IsDirectory dir
      → validated_no_leak_scan f dir ≡ ok g
      → validated_no_leak_scan g dir ≡ ok g
  unfolding validated_no_leak_scan
  no_leak_scan_again f g dir d h =
      let (n, hn, k) = bind-ok (validated_non_empty_mapping f "no_leak_scan") _ h in
      let (t, ht, l) =
        bind-ok (validated_non_empty_string (value_at "path" n) "no_leak_scan.path") _ k in
      let (s, hs, m) =
        bind-ok (validated_json_path_in_artifact_dir t dir "no_leak_scan.path") _ l in
      let q = raise_if-ok (not (is_true (value_at "passed" n))) _ _ m in
      let r = raise_if-ok (not (is_zero (value_at "findings_count" n))) _ _ q.1 in
      let again = json_path_again t dir "no_leak_scan.path" s d hs in
      ap (λ x. validated_no_leak_scan x dir) (sym (ok_inj r.1))
      ∙ scan_again s dir (text_again Float s "no_leak_scan.path" again.1) again.0
      ∙ r.1
