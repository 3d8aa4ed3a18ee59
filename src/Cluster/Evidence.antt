-- ===== src/Cluster/Evidence.antt =====
-- cluster.py: the evidence of a cluster run. `node_evidence` maps nodes to files by label, both with
-- texts for their keys. A dictionary that the program writes as a literal is a record here.
pub mod Files
use mac_llm_ops_lab.Prelude.{
  ℤ, String, Bool, true, false, not, ◌&&◌, ◌||◌, Option, none, some, List, [], ◌∷◌, map, foldl, all,
  any, keep, elem, add_elem, is_nil, string_eq, if◌then◌else◌,
}
use mac_llm_ops_lab.Py.Str.{◌<>◌, strip, is_empty, join, ends_with}
use mac_llm_ops_lab.Py.Dict.{Dict, get, contains, keys}
use mac_llm_ops_lab.Py.Value.{Value, null, str}
use mac_llm_ops_lab.Py.Sorted.{sort_items, sorted_texts}
use mac_llm_ops_lab.Py.Result.{
  Result, ok, err, value_error, key_error, ◌>>=◌, ◌>>◌, raise_if, map_result,
}
use mac_llm_ops_lab.Cluster.Checks.{
  Strings, one_text, sequence, non_empty_string, boolean, validated_high_port_url,
  validated_health_urls,
}
use mac_llm_ops_lab.Cluster.Node.{
  RawNode, ClusterNode, as_raw, register_cluster_node, to_inventory_record,
}
use mac_llm_ops_lab.Cluster.Route.{RoutingDecision, to_record}
use mac_llm_ops_lab.Cluster.Paths.{validated_artifact_dir, validated_evidence_path}

abbrev pub required_node_evidence_labels : List String
required_node_evidence_labels = "api_log" ∷ "backend_log" ∷ "phoenix_spans" ∷ "metrics" ∷ []

abbrev pub required_node_report_evidence_labels : List String
required_node_report_evidence_labels =
    "api_log" ∷ "backend_log" ∷ "metrics" ∷ "node_evidence" ∷ "phoenix_spans" ∷ []

abbrev pub node_report_evidence_suffixes : Dict String String
node_report_evidence_suffixes =
    ("api_log", ".log")
    ∷ ("backend_log", ".log")
    ∷ ("metrics", ".json")
    ∷ ("node_evidence", ".json")
    ∷ ("phoenix_spans", ".json")
    ∷ []

-- A decision before its validation.
pub record RawDecision (Float : Type 0) : Type 0 where
  pub node_id : Value Float
  pub backend_id : Value Float
  pub model_id : Value Float
  pub api_base_url : Option (Value Float)
  pub reason : Value Float
  pub fallback : Value Float

-- `set(...)`, and `sorted` of a set of texts.
abbrev same_set : List String → List String → Bool
same_set xs ys = all (λ x. elem x ys) xs && all (λ y. elem y xs) ys

-- `list(text)` is the list of its characters.
abbrev characters : {Float : Type 0} → String → List (Value Float)
characters String.[] = []
characters (String.◌∷◌ c s) = str (String.◌∷◌ c String.[]) ∷ characters s

abbrev elements : {Float : Type 0} → Strings Float → List (Value Float)
elements (one_text s) = characters s
elements (sequence vs) = vs

abbrev command_part : {Float : Type 0} → Value Float → Result String
command_part (str s) =
    if is_empty (strip s) then err (value_error "command must contain non-empty strings") else ok s
command_part _ = err (value_error "command must contain non-empty strings")

-- `d[key]`
unfoldable pub item : {V : Type 0} → String → Dict String V → Result V
item key d = elim (get key d) [ none ↦ err key_error | some v ↦ ok v ]

module _ {Float : Type 0} (artifact_dir prefix : String) (suffix_of : String → Result String)
    (files : Dict String (Value Float)) where
  -- One entry of the dictionary comprehensions over the required labels.
  unfoldable pub checked_file : String → Result (String × String)
  checked_file label = do
    value ← item label files
    expected ← suffix_of label
    path ← validated_evidence_path value artifact_dir (prefix <> label) expected
    ok (label, path)

  -- The check for the labels, and the comprehension behind it.
  unfoldable pub checked_files : String → List String → Result (Dict String String)
  checked_files owner required = do
    let missing = keep (λ label. not (contains label files)) required
    raise_if (not (is_nil missing))
        (value_error (owner <> " is missing required labels: " <> join ", " missing))
    map_result checked_file required

abbrev pub log_suffix : String → Result String
log_suffix label = ok (if ends_with label "_log" then ".log" else ".json")

unfoldable pub report_suffix : String → Result String
report_suffix label = item label node_report_evidence_suffixes

module _ {Float : Type 0} where
  unfoldable pub validated_command : Strings Float → Result (List String)
  validated_command command = elim (elements command) [
    | [] ↦ err (value_error "command must contain non-empty strings")
    | v ∷ vs ↦ map_result command_part (v ∷ vs)
  ]

  -- One round of the loop over `sorted(node_ids)`.
  unfoldable pub node_files :
      Dict String (Dict String (Value Float))
      → String
      → String
      → Result (String × Dict String String)
  node_files node_evidence artifact_dir node_id = do
    files ← item node_id node_evidence
    checked ←
        checked_files artifact_dir ("node_evidence." <> node_id <> ".") log_suffix files
          "node_evidence" required_node_evidence_labels
    ok (node_id, checked)

  unfoldable pub validated_node_evidence :
      Dict String (Dict String (Value Float))
      → List String
      → String
      → Result (Dict String (Dict String String))
  validated_node_evidence node_evidence node_ids artifact_dir =
      raise_if (not (same_set (keys node_evidence) node_ids))
        (value_error "node_evidence must contain exactly one entry per node")
      >> map_result (node_files node_evidence artifact_dir) (sorted_texts node_ids)

  unfoldable pub validated_node_report_evidence_files :
      Dict String (Value Float) → String → Result (Dict String String)
  validated_node_report_evidence_files evidence_files artifact_dir =
      checked_files artifact_dir "evidence_files." report_suffix evidence_files "evidence_files"
        required_node_report_evidence_labels
