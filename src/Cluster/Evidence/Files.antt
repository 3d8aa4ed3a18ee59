-- ===== src/Cluster/Evidence/Files.antt =====
-- Accepted evidence: every file stands inside the artifact directory, under the required labels.
use mac_llm_ops_lab.Prelude.{
  String, ◌≡◌, refl, sym, ap, ◌∙◌, List, [], ◌∷◌, Option, none, some, not, is_nil, string_eq,
}
use mac_llm_ops_lab.Py.Str.{◌<>◌}
use mac_llm_ops_lab.Py.Dict.{Dict, get, keys}
use mac_llm_ops_lab.Py.Value.{Value}
use mac_llm_ops_lab.Py.Result.{Result, ok, err, key_error, map_result, bind-ok, ok_inj, raise_if-ok}
use mac_llm_ops_lab.Cluster.Paths.{validated_evidence_path}
use mac_llm_ops_lab.Cluster.Paths.Inside.{IsInside, validated_evidence_path-IsInside}
use mac_llm_ops_lab.Py.Sorted.{sorted_texts}
use mac_llm_ops_lab.Cluster.Evidence.{
  required_node_evidence_labels, log_suffix, item, checked_file, checked_files, node_files,
  validated_node_evidence,
}

-- The files of a dictionary stand inside the directory, each with the suffix of its label.
abbrev pub AllInside : String → (String → Result String) → Dict String String → Type 0
AllInside dir suffix_of [] = Unit
AllInside dir suffix_of ((label, path) ∷ files) =
    ((expected : String) × (suffix_of label ≡ ok expected) × IsInside dir expected path)
    × AllInside dir suffix_of files

module _ {Float : Type 0} (dir prefix : String) (suffix_of : String → Result String)
    (files : Dict String (Value Float)) where
  checked_file-ok :
      (label : String) (entry : String × String)
      → checked_file dir prefix suffix_of files label ≡ ok entry
      → (entry.0 ≡ label)
        × (expected : String) × (suffix_of label ≡ ok expected)
        × IsInside dir expected entry.1
  unfolding checked_file
  checked_file-ok label entry h =
      let v = bind-ok (item label files) _ h in
      let e = bind-ok (suffix_of label) _ v.2 in
      let p = bind-ok (validated_evidence_path v.0 dir (prefix <> label) e.0) _ e.2 in
      rw (sym (ok_inj p.2))
        (refl, e.0, e.1, validated_evidence_path-IsInside v.0 dir (prefix <> label) e.0 p.0 p.1)

  files_step :
      (label : String) (entry : String × String) (labels : List String) (rest : Dict String String)
      → (entry.0 ≡ label)
        × (expected : String) × (suffix_of label ≡ ok expected)
        × IsInside dir expected entry.1
      → (keys rest ≡ labels) × AllInside dir suffix_of rest
      → (keys (entry ∷ rest) ≡ label ∷ labels) × AllInside dir suffix_of (entry ∷ rest)
  files_step label (name, path) labels rest here there = (
    ap (λ k. k ∷ keys rest) here.0 ∙ ap (λ ks. label ∷ ks) there.0,
    ((here.1, rw here.0 here.2, here.3), there.1),
  )

  labels_checked :
      (labels : List String) (out : Dict String String)
      → map_result (checked_file dir prefix suffix_of files) labels ≡ ok out
      → (keys out ≡ labels) × AllInside dir suffix_of out
  labels_checked [] out h = rw (sym (ok_inj h)) (refl, tt)
  labels_checked (label ∷ labels) out h =
      let (entry, he, k) = bind-ok (checked_file dir prefix suffix_of files label) _ h in
      let (rest, hrest, e) =
        bind-ok (map_result (checked_file dir prefix suffix_of files) labels) _ k in
      rw (sym (ok_inj e)) (
        files_step label entry labels rest (checked_file-ok label entry he)
          (labels_checked labels rest hrest))

  pub checked_files-AllInside :
      (owner : String) (required : List String) (out : Dict String String)
      → checked_files dir prefix suffix_of files owner required ≡ ok out
      → (keys out ≡ required) × AllInside dir suffix_of out
  unfolding checked_files
  checked_files-AllInside owner required out h =
      labels_checked required out (raise_if-ok (not (is_nil _)) _ _ h).1

-- The entries of the evidence: the required labels, and files inside the directory.
abbrev pub AllEvidence : String → Dict String (Dict String String) → Type 0
AllEvidence dir [] = Unit
AllEvidence dir ((node_id, files) ∷ rest) =
    (keys files ≡ required_node_evidence_labels)
    × AllInside dir log_suffix files
    × AllEvidence dir rest

module _ {Float : Type 0} (evidence : Dict String (Dict String (Value Float))) (dir : String) where
  node_files-ok :
      (id : String) (entry : String × Dict String String)
      → node_files evidence dir id ≡ ok entry
      → (entry.0 ≡ id)
        × (keys entry.1 ≡ required_node_evidence_labels)
        × AllInside dir log_suffix entry.1
  unfolding node_files
  node_files-ok id entry h =
      let f = bind-ok (item id evidence) _ h in
      let c =
        bind-ok
          (checked_files dir ("node_evidence." <> id <> ".") log_suffix f.0 "node_evidence"
            required_node_evidence_labels)
          _ f.2 in
      let inside =
        checked_files-AllInside dir ("node_evidence." <> id <> ".") log_suffix f.0 "node_evidence"
          required_node_evidence_labels c.0 c.1 in
      rw (sym (ok_inj c.2)) (refl, inside.0, inside.1)

  evidence_step :
      (id : String) (entry : String × Dict String String) (ids : List String)
      (rest : Dict String (Dict String String))
      → (entry.0 ≡ id)
        × (keys entry.1 ≡ required_node_evidence_labels)
        × AllInside dir log_suffix entry.1
      → (keys rest ≡ ids) × AllEvidence dir rest
      → (keys (entry ∷ rest) ≡ id ∷ ids) × AllEvidence dir (entry ∷ rest)
  evidence_step id (name, files) ids rest here there =
      (ap (λ k. k ∷ keys rest) here.0 ∙ ap (λ ks. id ∷ ks) there.0, (here.1, here.2, there.1))

  ids_checked :
      (ids : List String) (out : Dict String (Dict String String))
      → map_result (node_files evidence dir) ids ≡ ok out
      → (keys out ≡ ids) × AllEvidence dir out
  ids_checked [] out h = rw (sym (ok_inj h)) (refl, tt)
  ids_checked (id ∷ ids) out h =
      let (entry, he, k) = bind-ok (node_files evidence dir id) _ h in
      let (rest, hrest, e) = bind-ok (map_result (node_files evidence dir) ids) _ k in
      rw (sym (ok_inj e))
        (evidence_step id entry ids rest (node_files-ok id entry he) (ids_checked ids rest hrest))

  pub validated_node_evidence-AllEvidence :
      (ids : List String) (out : Dict String (Dict String String))
      → validated_node_evidence evidence ids dir ≡ ok out
      → (keys out ≡ sorted_texts ids) × AllEvidence dir out
  unfolding validated_node_evidence
  validated_node_evidence-AllEvidence ids out h =
      ids_checked (sorted_texts ids) out (raise_if-ok (not _) _ _ h).1

pub item-ok :
    {V : Type 0} (key : String) (d : Dict String V) (v : V) → item key d ≡ ok v → get key d ≡ some v
unfolding item
item-ok key d v h = go (get key d) h
  where
    go : (o : Option _) → elim o [ none ↦ err key_error | some w ↦ ok w ] ≡ ok v → o ≡ some v
    go none h = cc
    go (some w) h = cc
