-- ===== src/Cluster/Route.antt =====
-- cluster.py: `RoutingDecision` and `route_to_model`.
pub mod Least
pub mod Routed
use mac_llm_ops_lab.Prelude.{
  ltb_ℤ, eqb_ℤ, String, Bool, true, false, ◌&&◌, ◌||◌, Option, none, some, List, [], ◌∷◌, keep,
  elem, string_eq, if◌then◌else◌,
}
use mac_llm_ops_lab.Py.Str.{str_ltb}
use mac_llm_ops_lab.Py.Dict.{Dict}
use mac_llm_ops_lab.Py.Value.{Value, null, bool, str}
use mac_llm_ops_lab.Py.Result.{Result, ok, ◌>>=◌, map_result}
use mac_llm_ops_lab.Cluster.Checks.{non_empty_string}
use mac_llm_ops_lab.Cluster.Node.{RawNode, ClusterNode, register_cluster_node}

pub record RoutingDecision : Type 0 where
  pub node_id : String
  pub backend_id : String
  pub model_id : String
  pub api_base_url : Option String
  pub reason : String
  pub fallback : Bool

-- `requested_model in node.models`, and the node is healthy and ready.
abbrev pub serves : String → ClusterNode → Bool
serves requested node = node.healthy && node.ready && elem requested node.models

-- `(a.queue_depth, a.node_id) < (b.queue_depth, b.node_id)`
abbrev pub key_ltb : ClusterNode → ClusterNode → Bool
key_ltb a b =
    ltb_ℤ a.queue_depth b.queue_depth
    || eqb_ℤ a.queue_depth b.queue_depth && str_ltb a.node_id b.node_id

-- `min` with this key: the first of the least.
abbrev pub lesser : ClusterNode → ClusterNode → ClusterNode
lesser n best = if key_ltb n best then n else best

abbrev pub min_node : ClusterNode → List ClusterNode → ClusterNode
min_node best [] = best
min_node best (n ∷ ns) = min_node (lesser n best) ns

unfoldable pub choose : String → List ClusterNode → RoutingDecision
choose requested [] = record {
  node_id = "local-fallback";
  backend_id = "fake";
  model_id = requested;
  api_base_url = none;
  reason = "no_healthy_registered_node";
  fallback = true;
}
choose requested (c ∷ cs) =
    let selected = min_node c cs in
    record {
      node_id = selected.node_id;
      backend_id = selected.backend_id;
      model_id = requested;
      api_base_url = some selected.api_base_url;
      reason = "least_queue_depth";
      fallback = false;
    }

module _ {Float : Type 0} where
  abbrev url_value : Option String → Value Float
  url_value none = null
  url_value (some url) = str url

  unfoldable pub to_record : RoutingDecision → Dict String (Value Float)
  to_record self =
      ("node_id", str self.node_id)
      ∷ ("backend_id", str self.backend_id)
      ∷ ("model_id", str self.model_id)
      ∷ ("api_base_url", url_value self.api_base_url)
      ∷ ("reason", str self.reason)
      ∷ ("fallback", bool self.fallback)
      ∷ []

  module _ (host_ok : String → Bool) where
    unfoldable pub route_to_model : List (RawNode Float) → Value Float → Result RoutingDecision
    route_to_model nodes model_id = do
      requested_model ← non_empty_string model_id "model_id"
      registered_nodes ← map_result (register_cluster_node host_ok) nodes
      ok (choose requested_model (keep (serves requested_model) registered_nodes))
