-- ===== src/Cluster/Node.antt =====
-- cluster.py: `ClusterNode` before and after its validation, `register_cluster_node` and the
-- inventory record. Before it, a field can hold any object; `models` and `capabilities` are texts or
-- sequences, and `ports` is a mapping with texts for its keys.
pub mod Registered
use mac_llm_ops_lab.Prelude.{ℤ, String, Bool, List, [], ◌∷◌}
use mac_llm_ops_lab.Py.Dict.{Dict}
use mac_llm_ops_lab.Py.Value.{
  Value, bool, int, str, list, dict, Items, nil, cons, Fields, end, field,
}
use mac_llm_ops_lab.Py.Sorted.{sort_items}
use mac_llm_ops_lab.Py.Result.{Result, ok, ◌>>=◌}
use mac_llm_ops_lab.Cluster.Checks.{
  Strings, sequence, non_empty_string, non_empty_strings, positive_int, non_negative_int, boolean,
  validated_high_ports, validated_high_port_url,
}
use mac_llm_ops_lab.Cluster.Checks.Accepted.{strs}
use mac_llm_ops_lab.Cluster.Checks.Ports.{ints}

pub record RawNode (Float : Type 0) : Type 0 where
  pub node_id : Value Float
  pub hostname : Value Float
  pub api_base_url : Value Float
  pub backend_base_url : Value Float
  pub backend_id : Value Float
  pub chip : Value Float
  pub memory_gib : Value Float
  pub models : Strings Float
  pub queue_depth : Value Float
  pub ready : Value Float
  pub healthy : Value Float
  pub capabilities : Strings Float
  pub ports : Dict String (Value Float)

pub record ClusterNode : Type 0 where
  pub node_id : String
  pub hostname : String
  pub api_base_url : String
  pub backend_base_url : String
  pub backend_id : String
  pub chip : String
  pub memory_gib : ℤ
  pub models : List String
  pub queue_depth : ℤ
  pub ready : Bool
  pub healthy : Bool
  pub capabilities : List String
  pub ports : Dict String ℤ

abbrev items_of_strings : {Float : Type 0} → List String → Items Float
items_of_strings [] = nil
items_of_strings (s ∷ ss) = cons (str s) (items_of_strings ss)

abbrev fields_of_ints : {Float : Type 0} → Dict String ℤ → Fields Float
fields_of_ints [] = end
fields_of_ints ((k, n) ∷ d) = field k (int n) (fields_of_ints d)

module _ {Float : Type 0} where
  -- A validated node, handed to a validation again.
  abbrev pub as_raw : ClusterNode → RawNode Float
  as_raw n = record {
    node_id = str n.node_id;
    hostname = str n.hostname;
    api_base_url = str n.api_base_url;
    backend_base_url = str n.backend_base_url;
    backend_id = str n.backend_id;
    chip = str n.chip;
    memory_gib = int n.memory_gib;
    models = sequence (strs n.models);
    queue_depth = int n.queue_depth;
    ready = bool n.ready;
    healthy = bool n.healthy;
    capabilities = sequence (strs n.capabilities);
    ports = ints n.ports;
  }

  module _ (host_ok : String → Bool) where
    unfoldable pub register_cluster_node : RawNode Float → Result ClusterNode
    register_cluster_node node = do
      node_id ← non_empty_string node.node_id "node_id"
      hostname ← non_empty_string node.hostname "hostname"
      api_base_url ← validated_high_port_url host_ok node.api_base_url "api_base_url"
      backend_base_url ← validated_high_port_url host_ok node.backend_base_url "backend_base_url"
      backend_id ← non_empty_string node.backend_id "backend_id"
      chip ← non_empty_string node.chip "chip"
      memory_gib ← positive_int node.memory_gib "memory_gib"
      models ← non_empty_strings node.models "models"
      queue_depth ← non_negative_int node.queue_depth "queue_depth"
      ready ← boolean node.ready "ready"
      healthy ← boolean node.healthy "healthy"
      capabilities ← non_empty_strings node.capabilities "capabilities"
      ports ← validated_high_ports node.ports
      ok (record {
        node_id = node_id;
        hostname = hostname;
        api_base_url = api_base_url;
        backend_base_url = backend_base_url;
        backend_id = backend_id;
        chip = chip;
        memory_gib = memory_gib;
        models = models;
        queue_depth = queue_depth;
        ready = ready;
        healthy = healthy;
        capabilities = capabilities;
        ports = ports;
      })

    unfoldable pub to_inventory_record : RawNode Float → Result (Dict String (Value Float))
    to_inventory_record self = do
      node ← register_cluster_node self
      ok (
          ("node_id", str node.node_id)
          ∷ ("hostname", str node.hostname)
          ∷ ("api_base_url", str node.api_base_url)
          ∷ ("backend_base_url", str node.backend_base_url)
          ∷ ("backend_id", str node.backend_id)
          ∷ ("chip", str node.chip)
          ∷ ("memory_gib", int node.memory_gib)
          ∷ ("models", list (items_of_strings node.models))
          ∷ ("queue_depth", int node.queue_depth)
          ∷ ("ready", bool node.ready)
          ∷ ("healthy", bool node.healthy)
          ∷ ("capabilities", list (items_of_strings node.capabilities))
          ∷ ("ports", dict (fields_of_ints (sort_items node.ports)))
          ∷ [])
