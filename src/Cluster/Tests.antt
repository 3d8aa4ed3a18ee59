-- ===== src/Cluster/Tests.antt =====
-- Nodes, routes, manifests and reports on concrete values.
mod Evidence
mod Command
mod Paths
use mac_llm_ops_lab.Prelude.{
  ℤ, pos, leb_ℤ, ltb_ℤ, ℕ, String, ◌≡◌, refl, ◌⊎◌, inl, inr, Bool, true, false, ◌&&◌, Option, none,
  some, List, [], ◌∷◌, ◌==◌, elem, string_eq, map, is_nil, all,
}
use mac_llm_ops_lab.Py.Str.{
  is_space, lstrip, rstrip, strip, partition, split_on, join, ends_with, str_ltb,
}
use mac_llm_ops_lab.Py.Dict.{Dict, get, contains, keys}
use mac_llm_ops_lab.Py.Value.{Value, null, bool, int, str}
use mac_llm_ops_lab.Py.Url.{netloc, port_text, url_port, accept_all}
use mac_llm_ops_lab.Py.FilePath.{
  PurePath, root_of, parse_path, parts, is_absolute, as_posix, is_relative_to, suffix,
}
use mac_llm_ops_lab.Py.Sorted.{IsSorted, AllItems, insert_item, sort_items}
use mac_llm_ops_lab.Py.Result.{Result, ok, err, value_error, map_result, is_ok}
use mac_llm_ops_lab.Cluster.Checks.{
  Strings, one_text, sequence, non_empty_string, non_empty_strings, positive_int, non_negative_int,
  boolean, is_high_port, validated_url, validated_high_ports, validated_high_port_url,
  validated_health_urls,
}
use mac_llm_ops_lab.Cluster.Checks.Ports.{IsPort}
use mac_llm_ops_lab.Cluster.Node.{
  RawNode, ClusterNode, as_raw, register_cluster_node, to_inventory_record,
}
use mac_llm_ops_lab.Cluster.Node.Registered.{
  register-register, registered_bounds, to_inventory_record-register,
}
use mac_llm_ops_lab.Cluster.Route.{RoutingDecision, choose, route_to_model, to_record}
use mac_llm_ops_lab.Cluster.Route.Routed.{IsRouted, route_to_model-IsRouted, is_ok-route_to_model}

abbrev node : ℕ → String → RawNode ℕ
node queue name = record {
  node_id = str name;
  hostname = str "studio.local";
  api_base_url = str "http://127.0.0.1:28000";
  backend_base_url = str "http://127.0.0.1:28100/v1";
  backend_id = str "mlx";
  chip = str "M2 Ultra";
  memory_gib = int (pos 192);
  models = sequence (str "qwen" ∷ []);
  queue_depth = int (pos queue);
  ready = bool true;
  healthy = bool true;
  capabilities = sequence (str "chat" ∷ []);
  ports = ("metrics", int (pos 29000)) ∷ ("api", int (pos 28000)) ∷ [];
}

abbrev registered : ℕ → String → ClusterNode
registered queue name = record {
  node_id = name;
  hostname = "studio.local";
  api_base_url = "http://127.0.0.1:28000";
  backend_base_url = "http://127.0.0.1:28100/v1";
  backend_id = "mlx";
  chip = "M2 Ultra";
  memory_gib = pos 192;
  models = "qwen" ∷ [];
  queue_depth = pos queue;
  ready = true;
  healthy = true;
  capabilities = "chat" ∷ [];
  ports = ("api", pos 28000) ∷ ("metrics", pos 29000) ∷ [];
}

registers : register_cluster_node accept_all (node 2 "studio-b") ≡ ok (registered 2 "studio-b")
unfolding register_cluster_node non_empty_string non_empty_strings positive_int non_negative_int
    boolean validated_url validated_high_ports validated_high_port_url url_port netloc port_text
    partition strip lstrip rstrip is_space sort_items insert_item str_ltb
registers = refl

register-register_example :
    register_cluster_node {Float = ℕ} accept_all (as_raw (registered 2 "studio-b"))
    ≡ ok (registered 2 "studio-b")
register-register_example =
    register-register accept_all (node 2 "studio-b") (registered 2 "studio-b") registers

to_inventory_record-register_test :
    to_inventory_record accept_all (node 2 "studio-b")
    ≡ to_inventory_record accept_all (as_raw (registered 2 "studio-b"))
to_inventory_record-register_test =
    to_inventory_record-register accept_all (node 2 "studio-b") (registered 2 "studio-b") registers

registered_bounds_example :
    (ltb_ℤ (pos 0) (pos 192) ≡ true)
    × (leb_ℤ (pos 0) (pos 2) ≡ true)
    × AllItems IsPort (registered 2 "studio-b").ports
    × IsSorted (registered 2 "studio-b").ports
    × ((registered 2 "studio-b").ports ≡ [] → ⊥)
    × (api_port : ℕ) × (url_port accept_all "http://127.0.0.1:28000" ≡ ok (some api_port))
    × (is_high_port api_port ≡ true)
    × (backend_port : ℕ) × (url_port accept_all "http://127.0.0.1:28100/v1"
        ≡ ok (some backend_port))
    × (is_high_port backend_port ≡ true)
registered_bounds_example =
    registered_bounds accept_all (node 2 "studio-b") (registered 2 "studio-b") registers

-- A port outside the range, a port that is no number, and a queue that is a Boolean.
refused :
    (validated_high_port_url {Float = ℕ} accept_all (str "http://host:80") "url"
      ≡ err (value_error "url port must stay in the 20000-50000 range"))
    × (validated_high_port_url {Float = ℕ} accept_all (str "http://host:2x") "url"
        ≡ err (value_error "url must include a valid port"))
    × (non_negative_int {Float = ℕ} (bool true) "queue_depth"
        ≡ err (value_error "queue_depth must be a non-negative integer"))
unfolding non_empty_string non_negative_int validated_url validated_high_port_url url_port netloc
    port_text partition strip lstrip rstrip is_space
refused = (refl, refl, refl)

abbrev cluster : List (RawNode ℕ)
cluster = node 2 "studio-c" ∷ node 1 "studio-b" ∷ node 1 "studio-a" ∷ []

abbrev qwen : Value ℕ
qwen = str "qwen"

abbrev blank : Value ℕ
blank = str " "

abbrev decision : RoutingDecision
decision = record {
  node_id = "studio-a";
  backend_id = "mlx";
  model_id = "qwen";
  api_base_url = some "http://127.0.0.1:28000";
  reason = "least_queue_depth";
  fallback = false;
}

routes : route_to_model accept_all cluster qwen ≡ ok decision
unfolding register_cluster_node non_empty_string non_empty_strings positive_int non_negative_int
    boolean validated_url validated_high_ports validated_high_port_url url_port netloc port_text
    partition strip lstrip rstrip is_space sort_items insert_item str_ltb route_to_model choose
routes = refl

route_to_model-IsRouted_example :
    (requested : String) × (nodes : List ClusterNode) × (qwen ≡ str requested)
    × (map_result (register_cluster_node accept_all) cluster ≡ ok nodes)
    × IsRouted requested nodes decision
route_to_model-IsRouted_example = route_to_model-IsRouted accept_all cluster qwen decision routes

is_ok-route_to_model_test : is_ok (route_to_model accept_all cluster blank) ≡ (
    is_ok (non_empty_string blank "model_id")
    && all (λ n. is_ok (register_cluster_node accept_all n)) cluster)
is_ok-route_to_model_test = is_ok-route_to_model accept_all cluster blank
