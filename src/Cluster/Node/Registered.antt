-- ===== src/Cluster/Node/Registered.antt =====
-- Registered nodes: what the registration accepts, and that it accepts its own result.
use mac_llm_ops_lab.Prelude.{pos, leb_ℤ, ltb_ℤ, ℕ, String, ◌≡◌, refl, sym, Bool, true, some, []}
use mac_llm_ops_lab.Py.Url.{url_port}
use mac_llm_ops_lab.Py.Sorted.{IsSorted, AllItems}
use mac_llm_ops_lab.Py.Result.{ok, bind-ok, ok_inj}
use mac_llm_ops_lab.Cluster.Checks.{
  non_empty_string, non_empty_strings, positive_int, non_negative_int, boolean, is_high_port,
  validated_high_ports, validated_high_port_url,
}
use mac_llm_ops_lab.Cluster.Checks.Accepted.{
  non_empty_string_again, positive_int_again, non_negative_int_again, boolean_again,
  non_empty_strings_again, validated_high_port_url_ok, validated_high_port_url_again,
}
use mac_llm_ops_lab.Cluster.Checks.Ports.{
  IsPort, validated_high_ports-AllItems, validated_high_ports_again,
}
use mac_llm_ops_lab.Cluster.Node.{
  RawNode, ClusterNode, as_raw, register_cluster_node, to_inventory_record,
}

module _ {Float : Type 0} (host_ok : String → Bool) where
  -- Every field of the registered node is the checked field of the given one.
  abbrev pub IsRegistered : RawNode Float → ClusterNode → Type 0
  IsRegistered n m =
      (non_empty_string n.node_id "node_id" ≡ ok m.node_id)
      × (non_empty_string n.hostname "hostname" ≡ ok m.hostname)
      × (validated_high_port_url host_ok n.api_base_url "api_base_url" ≡ ok m.api_base_url)
      × (validated_high_port_url host_ok n.backend_base_url "backend_base_url"
          ≡ ok m.backend_base_url)
      × (non_empty_string n.backend_id "backend_id" ≡ ok m.backend_id)
      × (non_empty_string n.chip "chip" ≡ ok m.chip)
      × (positive_int n.memory_gib "memory_gib" ≡ ok m.memory_gib)
      × (non_empty_strings n.models "models" ≡ ok m.models)
      × (non_negative_int n.queue_depth "queue_depth" ≡ ok m.queue_depth)
      × (boolean n.ready "ready" ≡ ok m.ready)
      × (boolean n.healthy "healthy" ≡ ok m.healthy)
      × (non_empty_strings n.capabilities "capabilities" ≡ ok m.capabilities)
      × (validated_high_ports n.ports ≡ ok m.ports)

  pub register-IsRegistered :
      (n : RawNode Float) (m : ClusterNode)
      → register_cluster_node host_ok n ≡ ok m
      → IsRegistered n m
  unfolding register_cluster_node
  register-IsRegistered n m h =
      let c0 = bind-ok (non_empty_string n.node_id "node_id") _ h in
      let c1 = bind-ok (non_empty_string n.hostname "hostname") _ c0.2 in
      let c2 = bind-ok (validated_high_port_url host_ok n.api_base_url "api_base_url") _ c1.2 in
      let c3 =
        bind-ok (validated_high_port_url host_ok n.backend_base_url "backend_base_url") _ c2.2 in
      let c4 = bind-ok (non_empty_string n.backend_id "backend_id") _ c3.2 in
      let c5 = bind-ok (non_empty_string n.chip "chip") _ c4.2 in
      let c6 = bind-ok (positive_int n.memory_gib "memory_gib") _ c5.2 in
      let c7 = bind-ok (non_empty_strings n.models "models") _ c6.2 in
      let c8 = bind-ok (non_negative_int n.queue_depth "queue_depth") _ c7.2 in
      let c9 = bind-ok (boolean n.ready "ready") _ c8.2 in
      let c10 = bind-ok (boolean n.healthy "healthy") _ c9.2 in
      let c11 = bind-ok (non_empty_strings n.capabilities "capabilities") _ c10.2 in
      let c12 = bind-ok (validated_high_ports n.ports) _ c11.2 in
      rw (sym (ok_inj c12.2))
        (c0.1, c1.1, c2.1, c3.1, c4.1, c5.1, c6.1, c7.1, c8.1, c9.1, c10.1, c11.1, c12.1)

  pub IsRegistered-register :
      (n : RawNode Float) (m : ClusterNode)
      → IsRegistered n m
      → register_cluster_node host_ok n ≡ ok m
  unfolding register_cluster_node
  IsRegistered-register n m r =
      rw (r.0, r.1, r.2, r.3, r.4, r.5, r.6, r.7, r.8, r.9, r.10, r.11, r.12) refl

  -- A registered node is registered again as it is.
  pub register-register :
      (n : RawNode Float) (m : ClusterNode)
      → register_cluster_node host_ok n ≡ ok m
      → register_cluster_node {Float = Float} host_ok (as_raw m) ≡ ok m
  register-register n m h =
      let r = register-IsRegistered n m h in
      IsRegistered-register (as_raw m) m (
        non_empty_string_again n.node_id "node_id" m.node_id r.0,
        non_empty_string_again n.hostname "hostname" m.hostname r.1,
        validated_high_port_url_again host_ok n.api_base_url "api_base_url" m.api_base_url r.2,
        validated_high_port_url_again host_ok n.backend_base_url "backend_base_url"
            m.backend_base_url r.3,
        non_empty_string_again n.backend_id "backend_id" m.backend_id r.4,
        non_empty_string_again n.chip "chip" m.chip r.5,
        (positive_int_again n.memory_gib "memory_gib" m.memory_gib r.6).0,
        non_empty_strings_again n.models "models" m.models r.7,
        (non_negative_int_again n.queue_depth "queue_depth" m.queue_depth r.8).0,
        boolean_again n.ready "ready" m.ready r.9,
        boolean_again n.healthy "healthy" m.healthy r.10,
        non_empty_strings_again n.capabilities "capabilities" m.capabilities r.11,
        validated_high_ports_again n.ports m.ports r.12,
      )

  -- A registered node has a positive memory size, a queue that is not negative, named ports between
  -- 20000 and 50000 in the order of their names, and URLs whose ports are explicit and in that
  -- range.
  pub registered_bounds :
      (n : RawNode Float) (m : ClusterNode)
      → register_cluster_node host_ok n ≡ ok m
      → (ltb_ℤ (pos 0) m.memory_gib ≡ true)
        × (leb_ℤ (pos 0) m.queue_depth ≡ true)
        × AllItems IsPort m.ports
        × IsSorted m.ports
        × (m.ports ≡ [] → ⊥)
        × (api_port : ℕ) × (url_port host_ok m.api_base_url ≡ ok (some api_port))
        × (is_high_port api_port ≡ true)
        × (backend_port : ℕ) × (url_port host_ok m.backend_base_url ≡ ok (some backend_port))
        × (is_high_port backend_port ≡ true)
  registered_bounds n m h =
      let r = register-IsRegistered n m h in
      let api =
        validated_high_port_url_ok host_ok n.api_base_url "api_base_url" m.api_base_url r.2 in
      let backend =
        validated_high_port_url_ok host_ok n.backend_base_url "backend_base_url" m.backend_base_url
          r.3 in
      let ports = validated_high_ports-AllItems n.ports m.ports r.12 in
      (
        (positive_int_again n.memory_gib "memory_gib" m.memory_gib r.6).1,
        (non_negative_int_again n.queue_depth "queue_depth" m.queue_depth r.8).1,
        ports.0,
        ports.1,
        ports.2,
        api.1,
        api.2,
        api.3,
        backend.1,
        backend.2,
        backend.3,
      )

  -- The inventory record of a node is that of its registration.
  pub to_inventory_record-register :
      (n : RawNode Float) (m : ClusterNode)
      → register_cluster_node host_ok n ≡ ok m
      → to_inventory_record host_ok n ≡ to_inventory_record host_ok (as_raw m)
  unfolding to_inventory_record
  to_inventory_record-register n m h = rw (h, register-register n m h) refl
