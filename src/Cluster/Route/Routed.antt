-- ===== src/Cluster/Route/Routed.antt =====
-- What `route_to_model` decides, and when it raises.
use mac_llm_ops_lab.Prelude.{
  String, ◌≡◌, refl, sym, ◌⊎◌, inl, inr, Bool, true, false, ◌&&◌, none, some, List, [], ◌∷◌, keep,
  all,
}
use mac_llm_ops_lab.Py.Value.{Value, str}
use mac_llm_ops_lab.Py.Result.{Result, ok, err, ◌>>=◌, is_ok, map_result, bind-ok, ok_inj}
use mac_llm_ops_lab.Cluster.Checks.{non_empty_string}
use mac_llm_ops_lab.Cluster.Checks.Accepted.{non_empty_string_ok}
use mac_llm_ops_lab.Cluster.Node.{RawNode, ClusterNode, register_cluster_node}
use mac_llm_ops_lab.Cluster.Route.{
  RoutingDecision, serves, key_ltb, min_node, choose, route_to_model,
}
use mac_llm_ops_lab.Cluster.Route.Least.{
  IsIn, AllNodes, min_node-IsLeast, min_node-IsIn, IsIn-keep, IsLeast-keep, none_serves,
}

-- The decision for a model, from the registered nodes: the fallback where no node serves the model,
-- and otherwise a node that serves it and before which no other such node comes.
abbrev pub IsRouted : String → List ClusterNode → RoutingDecision → Type 0
IsRouted requested nodes d =
    (d.model_id ≡ requested)
    × (((d.fallback ≡ true)
          × (d.node_id ≡ "local-fallback")
          × (d.api_base_url ≡ none)
          × AllNodes (λ n. serves requested n ≡ false) nodes)
        ⊎ ((d.fallback ≡ false)
            × (selected : ClusterNode) × IsIn selected nodes
            × (serves requested selected ≡ true)
            × (d.node_id ≡ selected.node_id)
            × (d.backend_id ≡ selected.backend_id)
            × (d.api_base_url ≡ some selected.api_base_url)
            × AllNodes (λ n. (serves requested n && key_ltb n selected) ≡ false) nodes))

choose-IsRouted :
    (requested : String) (nodes candidates : List ClusterNode)
    → keep (serves requested) nodes ≡ candidates
    → IsRouted requested nodes (choose requested candidates)
unfolding choose
choose-IsRouted requested nodes [] e = (refl, inl (refl, refl, refl, none_serves requested nodes e))
choose-IsRouted requested nodes (c ∷ cs) e =
    let selected = min_node c cs in
    let found = IsIn-keep requested selected nodes (rw e (min_node-IsIn c cs)) in
    let least = IsLeast-keep requested selected nodes (rw e (min_node-IsLeast c cs)) in
    (refl, inr (refl, selected, found.0, found.1, refl, refl, refl, least))

module _ {Float : Type 0} (host_ok : String → Bool) where
  -- A decision is for the requested model and rests on the registration of every given node. It is
  -- the local fallback where no registered node is healthy, ready and lists the model; otherwise it
  -- names a registered node that is and does, and among those nodes none has a shorter queue, nor
  -- the same queue and a smaller identifier.
  pub route_to_model-IsRouted :
      (nodes : List (RawNode Float)) (model_id : Value Float) (d : RoutingDecision)
      → route_to_model host_ok nodes model_id ≡ ok d
      → (requested : String) × (registered : List ClusterNode) × (model_id ≡ str requested)
        × (map_result (register_cluster_node host_ok) nodes ≡ ok registered)
        × IsRouted requested registered d
  unfolding route_to_model
  route_to_model-IsRouted nodes model_id d h =
      let m = bind-ok (non_empty_string model_id "model_id") _ h in
      let r = bind-ok (map_result (register_cluster_node host_ok) nodes) _ m.2 in
      rw (sym (ok_inj r.2)) (
        m.0,
        r.0,
        (non_empty_string_ok model_id "model_id" m.0 m.1).0,
        r.1,
        choose-IsRouted m.0 r.0 _ refl,
      )

  is_ok-map_result :
      (nodes : List (RawNode Float))
      → is_ok (map_result (register_cluster_node host_ok) nodes)
        ≡ all (λ n. is_ok (register_cluster_node host_ok n)) nodes
  is_ok-map_result [] = refl
  is_ok-map_result (n ∷ nodes) =
      step (register_cluster_node host_ok n) (map_result (register_cluster_node host_ok) nodes)
        (is_ok-map_result nodes)
    where
      step :
          {rest : Bool} (a : Result ClusterNode) (rs : Result (List ClusterNode))
          → is_ok rs ≡ rest
          → is_ok (a >>= λ n. rs >>= λ ns. ok (n ∷ ns)) ≡ (is_ok a && rest)
      step (ok a) (ok rs) e = e
      step (ok a) (err x) e = e
      step (err x) rs e = refl

  -- Routing succeeds exactly when the model's name is not blank and every node is valid: one
  -- invalid node is enough to make it raise, whether or not it would have been chosen.
  pub is_ok-route_to_model :
      (nodes : List (RawNode Float)) (model_id : Value Float)
      → is_ok (route_to_model host_ok nodes model_id) ≡ (
          is_ok (non_empty_string model_id "model_id")
          && all (λ n. is_ok (register_cluster_node host_ok n)) nodes)
  unfolding route_to_model
  is_ok-route_to_model nodes model_id =
      step (non_empty_string model_id "model_id") (map_result (register_cluster_node host_ok) nodes)
        (is_ok-map_result nodes)
    where
      step :
          {rest : Bool} (m : Result String) (ns : Result (List ClusterNode))
          → is_ok ns ≡ rest
          → is_ok (m >>= λ r. ns >>= λ ns'. ok (choose r (keep (serves r) ns'))) ≡ (is_ok m && rest)
      step (ok m) (ok ns) e = e
      step (ok m) (err x) e = e
      step (err x) ns e = refl
