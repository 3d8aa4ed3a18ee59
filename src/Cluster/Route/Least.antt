-- ===== src/Cluster/Route/Least.antt =====
-- `min` over the candidates: the result is one of them, and none has a smaller key.
use mac_llm_ops_lab.Prelude.{
  String, ◌≡◌, refl, ◌∙◌, ◌⊎◌, inl, inr, true, false, ◌&&◌, List, [], ◌∷◌, keep, arith, Bool-cases,
}
use mac_llm_ops_lab.Py.Sorted.{str_ltb_asymm, str_ltb_weak}
use mac_llm_ops_lab.Cluster.Node.{ClusterNode}
use mac_llm_ops_lab.Cluster.Route.{serves, key_ltb, lesser, min_node}

key_ltb_asymm : (a b : ClusterNode) → key_ltb a b ≡ true → key_ltb b a ≡ false
key_ltb_asymm a b h = ground (arith, str_ltb_asymm a.node_id b.node_id)

key_ltb_weak : (a b c : ClusterNode) → key_ltb a c ≡ true → key_ltb a b ≡ false → key_ltb b c ≡ true
key_ltb_weak a b c h k = ground (arith, str_ltb_weak a.node_id b.node_id c.node_id)

key_ltb_irrefl : (a : ClusterNode) → key_ltb a a ≡ false
key_ltb_irrefl a = elim (Bool-cases (key_ltb a a)) [
  | inl less ↦ key_ltb_asymm a a less
  | inr same ↦ same
]

abbrev pub IsIn : ClusterNode → List ClusterNode → Type 0
IsIn a [] = ⊥
IsIn a (b ∷ bs) = (a ≡ b) ⊎ IsIn a bs

abbrev pub AllNodes : (ClusterNode → Type 0) → List ClusterNode → Type 0
AllNodes P [] = Unit
AllNodes P (n ∷ ns) = P n × AllNodes P ns

-- No node of the list has a smaller key.
abbrev pub IsLeast : ClusterNode → List ClusterNode → Type 0
IsLeast a ns = AllNodes (λ n. key_ltb n a ≡ false) ns

not_before : (a b c : ClusterNode) → key_ltb a c ≡ false → key_ltb b a ≡ false → key_ltb b c ≡ false
not_before a b c h k = elim (Bool-cases (key_ltb b c)) [
  | inl less ↦ cc (key_ltb_weak b a c less k, h)
  | inr same ↦ same
]

lesser_least :
    (n best c : ClusterNode)
    → key_ltb (lesser n best) c ≡ false
    → (key_ltb best c ≡ false) × (key_ltb n c ≡ false)
lesser_least n best c h = elim (Bool-cases (key_ltb n best)) [
  | inl less ↦
      let at_n = rw less at h in (not_before n best c at_n (key_ltb_asymm n best less), at_n)
  | inr same ↦ let at_best = rw same at h in (at_best, not_before best n c at_best same)
]

pub min_node-IsLeast :
    (best : ClusterNode) (ns : List ClusterNode) → IsLeast (min_node best ns) (best ∷ ns)
min_node-IsLeast best [] = (key_ltb_irrefl best, tt)
min_node-IsLeast best (n ∷ ns) =
    let rest = min_node-IsLeast (lesser n best) ns in
    let both = lesser_least n best (min_node (lesser n best) ns) rest.0 in
    (both.0, (both.1, rest.1))

lesser-cases : (n best : ClusterNode) → (lesser n best ≡ best) ⊎ (lesser n best ≡ n)
lesser-cases n best = elim (Bool-cases (key_ltb n best)) [
  | inl less ↦ inr (rw less refl)
  | inr same ↦ inl (rw same refl)
]

lesser-IsIn :
    (n best m : ClusterNode) (ns : List ClusterNode)
    → IsIn m (lesser n best ∷ ns)
    → IsIn m (best ∷ n ∷ ns)
lesser-IsIn n best m ns (inr i) = inr (inr i)
lesser-IsIn n best m ns (inl e) = elim (lesser-cases n best) [
  | inl is_best ↦ inl (e ∙ is_best)
  | inr is_n ↦ inr (inl (e ∙ is_n))
]

pub min_node-IsIn :
    (best : ClusterNode) (ns : List ClusterNode) → IsIn (min_node best ns) (best ∷ ns)
min_node-IsIn best [] = inl refl
min_node-IsIn best (n ∷ ns) =
    lesser-IsIn n best (min_node (lesser n best) ns) ns (min_node-IsIn (lesser n best) ns)

-- Members of the candidates are registered nodes that serve the model.
pub IsIn-keep :
    (requested : String) (m : ClusterNode) (ns : List ClusterNode)
    → IsIn m (keep (serves requested) ns)
    → IsIn m ns × (serves requested m ≡ true)
IsIn-keep requested m [] i = elim i [ ]
IsIn-keep requested m (n ∷ ns) i = elim (Bool-cases (serves requested n)) [
  | inl kept ↦ elim (rw kept at i) [
    | inl e ↦ (inl e, rw (e, kept) refl)
    | inr rest ↦ let found = IsIn-keep requested m ns rest in (inr found.0, found.1)
  ]
  | inr dropped ↦ let found = IsIn-keep requested m ns (rw dropped at i) in (inr found.0, found.1)
]

pub IsLeast-keep :
    (requested : String) (m : ClusterNode) (ns : List ClusterNode)
    → IsLeast m (keep (serves requested) ns)
    → AllNodes (λ n. (serves requested n && key_ltb n m) ≡ false) ns
IsLeast-keep requested m [] l = tt
IsLeast-keep requested m (n ∷ ns) l = elim (Bool-cases (serves requested n)) [
  | inl kept ↦ let least = rw kept at l in rw kept (least.0, IsLeast-keep requested m ns least.1)
  | inr dropped ↦ rw dropped (refl, IsLeast-keep requested m ns (rw dropped at l))
]

pub none_serves :
    (requested : String) (ns : List ClusterNode)
    → keep (serves requested) ns ≡ []
    → AllNodes (λ n. serves requested n ≡ false) ns
none_serves requested [] e = tt
none_serves requested (n ∷ ns) e = elim (Bool-cases (serves requested n)) [
  | inl kept ↦ cc (rw kept at e)
  | inr dropped ↦ (dropped, none_serves requested ns (rw dropped at e))
]
