-- ===== src/Cluster/Checks/Ports.antt =====
-- What holds of the accepted ports of a node, and that they are accepted again.
use mac_llm_ops_lab.Prelude.{ℤ, String, ◌≡◌, refl, sym, ap, true, false, [], ◌∷◌}
use mac_llm_ops_lab.Py.Str.{strip, is_empty}
use mac_llm_ops_lab.Py.Dict.{Dict}
use mac_llm_ops_lab.Py.Value.{Value, null, bool, int, float, str, list, dict}
use mac_llm_ops_lab.Py.Sorted.{
  sort_items, IsSorted, AllItems, sort_items-IsSorted, sort_items-AllItems, sort_items-cons,
  sort_items_sorted,
}
use mac_llm_ops_lab.Py.Result.{ok, bind-ok, ok_inj, guard-ok, test-ok}
use mac_llm_ops_lab.Cluster.Checks.{
  non_empty_string, is_high_port_ℤ, checked_port, checked_ports, validated_high_ports,
}

-- A port as the checks accept it.
abbrev pub IsPort : String → ℤ → Type 0
IsPort name port = (is_empty (strip name) ≡ false) × (is_high_port_ℤ port ≡ true)

pub name_ok :
    (Float : Type 0) (name f s : String)
    → non_empty_string {Float = Float} (str name) f ≡ ok s
    → is_empty (strip name) ≡ false
unfolding non_empty_string
name_ok Float name f s h = (guard-ok (is_empty (strip name)) _ h).0

module _ {Float : Type 0} where
  abbrev pub ints : Dict String ℤ → Dict String (Value Float)
  ints [] = []
  ints ((name, n) ∷ d) = (name, int n) ∷ ints d

  checked_port-ok :
      (name : String) (v : Value Float) (n : ℤ)
      → checked_port name v ≡ ok n
      → is_high_port_ℤ n ≡ true
  checked_port-ok name (int m) n h = let (high, e) = test-ok (is_high_port_ℤ m) _ h in rw e at high
  checked_port-ok name (bool c) b h = cc
  checked_port-ok name (str t) b h = cc
  checked_port-ok name null b h = cc
  checked_port-ok name (float x) b h = cc
  checked_port-ok name (list x) b h = cc
  checked_port-ok name (dict x) b h = cc

  checked_ports-AllItems :
      (d : Dict String (Value Float)) (ps : Dict String ℤ)
      → checked_ports d ≡ ok ps
      → AllItems IsPort ps
  checked_ports-AllItems [] ps h = rw (sym (ok_inj h)) tt
  checked_ports-AllItems ((name, v) ∷ d) ps h =
      let (s, hs, k) = bind-ok (non_empty_string {Float = Float} (str name) "port name") _ h in
      let (p, hp, l) = bind-ok (checked_port name v) _ k in
      let (rest, hrest, e) = bind-ok (checked_ports d) _ l in
      rw (sym (ok_inj e)) (
        (name_ok Float name "port name" s hs, checked_port-ok name v p hp),
        checked_ports-AllItems d rest hrest,
      )

  checked_ports-cons :
      (i : String × Value Float) (d : Dict String (Value Float)) (ps : Dict String ℤ)
      → checked_ports (i ∷ d) ≡ ok ps
      → sort_items ps ≡ []
      → ⊥
  checked_ports-cons (name, v) d ps h =
      let (s, hs, k) = bind-ok (non_empty_string {Float = Float} (str name) "port name") _ h in
      let (p, hp, l) = bind-ok (checked_port name v) _ k in
      let (rest, hrest, e) = bind-ok (checked_ports d) _ l in
      rw (sym (ok_inj e)) (sort_items-cons name p rest)

  pub validated_high_ports-AllItems :
      (d : Dict String (Value Float)) (ps : Dict String ℤ)
      → validated_high_ports d ≡ ok ps
      → AllItems IsPort ps × IsSorted ps × (ps ≡ [] → ⊥)
  unfolding validated_high_ports
  validated_high_ports-AllItems [] ps h = cc
  validated_high_ports-AllItems (i ∷ d) ps h =
      let (qs, hqs, e) = bind-ok (checked_ports (i ∷ d)) _ h in
      rw (sym (ok_inj e)) (
        sort_items-AllItems IsPort qs (checked_ports-AllItems (i ∷ d) qs hqs),
        sort_items-IsSorted qs,
        checked_ports-cons i d qs hqs,
      )

module _ (Float : Type 0) where
  checked_ports_again :
      (ps : Dict String ℤ) → AllItems IsPort ps → checked_ports (ints {Float = Float} ps) ≡ ok ps
  unfolding non_empty_string
  checked_ports_again [] a = refl
  checked_ports_again ((name, p) ∷ ps) a = rw (a.0.0, a.0.1, checked_ports_again ps a.1) refl

  accepted_ports :
      (ps : Dict String ℤ)
      → AllItems IsPort ps
      → IsSorted ps
      → (ps ≡ [] → ⊥)
      → validated_high_ports (ints {Float = Float} ps) ≡ ok ps
  unfolding validated_high_ports
  accepted_ports [] a s n = absurd (n refl)
  accepted_ports ((k, p) ∷ ps) a s n =
      rw (checked_ports_again ((k, p) ∷ ps) a) (ap ok (sort_items_sorted ((k, p) ∷ ps) s))

pub validated_high_ports_again :
    {Float : Type 0} (d : Dict String (Value Float)) (ps : Dict String ℤ)
    → validated_high_ports d ≡ ok ps
    → validated_high_ports (ints {Float = Float} ps) ≡ ok ps
validated_high_ports_again {Float = F} d ps h =
    let (all, sorted, some_port) = validated_high_ports-AllItems d ps h in
    accepted_ports F ps all sorted some_port
