-- ===== src/Cluster/Checks/Accepted.antt =====
-- What holds of the values the checks accept, and that a checked value is accepted again.
use mac_llm_ops_lab.Prelude.{
  ℤ, pos, leb_ℤ, ltb_ℤ, ℕ, String, ◌≡◌, refl, sym, ap, ◌∙◌, Bool, true, false, Option, none, some,
  List, [], ◌∷◌, arith,
}
use mac_llm_ops_lab.Py.Str.{strip, is_empty}
use mac_llm_ops_lab.Py.Value.{Value, null, bool, int, float, str, list, dict}
use mac_llm_ops_lab.Py.Url.{url_port}
use mac_llm_ops_lab.Py.Result.{Result, ok, err, bind-ok, ok_inj, guard-ok, test-ok, raise_if-ok}
use mac_llm_ops_lab.Cluster.Checks.{
  Strings, one_text, sequence, non_empty_string, non_empty_strings, each_non_empty, positive_int,
  non_negative_int, boolean, validated_url, is_high_port, check_port, validated_high_port_url,
}

check_port-ok :
    (p : Result (Option ℕ)) (t f s : String)
    → check_port p t f ≡ ok s
    → (t ≡ s) × (port : ℕ) × (p ≡ ok (some port)) × (is_high_port port ≡ true)
check_port-ok (err e) t f s h = cc
check_port-ok (ok none) t f s h = cc
check_port-ok (ok (some port)) t f s h =
    let (high, e) = test-ok (is_high_port port) _ h in (e, port, refl, high)

module _ {Float : Type 0} where
  pub non_empty_string_ok :
      (v : Value Float) (f : String) (s : String)
      → non_empty_string v f ≡ ok s
      → (v ≡ str s) × (is_empty (strip s) ≡ false)
  unfolding non_empty_string
  non_empty_string_ok (str t) f s h = (ground arith, ground arith)
  non_empty_string_ok null f s h = cc
  non_empty_string_ok (bool b) f s h = cc
  non_empty_string_ok (int n) f s h = cc
  non_empty_string_ok (float x) f s h = cc
  non_empty_string_ok (list x) f s h = cc
  non_empty_string_ok (dict x) f s h = cc

  pub non_empty_string_again :
      (v : Value Float) (f : String) (s : String)
      → non_empty_string v f ≡ ok s
      → non_empty_string {Float = Float} (str s) f ≡ ok s
  non_empty_string_again v f s h = rw (non_empty_string_ok v f s h).0 at h

  -- Texts as objects.
  abbrev pub strs : List String → List (Value Float)
  strs [] = []
  strs (s ∷ ss) = str s ∷ strs ss

  each_non_empty_again :
      (vs : List (Value Float)) (f : String) (ss : List String)
      → each_non_empty vs f ≡ ok ss
      → each_non_empty (strs ss) f ≡ ok ss
  each_non_empty_again [] f ss h = rw (sym (ok_inj h)) refl
  each_non_empty_again (v ∷ vs) f ss h =
      let (s, hs, k) = bind-ok (non_empty_string v f) _ h in
      let (rest, hrest, e) = bind-ok (each_non_empty vs f) _ k in
      rw (sym (ok_inj e))
        (rw (non_empty_string_again v f s hs, each_non_empty_again vs f rest hrest) refl)

  pub positive_int_again :
      (v : Value Float) (f : String) (n : ℤ)
      → positive_int v f ≡ ok n
      → (positive_int {Float = Float} (int n) f ≡ ok n) × (ltb_ℤ (pos 0) n ≡ true)
  unfolding positive_int
  positive_int_again (int m) f n h =
      let (positive, e) = guard-ok (leb_ℤ m (pos 0)) _ h in
      rw (sym e) (rw positive refl, ground arith)
  positive_int_again (str t) f n h = cc
  positive_int_again null f n h = cc
  positive_int_again (bool b) f n h = cc
  positive_int_again (float x) f n h = cc
  positive_int_again (list x) f n h = cc
  positive_int_again (dict x) f n h = cc

  pub non_negative_int_again :
      (v : Value Float) (f : String) (n : ℤ)
      → non_negative_int v f ≡ ok n
      → (non_negative_int {Float = Float} (int n) f ≡ ok n) × (leb_ℤ (pos 0) n ≡ true)
  unfolding non_negative_int
  non_negative_int_again (int m) f n h =
      let (natural, e) = guard-ok (ltb_ℤ m (pos 0)) _ h in
      rw (sym e) (rw natural refl, ground arith)
  non_negative_int_again (str t) f n h = cc
  non_negative_int_again null f n h = cc
  non_negative_int_again (bool b) f n h = cc
  non_negative_int_again (float x) f n h = cc
  non_negative_int_again (list x) f n h = cc
  non_negative_int_again (dict x) f n h = cc

  pub boolean_again :
      (v : Value Float) (f : String) (b : Bool)
      → boolean v f ≡ ok b
      → boolean {Float = Float} (bool b) f ≡ ok b
  unfolding boolean
  boolean_again (bool c) f b h = refl
  boolean_again (int m) f b h = cc
  boolean_again (str t) f b h = cc
  boolean_again null f b h = cc
  boolean_again (float x) f b h = cc
  boolean_again (list x) f b h = cc
  boolean_again (dict x) f b h = cc

  pub non_empty_strings_again :
      (v : Strings Float) (f : String) (ss : List String)
      → non_empty_strings v f ≡ ok ss
      → non_empty_strings (sequence (strs ss)) f ≡ ok ss
  unfolding non_empty_strings
  non_empty_strings_again (one_text t) f ss h = cc
  non_empty_strings_again (sequence []) f ss h = cc
  non_empty_strings_again (sequence (v ∷ vs)) f [] h =
      let (s, hs, k) = bind-ok (non_empty_string v f) _ h in
      let (rest, hrest, e) = bind-ok (each_non_empty vs f) _ k in cc (ok_inj e)
  non_empty_strings_again (sequence (v ∷ vs)) f (s ∷ ss) h =
      each_non_empty_again (v ∷ vs) f (s ∷ ss) h

  validated_url_ok :
      (v : Value Float) (f : String) (s : String) → validated_url v f ≡ ok s → (v ≡ str s)
  unfolding validated_url
  validated_url_ok v f s h =
      let (t, ht, k) = bind-ok (non_empty_string v f) _ h in
      let (http, e) = raise_if-ok _ _ _ k in (non_empty_string_ok v f t ht).0 ∙ ap str (ok_inj e)

  module _ (host_ok : String → Bool) where
    -- The port of an accepted URL is a high one.
    pub validated_high_port_url_ok :
        (v : Value Float) (f : String) (s : String)
        → validated_high_port_url host_ok v f ≡ ok s
        → (v ≡ str s)
          × (port : ℕ) × (url_port host_ok s ≡ ok (some port))
          × (is_high_port port ≡ true)
    unfolding validated_high_port_url
    validated_high_port_url_ok v f s h =
        let (t, ht, k) = bind-ok (validated_url v f) _ h in
        let found = check_port-ok (url_port host_ok t) t f s k in
        (validated_url_ok v f t ht ∙ ap str found.0, found.1, rw found.0 at found.2, found.3)

    pub validated_high_port_url_again :
        (v : Value Float) (f : String) (s : String)
        → validated_high_port_url host_ok v f ≡ ok s
        → validated_high_port_url {Float = Float} host_ok (str s) f ≡ ok s
    validated_high_port_url_again v f s h = rw (validated_high_port_url_ok v f s h).0 at h
