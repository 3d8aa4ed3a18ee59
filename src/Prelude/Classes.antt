-- ===== src/Prelude/Classes.antt =====
-- Equality tests as an interface: `==` on keys of dictionaries and members of lists.
use Prim.Native.Nat.{ℕ}
use Prim.Native.String.{String}
use mathlib.Core.Path.{◌≡◌, refl}
use mathlib.Core.Logic.{◌↔◌}
use mathlib.Core.Bool.{Bool, true, false, ◌&&◌, ◌||◌}
use mathlib.Core.List.{List, [], ◌∷◌, ◌++◌}
use native.Mathlib.Omega.{arith}
use text.Mathlib.Text.{◌==◌ as str_eq}
use text.Mathlib.TextEquality.{eq_iff}
use mac_llm_ops_lab.Prelude.Tests.{eqb, eqb_iff, if◌then◌else◌}

-- A test of a type, and that it decides equality.
pub record Eq {ℓ} (K : Type ℓ) : Type ℓ where
  pub beq : K → K → Bool
  pub beq_iff : (x y : K) → (beq x y ≡ true) ↔ (x ≡ y)

instance abbrev pub string_eq : Eq String
string_eq = record { beq = str_eq; beq_iff = eq_iff }

instance abbrev pub nat_eq : Eq ℕ
nat_eq = record { beq = eqb; beq_iff = eqb_iff }

infix 50 ◌==◌
abbrev pub ◌==◌ {ℓ} : {K : Type ℓ} ⦃e : Eq K⦄ → K → K → Bool
◌==◌ ⦃e⦄ = e.beq

module _ {ℓ κ} {A : Type ℓ} {B : Type κ} ⦃e : Eq A⦄ ⦃f : Eq B⦄ where
  pub pair_beq_iff : (p q : A × B) → ((p.0 == q.0 && p.1 == q.1) ≡ true) ↔ (p ≡ q)
  pair_beq_iff (a, b) (c, d) =
      (ground (arith, e.beq_iff a c, f.beq_iff b d), ground (arith, e.beq_iff a c, f.beq_iff b d))

  instance abbrev pub pair_eq : Eq (A × B)
  pair_eq = record { beq = λ p q. p.0 == q.0 && p.1 == q.1; beq_iff = pair_beq_iff }

module _ {ℓ κ μ} {A : Type ℓ} {B : Type κ} {C : Type μ} ⦃e : Eq A⦄ ⦃f : Eq B⦄ ⦃g : Eq C⦄ where
  pub triple_beq_iff :
      (p q : A × B × C) → ((p.0 == q.0 && p.1 == q.1 && p.2 == q.2) ≡ true) ↔ (p ≡ q)
  triple_beq_iff (a, b, c) (a', b', c') = (
    ground (arith, e.beq_iff a a', f.beq_iff b b', g.beq_iff c c'),
    ground (arith, e.beq_iff a a', f.beq_iff b b', g.beq_iff c c'),
  )

  instance abbrev pub triple_eq : Eq (A × B × C)
  triple_eq = record {
    beq = λ p q. p.0 == q.0 && p.1 == q.1 && p.2 == q.2;
    beq_iff = triple_beq_iff;
  }

module _ {ℓ} {A : Type ℓ} ⦃e : Eq A⦄ where
  pub ==_refl : (a : A) → (a == a) ≡ true
  ==_refl a = (e.beq_iff a a).1 refl

  -- `a in xs`
  abbrev pub elem : A → List A → Bool
  elem a [] = false
  elem a (x ∷ xs) = a == x || elem a xs

  -- `xs.add(a)`, for a set kept as the list of its members
  abbrev pub add_elem : A → List A → List A
  add_elem a xs = if elem a xs then xs else xs ++ a ∷ []

  pub elem-append : (a : A) (xs ys : List A) → elem a (xs ++ ys) ≡ (elem a xs || elem a ys)
  elem-append a [] ys = refl
  elem-append a (x ∷ xs) ys = ground (arith, elem-append a xs ys)
