-- ===== src/Contracts/Prometheus/Parts.antt =====
-- The parts of a line: what `span` and `lstrip` take from it, and what may follow a name.
use Prim.Native.Char.{code}
use text.Mathlib.TextEquality.{Char-path}
use mac_llm_ops_lab.Prelude.{
  ℕ, String, ◌≡◌, refl, ap, ◌⊎◌, inl, inr, Bool, true, false, not, ◌&&◌, Option, none, some, eqb,
  eqb_iff, string_eq, arith, Bool-cases,
}
use mac_llm_ops_lab.Py.Str.{◌<>◌, is_space, is_empty, lstrip, starts_with_char}
use mac_llm_ops_lab.Contracts.Prometheus.{is_name_start, is_name_char, span, starts_in, tail_str}

abbrev pub all_chars : (ℕ → Bool) → String → Bool
all_chars p String.[] = true
all_chars p (String.◌∷◌ c s) = p (code c) && all_chars p s

pub span_lem :
    (p : ℕ → Bool) (s : String)
    → (s ≡ (span p s).0 <> (span p s).1)
      × (all_chars p (span p s).0 ≡ true)
      × (starts_in p (span p s).1 ≡ false)
unfolding span
span_lem p String.[] = (refl, refl, refl)
span_lem p (String.◌∷◌ c s) =
    let ih = span_lem p s in
    elim (Bool-cases (p (code c))) [
      | inl fits ↦ rw fits (ap (λ t. String.◌∷◌ c t) ih.0, rw fits ih.1, ih.2)
      | inr other ↦ rw other (refl, refl, other)
    ]

pub span-append :
    (p : ℕ → Bool) (a b : String)
    → all_chars p a ≡ true
    → starts_in p b ≡ false
    → span p (a <> b) ≡ (a, b)
unfolding span
span-append p String.[] String.[] h k = refl
span-append p String.[] (String.◌∷◌ c b) h k = rw k
span-append p (String.◌∷◌ c a) b h k = ground (arith, span-append p a b)

space-not-name : (c : ℕ) → is_space c ≡ true → is_name_char c ≡ false
unfolding is_space
space-not-name c h = ground arith

space-not-brace : (c : ℕ) → is_space c ≡ true → eqb c b'{' ≡ false
unfolding is_space
space-not-brace c h = ground arith

pub lstrip-append :
    (gap v : String)
    → all_chars is_space gap ≡ true
    → starts_in is_space v ≡ false
    → lstrip (gap <> v) ≡ v
unfolding lstrip
lstrip-append String.[] String.[] h k = refl
lstrip-append String.[] (String.◌∷◌ c v) h k = rw k
lstrip-append (String.◌∷◌ c gap) v h k = ground (arith, lstrip-append gap v)

pub lstrip_lem :
    (s : String)
    → (gap : String) × (s ≡ gap <> lstrip s)
      × (all_chars is_space gap ≡ true)
      × (starts_in is_space (lstrip s) ≡ false)
      × (is_empty gap ≡ not (starts_in is_space s))
unfolding lstrip
lstrip_lem String.[] = (String.[], refl, refl, refl, refl)
lstrip_lem (String.◌∷◌ c s) = elim (Bool-cases (is_space (code c))) [
  | inl space ↦
      let (gap, e, h, k, n) = lstrip_lem s in
      rw space (String.◌∷◌ c gap, ap (λ t. String.◌∷◌ c t) e, rw space h, k, refl)
  | inr other ↦ rw other (String.[], refl, refl, other, refl)
]

-- White space, at least one character of it.
abbrev pub IsGap : String → Type 0
IsGap gap = (all_chars is_space gap ≡ true) × (is_empty gap ≡ false)

-- The part between the name and the white space: nothing, or the labels in braces.
abbrev pub IsBraced : String → String → Type 0
IsBraced labels part =
    ((part ≡ "") × (labels ≡ ""))
    ⊎ ((part ≡ "{" <> labels <> "}") × (all_chars (λ c. not (eqb c b'}')) labels ≡ true))

pub both : (a b : Bool) → a && b ≡ true → (a ≡ true) × (b ≡ true)
both a b h = (ground arith, ground arith)

pub opens_brace : (s : String) → starts_with_char b'{' s ≡ true → s ≡ "{" <> tail_str s
opens_brace String.[] h = cc
opens_brace (String.◌∷◌ c s) h =
    ap (λ x. String.◌∷◌ x s) (Char-path c "{" ((eqb_iff (code c) b'{').0 h))

pub closes_brace : (s : String) → starts_with_char b'}' s ≡ true → s ≡ "}" <> tail_str s
closes_brace String.[] h = cc
closes_brace (String.◌∷◌ c s) h =
    ap (λ x. String.◌∷◌ x s) (Char-path c "}" ((eqb_iff (code c) b'}').0 h))

pub found_some :
    {X Y : Type 0} (o : Option X) (f : X → Y) (y : Y)
    → (elim o [ none ↦ none | some x ↦ some (f x) ]) ≡ some y
    → (x : X) × (o ≡ some x) × (f x ≡ y)
found_some none f y h = cc
found_some (some x) f y h = (x, refl, cc)

-- What follows a name or the labels begins with white space, so it is no name and no brace.
pub gap_starts : (gap v : String) → IsGap gap → starts_in is_space (gap <> v) ≡ true
gap_starts String.[] v (a, b) = cc
gap_starts (String.◌∷◌ c gap) v (a, b) = ground arith

pub starts_space :
    (s : String)
    → starts_in is_space s ≡ true
    → (starts_in is_name_char s ≡ false) × (starts_with_char b'{' s ≡ false)
starts_space String.[] h = (refl, refl)
starts_space (String.◌∷◌ c s) h = (space-not-name (code c) h, space-not-brace (code c) h)

pub name_starts :
    (line : String)
    → starts_in is_name_start line ≡ true
    → starts_in is_name_start (span is_name_char line).0 ≡ true
unfolding span
name_starts String.[] h = cc
name_starts (String.◌∷◌ c s) h = rw h h

pub starts_append :
    (n rest : String)
    → starts_in is_name_start n ≡ true
    → starts_in is_name_start (n <> rest) ≡ true
starts_append String.[] rest h = cc
starts_append (String.◌∷◌ c n) rest h = h

pub <>-assoc : (a b c : String) → (a <> b) <> c ≡ a <> b <> c
<>-assoc String.[] b c = refl
<>-assoc (String.◌∷◌ x a) b c = ap (λ t. String.◌∷◌ x t) (<>-assoc a b c)
