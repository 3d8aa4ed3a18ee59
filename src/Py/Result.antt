-- ===== src/Py/Result.antt =====
-- Exceptions as values. Messages are kept where the program chooses them.
use mac_llm_ops_lab.Prelude.{if◌then◌else◌, ◌≡◌, refl, ℕ, String, Bool, true, false, List, [], ◌∷◌}

pub data Error : Type 0 where
  value_error runtime_error : String → Error
  key_error index_error attribute_error type_error httpx_error zero_division_error : Error
  -- what the database library raises, such as an `IntegrityError`
  sqlalchemy_error : Error
  -- `HTTPException(status_code, detail={"code", "message"})`
  http_exception : ℕ → String → String → Error

pub data Result {ℓ} (A : Type ℓ) : Type ℓ where
  ok : A → Result A
  err : Error → Result A

abbrev pub is_ok {ℓ} : {A : Type ℓ} → Result A → Bool
is_ok (ok _) = true
is_ok (err _) = false

-- `if bad: raise e`
abbrev pub raise_if : Bool → Error → Result (Unit {0})
raise_if true e = err e
raise_if false e = ok tt

-- A statement, and what follows it unless it raised.
infixl 5 ◌>>=◌ ◌>>◌
abbrev pub ◌>>=◌ {ℓ μ} : {X : Type ℓ} {Y : Type μ} → Result X → (X → Result Y) → Result Y
err e >>= k = err e
ok x >>= k = k x

abbrev pub ◌>>◌ {ℓ} : {B : Type ℓ} → Result (Unit {0}) → Result B → Result B
checks >> rest = checks >>= λ _. rest

-- `[f(x) for x in xs]`, where `f` may raise
abbrev pub map_result {ℓ κ} : {A : Type ℓ} {B : Type κ} → (A → Result B) → List A → Result (List B)
map_result f [] = ok []
map_result f (x ∷ xs) = f x >>= λ y. map_result f xs >>= λ ys. ok (y ∷ ys)

-- A chain that returned: what its first step returned, and the rest on that.
pub bind-ok {ℓ μ} :
    {X : Type ℓ} {Y : Type μ} {y : Y} (m : Result X) (k : X → Result Y)
    → (m >>= k) ≡ ok y
    → (x : X) × (m ≡ ok x) × (k x ≡ ok y)
bind-ok (err e) k h = cc
bind-ok (ok x) k h = (x, refl, h)

pub ok_inj {ℓ} : {A : Type ℓ} {a b : A} → ok a ≡ ok b → a ≡ b
ok_inj h = cc

-- A guard that raises, passed.
pub guard-ok {ℓ} :
    {A : Type ℓ} {a b : A} (bad : Bool) (e : Error)
    → (if bad then err e else ok a) ≡ ok b
    → (bad ≡ false) × (a ≡ b)
guard-ok true e h = cc
guard-ok false e h = (refl, ok_inj h)

pub test-ok {ℓ} :
    {A : Type ℓ} {a b : A} (good : Bool) (e : Error)
    → (if good then ok a else err e) ≡ ok b
    → (good ≡ true) × (a ≡ b)
test-ok true e h = (refl, ok_inj h)
test-ok false e h = cc

pub raise_if-ok {ℓ} :
    {A : Type ℓ} {a : A} (bad : Bool) (e : Error) (m : Result A)
    → (raise_if bad e >> m) ≡ ok a
    → (bad ≡ false) × (m ≡ ok a)
raise_if-ok true e m h = cc
raise_if-ok false e m h = (refl, h)
