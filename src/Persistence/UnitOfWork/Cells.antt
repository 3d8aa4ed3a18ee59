-- ===== src/Persistence/UnitOfWork/Cells.antt =====
-- Reading a cell of the store after a write and after a new cell.
use mac_llm_ops_lab.Prelude.{ℕ, zero, suc, ◌<◌, ◌≡◌, ◌≢◌, refl, ap, [], ◌∷◌, ◌++◌, arith, length}
use mac_llm_ops_lab.Persistence.Repositories.{
  PersistenceState, Write, model_write, node_write, run_write, benchmark_write, artifact_write,
}
use mac_llm_ops_lab.Persistence.UnitOfWork.{Store, at, cell, set_cell, view, address}

module _ {Float : Type 0} where
  pub cell-append :
      (a : ℕ) (h : Store Float) (s : PersistenceState Float)
      → a < length h
      → cell a (h ++ s ∷ []) ≡ cell a h
  unfolding cell
  cell-append a [] s l = absurd (omega arith)
  cell-append zero (t ∷ h) s l = refl
  cell-append (suc a) (t ∷ h) s l = cell-append a h s (omega arith)

  pub cell-new : (h : Store Float) (s : PersistenceState Float) → cell (length h) (h ++ s ∷ []) ≡ s
  unfolding cell
  cell-new [] s = refl
  cell-new (t ∷ h) s = cell-new h s

  pub length-set_cell :
      (a : ℕ) (f : PersistenceState Float → PersistenceState Float) (h : Store Float)
      → length (set_cell a f h) ≡ length h
  unfolding set_cell
  length-set_cell a f [] = refl
  length-set_cell zero f (s ∷ h) = refl
  length-set_cell (suc a) f (s ∷ h) = omega (arith, length-set_cell a f h)

  pub cell-set_cell :
      (a : ℕ) (f : PersistenceState Float → PersistenceState Float) (h : Store Float)
      → a < length h
      → cell a (set_cell a f h) ≡ f (cell a h)
  unfolding cell set_cell
  cell-set_cell a f [] l = absurd (omega arith)
  cell-set_cell zero f (s ∷ h) l = refl
  cell-set_cell (suc a) f (s ∷ h) l = cell-set_cell a f h (omega arith)

  pub cell-set_other :
      (a b : ℕ) (f : PersistenceState Float → PersistenceState Float) (h : Store Float)
      → a ≢ b
      → cell b (set_cell a f h) ≡ cell b h
  unfolding cell set_cell
  cell-set_other a b f [] n = refl
  cell-set_other zero zero f (s ∷ h) n = absurd (n refl)
  cell-set_other zero (suc b) f (s ∷ h) n = refl
  cell-set_other (suc a) zero f (s ∷ h) n = refl
  cell-set_other (suc a) (suc b) f (s ∷ h) n = cell-set_other a b f h λ e. n (ap suc e)

  pub set_cell-same : (a : ℕ) (h : Store Float) → set_cell a (λ s. s) h ≡ h
  unfolding set_cell
  set_cell-same a [] = refl
  set_cell-same zero (s ∷ h) = refl
  set_cell-same (suc a) (s ∷ h) = ap (λ g. s ∷ g) (set_cell-same a h)

  pub set_cell-set_cell :
      (a : ℕ) (f g : PersistenceState Float → PersistenceState Float) (h : Store Float)
      → set_cell a g (set_cell a f h) ≡ set_cell a (λ s. g (f s)) h
  unfolding set_cell
  set_cell-set_cell a f g [] = refl
  set_cell-set_cell zero f g (s ∷ h) = refl
  set_cell-set_cell (suc a) f g (s ∷ h) = ap (λ i. s ∷ i) (set_cell-set_cell a f g h)

  pub view-at : (a : ℕ) (h : Store Float) → view h (at a) ≡ cell a h
  unfolding view
  view-at a h = refl

  pub address-at : (w : Write Float) (a : ℕ) → address w (at a) ≡ a
  unfolding address
  address-at (model_write entry) a = refl
  address-at (node_write entry) a = refl
  address-at (run_write run) a = refl
  address-at (benchmark_write result) a = refl
  address-at (artifact_write pointer) a = refl
