-- ===== src/Persistence/Sql/Repositories/Stored.antt =====
-- Entries in rows, and back from a database.
use mac_llm_ops_lab.Prelude.{
  ℤ, pos, ◌+ℤ◌, +ℤ_cancel, ◌≡◌, refl, ap, ◌⊎◌, inl, inr, Option, none, some,
}
use mac_llm_ops_lab.Persistence.Domain.{
  DateTime, naive, aware, ModelCatalogEntry, NodeInventoryEntry, InferenceRun, BenchmarkResult,
  ArtifactPointer,
}
use mac_llm_ops_lab.Persistence.Sql.Rows.{
  as_utc, as_utc_or_none, ModelCatalogRecord, NodeInventoryRecord, InferenceRunRecord,
  BenchmarkResultRecord, ArtifactPointerRecord, model_from_domain, model_to_domain,
  node_from_domain, node_to_domain, run_from_domain, run_to_domain, result_from_domain,
  result_to_domain, pointer_from_domain, pointer_to_domain,
}

-- The time has the zone UTC.
abbrev pub IsUtc : DateTime → Type 0
IsUtc t = (clock : ℤ) × (t ≡ aware clock (pos 0))

abbrev pub IsUtcOrNone : Option DateTime → Type 0
IsUtcOrNone none = Unit
IsUtcOrNone (some t) = IsUtc t

-- What a database gives back of the columns: all as they were, but for the times, which go through
-- `column`.
module _ (column : DateTime → DateTime) where
  -- A database keeps a UTC time in one of two ways: it forgets the zone, as SQLite does, or it keeps
  -- the moment and shows it in some zone, as PostgreSQL does.
  abbrev pub KeepsUtc : ℤ → Type 0
  KeepsUtc clock =
      (column (aware clock (pos 0)) ≡ naive clock)
      ⊎ ((offset : ℤ) × (column (aware clock (pos 0)) ≡ aware (clock +ℤ offset) offset))

  abbrev pub column_or_none : Option DateTime → Option DateTime
  column_or_none none = none
  column_or_none (some t) = some (column t)

  abbrev pub reload_model : ModelCatalogRecord → ModelCatalogRecord
  reload_model r = record r { created_at = column r.created_at }

  abbrev pub reload_node : NodeInventoryRecord → NodeInventoryRecord
  reload_node r = record r { updated_at = column r.updated_at }

  abbrev pub reload_run : InferenceRunRecord → InferenceRunRecord
  reload_run r = record r {
    started_at = column r.started_at;
    completed_at = column_or_none r.completed_at;
  }

  abbrev pub reload_result :
      {Float : Type 0} → BenchmarkResultRecord Float → BenchmarkResultRecord Float
  reload_result r = record r { created_at = column r.created_at }

  abbrev pub reload_pointer : ArtifactPointerRecord → ArtifactPointerRecord
  reload_pointer r = record r { created_at = column r.created_at }

  module _ (keeps : (clock : ℤ) → KeepsUtc clock) where
    as_utc-column : (t : DateTime) → IsUtc t → as_utc (column t) ≡ t
    unfolding as_utc
    as_utc-column t (clock, e) = elim (keeps clock) [
      | inl forgets ↦ rw (e, forgets) refl
      | inr (offset, shows) ↦ rw (e, shows) (ap (λ c. aware c (pos 0)) (+ℤ_cancel clock offset))
    ]

    as_utc-column_or_none :
        (o : Option DateTime) → IsUtcOrNone o → as_utc_or_none (column_or_none o) ≡ o
    unfolding as_utc_or_none
    as_utc-column_or_none none h = refl
    as_utc-column_or_none (some t) h = ap some (as_utc-column t h)

    -- Where a database keeps a UTC time, either without its zone or as the same moment in some
    -- zone, and all other columns as they are: an entry of each of the five tables whose times are
    -- in UTC, written to a row, stored, and read from the row again, is the same entry.
    pub to_domain-from_domain :
        {Float : Type 0} (entry : ModelCatalogEntry) (node : NodeInventoryEntry)
        (run : InferenceRun) (result : BenchmarkResult Float) (pointer : ArtifactPointer)
        → IsUtc entry.created_at
        → IsUtc node.updated_at
        → IsUtc run.started_at
        → IsUtcOrNone run.completed_at
        → IsUtc result.created_at
        → IsUtc pointer.created_at
        → (model_to_domain (reload_model (model_from_domain entry)) ≡ entry)
          × (node_to_domain (reload_node (node_from_domain node)) ≡ node)
          × (run_to_domain (reload_run (run_from_domain run)) ≡ run)
          × (result_to_domain (reload_result (result_from_domain result)) ≡ result)
          × (pointer_to_domain (reload_pointer (pointer_from_domain pointer)) ≡ pointer)
    unfolding model_to_domain model_from_domain node_to_domain node_from_domain run_to_domain
        run_from_domain result_to_domain result_from_domain pointer_to_domain pointer_from_domain
    to_domain-from_domain entry node run result pointer m n s c r p = (
      ap (λ t. record entry { created_at = t }) (as_utc-column entry.created_at m),
      ap (λ t. record node { updated_at = t }) (as_utc-column node.updated_at n),
      λ i. record run {
        started_at = as_utc-column run.started_at s i;
        completed_at = as_utc-column_or_none run.completed_at c i;
      },
      ap (λ t. record result { created_at = t }) (as_utc-column result.created_at r),
      ap (λ t. record pointer { created_at = t }) (as_utc-column pointer.created_at p),
    )
