-- ===== src/Batching/Lifecycle.antt =====
-- When the backend is ready.
use mac_llm_ops_lab.Prelude.{◌≡◌, refl, ap, ◌∙◌, Bool, true, false, List, [], ◌∷◌, arith}
use mac_llm_ops_lab.Batching.{
  FakeBatchedBackend, load, close, ready, generate_many, generate, stream, Call, load_call,
  close_call, generate_many_call, generate_call, stream_call, step, run, GenerationRequest,
}

-- What the last call of `load` or `close` leaves, or `before` where there is none.
abbrev pub last_lifecycle_call : Bool → List Call → Bool
last_lifecycle_call before [] = before
last_lifecycle_call before (load_call ∷ cs) = last_lifecycle_call true cs
last_lifecycle_call before (close_call ∷ cs) = last_lifecycle_call false cs
last_lifecycle_call before (_ ∷ cs) = last_lifecycle_call before cs

abbrev SameLife : FakeBatchedBackend → FakeBatchedBackend → Type 0
SameLife b c = (c.loaded ≡ b.loaded) × (c.closed ≡ b.closed)

generate_many-SameLife :
    (rs : List GenerationRequest) (b : FakeBatchedBackend) → SameLife b (generate_many rs b).1
unfolding generate_many
generate_many-SameLife rs b = (ground arith, ground arith)

ready-SameLife : (b c : FakeBatchedBackend) → SameLife b c → ready c ≡ ready b
unfolding ready
ready-SameLife b c h = ground arith

-- The backend is ready exactly if `load` was called and no `close` came after it; requests do not
-- change that, whether they succeed or raise.
pub ready-run :
    (cs : List Call) (b : FakeBatchedBackend) → ready (run b cs) ≡ last_lifecycle_call (ready b) cs
unfolding run step load close generate stream
ready-run [] b = refl
ready-run (load_call ∷ cs) b =
    ready-run cs _ ∙ ap (λ r. last_lifecycle_call r cs) (unfold ready in refl)
ready-run (close_call ∷ cs) b =
    ready-run cs _ ∙ ap (λ r. last_lifecycle_call r cs) (unfold ready in ground arith)
ready-run (generate_many_call rs ∷ cs) b =
    ready-run cs _
    ∙ ap (λ r. last_lifecycle_call r cs) (ready-SameLife b _ (generate_many-SameLife rs b))
ready-run (generate_call prompt model ∷ cs) b =
    ready-run cs _
    ∙ ap (λ r. last_lifecycle_call r cs) (ready-SameLife b _ (generate_many-SameLife _ b))
ready-run (stream_call prompt model ∷ cs) b =
    ready-run cs _
    ∙ ap (λ r. last_lifecycle_call r cs) (ready-SameLife b _ (generate_many-SameLife _ b))
