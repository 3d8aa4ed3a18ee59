-- ===== src/App/Request/Prompt.antt =====
-- The prompt of a chat request.
use mac_llm_ops_lab.Prelude.{
  ◌≡◌, refl, false, none, some, List, [], ◌∷◌, ◌++◌, any, ◌==◌, string_eq, arith,
}
use mac_llm_ops_lab.Py.Result.{ok}
use mac_llm_ops_lab.App.Request.{ChatMessage, last_user, last_user_message}

abbrev NoUser : List ChatMessage → Type 0
NoUser ms = any (λ n. n.role == "user") ms ≡ false

no_last_user : (ms : List ChatMessage) → NoUser ms → last_user ms ≡ none
unfolding last_user
no_last_user [] h = refl
no_last_user (m ∷ ms) h =
    let other : (m.role == "user") ≡ false = ground arith in
    rw (no_last_user ms (ground arith), other) refl

last_user-append :
    (before after : List ChatMessage) (m : ChatMessage)
    → m.role ≡ "user"
    → NoUser after
    → last_user (before ++ m ∷ after) ≡ some m.content
unfolding last_user
last_user-append [] after m r h = rw (no_last_user after h, r) refl
last_user-append (b ∷ before) after m r h = rw (last_user-append before after m r h) refl

-- The prompt is the content of the last message of a user, whatever stands before it, and whatever
-- messages of other roles stand behind it.
pub last_user_message-append :
    (before after : List ChatMessage) (m : ChatMessage)
    → m.role ≡ "user"
    → any (λ n. n.role == "user") after ≡ false
    → last_user_message (before ++ m ∷ after) ≡ ok m.content
unfolding last_user_message
last_user_message-append before after m r h =
    rw (last_user-append before after m r h, last_user_message) refl
