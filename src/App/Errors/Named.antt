-- ===== src/App/Errors/Named.antt =====
-- An error names its request, in its body and in its header.
use mac_llm_ops_lab.Prelude.{ℕ, String, ◌≡◌, refl, ap, ◌∙◌, false, Option, some, [], ◌∷◌, string_eq}
use mac_llm_ops_lab.Py.Str.{is_empty}
use mac_llm_ops_lab.Py.Dict.{get, get-put_self}
use mac_llm_ops_lab.Py.Value.{Value, str, dict, obj}
use mac_llm_ops_lab.App.Errors.{
  given_or, request_id_of, error_response, http_exception_handler, with_request_id,
}

-- The detail that the handlers raise.
abbrev raised : {Float : Type 0} → String → String → Value Float
raised code message = dict (obj (("code", str code) ∷ ("message", str message) ∷ []))

-- An exception that a handler raises is answered with its status, its code and its message; the
-- body and the header of the answer have the identifier that the middleware gave the request.
answered_lem :
    {Float : Type 0} (str_of : Value Float → String) (name id fresh code message : String)
    (status : ℕ)
    → ((s : String) → str_of (str s) ≡ s)
    → let r =
        with_request_id name id (
          http_exception_handler str_of (some name) (some id) fresh status (raised code message)) in
      (r.status_code ≡ status)
      × (r.code ≡ code)
      × (r.message ≡ message)
      × (r.request_id ≡ id)
      × (get name r.headers ≡ some id)
unfolding with_request_id http_exception_handler error_response get
answered_lem str_of name id fresh code message status same =
    (refl, same code, same message, refl, get-put_self name id ((name, id) ∷ []))

-- An identifier that the client sends is kept.
client_id_lem :
    (header : String → Option String) (name id fresh : String)
    → header name ≡ some id
    → is_empty id ≡ false
    → request_id_of header name fresh ≡ id
unfolding request_id_of
client_id_lem header name id fresh h e = ap (λ x. given_or x fresh) h ∙ rw e refl
