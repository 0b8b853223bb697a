-- ===== src/Api/Http/Roundtrip.antt =====
-- A client's request, and the call that the server makes of it.
use smqtt.Prelude.{
  ℕ, ◌^◌, ◌<◌, ◌≡◌, refl, Bool, true, false, Option, none, some, List, [], ◌∷◌, Text, text, ◌==◌,
  text_eq, inl, inr, ℤ, pos, negsuc, ltb, arith, ap, ◌∙◌, ◌⊎◌,
}
use smqtt.State.{AppState, World}
use smqtt.Api.Extractors.{Headers}
use smqtt.Api.Router.{Call, dispatch}
use smqtt.Api.Http.{Request, Reply, handled}
use smqtt.Api.Http.Body
use smqtt.Api.Http.Routes.{found, routes, look_up, match_path, allows}
use smqtt.Api.Http.Serve.{serve, serve_found, respond_to, extract, json, path, query}
use smqtt.Api.Http.Encode.{request_of, IsSendable, IsI64, endpoint_of, params_of}

look_up-request_of :
    (h : Headers) (call : Call)
    → IsSendable call
    → look_up routes (request_of h call).method (request_of h call).path
      ≡ found (endpoint_of call) (params_of call)
unfolding look_up routes request_of match_path allows smqtt.Prelude.text_beq
look_up-request_of h (Call.register req) s = refl
look_up-request_of h (Call.challenge user_id) s = refl
look_up-request_of h (Call.verify req) s = refl
look_up-request_of h (Call.initiate req) s = refl
look_up-request_of h (Call.get_exchange []) s = absurd (cc s)
look_up-request_of h (Call.get_exchange (c ∷ id)) s = refl
look_up-request_of h (Call.respond [] key) s = absurd (cc s)
look_up-request_of h (Call.respond (c ∷ id) key) s = refl
look_up-request_of h (Call.create req) s = refl
look_up-request_of h Call.list s = refl
look_up-request_of h (Call.revoke []) s = absurd (cc s)
look_up-request_of h (Call.revoke (c ∷ id)) s = refl
look_up-request_of h (Call.create_registration_token req) s = refl
look_up-request_of h (Call.suspend_user [] reason) s = absurd (cc s)
look_up-request_of h (Call.suspend_user (c ∷ id) reason) s = refl
look_up-request_of h (Call.unsuspend_user []) s = absurd (cc s)
look_up-request_of h (Call.unsuspend_user (c ∷ id)) s = refl

i64-IsI64 :
    (default z : ℤ) → IsI64 z → Body.i64_or default (Body.given (smqtt.Api.Http.integer z)) ≡ some z
unfolding Body.i64_or
i64-IsI64 default (pos n) h = ground arith
i64-IsI64 default (negsuc n) h = ground arith

u64_fits :
    (default n : ℕ)
    → n < 2 ^ 64
    → Body.u64_or default (Body.given (smqtt.Api.Http.integer (pos n))) ≡ some n
unfolding Body.u64_or
u64_fits default n h = ground arith

extract-request_of :
    (h : Headers) (call : Call)
    → IsSendable call
    → extract (endpoint_of call) (params_of call) (request_of h call) ≡ inr call
unfolding extract json path query request_of Body.register_request Body.verify_request
    Body.initiate_request Body.respond_request Body.create_request Body.create_token_request
    Body.suspend_request Body.challenge_query Body.field Body.query_field Body.as_string
    Body.as_option Body.as_strings Body.◌>>=◌ smqtt.Prelude.text_beq
extract-request_of h (Call.register req) s = optional req.registration_token
  where
    optional :
        (t : Option Text)
        → extract
            (endpoint_of (Call.register (record req { registration_token = t })))
            []
            (request_of h (Call.register (record req { registration_token = t })))
          ≡ inr (Call.register (record req { registration_token = t }))
    optional none = refl
    optional (some t) = refl
extract-request_of h (Call.challenge user_id) s = refl
extract-request_of h (Call.verify req) s = refl
extract-request_of h (Call.initiate req) s = refl
extract-request_of h (Call.get_exchange id) s = refl
extract-request_of h (Call.respond id key) s = refl
extract-request_of h (Call.create req) s = refl
extract-request_of h Call.list s = refl
extract-request_of h (Call.revoke id) s = refl
extract-request_of h (Call.create_registration_token req) s =
    rw
      (
        u64_fits Body.default_expires_in req.expires_in s.0,
        i64-IsI64 Body.default_max_uses req.max_uses s.1,
      )
      refl
extract-request_of h (Call.suspend_user id none) s = refl
extract-request_of h (Call.suspend_user id (some reason)) s = refl
extract-request_of h (Call.unsuspend_user id) s = refl

headers-request_of : (h : Headers) (call : Call) → (request_of h call).headers ≡ h
unfolding request_of
headers-request_of h (Call.register req) = refl
headers-request_of h (Call.challenge user_id) = refl
headers-request_of h _ = refl

-- The request that a client makes for a call is answered by that call's handler, and has its effect:
-- if the ids in the path are not empty and the numbers fit into their types.
pub serve-request_of :
    (state : AppState) (headers : Headers) (call : Call) (w : World)
    → IsSendable call
    → serve state (request_of headers call) w
      ≡ (handled (dispatch state headers call w).0, (dispatch state headers call w).1)
unfolding serve serve_found respond_to
serve-request_of state headers call w s =
    rw
      (
        look_up-request_of headers call s,
        extract-request_of headers call s,
        headers-request_of headers call,
      )
      refl
