-- ===== src/Api/Http/Serve.antt =====
-- From a request to a reply: the route, the extractors in the order of the handler's arguments, and
-- the handler.
use smqtt.Prelude.{ℕ, Bool, true, false, Option, none, some, List, [], ◌∷◌, Text, ◌⊎◌, inl, inr}
use smqtt.Error.{Result, ok, err}
use smqtt.State.{AppState, World}
use smqtt.Api.Extractors.{Headers, auth_user}
use smqtt.Api.Router.{Call, dispatch}
use smqtt.Api.Http.{Request, Payload, Fields, rejected, object, Reply, refused, handled}
use smqtt.Api.Http.Body.{
  register_request, verify_request, initiate_request, respond_request, create_request,
  create_token_request, suspend_request, challenge_query,
}
use smqtt.Api.Http.Routes.{Endpoint, Lookup, no_path, no_method, found, routes, look_up}

abbrev pub from_fields : {A : Type 0} → (A → Call) → Option A → ℕ ⊎ Call
from_fields f none = inl 422
from_fields f (some a) = inr (f a)

-- `Json<A>`: the status of axum's rejection, or the call
unfoldable pub json : {A : Type 0} → (Fields → Option A) → (A → Call) → Payload → ℕ ⊎ Call
json decode f (rejected status) = inl status
json decode f (object fs) = from_fields f (decode fs)

-- `Query<ChallengeQuery>`
unfoldable pub query : List (Text × Text) → ℕ ⊎ Call
query qs = elim (challenge_query qs) [
  | none ↦ inl 400
  | some user_id ↦ inr (Call.challenge user_id)
]

-- The first parameter of the path; every route that needs one has it.
unfoldable pub path : (Text → ℕ ⊎ Call) → List Text → ℕ ⊎ Call
path f [] = inl 500
path f (p ∷ ps) = f p

-- What the handler's last extractors make of the request.
unfoldable pub extract : Endpoint → List Text → Request → ℕ ⊎ Call
extract Endpoint.register ps req = json register_request Call.register req.body
extract Endpoint.challenge ps req = query req.query
extract Endpoint.verify ps req = json verify_request Call.verify req.body
extract Endpoint.initiate ps req = json initiate_request Call.initiate req.body
extract Endpoint.get_exchange ps req = path (λ id. inr (Call.get_exchange id)) ps
extract Endpoint.respond ps req = path (λ id. json respond_request (Call.respond id) req.body) ps
extract Endpoint.create ps req = json create_request Call.create req.body
extract Endpoint.list ps req = inr Call.list
extract Endpoint.revoke ps req = path (λ id. inr (Call.revoke id)) ps
extract Endpoint.create_registration_token ps req =
    json create_token_request Call.create_registration_token req.body
extract Endpoint.suspend_user ps req =
    path (λ id. json suspend_request (Call.suspend_user id) req.body) ps
extract Endpoint.unsuspend_user ps req = path (λ id. inr (Call.unsuspend_user id)) ps

-- The handlers that take `AuthUser`, which is extracted first.
unfoldable pub takes_auth_user : Endpoint → Bool
takes_auth_user Endpoint.initiate = true
takes_auth_user Endpoint.get_exchange = true
takes_auth_user Endpoint.respond = true
takes_auth_user Endpoint.create = true
takes_auth_user Endpoint.list = true
takes_auth_user Endpoint.revoke = true
takes_auth_user _ = false

abbrev pub first_error : ℕ → Result Text → Reply
first_error status (ok user_id) = refused status
first_error status (err e) = handled (err e)

-- A request that axum rejects: a missing caller is reported before the body is.
unfoldable pub reject : AppState → Headers → Bool → ℕ → World → Reply × World
reject state headers true status w =
    let (r, w') = auth_user state headers w in (first_error status r, w')
reject state headers false status w = (refused status, w)

unfoldable pub respond_to : AppState → Request → Endpoint → ℕ ⊎ Call → World → Reply × World
unfolding reject
respond_to state req endpoint (inl status) w =
    reject state req.headers (takes_auth_user endpoint) status w
respond_to state req endpoint (inr call) w =
    let (r, w') = dispatch state req.headers call w in (handled r, w')

unfoldable pub serve_found : AppState → Request → Lookup → World → Reply × World
unfolding respond_to
serve_found state req no_path w = (refused 404, w)
serve_found state req no_method w = (refused 405, w)
serve_found state req (found endpoint ps) w =
    respond_to state req endpoint (extract endpoint ps req) w

unfoldable pub serve : AppState → Request → World → Reply × World
unfolding serve_found
serve state req w = serve_found state req (look_up routes req.method req.path) w
