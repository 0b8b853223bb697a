-- ===== src/Api/Http/Outcome.antt =====
-- What becomes of a request without a valid token.
use smqtt.Prelude.{
  ℕ, ◌≡◌, refl, ap, ◌∙◌, Bool, true, false, List, Text, ◌⊎◌, inl, inr, arith, subst, [], ◌∷◌,
  Option, none, some,
}
use smqtt.Error.{Error, err, unauthorized}
use smqtt.State.{AppState, World}
use smqtt.Exec.{◌>>=◌, unix_now}
use smqtt.Crypto.{verify}
use smqtt.Api.Extractors.{auth_user}
use smqtt.Api.Router.{Call}
use smqtt.Api.Router.Guards.{is_personal, caller_refused, auth_user_refuses}
use smqtt.Api.Http.{Request, Payload, Fields, rejected, object, handled}
use smqtt.Api.Http.Routes.{Endpoint, found, routes, look_up}
use smqtt.Api.Http.Serve.{
  json, path, from_fields, first_error, reject, respond_to, extract, serve_found, serve,
  takes_auth_user,
}

-- The two worlds differ at most in what was asked of the surroundings.
pub record SameState (w v : World) : Type 0 where
  pub db : v.db ≡ w.db
  pub challenges : v.challenges ≡ w.challenges
  pub sessions : v.sessions ≡ w.sessions
  pub broker : v.broker ≡ w.broker

module _ (state : AppState) (req : Request) (w : World) where
  auth_user-SameState : SameState w (auth_user state req.headers w).1
  unfolding auth_user ◌>>=◌ verify unix_now
  auth_user-SameState = record {
    db = ground arith;
    challenges = ground arith;
    sessions = ground arith;
    broker = ground arith;
  }

  reject-SameState : (b : Bool) (status : ℕ) → SameState w (reject state req.headers b status w).1
  unfolding reject
  reject-SameState true status = auth_user-SameState
  reject-SameState false status = record {
    db = refl;
    challenges = refl;
    sessions = refl;
    broker = refl;
  }

module _ (req : Request) where
  inr_personal :
      (c call : Call)
      → is_personal c ≡ true
      → ◌≡◌ {A = ℕ ⊎ Call} (inr c) (inr call)
      → is_personal call ≡ true
  inr_personal c call p h = subst (λ c. is_personal c ≡ true) (cc h) p

  json_personal :
      {A : Type 0} (decode : Fields → Option A) (f : A → Call) (body : Payload) (call : Call)
      → ((a : A) → is_personal (f a) ≡ true)
      → json decode f body ≡ inr call
      → is_personal call ≡ true
  unfolding json
  json_personal decode f (rejected status) call p h = absurd (cc h)
  json_personal {A = A} decode f (object fs) call p h = by_fields (decode fs) h
    where
      by_fields : (o : Option A) → from_fields f o ≡ inr call → is_personal call ≡ true
      by_fields none e = absurd (cc e)
      by_fields (some a) e = inr_personal (f a) call (p a) e

  extract_personal :
      (endpoint : Endpoint) (ps : List Text) (call : Call)
      → takes_auth_user endpoint ≡ true
      → extract endpoint ps req ≡ inr call
      → is_personal call ≡ true
  unfolding extract takes_auth_user path
  extract_personal Endpoint.initiate ps call t h = json_personal _ _ req.body call (λ a. refl) h
  extract_personal Endpoint.get_exchange (p ∷ ps) call t h =
      inr_personal (Call.get_exchange p) call refl h
  extract_personal Endpoint.get_exchange [] call t h = absurd (cc h)
  extract_personal Endpoint.respond (p ∷ ps) call t h =
      json_personal _ _ req.body call (λ a. refl) h
  extract_personal Endpoint.respond [] call t h = absurd (cc h)
  extract_personal Endpoint.create ps call t h = json_personal _ _ req.body call (λ a. refl) h
  extract_personal Endpoint.list ps call t h = inr_personal Call.list call refl h
  extract_personal Endpoint.revoke (p ∷ ps) call t h = inr_personal (Call.revoke p) call refl h
  extract_personal Endpoint.revoke [] call t h = absurd (cc h)
  extract_personal _ ps call t h = absurd (cc t)

-- The replies to a request without a valid token.
module _ (state : AppState) (req : Request) (w : World) where
  reject_unauthorized :
      (status : ℕ) (e : Error)
      → (auth_user state req.headers w).0 ≡ err e
      → (reject state req.headers true status w).0 ≡ handled (err e)
  unfolding reject
  reject_unauthorized status e h = ap (first_error status) h

  respond_to_unauthorized :
      (endpoint : Endpoint) (ps : List Text) (e : Error) (c : ℕ ⊎ Call)
      → takes_auth_user endpoint ≡ true
      → (auth_user state req.headers w).0 ≡ err e
      → extract endpoint ps req ≡ c
      → ((respond_to state req endpoint c w).0 ≡ handled (err unauthorized))
        × ((respond_to state req endpoint c w).1.db ≡ w.db)
        × ((respond_to state req endpoint c w).1.broker ≡ w.broker)
  unfolding respond_to
  respond_to_unauthorized endpoint ps e (inl status) t h x = rw t (
    reject_unauthorized status e h
        ∙ ap (λ e. handled (err e)) (auth_user_refuses state req.headers w e h).0,
    (reject-SameState state req w true status).db,
    (reject-SameState state req w true status).broker,
  )
  respond_to_unauthorized endpoint ps e (inr call) t h x =
      let (reply, db, broker) =
        caller_refused state req.headers w call e (extract_personal req endpoint ps call t x) h in
      (ap handled reply, db, broker)

  -- On the routes of the key exchange and of the relationships, a request whose token is not valid now is
  -- answered as unauthorized, whatever its body is; the database is left as it was, and the broker is
  -- not called.
  pub serve_unauthorized :
      (endpoint : Endpoint) (ps : List Text) (e : Error)
      → look_up routes req.method req.path ≡ found endpoint ps
      → takes_auth_user endpoint ≡ true
      → (auth_user state req.headers w).0 ≡ err e
      → ((serve state req w).0 ≡ handled (err unauthorized))
        × ((serve state req w).1.db ≡ w.db)
        × ((serve state req w).1.broker ≡ w.broker)
  unfolding serve serve_found
  serve_unauthorized endpoint ps e l t h = rw l (respond_to_unauthorized endpoint ps e _ t h refl)
