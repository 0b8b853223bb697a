-- ===== src/Tests/Http.antt =====
-- Requests over HTTP in the scene of Tests/Scene.antt.
use smqtt.Prelude.{◌≡◌, ◌⊎◌, refl, true, none, [], ◌∷◌, text, text_beq}
use smqtt.Error.{err, unauthorized}
use smqtt.Api.Extractors.{auth_user}
use smqtt.Api.Router.{Call, dispatch}
use smqtt.Api.Http.{Request, post, rejected, handled}
use smqtt.Api.Http.Routes.{Endpoint, found, look_up, routes}
use smqtt.Api.Http.Serve.{serve}
use smqtt.Api.Http.Encode.{request_of}
use smqtt.Api.Http.Roundtrip.{serve-request_of}
use smqtt.Api.Http.Outcome.{serve_unauthorized}
use smqtt.Tests.Scene.{server, scene, alice}

serve-request_of_example :
    serve server (request_of (λ name. none) (Call.suspend_user alice none)) scene ≡ (
      handled (dispatch server (λ name. none) (Call.suspend_user alice none) scene).0,
      (dispatch server (λ name. none) (Call.suspend_user alice none) scene).1,
    )
serve-request_of_example =
    serve-request_of server (λ name. none) (Call.suspend_user alice none) scene refl

-- A key exchange is begun without a token, and with a body that is no JSON.
abbrev garbled : Request
garbled = record {
  method = post;
  path = text "exchange" ∷ [];
  query = [];
  headers = λ name. none;
  body = rejected 400;
}

routed : look_up routes garbled.method garbled.path ≡ found Endpoint.initiate []
unfolding look_up routes smqtt.Api.Http.Routes.match_path smqtt.Api.Http.Routes.allows text_beq
routed = refl

no_token : (auth_user server garbled.headers scene).0 ≡ err unauthorized
unfolding auth_user smqtt.Exec.◌>>=◌ smqtt.Prelude.starts_with
no_token = refl

takes : smqtt.Api.Http.Serve.takes_auth_user Endpoint.initiate ≡ true
unfolding smqtt.Api.Http.Serve.takes_auth_user
takes = refl

serve_unauthorized_example :
    ((serve server garbled scene).0 ≡ handled (err unauthorized))
    × ((serve server garbled scene).1.db ≡ scene.db)
    × ((serve server garbled scene).1.broker ≡ scene.broker)
serve_unauthorized_example =
    serve_unauthorized server garbled scene Endpoint.initiate [] unauthorized routed takes no_token
