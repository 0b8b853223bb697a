-- ===== src/Tests/Requests.antt =====
-- Runs of the whole server from the scene of Tests/Scene.antt, its guards, and the command line.
use smqtt.Prelude.{
  ℕ, ◌+◌, ◌≡◌, ◌≢◌, refl, Bool, true, false, Option, none, some, List, [], ◌∷◌, ◌++◌, Text, Bytes,
  text, inl, inr, ◌==◌, text_eq, text_beq, arith, if◌then◌else◌,
}
use smqtt.Error.{err, unauthorized}
use smqtt.Rows.{empty_database}
use smqtt.Api.Extractors.{Headers, header_or_empty, auth_user}
use smqtt.Api.Router.{Call, dispatch}
use smqtt.Api.Router.Guards.{admin_refused, caller_ignores_database}
use smqtt.Tests.Sample.{toy}
use smqtt.Tests.Scene.{alice, server, scene, alice_token}

wrong_key :
    (header_or_empty toy (λ name. none) (text "x-admin-key") == server.config.admin.api_key) ≡ false
unfolding header_or_empty text_beq
wrong_key = refl

admin_refused_example :
    dispatch server (λ name. none) (Call.suspend_user alice none) scene ≡ (err unauthorized, scene)
admin_refused_example =
    admin_refused server (λ name. none) scene (Call.suspend_user alice none) refl wrong_key

no_token : (auth_user server (λ name. none) scene).0 ≡ err unauthorized
unfolding auth_user smqtt.Exec.◌>>=◌ smqtt.Prelude.starts_with
no_token = refl

abbrev bearer : Headers
bearer name = some (text "Bearer " ++ alice_token)

caller_ignores_database_example :
    (auth_user server bearer (record scene { db = empty_database })).0
    ≡ (auth_user server bearer scene).0
caller_ignores_database_example = caller_ignores_database server bearer scene empty_database
