-- ===== src/Concurrent/Stale.antt =====
-- A race that the code leaves open: a grant is revoked while a token is made (api/auth.rs).
use smqtt.Prelude.{
  ◌+◌, ◌≤◌, ◌≡◌, ap, ◌∙◌, inr, false, some, List, [], ◌∷◌, ◌++◌, Text, as_i64, ltb_ℤ, arith,
}
use smqtt.Foreign.{ForeignLaws, leeway}
use smqtt.Rows.{User}
use smqtt.Error.{ok, internal}
use smqtt.State.{AppState, World, next, notify_topic}
use smqtt.Exec.{Action, ◌>>=◌, fetch, unix_now}
use smqtt.Task.{done}
use smqtt.Crypto as Crypto
use smqtt.Crypto.{new_claims, from_sum}
use smqtt.Db.Users.{find_user}
use smqtt.Db.Relationships.{user_topics, relationships_of, extend_topics, list_relationships}
use smqtt.Api.Auth.{VerifyRequest}
use smqtt.Api.Auth.Outcome.{token_claims}
use smqtt.Broker.AuthHook.{ConnectInfo, password_text, authenticate, allow}
use smqtt.Broker.AuthHook.Outcome.{admitted, authenticate_complete}
use smqtt.Concurrent.Api.{issue_token}
use smqtt.Concurrent.Schedule.{ticks, ticks-atom, ticks-atom_last, ticks_none}

module _ (state : AppState) (req : VerifyRequest) where
  topics_read :
      (w : World)
      → w.oracle.fails w.oracle.asked ≡ false
      → user_topics state.ext req.user_id w
        ≡ (ok (extend_topics state.ext (relationships_of req.user_id w.db) [] []), next w)
  unfolding user_topics list_relationships fetch ◌>>=◌
  topics_read w up = ground (arith, up)

  -- The last step of `issue_token`, with the topics that were read before.
  abbrev sign : List Text × List Text → Action Text
  sign topics =
      Crypto.issue state req.user_id req.device_id state.config.jwt.ttl_seconds topics.0
        (topics.1 ++ notify_topic state req.user_id ∷ []) (notify_topic state req.user_id)

  signed :
      (topics : List Text × List Text) (v : World) (token : Text)
      → state.ext.jwt_encode state.jwt_keys (
          new_claims req.user_id req.device_id
            (v.oracle.clock v.oracle.asked)
            state.config.jwt.ttl_seconds
            topics.0
            (topics.1 ++ notify_topic state req.user_id ∷ [])
            (notify_topic state req.user_id))
        ≡ inr token
      → sign topics v ≡ (ok token, next v)
  unfolding Crypto.issue ◌>>=◌ unix_now
  signed topics v token encoded = ap (λ r. (from_sum internal r, next v)) encoded

  -- The token that `issue_token` makes if its first step is taken at `w` and its second at `v`.
  issued_late :
      (w v : World) (token : Text)
      → w.oracle.fails w.oracle.asked ≡ false
      → state.ext.jwt_encode state.jwt_keys
          (token_claims state req w.db (v.oracle.clock v.oracle.asked))
        ≡ inr token
      → (ticks 1 (ticks 1 (issue_token state req) w).0 v).0 ≡ done (ok token)
  unfolding issue_token
  issued_late w v token up encoded =
      let topics = extend_topics state.ext (relationships_of req.user_id w.db) [] [] in
      let first = ticks-atom 0 _ _ w _ _ (topics_read w up) ∙ ticks_none _ _ in
      ap (λ r. (ticks 1 r.0 v).0) first
      ∙ ap (λ r. r.0) (ticks-atom_last (sign topics) v _ (signed topics v token encoded))

  -- A token carries the topics of the moment at which they were read and the time of the moment at which
  -- it is signed. Whatever happens in between, be it that a relationship is revoked and the user is
  -- kicked, the token opens a connection with the old topics, in any state in which it has not expired,
  -- the user is not suspended and was not kicked in a later second than that of the signature, and the
  -- query for the user is answered. (If the topics are read without an error, and a token is decoded to
  -- the claims that were encoded.)
  pub revoked_topics_connect :
      (w v x : World) (token : Text) (info : ConnectInfo) (user : User)
      → ForeignLaws state.ext
      → w.oracle.fails w.oracle.asked ≡ false
      → state.ext.jwt_encode state.jwt_keys
          (token_claims state req w.db (v.oracle.clock v.oracle.asked))
        ≡ inr token
      → password_text info ≡ some token
      → info.client_id ≡ req.device_id
      → x.oracle.clock x.oracle.asked
        ≤ (token_claims state req w.db (v.oracle.clock v.oracle.asked)).exp + leeway
      → find_user req.user_id x.db ≡ some user
      → user.suspended ≡ false
      → ltb_ℤ (as_i64 (v.oracle.clock v.oracle.asked)) user.tokens_valid_from ≡ false
      → x.oracle.fails (x.oracle.asked + 1) ≡ false
      → ((ticks 1 (ticks 1 (issue_token state req) w).0 v).0 ≡ done (ok token))
        × (authenticate state info x ≡ (
          (false, some (allow false)),
          admitted info (token_claims state req w.db (v.oracle.clock v.oracle.asked)) x,
        ))
  unfolding new_claims
  revoked_topics_connect w v x token info user laws up encoded given device fresh exists active
        current up' =
      let claims = token_claims state req w.db (v.oracle.clock v.oracle.asked) in
      (
        issued_late w v token up encoded,
        authenticate_complete state info x claims
            (record {
              token = token;
              given = given;
              decoded = laws.jwt_round state.jwt_keys _ claims token encoded fresh;
              bound = device;
              user = user;
              exists = exists;
              active = active;
              current = current;
            })
            up',
      )
