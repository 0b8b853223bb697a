-- ===== src/System/Suspension.antt =====
-- Suspensions where each handler runs whole (api/admin.rs, api/auth.rs, broker/auth_hook.rs).
use smqtt.Prelude.{
  ◌≡◌, Bool, true, false, Option, none, some, List, [], ◌∷◌, ◌++◌, Text, ◌==◌, text_eq,
  text_beq_iff, find, arith, ℤ,
}
use smqtt.Table.{update}
use smqtt.Foreign.{Foreign}
use smqtt.Rows.{User, Database}
use smqtt.State.{AppState, World}
use smqtt.Db.Stable.{
  Stable, insert_user-After, insert_device-After, insert_relationship-After, insert_exchange-After,
  insert_token-After,
}
use smqtt.Db.Users.{update_valid_from, update_suspended, find_user}
use smqtt.Db.Relationships.{remove_relationship}
use smqtt.Db.Exchanges.{update_responder, remove_exchange, remove_expired}
use smqtt.Db.Tokens.{use_token}
use smqtt.System.{Reach}
use smqtt.System.Safety.{Reach-Stable}

abbrev pub suspension : Option User → Bool
suspension none = false
suspension (some u) = u.suspended

-- The first row with the user's id is suspended.
abbrev pub IsSuspended : Text → Database → Type 0
IsSuspended user_id db = suspension (find_user user_id db) ≡ true

-- Every suspension may be set, and the given user's is not lifted.
abbrev pub NotLifted : Text → Bool → Text → Type 0
NotLifted user_id b other_id = other_id ≡ user_id → b ≡ true

module _ (user_id : Text) where
  suspension-append :
      (us : List User) (u : User)
      → suspension (find (λ x. x.user_id == user_id) us) ≡ true
      → suspension (find (λ x. x.user_id == user_id) (us ++ u ∷ [])) ≡ true
  suspension-append [] u h = cc
  suspension-append (x ∷ us) u h = ground (arith, suspension-append us u)

  suspension-valid_from :
      (now : ℤ) (id : Text) (us : List User)
      → suspension (find (λ x. x.user_id == user_id) us) ≡ true
      → suspension (
          find
            (λ x. x.user_id == user_id)
            (update (λ x. x.user_id == id) (λ x. record x { tokens_valid_from = now }) us))
        ≡ true
  unfolding update
  suspension-valid_from now id [] h = h
  suspension-valid_from now id (x ∷ us) h = ground (arith, suspension-valid_from now id us)

  suspension-set :
      (b : Bool) (reason : Option Text) (id : Text) (us : List User)
      → NotLifted user_id b id
      → suspension (find (λ x. x.user_id == user_id) us) ≡ true
      → suspension (
          find
            (λ x. x.user_id == user_id)
            (update
              (λ x. x.user_id == id)
              (λ x. record x { suspended = b; suspend_reason = reason })
              us))
        ≡ true
  unfolding update
  suspension-set b reason id [] a h = h
  suspension-set b reason id (x ∷ us) a h = ground (
    arith,
    suspension-set b reason id us a,
    text_beq_iff x.user_id user_id,
    text_beq_iff x.user_id id,
    a,
  )

pub IsSuspended-Stable :
    (ext : Foreign) (user_id : Text) → Stable ext (NotLifted user_id) (IsSuspended user_id)
unfolding update_valid_from update_suspended remove_relationship update_responder remove_exchange
    remove_expired use_token
IsSuspended-Stable ext user_id = record {
  user_in = λ u db h.
      insert_user-After (IsSuspended user_id) db u (suspension-append user_id db.users u h);
  valid_from_set = λ now id db h. suspension-valid_from user_id now id db.users h;
  suspended_set = λ b reason id db a h. suspension-set user_id b reason id db.users a h;
  device_in = λ d db k h. insert_device-After (IsSuspended user_id) db d h;
  relationship_in = λ r db h. insert_relationship-After (IsSuspended user_id) db r h;
  relationship_out = λ u r db h. h;
  exchange_in = λ x db k n h. insert_exchange-After (IsSuspended user_id) db x h;
  responder_set = λ k x db s h. h;
  exchange_out = λ x db h. h;
  expired_out = λ now db h. h;
  token_in = λ t db k h. insert_token-After (IsSuspended user_id) db t h;
  token_used = λ t now db h. h;
}

-- As long as the administrator does not lift it, a suspension holds in every reachable state.
pub Reach-IsSuspended :
    (state : AppState) (user_id : Text) {u v : World}
    → IsSuspended user_id u.db
    → Reach state (NotLifted user_id) u v
    → IsSuspended user_id v.db
Reach-IsSuspended state user_id h r = Reach-Stable state (IsSuspended-Stable state.ext user_id) h r
