-- ===== src/Concurrent/Once.antt =====
-- Two logins with one challenge at a time (api/auth.rs).
use smqtt.Prelude.{
  Option, ℕ, ◌≡◌, refl, none, some, List, [], ◌∷◌, Text, Bytes, text_eq, text_beq_refl, arith,
  subst, sym, ap, inl, inr, ◌⊎◌,
}
use smqtt.Error.{ok, err, unauthorized}
use smqtt.Map.{get, remove, get-remove}
use smqtt.State.{AppState, World}
use smqtt.Exec.{Action, ok_or, ◌>>=◌}
use smqtt.Exec.Frame.{IsSide, Frames, frame_rules}
use smqtt.Task.{Task, done, step, atom, ◌>>=◌ as then_do}
use smqtt.Task.Safe.{Safe, Safe-atom, Safe-now, Safe-next, safe_rules}
use smqtt.Crypto as Crypto
use smqtt.Db.Users.{get_user}
use smqtt.Db.Devices.{get_device_by_user}
use smqtt.Db.Relationships.{user_topics, list_relationships}
use smqtt.Api.Auth as Auth
use smqtt.Api.Auth.{VerifyRequest, pop_challenge}
use smqtt.Concurrent.Api.{verify, open_session, issue_token}
use smqtt.Concurrent.Schedule.{Side, left, right, Pair, interleave, turn, tick}

-- No challenge is stored for the user.
abbrev pub Unchallenged : Text → World → Type 0
Unchallenged user_id w = get user_id w.challenges ≡ none

challenges-IsSide : IsSide (λ w. w.challenges)
challenges-IsSide = record { asked = λ w. refl; stored = λ w db. refl }

-- A task whose next step refuses does so inside a bind.
bind_refused :
    {A B : Type 0} (t : Task A) (f : A → Task B) (w : World)
    → (tick t w).0 ≡ done (err unauthorized)
    → (tick (then_do t f) w).0 ≡ done (err unauthorized)
unfolding tick then_do
bind_refused (done (ok a)) f w h = ground (arith, h)
bind_refused (done (err e)) f w h = ap (λ t. then_do t f) h
bind_refused (step g k) f w h = ap (λ t. then_do t f) h

module _ (user_id : Text) where
  kept-Safe :
      {A : Type 0} (m : Action A)
      → Frames (λ w. w.challenges) m
      → Safe (Unchallenged user_id) (atom m)
  kept-Safe m k = Safe-atom m (λ w h. subst (λ c. get user_id c ≡ none) (sym (k.at w)) h)

  pop_challenge-Unchallenged : (w : World) → Unchallenged user_id (pop_challenge user_id w).1
  unfolding pop_challenge ◌>>=◌ ok_or
  pop_challenge-Unchallenged w =
      popped_from (get user_id w.challenges) (record w { challenges = remove user_id w.challenges })
        (ground (arith, get-remove user_id user_id w.challenges, text_beq_refl user_id))
    where
      popped_from :
          (o : Option (Bytes × ℕ)) (v : World)
          → Unchallenged user_id v
          → Unchallenged user_id (ok_or unauthorized o v).1
      popped_from none v h = h
      popped_from (some c) v h = h

  pop_challenge-Safe : Safe (Unchallenged user_id) (atom (pop_challenge user_id))
  pop_challenge-Safe = Safe-atom _ (λ w h. pop_challenge-Unchallenged w)

  pop_challenge_refused :
      (w : World)
      → Unchallenged user_id w
      → (tick (atom (pop_challenge user_id)) w).0 ≡ done (err unauthorized)
  unfolding tick atom pop_challenge ◌>>=◌ ok_or
  pop_challenge_refused w h = rw h refl

module _ (state : AppState) (req : VerifyRequest) where
  verify-Safe : Safe (Unchallenged req.user_id) (verify state req)
  unfolding verify open_session issue_token Auth.check_signature Crypto.issue get_user
      get_device_by_user user_topics list_relationships
  verify-Safe =
      search (safe_rules, pop_challenge-Safe, kept-Safe, frame_rules, challenges-IsSide) depth 20

  -- Without a challenge `verify` ends in its first step.
  verify_ends :
      (w : World)
      → Unchallenged req.user_id w
      → (tick (verify state req) w).0 ≡ done (err unauthorized)
  unfolding verify open_session
  verify_ends w h = bind_refused _ _ w (bind_refused _ _ w (pop_challenge_refused req.user_id w h))

-- The next step of the task refuses in every world where `P` holds.
abbrev pub Late : {A : Type 0} → (World → Type 0) → Task A → Type 0
Late P t = (w : World) → P w → (tick t w).0 ≡ done (err unauthorized)

module _ {P : World → Type 0} {A : Type 0} where
  tick-Safe : (t : Task A) (w : World) → Safe P t → P w → Safe P (tick t w).0 × P (tick t w).1
  unfolding tick
  tick-Safe (done r) w s h = (s, h)
  tick-Safe (step g k) w s h = (Safe-next g k w s, Safe-now g k w s h)

  tick-Late : (t : Task A) (w : World) → P w → Late P t → Late P (tick t w).0
  unfolding tick
  tick-Late t w h late = subst (Late P) (sym (late w h)) (λ v k. refl)

  Late-Unfinished : (t : Task A) (w : World) → P w → Late P t → (a : A) → ¬ (t ≡ done (ok a))
  unfolding tick
  Late-Unfinished t w h late a e = cc (late w h, ap (λ t. (tick t w).0) e)

-- Both tasks keep `P`, which holds, and one of them is late.
record Lost (P : World → Type 0) {A B : Type 0} (p : Pair A B) : Type 0 where
  holds : P p.world
  first_safe : Safe P p.first
  second_safe : Safe P p.second
  one_late : Late P p.first ⊎ Late P p.second

module _ {P : World → Type 0} {A B : Type 0} where
  turn-Lost : (side : Side) (p : Pair A B) → Lost P p → Lost P (turn side p)
  unfolding turn
  turn-Lost left p l =
      let (s, h) = tick-Safe p.first p.world l.first_safe l.holds in
      record {
        holds = h;
        first_safe = s;
        second_safe = l.second_safe;
        one_late = elim l.one_late [
          | inl late ↦ inl (tick-Late p.first p.world l.holds late)
          | inr late ↦ inr late
        ];
      }
  turn-Lost right p l =
      let (s, h) = tick-Safe p.second p.world l.second_safe l.holds in
      record {
        holds = h;
        first_safe = l.first_safe;
        second_safe = s;
        one_late = elim l.one_late [
          | inl late ↦ inl late
          | inr late ↦ inr (tick-Late p.second p.world l.holds late)
        ];
      }

  interleave-Lost : (sides : List Side) (p : Pair A B) → Lost P p → Lost P (interleave sides p)
  unfolding interleave
  interleave-Lost [] p l = l
  interleave-Lost (side ∷ rest) p l = interleave-Lost rest (turn side p) (turn-Lost side p l)

  Lost-Unfinished :
      (p : Pair A B)
      → Lost P p
      → (a : A) (b : B) → ¬ ((p.first ≡ done (ok a)) × (p.second ≡ done (ok b)))
  Lost-Unfinished p l a b (e, e') = elim l.one_late [
    | inl late ↦ Late-Unfinished p.first p.world l.holds late a e
    | inr late ↦ Late-Unfinished p.second p.world l.holds late b e'
  ]

-- Two logins that have not begun.
abbrev pub two_logins : AppState → VerifyRequest → VerifyRequest → World → Pair Text Text
two_logins state req req' w = record {
  first = verify state req;
  second = verify state req';
  world = w;
}

-- A login of the user.
module _ (state : AppState) (user_id : Text) (req : VerifyRequest)
    (own : req.user_id ≡ user_id) where
  login-Unfinished : (a : Text) → ¬ (verify state req ≡ done (ok a))
  unfolding verify open_session then_do atom pop_challenge ◌>>=◌ tick
  login-Unfinished a e = absurd (cc)

  login-Safe : Safe (Unchallenged user_id) (verify state req)
  login-Safe = subst (λ u. Safe (Unchallenged u) (verify state req)) own (verify-Safe state req)

  login-Late : Late (Unchallenged user_id) (verify state req)
  login-Late w h = verify_ends state req w (subst (λ u. Unchallenged u w) (sym own) h)

  -- The first step of a login leaves no challenge.
  first_tick-Unchallenged : (w : World) → Unchallenged user_id (tick (verify state req) w).1
  unfolding verify open_session then_do atom tick
  first_tick-Unchallenged w =
      subst (λ u. Unchallenged u (pop_challenge req.user_id w).1) own
        (pop_challenge-Unchallenged req.user_id w)

  first_tick-Safe : (w : World) → Safe (Unchallenged user_id) (tick (verify state req) w).0
  unfolding verify open_session then_do atom tick
  first_tick-Safe w = Safe-next _ _ w login-Safe

module _ (state : AppState) (user_id : Text) (req req' : VerifyRequest)
    (own : req.user_id ≡ user_id) (own' : req'.user_id ≡ user_id) (w : World) where
  -- Whoever begins, the other is late.
  first_turn : (side : Side) → Lost (Unchallenged user_id) (turn side (two_logins state req req' w))
  unfolding turn
  first_turn left = record {
    holds = first_tick-Unchallenged state user_id req own w;
    first_safe = first_tick-Safe state user_id req own w;
    second_safe = login-Safe state user_id req' own';
    one_late = inr (login-Late state user_id req' own');
  }
  first_turn right = record {
    holds = first_tick-Unchallenged state user_id req' own' w;
    first_safe = login-Safe state user_id req own;
    second_safe = first_tick-Safe state user_id req' own' w;
    one_late = inl (login-Late state user_id req own);
  }

  -- However the steps of two logins of one user are ordered, at most one of them gets a token: the
  -- one that takes the challenge first removes it, and the other does not succeed, whatever it signs.
  -- It holds from every world, while no request issues a new challenge in between.
  pub one_login :
      (sides : List Side) (a b : Text)
      → let end = interleave sides (two_logins state req req' w) in
        ¬ ((end.first ≡ done (ok a)) × (end.second ≡ done (ok b)))
  unfolding interleave
  one_login [] a b (e, _) = login-Unfinished state user_id req own a e
  one_login (side ∷ rest) a b (e, e') =
      Lost-Unfinished _
        (interleave-Lost rest (turn side (two_logins state req req' w)) (first_turn side)) a b
        (e, e')
