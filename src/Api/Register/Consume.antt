-- ===== src/Api/Register/Consume.antt =====
-- How a registration token is consumed at a registration.
use smqtt.Prelude.{
  List, [], ◌∷◌, ℤ, ltb_ℤ, ◌<ℤ◌, ◌==◌, text_eq, ◌&&◌, text_beq_iff, any-append, map, ap, ◌∙◌, ◌↔◌,
  inr, Bool-cases, ◌+◌, ◌≡◌, refl, true, false, some, ◌++◌, Text, Bytes, text, arith, inl, pos,
  ◌+ℤ◌, as_i64, any, if◌then◌else◌,
}
use smqtt.Table.{update}
use smqtt.Table.Laws.{count-any}
use smqtt.Config.{policy_mode, push, RegistrationPolicy}
use smqtt.Error.{ok, err, forbidden, bad_request}
use smqtt.Rows.{RegistrationToken}
use smqtt.State.{AppState, World, next}
use smqtt.Exec.{◌>>=◌, unix_now, run_query}
use smqtt.Crypto.{b64_decode}
use smqtt.Db.Tokens.{consume_registration_token, use_token, is_usable}
use smqtt.Api.Register.{RegisterRequest, token_hash, apply_policy, check_mode, decode_key, register}

module _ (hash : Bytes) (w : World) where
  -- The outcome and the world, where the statement is carried out.
  pub consume_lem :
      w.oracle.fails (w.oracle.asked + 1) ≡ false
      → let now = as_i64 (w.oracle.clock w.oracle.asked) in
        consume_registration_token hash w ≡ (
          (if any (is_usable hash now) w.db.tokens then ok tt else err forbidden),
          next (
              next (record w {
                db = record w.db {
                  tokens =
                      update
                        (is_usable hash now)
                        (λ t. record t { uses = t.uses +ℤ pos 1 })
                        w.db.tokens;
                };
              })),
        )
  unfolding consume_registration_token use_token ◌>>=◌ unix_now run_query
  consume_lem up =
      ground
        (arith, count-any (is_usable hash (as_i64 (w.oracle.clock w.oracle.asked))) w.db.tokens)

  pub consume_usable :
      (consume_registration_token hash w).0 ≡ ok tt
      → any (is_usable hash (as_i64 (w.oracle.clock w.oracle.asked))) w.db.tokens ≡ true
  unfolding consume_registration_token use_token ◌>>=◌ unix_now run_query
  consume_usable h =
      ground
        (arith, count-any (is_usable hash (as_i64 (w.oracle.clock w.oracle.asked))) w.db.tokens)

-- A row of the table with this hash, which is unexpired at `now` and not used up.
pub record Accepts (hash : Bytes) (now : ℤ) (tokens : List RegistrationToken) : Type 0 where
  pub before : List RegistrationToken
  pub row : RegistrationToken
  pub after : List RegistrationToken
  pub stored : tokens ≡ before ++ row ∷ after
  pub hashed : row.token_hash ≡ hash
  pub unexpired : now <ℤ row.expires_at
  pub unspent : row.uses <ℤ row.max_uses

-- One use more, if the row has this hash, is unexpired and is not used up.
abbrev pub counted : Bytes → ℤ → RegistrationToken → RegistrationToken
counted hash now t =
    if t.token_hash == hash && ltb_ℤ now t.expires_at && ltb_ℤ t.uses t.max_uses
    then record t { uses = t.uses +ℤ pos 1 }
    else t

module _ (hash : Bytes) (now : ℤ) where
  usable-Accepts :
      (ts : List RegistrationToken) → any (is_usable hash now) ts ≡ true → Accepts hash now ts
  usable-Accepts [] h = absurd (cc h)
  usable-Accepts (t ∷ ts) h = elim (Bool-cases (is_usable hash now t)) [
    | inl usable ↦ record {
      before = [];
      row = t;
      after = ts;
      stored = refl;
      hashed = ground (arith, text_beq_iff t.token_hash hash);
      unexpired = ground arith;
      unspent = ground arith;
    }
    | inr other ↦
        let a = usable-Accepts ts (ground arith) in
        record {
          before = t ∷ a.before;
          row = a.row;
          after = a.after;
          stored = ap (λ ts. t ∷ ts) a.stored;
          hashed = a.hashed;
          unexpired = a.unexpired;
          unspent = a.unspent;
        }
  ]

  Accepts-usable :
      (ts : List RegistrationToken) → Accepts hash now ts → any (is_usable hash now) ts ≡ true
  Accepts-usable ts a = ground (
    arith,
    ap (any (is_usable hash now)) a.stored,
    any-append (is_usable hash now) a.before (a.row ∷ a.after),
    text_beq_iff a.row.token_hash hash,
    a.hashed,
    a.unexpired,
    a.unspent,
  )

  update-counted :
      (ts : List RegistrationToken)
      → update (is_usable hash now) (λ t. record t { uses = t.uses +ℤ pos 1 }) ts
        ≡ map (counted hash now) ts
  unfolding update
  update-counted [] = refl
  update-counted (t ∷ ts) = ground (arith, update-counted ts)

-- If its statement is carried out, a token is consumed exactly if the table has a row with its hash
-- that is unexpired at the time read and not used up, and is refused as forbidden if not. The uses of
-- every such row are counted, and no other row changes.
pub consume_iff :
    (hash : Bytes) (w : World)
    → w.oracle.fails (w.oracle.asked + 1) ≡ false
    → let now = as_i64 (w.oracle.clock w.oracle.asked) in
      (((consume_registration_token hash w).0 ≡ ok tt) ↔ Accepts hash now w.db.tokens)
      × ((¬ (Accepts hash now w.db.tokens)) → (consume_registration_token hash w).0 ≡ err forbidden)
      × ((consume_registration_token hash w).1.db.tokens ≡ map (counted hash now) w.db.tokens)
consume_iff hash w up =
    let now = as_i64 (w.oracle.clock w.oracle.asked) in
    let e = consume_lem hash w up in
    (
      (
        (λ h. usable-Accepts hash now w.db.tokens (consume_usable hash w h)),
        (λ a. ground (arith, e, Accepts-usable hash now w.db.tokens a)),
      ),
      (λ none. elim (Bool-cases (any (is_usable hash now) w.db.tokens)) [
        | inl usable ↦ absurd (none (usable-Accepts hash now w.db.tokens usable))
        | inr unusable ↦ ground (arith, e)
      ]),
      ap (λ r. r.1.db.tokens) e ∙ update-counted hash now w.db.tokens,
    )

-- A registration whose token is accepted and whose key is then refused as no base64 has used the
-- token all the same, if the statement is carried out.
pub bad_key_uses_token :
    (state : AppState) (req : RegisterRequest) (w : World) (policy : RegistrationPolicy)
    (token reason : Text)
    → state.config.registration.mode ≡ policy_mode
    → state.config.registration.policy ≡ some policy
    → policy.kind ≡ push
    → req.registration_token ≡ some token
    → w.oracle.fails (w.oracle.asked + 1) ≡ false
    → let hash = token_hash state.ext token in
      let now = as_i64 (w.oracle.clock w.oracle.asked) in
      any (is_usable hash now) w.db.tokens ≡ true
      → state.ext.b64_decode req.pubkey ≡ inl reason
      → ((register state req w).0 ≡ err (bad_request (text "invalid base64: " ++ reason)))
        × ((register state req w).1.db.tokens
            ≡ update (is_usable hash now) (λ t. record t { uses = t.uses +ℤ pos 1 }) w.db.tokens)
unfolding register check_mode apply_policy decode_key b64_decode ◌>>=◌
bad_key_uses_token state req w policy token reason m p k given up usable bad =
    rw (m, p, k, given)
      (rw (consume_lem (token_hash state.ext token) w up) (rw (usable, bad) (refl, refl)))
