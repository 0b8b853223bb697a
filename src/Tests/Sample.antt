-- ===== src/Tests/Sample.antt =====
-- A toy version of the third-party code for the tests: base64 is the identity, an HMAC and a
-- signature append the message to the key, a token writes the claims down behind the secret, and
-- JSON writes every text behind its length. It meets `ForeignLaws`.
use smqtt.Prelude.{
  ℕ, zero, suc, ◌+◌, ◌≤◌, ◌≡◌, refl, ◌⊎◌, inl, inr, true, Option, none, some, List, [], ◌∷◌, ◌++◌,
  text_eq, text_beq, text_beq_refl, Text, Bytes, leb, length, arith, if◌then◌else◌, Bool-cases,
  Option-cases,
}
use smqtt.Claims.{Claims}
use smqtt.Foreign.{Foreign, ForeignLaws, leeway}

infixl 10 ◌>>=◌
abbrev pub ◌>>=◌ : {A B : Type 0} → Option A → (A → Option B) → Option B
none >>= f = none
some a >>= f = f a

unfoldable pub put : Text → List ℕ → List ℕ
put s rest = length s ∷ (s ++ rest)

unfoldable pub split : ℕ → List ℕ → Option (Text × List ℕ)
split zero l = some ([], l)
split (suc n) [] = none
split (suc n) (x ∷ l) = split n l >>= λ r. some (x ∷ r.0, r.1)

unfoldable pub take_text : List ℕ → Option (Text × List ℕ)
unfolding split
take_text [] = none
take_text (n ∷ l) = split n l

unfoldable pub put_all : List Text → List ℕ → List ℕ
unfolding put
put_all [] rest = rest
put_all (t ∷ ts) rest = put t (put_all ts rest)

unfoldable pub put_list : List Text → List ℕ → List ℕ
unfolding put_all
put_list ts rest = length ts ∷ put_all ts rest

unfoldable pub take_all : ℕ → List ℕ → Option (List Text × List ℕ)
take_all zero l = some ([], l)
take_all (suc n) l = take_text l >>= λ p. take_all n p.1 >>= λ r. some (p.0 ∷ r.0, r.1)

unfoldable pub take_list : List ℕ → Option (List Text × List ℕ)
unfolding take_all
take_list [] = none
take_list (n ∷ l) = take_all n l

unfoldable pub take_number : List ℕ → Option (ℕ × List ℕ)
take_number [] = none
take_number (n ∷ l) = some (n, l)

split-append : (s : Text) (rest : List ℕ) → split (length s) (s ++ rest) ≡ some (s, rest)
unfolding split
split-append [] rest = refl
split-append (x ∷ s) rest = rw (split-append s rest)

take-put : (s : Text) (rest : List ℕ) → take_text (put s rest) ≡ some (s, rest)
unfolding take_text put
take-put s rest = split-append s rest

take-put_all :
    (ts : List Text) (rest : List ℕ) → take_all (length ts) (put_all ts rest) ≡ some (ts, rest)
unfolding take_all put_all
take-put_all [] rest = refl
take-put_all (t ∷ ts) rest = rw (take-put t (put_all ts rest), take-put_all ts rest)

take-put_list : (ts : List Text) (rest : List ℕ) → take_list (put_list ts rest) ≡ some (ts, rest)
unfolding take_list put_list
take-put_list ts rest = take-put_all ts rest

unfoldable pub write_claims : Claims → List ℕ
write_claims c = put c.sub (
    put c.dev
      (c.exp ∷ c.iat ∷ put_list c.pub_topics (put_list c.sub_topics (put c.notify_topic []))))

unfoldable pub read_claims : List ℕ → Option Claims
unfolding take_number
read_claims l = take_text l >>= λ sub. take_text sub.1 >>= λ dev. take_number dev.1 >>= λ exp.
    take_number exp.1 >>= λ iat. take_list iat.1 >>= λ pub_topics.
    take_list pub_topics.1 >>= λ sub_topics. take_text sub_topics.1 >>= λ topic. some (record {
      sub = sub.0;
      dev = dev.0;
      exp = exp.0;
      iat = iat.0;
      pub_topics = pub_topics.0;
      sub_topics = sub_topics.0;
      notify_topic = topic.0;
    })

read-write_claims : (c : Claims) → read_claims (write_claims c) ≡ some c
unfolding read_claims write_claims take_number
read-write_claims c = rw (
  take-put c.sub (
      put c.dev
        (c.exp ∷ c.iat ∷ put_list c.pub_topics (put_list c.sub_topics (put c.notify_topic [])))),
  take-put c.dev
      (c.exp ∷ c.iat ∷ put_list c.pub_topics (put_list c.sub_topics (put c.notify_topic []))),
  take-put_list c.pub_topics (put_list c.sub_topics (put c.notify_topic [])),
  take-put_list c.sub_topics (put c.notify_topic []),
  take-put c.notify_topic [],
)

unfoldable pub if_fresh : ℕ → Claims → Option Claims
if_fresh now c = if leb now (c.exp + leeway) then some c else none

unfoldable pub unseal : Bytes → ℕ → Text → Option Claims
unseal key now t = take_text t >>= λ k.
    if text_beq k.0 key then (read_claims k.1 >>= λ c. if_fresh now c) else none

unseal-put :
    (key : Bytes) (now : ℕ) (c : Claims)
    → now ≤ c.exp + leeway
    → unseal key now (put key (write_claims c)) ≡ some c
unfolding unseal if_fresh
unseal-put key now c h =
    let fresh : leb now (c.exp + leeway) ≡ true = ground arith in
    rw (take-put key (write_claims c), text_beq_refl key, read-write_claims c, fresh)

fresh_lem :
    (now : ℕ) (r : Option Claims) (c : Claims)
    → (r >>= λ d. if_fresh now d) ≡ some c
    → now ≤ c.exp + leeway
unfolding if_fresh
fresh_lem now none c h = absurd (cc)
fresh_lem now (some d) c h = ground arith

unseal_fresh :
    (key : Bytes) (now : ℕ) (c : Claims) (t : Text)
    → unseal key now t ≡ some c
    → now ≤ c.exp + leeway
unfolding unseal
unseal_fresh key now c t h = elim (Option-cases (take_text t)) [
  | inl e ↦ absurd (ground arith)
  | inr (k, e) ↦ elim (Bool-cases (text_beq k.0 key)) [
    | inl same ↦ fresh_lem now (read_claims k.1) c (rw (e, same) at h)
    | inr other ↦ absurd (ground arith)
  ]
]

abbrev pub seal : Bytes → Claims → Text ⊎ Text
seal key c = inr (put key (write_claims c))

unseal_sealed :
    (key : Bytes) (now : ℕ) (c : Claims) (t : Text)
    → seal key c ≡ inr t
    → now ≤ c.exp + leeway
    → unseal key now t ≡ some c
unseal_sealed key now c t e h = cc (unseal-put key now c h, e)

abbrev pub toy : Foreign
toy = record {
  b64_encode = λ b. b;
  b64_decode = inr;
  hmac_sha256 = λ key msg. key ++ msg;
  is_ed25519_key = λ key. true;
  ed25519_verify = λ key msg sig. text_beq sig (key ++ msg);
  jwt_encode = seal;
  jwt_decode = unseal;
  strings_to_json = λ l. put_list l [];
  strings_from_json = λ t. take_list t >>= λ r. some r.0;
  json_object = λ fields. [];
  header_to_str = some;
}

pub toy-laws : ForeignLaws toy
toy-laws = record {
  b64_round = λ b. refl;
  json_round = λ l. rw (take-put_list l []);
  jwt_round = λ key now c t e h. unseal_sealed key now c t e h;
  jwt_fresh = unseal_fresh;
}
