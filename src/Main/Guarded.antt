-- ===== src/Main/Guarded.antt =====
-- The administrative calls of a server that has started (main.rs, api/admin.rs).
use smqtt.Prelude.{
  ◌≡◌, ◌≢◌, refl, true, false, none, [], Option, Text, text, ◌==◌, text_eq, text_beq_iff,
  Bool-cases, inl, inr, subst, sym, ◌∙◌,
}
use smqtt.Error.{ok, err, unauthorized}
use smqtt.Foreign.{Foreign}
use smqtt.State.{World, Oracle, new_app}
use smqtt.Api.Extractors.{Headers, header_or_empty}
use smqtt.Api.Router.{Call, dispatch}
use smqtt.Api.Router.Guards.{is_admin, admin_refused}
use smqtt.Main.Start.{Host, Running, start}
use smqtt.Main.Started.{start_iff, running}

header_none :
    (ext : Foreign) (headers : Headers)
    → headers (text "x-admin-key") ≡ none
    → header_or_empty ext headers (text "x-admin-key") ≡ []
unfolding header_or_empty
header_none ext headers absent = rw (header_or_empty, absent) refl

-- An absent header does not match a key that is not empty.
absent_header :
    (ext : Foreign) (headers : Headers) (key : Text)
    → headers (text "x-admin-key") ≡ none
    → key ≢ []
    → (header_or_empty ext headers (text "x-admin-key") == key) ≡ false
unfolding header_or_empty
absent_header ext headers key absent keyed =
    elim (Bool-cases (header_or_empty ext headers (text "x-admin-key") == key)) [
      | inl same ↦
          let e = (text_beq_iff (header_or_empty ext headers (text "x-admin-key")) key).0 same in
          absurd (keyed (sym e ∙ header_none ext headers absent))
      | inr different ↦ different
    ]

-- On a server that has started, every administrative call without the header `x-admin-key` is refused
-- in whatever state, and changes nothing.
pub started_admin_refused :
    (host : Host) (ext : Foreign) (oracle : Oracle) (cfg_path : Text) (env_path : Option Text)
    (r : Running) (headers : Headers) (call : Call) (w : World)
    → start host ext oracle cfg_path env_path ≡ ok r
    → headers (text "x-admin-key") ≡ none
    → is_admin call ≡ true
    → dispatch r.state headers call w ≡ (err unauthorized, w)
unfolding new_app
started_admin_refused host ext oracle cfg_path env_path r headers call w started absent admin =
    let (s, e) = (start_iff host ext oracle cfg_path env_path r).0 started in
    subst (λ q. dispatch q.state headers call w ≡ (err unauthorized, w)) (sym e)
      (admin_refused (running host ext oracle cfg_path env_path s).state headers w call admin
        (absent_header ext headers s.config.admin.api_key absent s.keyed))
