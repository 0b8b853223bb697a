-- ===== src/Api/Extractors.antt =====
-- api/extractors.rs: the caller of a request, from its token.
use smqtt.Prelude.{not, Option, none, some, [], Text, Bytes, text, drop, starts_with}
use smqtt.Error.{unauthorized}
use smqtt.Foreign.{Foreign}
use smqtt.State.{AppState}
use smqtt.Exec.{Action, pure, raise_if, ◌>>=◌, ◌>>◌}
use smqtt.Crypto.{verify}

-- `HeaderMap::get`, by the lower-case name of the header.
abbrev pub Headers : Type 0
Headers = Text → Option Bytes

-- `headers.get(name).and_then(|v| v.to_str().ok()).unwrap_or("")`
unfoldable pub header_or_empty : Foreign → Headers → Text → Text
header_or_empty ext headers name = elim (headers name) [
  | none ↦ []
  | some v ↦ elim (ext.header_to_str v) [ none ↦ [] | some s ↦ s ]
]

-- `AuthUser::from_request_parts`
unfoldable pub auth_user : AppState → Headers → Action Text
unfolding header_or_empty
auth_user state headers = do
  let auth = header_or_empty state.ext headers (text "authorization")
  raise_if (not (starts_with (text "Bearer ") auth)) unauthorized
  claims ← verify state (drop 7 auth)
  pure claims.sub
