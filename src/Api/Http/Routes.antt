-- ===== src/Api/Http/Routes.antt =====
-- api/mod.rs, `router`: the table of routes. axum looks for the path first and then for the method.
use smqtt.Prelude.{
  Bool, true, false, Option, none, some, List, [], ◌∷◌, Text, text, ◌==◌, text_eq, if◌then◌else◌,
}
use smqtt.Api.Http.{Method, get, head, post, delete}

pub data Segment : Type 0 where
  literal : Text → Segment
  param : Segment

pub data Endpoint : Type 0 where
  register challenge verify initiate get_exchange respond create list revoke : Endpoint
  create_registration_token suspend_user unsuspend_user : Endpoint

pub record Route : Type 0 where
  pub method : Method
  pub path : List Segment
  pub endpoint : Endpoint

abbrev route : Method → List Segment → Endpoint → Route
route method path endpoint = record { method = method; path = path; endpoint = endpoint }

unfoldable pub routes : List Route
routes =
    route post (literal (text "register") ∷ []) register
    ∷ route get (literal (text "auth") ∷ literal (text "challenge") ∷ []) challenge
    ∷ route post (literal (text "auth") ∷ literal (text "verify") ∷ []) verify
    ∷ route post (literal (text "exchange") ∷ []) initiate
    ∷ route get (literal (text "exchange") ∷ param ∷ []) get_exchange
    ∷ route post (literal (text "exchange") ∷ param ∷ literal (text "respond") ∷ []) respond
    ∷ route post (literal (text "relationships") ∷ []) create
    ∷ route get (literal (text "relationships") ∷ []) list
    ∷ route delete (literal (text "relationships") ∷ param ∷ []) revoke
    ∷ route post (literal (text "admin") ∷ literal (text "registration-tokens") ∷ [])
        create_registration_token
    ∷ route post
        (literal (text "admin") ∷ literal (text "users") ∷ param ∷ literal (text "suspend") ∷ [])
        suspend_user
    ∷ route post
        (literal (text "admin") ∷ literal (text "users") ∷ param ∷ literal (text "unsuspend") ∷ [])
        unsuspend_user
    ∷ []

abbrev pub non_empty : Text → Bool
non_empty [] = false
non_empty (c ∷ s) = true

-- The values of the parameters. A parameter matches a segment that is not empty.
unfoldable pub match_path : List Segment → List Text → Option (List Text)
match_path [] [] = some []
match_path (literal s ∷ pattern) (t ∷ path) =
    let rest = match_path pattern path in if s == t then rest else none
match_path (param ∷ pattern) (t ∷ path) = elim (match_path pattern path) [
  | none ↦ none
  | some ps ↦ if non_empty t then some (t ∷ ps) else none
]
match_path _ _ = none

unfoldable pub allows : Method → Method → Bool
allows get get = true
allows get head = true
allows post post = true
allows delete delete = true
allows _ _ = false

pub data Lookup : Type 0 where
  no_path no_method : Lookup
  found : Endpoint → List Text → Lookup

abbrev pub or_no_method : Lookup → Lookup
or_no_method no_path = no_method
or_no_method l = l

unfoldable pub look_up : List Route → Method → List Text → Lookup
look_up [] method path = no_path
look_up (r ∷ rs) method path =
    let rest = look_up rs method path in
    elim (match_path r.path path) [
      | none ↦ rest
      | some ps ↦ if allows r.method method then found r.endpoint ps else or_no_method rest
    ]
