-- ===== src/Api/Http.antt =====
-- An HTTP request as axum and serde hand it to the code: the path split at its slashes and decoded,
-- and the fields of the query and of the JSON body. A body that is no JSON object is what axum has
-- rejected, with its status code.
pub mod Body
pub mod Routes
pub mod Serve
pub mod Encode
pub mod Roundtrip
pub mod Outcome
pub mod Render
use smqtt.Prelude.{ℕ, Option, List, Text, ℤ}
use smqtt.Error.{Result}
use smqtt.Api.Extractors.{Headers}
use smqtt.Api.Router.{Response}

pub data Method : Type 0 where
  -- axum answers HEAD where GET is routed
  get head post delete other : Method

-- The value of a field; `mixed` is one that no request takes.
pub data Value : Type 0 where
  null mixed : Value
  string : Text → Value
  strings : List Text → Value
  integer : ℤ → Value

abbrev pub Fields : Type 0
Fields = List (Text × Value)

pub data Payload : Type 0 where
  rejected : ℕ → Payload
  object : Fields → Payload

pub record Request : Type 0 where
  pub method : Method
  pub path : List Text
  pub query : List (Text × Text)
  pub headers : Headers
  pub body : Payload

-- A status code of axum's own, or what a handler returns.
pub data Reply : Type 0 where
  refused : ℕ → Reply
  handled : Result Response → Reply
