-- ===== src/Error.antt =====
-- error.rs: the error type of the handlers, and the response that each error becomes. A database
-- error is a refused statement (`constraint`) or a failed connection (`unavailable`).
use smqtt.Prelude.{ℕ, Text, text}

pub data SqlxError : Type 0 where
  constraint unavailable : SqlxError

pub data Error : Type 0 where
  not_found unauthorized forbidden : Error
  bad_request conflict : Text → Error
  database : SqlxError → Error
  internal : Text → Error

pub data Result (A : Type 0) : Type 0 where
  ok : A → Result A
  err : Error → Result A

-- The status code and the message of `into_response`.
unfoldable pub status : Error → ℕ
status not_found = 404
status unauthorized = 401
status forbidden = 403
status (bad_request m) = 400
status (conflict m) = 409
status (database e) = 500
status (internal m) = 500

unfoldable pub message : Error → Text
message not_found = text "not found"
message unauthorized = text "unauthorized"
message forbidden = text "forbidden"
message (bad_request m) = m
message (conflict m) = m
message (database e) = text "database error"
message (internal m) = text "internal error"
