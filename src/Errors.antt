-- ===== src/Errors.antt =====
-- The error values that packages/backend inspects: a JavaScript value that was thrown, with the
-- properties that some module reads. The classifiers of middleware/errorHandler.ts,
-- lib/rpcRetry.ts and lib/log-reader.ts are in the modules below.
pub mod Range
pub mod Transient
pub mod Responses
mod Tests
use vpp_blockchain.Base.{ℕ, Bool, Option, Text}

-- The properties of a thrown object that hold strings, numbers or flags; `none` where a property
-- is absent or of another type.
pub record Properties : Type 0 where
  pub code : Option Text
  pub status : Option ℕ
  pub message : Option Text
  pub short_message : Option Text
  pub response_body : Option Text
  pub response_status : Option Text
  pub reason : Option Text
  pub revert_name : Option Text
  pub not_sent : Bool

pub data ErrorValue : Type 0 where
  nothing : ErrorValue
  primitive : ErrorValue
  string : Text → ErrorValue
  object : Properties → (error info cause : ErrorValue) → ErrorValue
