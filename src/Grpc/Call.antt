-- ===== src/Grpc/Call.antt =====
-- One call of a handler: the servicer object `self`, which a handler may change, and the `context`,
-- in which it leaves a status.
use vector_catalog_service.Prelude.{ℕ, String, Option, none, some, List}
use vector_catalog_service.Prelude.Exec.{Exec, ok}

pub data StatusCode : Type 0 where
  invalid_argument not_found internal unimplemented : StatusCode

-- The texts given to `set_details`, one for each template, with what is put into it.
pub data Details : Type 0 where
  text_empty : Details
  no_texts : Details
  embedding_failed : String → Details
  batch_failed : String → Details
  shard_not_found : String → List String → Details
  dimension_mismatch : ℕ → ℕ → Details
  search_failed : String → Details
  info_failed : String → Details
  key_missing : Details
  reload_not_found : String → Details
  reload_raised : String → Details
  not_implemented : Details

pub record Context : Type 0 where
  pub code : Option StatusCode
  pub details : Option Details

abbrev pub fresh : Context
fresh = record { code = none; details = none }

pub record Call (S : Type 0) : Type 0 where
  pub self : S
  pub context : Context

-- The call of a handler of `s` as the runtime makes it.
abbrev pub begin : {S : Type 0} → S → Call S
begin s = record { self = s; context = fresh }

module _ {S : Type 0} where
  -- `context.set_code(c)`
  abbrev pub set_code : StatusCode → Exec (Call S) Unit
  set_code c s = (ok tt, record s { context = record s.context { code = some c } })

  -- `context.set_details(d)`
  abbrev pub set_details : Details → Exec (Call S) Unit
  set_details d s = (ok tt, record s { context = record s.context { details = some d } })

  -- the call after a handler has set both
  abbrev pub with_status : Call S → StatusCode → Details → Call S
  with_status s c d = record s { context = record { code = some c; details = some d } }
