-- ===== src/Errors/Tests.antt =====
-- Concrete errors.
use vpp_blockchain.Base.{Bool, none, some, codes}
use vpp_blockchain.Errors.{ErrorValue, nothing, object}

abbrev reverted : ErrorValue
reverted =
    object
      (record {
        code = none;
        status = none;
        message = none;
        short_message = none;
        response_body = none;
        response_status = none;
        reason = none;
        revert_name = some (codes "LastAdmin");
        not_sent = Bool.false;
      })
      nothing nothing nothing
