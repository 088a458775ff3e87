-- ===== src/Abi.antt =====
-- include/lettuce/errors.h, types.h and capability.h: statuses, identifiers and permission bits.
-- Identifiers are 32-bit words and are only compared, so an identifier is any number; the value 0
-- is the invalid one of each kind.
use lettuce_os.Base.{ℕ, Bool, true, false}

-- `LettuceStatus`
pub data Status : Type 0 where
  ok error invalid_argument denied not_found busy timeout unavailable not_supported : Status
  aborted overflow internal invalid_state invalid_service inactive_service : Status
  different_layer capability_denied invalid_operation invalid_resource : Status
  invalid_target_entry : Status

-- The number of a status
unfoldable pub code : Status → ℕ
code ok = 0
code error = 1
code invalid_argument = 2
code denied = 3
code not_found = 4
code busy = 5
code timeout = 6
code unavailable = 7
code not_supported = 8
code aborted = 9
code overflow = 10
code internal = 11
code invalid_state = 12
code invalid_service = 13
code inactive_service = 14
code different_layer = 15
code capability_denied = 16
code invalid_operation = 17
code invalid_resource = 18
code invalid_target_entry = 19

-- `status == LETTUCE_STATUS_OK`
abbrev pub is_ok : Status → Bool
is_ok ok = true
is_ok _ = false

abbrev pub service_id_invalid : ℕ
service_id_invalid = 0

abbrev pub resource_id_invalid : ℕ
resource_id_invalid = 0

abbrev pub domain_id_invalid : ℕ
domain_id_invalid = 0

abbrev pub operation_id_invalid : ℕ
operation_id_invalid = 0

-- Permission masks (`LettuceCapabilityOperation`)
abbrev pub op_none : ℕ
op_none = 0

abbrev pub op_call : ℕ
op_call = 1

abbrev pub op_read : ℕ
op_read = 2

abbrev pub op_write : ℕ
op_write = 4

abbrev pub op_critical : ℕ
op_critical = 32
