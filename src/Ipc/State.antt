-- ===== src/Ipc/State.antt =====
-- What the mediated calls of ipc/ read: the capability table, the service registry and the current
-- context, and the types of include/lettuce/message.h and kernel/include/kernel.h that they pass.
use lettuce_os.Base.{ℕ, Bool, Option, none}
use lettuce_os.Abi.{Status}
use lettuce_os.Capability
use lettuce_os.Capability.{Caps}
use lettuce_os.Kernel.Registry.{Registry, Descriptor, DispatchEntry}
use lettuce_os.Kernel.Context.{Context}

pub record Kernel : Type 0 where
  pub caps : Caps
  pub services : Registry
  pub context : Context

-- `LettuceCallMessage`
pub record Message : Type 0 where
  pub target_service_id : ℕ
  pub operation_id : ℕ
  pub resource_id : ℕ
  pub capability_handle : ℕ

-- `LettuceCallResolution`: the pointers' contents when they are taken
pub record Resolution : Type 0 where
  pub caller : Descriptor
  pub target : Descriptor
  pub entry : DispatchEntry

-- A status, and what was written through the `resolution` pointer
abbrev pub Validation : Type 0
Validation = Status × Option Resolution

abbrev pub refuse : Status → Validation
refuse s = (s, none)

-- `lettuce_capability_check` in the current context
abbrev pub check_capability : Kernel → Message → ℕ → Bool
check_capability k m permission =
    Capability.check k.caps k.context.service_id m.capability_handle m.target_service_id
      m.operation_id permission m.resource_id
