-- ===== src/Arch/Demo/Services.antt =====
-- kernel/arch/arm64/main.c: the services of the demonstration, their entry points and the capabilities
-- that its scenarios create.
use lettuce_os.Base.{ℕ, ◌+◌, ◌≡◌, refl, true, Option, some, fill}
use lettuce_os.Abi.{ok, op_call, op_critical}
use lettuce_os.Capability
use lettuce_os.Capability.{Caps}
use lettuce_os.Kernel.Registry
use lettuce_os.Kernel.Registry.{Registry, Descriptor, find_entry, cleared}
use lettuce_os.Kernel.Dispatch
use lettuce_os.Ipc.State.{Kernel, Message, Resolution}
use lettuce_os.Ipc.SameLayer
use lettuce_os.Ipc.CrossLayer
use lettuce_os.Ipc.Elevator
use lettuce_os.Arch.Mmu.{domain_a, domain_b, domain_c}
use lettuce_os.Arch.Demo.{el0_service_va}

abbrev pub service_camera : ℕ
service_camera = 10

abbrev pub service_display : ℕ
service_display = 20

abbrev pub service_storage : ℕ
service_storage = 30

abbrev pub service_sensor : ℕ
service_sensor = 40

abbrev pub service_failing : ℕ
service_failing = 99

-- `OP_DRAW`, `OP_SAVE` and `OP_FAIL`
abbrev pub op_first : ℕ
op_first = 1

abbrev pub res_framebuffer : ℕ
res_framebuffer = 1

abbrev pub res_disk : ℕ
res_disk = 2

-- An active service in a layer and a domain
abbrev pub active : ℕ → ℕ → ℕ → Descriptor
active id layer domain = record { id = id; layer = layer; domain = domain; flags = 1 }

unfoldable pub register_services : Registry → Registry
register_services t =
    let a = (Registry.register (Registry.init t) (active service_camera 3 domain_a)).1 in
    let b = (Registry.register a (active service_display 3 domain_b)).1 in
    let c = (Registry.register b (active service_storage 3 domain_c)).1 in
    let d = (Registry.register c (active service_sensor 2 domain_c)).1 in
    (Registry.register d (active service_failing 3 domain_c)).1

-- `start` is where the kernel has the services' code, and the others are the entry points there.
unfoldable pub register_entries : Registry → ℕ → ℕ → ℕ → ℕ → Registry
register_entries t start display storage failing =
    let at : ℕ → Option ℕ = λ sym. some (el0_service_va start sym) in
    let a = (Dispatch.register t service_display op_first (at display)).1 in
    let b = (Dispatch.register a service_storage op_first (at storage)).1 in
    let c = (Dispatch.register b service_sensor op_first (at storage)).1 in
    (Dispatch.register c service_failing op_first (at failing)).1

-- A capability created by the demonstration: its handle, and the table
abbrev grants : Caps → ℕ → ℕ → ℕ → ℕ → ℕ × Caps
grants s owner target permissions resource =
    Capability.create s owner target op_first permissions resource

unfoldable pub create_cam_disp : Caps → ℕ × Caps
create_cam_disp s = grants s service_camera service_display op_call res_framebuffer

unfoldable pub create_cam_fail : Caps → ℕ × Caps
create_cam_fail s = grants s service_camera service_failing op_call res_framebuffer

unfoldable pub create_disp_storage : Caps → ℕ × Caps
create_disp_storage s = grants s service_display service_storage op_call res_disk

unfoldable pub create_cam_sensor : Caps → ℕ × Caps
create_cam_sensor s = grants s service_camera service_sensor op_call res_disk

unfoldable pub create_cam_elev : Caps → ℕ × Caps
create_cam_elev s = grants s service_camera service_sensor (op_call + op_critical) res_disk

-- The five capabilities, in the order of the scenarios
unfoldable pub create_all : Caps → Caps
create_all s =
    (create_cam_elev
      (create_cam_sensor
        (create_disp_storage (create_cam_fail (create_cam_disp (Capability.init s)).1).1).1).1).1

module _ (t : Registry) (s : Caps) (start display storage failing : ℕ) where
  -- The kernel with all of them, while the camera runs
  abbrev camera_runs : Kernel
  camera_runs = record {
    caps = create_all s;
    services = register_entries (register_services t) start display storage failing;
    context = record { service_id = service_camera; domain_id = domain_a };
  }

  abbrev request : ℕ → ℕ → ℕ → Message
  request target resource handle = record {
    target_service_id = target;
    operation_id = op_first;
    resource_id = resource;
    capability_handle = handle;
  }

  abbrev resolved : Descriptor → ℕ → Resolution
  resolved target sym = record {
    caller = active service_camera 3 domain_a;
    target = target;
    entry = record { entry = some (el0_service_va start sym); active = true };
  }

  -- Whatever the memory held before the boot, and wherever the code is: with the first handle the camera
  -- may call the display on the same layer, with the fourth the sensor across layers, and with the
  -- fifth the sensor by the elevator; and each is resolved to the registered code.
  camera_calls :
      (SameLayer.validate true camera_runs (request service_display res_framebuffer 65537)
        ≡ (ok, some (resolved (active service_display 3 domain_b) display)))
      × (CrossLayer.validate true camera_runs (some (request service_sensor res_disk 65540))
          ≡ (ok, some (resolved (active service_sensor 2 domain_c) storage)))
      × (Elevator.policy true camera_runs (some (request service_sensor res_disk 65541))
          ≡ (ok, some (resolved (active service_sensor 2 domain_c) storage)))
  unfolding SameLayer.validate CrossLayer.validate Elevator.policy register_services
      register_entries create_all create_cam_disp create_cam_fail create_disp_storage
      create_cam_sensor create_cam_elev Registry.init Registry.register Dispatch.register
      Dispatch.write_operation Capability.init Capability.create Capability.is_refused
      Capability.make_handle Registry.lookup Dispatch.lookup find_entry Capability.check
      Capability.check_slot Capability.decode_handle fill cleared
  camera_calls = (refl, refl, refl)
