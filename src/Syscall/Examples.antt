-- ===== src/Syscall/Examples.antt =====
-- The theorems on system calls at some calls.
use mips_os.Common.{◌≡◌, refl, ok}
use mips_os.Syscall.{init_syscall, system_call_helper, do_spawn_with_priority}
use mips_os.Syscall.Stubs.{stub, process_call, sys_spawn_with_priority}
use mips_os.Syscall.Dispatch.{system_call_helper-stub, request, process_request}

system_call_helper-stub_example :
    system_call_helper init_syscall (stub (process_call (sys_spawn_with_priority 4096 2 8192)))
    ≡ ok (do_spawn_with_priority 4096 2 8192)
unfolding request process_request
system_call_helper-stub_example =
    system_call_helper-stub (process_call (sys_spawn_with_priority 4096 2 8192)) refl
