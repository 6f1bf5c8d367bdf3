-- ===== src/Syscall/Tests.antt =====
-- The refusals of the system calls, at a small kernel.
use the_rack.Base.{◌≡◌, refl, true, some, arith}
use the_rack.Base.Bits.{bit}
use the_rack.Kernel.{Kernel}
use the_rack.Kernel.Prog.{ret}
use the_rack.Kernel.Sample.{listening}
use the_rack.Paging.{
  user_readable, user_range, allowed_pages, lookup, lookup_from, table_index, read_entry,
}
use the_rack.Paging.Words.{read_u64}
use the_rack.Tasks.{space_root_of}
use the_rack.Tasks.Sample.{free_spaces}
use the_rack.Ipc.{eperm}
use the_rack.Syscall.{Machine, dispatch, fault_wait, fault_info, restarts, sys_write}
use the_rack.Syscall.Guards.{Written, dispatch_supervisor_only, sys_write-Written}

abbrev machine : Machine
machine = record {
  spaces = free_spaces;
  is_utf8 = λ bytes buf len. true;
  tick_count = 0;
  trampoline = 0x4008_0000;
  user_entry = 0x4008_1000;
}

-- The client is running, and the server is the supervisor.
abbrev supervised : Kernel
supervised = record listening { supervisor = some 1 }

dispatch_supervisor_only_example :
    (dispatch machine 3 fault_wait (λ _. 1) supervised ≡ ret (some (eperm, 0, 0)) supervised)
    × (dispatch machine 3 fault_info (λ _. 1) supervised ≡ ret (some (eperm, 0, 0)) supervised)
    × (dispatch machine 3 restarts (λ _. 1) supervised ≡ ret (some (eperm, 0, 0)) supervised)
dispatch_supervisor_only_example =
    dispatch_supervisor_only machine 3 (λ _. 1) supervised (λ e. ground (arith, e))

writes : sys_write machine 3 1 8 16 listening ≡ 16
unfolding sys_write space_root_of user_readable user_range allowed_pages lookup lookup_from
    table_index read_entry read_u64 bit
writes = refl

sys_write-Written_example : (sys_write machine 3 1 8 16 listening ≡ 16) × Written 1 8 16 listening
sys_write-Written_example = sys_write-Written machine 3 1 8 16 listening (omega (arith, writes))
