-- ===== src/Lifecycle/Tests.antt =====
-- The theorems on the ends of tasks, at a small kernel.
use the_rack.Base.{◌≡◌, refl, arith, ok, some, Yields}
use the_rack.Kernel.{Kernel, Fault, faulted, update}
use the_rack.Kernel.Sample.{asking, client, server}
use the_rack.Tasks.Sample.{free_spaces}
use the_rack.Lifecycle.{end_with_code, end_with_fault, restart}
use the_rack.Lifecycle.Slots.{Ended, Recorded, endings-Ended}
use the_rack.Lifecycle.Restart.{RestartReturns, restart-RestartReturns}

abbrev bad_access : Fault
bad_access = record { esr = 0x9200_0045; far = 0xdead_0000; elr = 0x0040_0010 }

endings-Ended_example :
    Ended 2 (end_with_code 0 asking)
    × ((n : Kernel) × (end_with_fault bad_access asking ≡ ok (tt, n))
        × Ended 2 n
        × Recorded 2 bad_access client n)
endings-Ended_example = endings-Ended 0 bad_access asking client refl

-- The server has faulted, and has an image to run again.
abbrev faulted_server : Kernel
faulted_server = record asking {
  tasks = update asking.tasks 1 (
      some (record server {
        stack = 0x9000;
        state = faulted;
        fault = some bad_access;
        image = some (record { start = 0x4010_0000; stop = 0x4010_2000; arg = 7 });
      }));
}

restart-RestartReturns_example :
    Yields
      (RestartReturns free_spaces 0x4008_0000 0x4008_1000 1 faulted_server)
      (restart free_spaces 0x4008_0000 0x4008_1000 1 faulted_server)
restart-RestartReturns_example =
    restart-RestartReturns free_spaces 0x4008_0000 0x4008_1000 1 faulted_server (omega arith)
      (omega arith)
