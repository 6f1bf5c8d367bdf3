-- ===== src/Tasks/Tests.antt =====
-- The scheduler's theorems at a small kernel.
use the_rack.Base.{◌≡◌, refl, some}
use the_rack.Kernel.{Kernel, voluntary}
use the_rack.Kernel.Sample.{listening}
use the_rack.Tasks.{next_runnable, scan, unblock_deferred, switch_to_next}
use the_rack.Tasks.Sample.{free_spaces}
use the_rack.Tasks.Picker.{Picked, next_runnable-Picked}
use the_rack.Tasks.Switch.{Switches, switch_to_next-Switches}

next_runnable-Picked_example : Picked listening (next_runnable listening)
next_runnable-Picked_example = next_runnable-Picked listening

picks_client : next_runnable listening ≡ some 2
unfolding next_runnable scan
picks_client = refl

abbrev woken_server : Kernel
woken_server = (unblock_deferred 1 listening).1

switch_to_next-Switches_example :
    Switches woken_server (switch_to_next free_spaces voluntary woken_server)
switch_to_next-Switches_example = switch_to_next-Switches free_spaces voluntary woken_server
