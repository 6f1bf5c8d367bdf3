-- ===== src/Notify/Tests.antt =====
-- The laws of notifications at a small kernel, and runs of the model.
use the_rack.Base.{ok, panic}
use the_rack.Kernel.{Kernel}
use the_rack.Kernel.Sample.{listening}
use the_rack.Notify.{route, free_route}

routed : Kernel
unfolding route free_route
routed = elim (route 33 1 4 listening) [ ok k ↦ k | panic ↦ listening ]
