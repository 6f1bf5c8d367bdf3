-- ===== src/Syscall/Guards.antt =====
-- What the handlers of kernel/src/syscall.rs refuse.
use the_rack.Base.{
  ℕ, ◌≤◌, ◌≡◌, ◌≢◌, refl, inl, inr, false, some, arith, ◌==◌, Bool-cases, Option-cases, ◌||◌,
}
use the_rack.Frames.Allocator.{Frame}
use the_rack.Paging.{ap_rw_all, ap_ro_all}
use the_rack.Paging.Range.{RangePermits, user_readable_iff}
use the_rack.Kernel.{Kernel}
use the_rack.Kernel.Prog.{ret}
use the_rack.Tasks.{space_root_of}
use the_rack.Ipc.{eperm}
use the_rack.Lifecycle.{is_supervisor}
use the_rack.Syscall.{
  Machine, fault_wait, fault_info, restarts, dispatch, supervising, sys_fault_wait, sys_fault_info,
  sys_restart, sys_write, max_write,
}

no_supervisor : (k : Kernel) → k.supervisor ≢ some k.current → supervising k ≡ false
unfolding supervising is_supervisor
no_supervisor k other = elim (Option-cases k.supervisor) [
  | inl none_set ↦ rw none_set refl
  | inr (s, set) ↦ rw set (elim (Bool-cases (s == k.current)) [
    | inl same ↦ let same' : s ≡ k.current = ground arith in absurd (other (rw (← same') set))
    | inr apart ↦ apart
  ])
]

-- Only the task that is registered as the supervisor may wait for faults, read one or restart a task:
-- while it is any other task, or there is none, each of these calls answers its caller EPERM,
-- whatever its argument, and changes nothing.
pub dispatch_supervisor_only :
    (machine : Machine) (fuel : ℕ) (a : ℕ → ℕ) (k : Kernel)
    → k.supervisor ≢ some k.current
    → (dispatch machine fuel fault_wait a k ≡ ret (some (eperm, 0, 0)) k)
      × (dispatch machine fuel fault_info a k ≡ ret (some (eperm, 0, 0)) k)
      × (dispatch machine fuel restarts a k ≡ ret (some (eperm, 0, 0)) k)
unfolding dispatch sys_fault_wait sys_fault_info sys_restart
dispatch_supervisor_only machine fuel a k other =
    let no = no_supervisor k other in (rw no refl, rw no refl, rw no refl)

-- What a write that succeeded was entitled to.
pub record Written (fd buf len : ℕ) (k : Kernel) : Type 0 where
  pub to_console : fd ≡ 1
  pub short : len ≤ max_write
  pub root : Frame
  pub has_space : space_root_of k.current k ≡ some root
  pub readable : RangePermits root buf len (λ ap. ap == ap_rw_all || ap == ap_ro_all) k.memory

-- An answer of `write` that is no greater than what a write may print, so no error code, is the length
-- asked for. It is given only for file descriptor 1, for no more bytes than a write may print, and
-- for bytes that the caller itself may read.
pub sys_write-Written :
    (machine : Machine) (fuel fd buf len : ℕ) (k : Kernel)
    → sys_write machine fuel fd buf len k ≤ max_write
    → (sys_write machine fuel fd buf len k ≡ len) × Written fd buf len k
unfolding sys_write
sys_write-Written machine fuel fd buf len k h = elim (Option-cases (space_root_of k.current k)) [
  | inl no_space ↦ absurd (ground arith)
  | inr (root, space) ↦ (
    ground arith,
    record {
      to_console = ground arith;
      short = ground arith;
      root = root;
      has_space = space;
      readable = (user_readable_iff root buf len k.memory).0 (ground arith);
    },
  )
]
