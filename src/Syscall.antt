-- ===== src/Syscall.antt =====
-- kernel/src/syscall.rs: the dispatcher. `None` of a result is fuel run out in a waiting loop. What
-- is not the kernel's state, the console and the timer's count, are parameters.
pub mod Guards
mod Tests
use the_rack.Base.{
  ℕ, zero, suc, ◌+◌, Bool, true, false, not, Option, none, some, if◌then◌else◌, ◌==◌, ltb,
}
use the_rack.Frames.Allocator.{Memory, Frame}
use the_rack.Paging.{user_readable, translate}
use the_rack.Kernel.{Kernel, Fault, max_tasks}
use the_rack.Kernel.Prog.{
  Prog, M, ret, yield, halt, and_then, ◌>>=◌, ◌>>◌, return, get, modify, attempt,
}
use the_rack.Tasks.{Spaces, space_root_of, yield_now}
use the_rack.Ipc.Lending
use the_rack.Ipc.Sending
use the_rack.Ipc.Receiving
use the_rack.Ipc.Answering
use the_rack.Ipc.{einval, efault, eperm}
use the_rack.Lifecycle.{exit_current, wait_for_fault, fault_of, is_supervisor, restart}

abbrev pub max_write : ℕ
max_write = 4096

-- The numbers of the calls, in the order of their constants.
pub data Number : Type 0 where
  exit write yields getpid send recv reply borrow_read borrow_write : Number
  fault_wait fault_info restarts ticks unknown : Number

abbrev pub decode : ℕ → Number
decode n =
    if n == 0
    then exit
    else if n == 1
    then write
    else if n == 2
    then yields
    else if n == 3
    then getpid
    else if n == 4
    then send
    else if n == 5
    then recv
    else if n == 6
    then reply
    else if n == 7
    then borrow_read
    else if n == 8
    then borrow_write
    else if n == 9
    then fault_wait
    else if n == 10
    then fault_info
    else if n == 11
    then restarts
    else if n == 12
    then ticks
    else unknown

abbrev pub Reply : Type 0
Reply = ℕ × ℕ × ℕ

-- Whether the caller is the supervisor.
pub supervising : Kernel → Bool
supervising k = is_supervisor k.current k

pub sys_fault_info : ℕ → Kernel → Reply
sys_fault_info id k =
    if not (supervising k)
    then (eperm, 0, 0)
    else if not (ltb id max_tasks)
    then (einval, 0, 0)
    else elim (fault_of id k) [
      | some fault ↦ (fault.esr, fault.far, fault.elr)
      | none ↦ (einval, 0, 0)
    ]

-- A byte at a user's address, as the kernel reads it through the tables that are active.
pub user_byte : Frame → Memory → ℕ → ℕ
user_byte root m va = elim (translate root va m) [ none ↦ 0 | some pa ↦ m.bytes pa ]

-- The machine around the handlers: whether bytes are UTF-8 (the console prints them if so), the
-- timer's tick count, and the addresses that `restart` plants.
pub record Machine : Type 0 where
  pub spaces : Spaces
  pub is_utf8 : (ℕ → ℕ) → ℕ → ℕ → Bool
  pub tick_count : ℕ
  pub trampoline : ℕ
  pub user_entry : ℕ

module _ (machine : Machine) (fuel : ℕ) where
  open machine use {spaces, is_utf8, tick_count, trampoline, user_entry}

  pub sys_write : ℕ → ℕ → ℕ → Kernel → ℕ
  sys_write fd buf len k =
      if not (fd == 1)
      then einval
      else if ltb max_write len
      then einval
      else elim (space_root_of k.current k) [
        | none ↦ efault
        | some root ↦
            if not (user_readable root buf len k.memory)
            then efault
            else if is_utf8 (user_byte root k.memory) buf len
            then len
            else einval
      ]

  pub sys_fault_wait : M (Option Reply)
  sys_fault_wait = do
    k ← get
    if not (supervising k) then return (some (eperm, 0, 0)) else do
      id ← wait_for_fault spaces fuel
      return (elim id [ none ↦ none | some id ↦ some (id, 0, 0) ])

  pub sys_restart : ℕ → M ℕ
  sys_restart id = do
    k ← get
    if not (supervising k)
        then return eperm
        else if not (ltb id max_tasks)
        then return einval
        else do
          restarted ← attempt (restart spaces trampoline user_entry id)
          return (if restarted then 0 else einval)

  -- `a` reads the argument registers x0 to x7.
  pub dispatch : Number → (ℕ → ℕ) → M (Option Reply)
  dispatch exit a = do exit_current spaces fuel (a 0); return none
  dispatch write a = do k ← get; return (some (sys_write (a 0) (a 1) (a 2) k, 0, 0))
  dispatch yields a = do yield_now spaces; return (some (0, 0, 0))
  dispatch getpid a = do k ← get; return (some (k.current, 0, 0))
  dispatch send a = do
    r ← Sending.send spaces (a 0) (a 1) (a 2) (a 3) (a 4) (a 5) (a 6) (a 7)
    return (some (r.0, r.1, 0))
  dispatch recv a = Receiving.recv spaces fuel (a 0) (a 1) (a 2)
  dispatch reply a = do r ← Answering.reply spaces (a 0) (a 1) (a 2) (a 3); return (some (r, 0, 0))
  dispatch borrow_read a = do
    k ← get
    let done = Lending.borrow_read (a 0) (a 1) (a 2) (a 3) (a 4) k
    modify (λ _. done.0)
    return (some (done.1, 0, 0))
  dispatch borrow_write a = do
    k ← get
    let done = Lending.borrow_write (a 0) (a 1) (a 2) (a 3) (a 4) k
    modify (λ _. done.0)
    return (some (done.1, 0, 0))
  dispatch fault_wait a = sys_fault_wait
  dispatch fault_info a = do k ← get; return (some (sys_fault_info (a 0) k))
  dispatch restarts a = do r ← sys_restart (a 0); return (some (r, 0, 0))
  dispatch ticks a = return (some (tick_count, 0, 0))
  dispatch unknown a = return (some (einval, 0, 0))
