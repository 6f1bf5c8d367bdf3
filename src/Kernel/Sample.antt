-- ===== src/Kernel/Sample.antt =====
-- A small kernel to evaluate the model on: the idle task, a server that waits in `recv`, and a client
-- that is running, both in one address space that maps the page at address 0.
use the_rack.Base.{ℕ, ◌||◌, Option, none, some, if◌then◌else◌, ◌==◌, false}
use the_rack.Frames.Bitmap.{new}
use the_rack.Frames.Allocator.{Memory, Frame}
use the_rack.Kernel.{
  Kernel, Task, State, runnable, blocked, Pending, recv_wait, reply_wait, no_outcome,
}

abbrev pub sample_root : Frame
sample_root = 0x1000

-- The lowest byte of an entry of the four tables: valid, and at the last level open to EL0.
abbrev sample_byte : ℕ → ℕ
sample_byte a =
    if a == 0x1000 || a == 0x2000 || a == 0x3000
    then 3
    else if a == 0x1001
    then 0x20
    else if a == 0x2001
    then 0x30
    else if a == 0x3001
    then 0x40
    else if a == 0x4000
    then 0x43
    else if a == 0x4001
    then 0x50
    else 0

abbrev pub sample_memory : Memory
sample_memory = record {
  bitmap = new;
  ram_base = 0;
  ram_length = 0;
  image_end = 0;
  bytes = sample_byte;
}

abbrev sample_task : ℕ → State → Option Frame → Task
sample_task priority state space = record {
  name = "task";
  space = space;
  sp = 0;
  stack = 0;
  owns_stack = false;
  priority = priority;
  state = state;
  exit_code = none;
  fault = none;
  image = none;
}

abbrev pub server : Task
server = sample_task 0 blocked (some sample_root)

abbrev pub client : Task
client = sample_task 1 runnable (some sample_root)

abbrev pub idle : Task
idle = sample_task 255 runnable none

abbrev pub sample_kernel : Option Pending → Kernel
sample_kernel first = record {
  memory = sample_memory;
  tasks = λ slot.
      if slot == 0
      then some idle
      else if slot == 1
      then some server
      else if slot == 2
      then some client
      else none;
  current = 2;
  log = record {
    origin = λ _. 0;
    target = λ _. 0;
    was_preemptive = λ _. false;
    len = 0;
    overflow = 0;
    preemptions = 0;
  };
  need_resched = false;
  empty_space = some 0x6000;
  active_root = sample_root;
  supervisor = none;
  fault_waiters = λ _. false;
  table = record {
    pending = λ slot. if slot == 1 then first else none;
    outcome = λ _. no_outcome;
    leases = λ _ _. record { base = 0; len = 16; attrs = 1 };
    lease_count = λ _. 1;
  };
  notify = record {
    routes = λ _. none;
    posted = λ _. 0;
    wanted = λ slot. if slot == 1 then 5 else 0;
  };
}

-- The server waits for a message.
abbrev pub listening : Kernel
listening = sample_kernel (some (recv_wait 8 64))

-- The server has asked the client, and waits for its answer.
abbrev pub asking : Kernel
asking = sample_kernel (
    some (
      reply_wait (record {
        target = 2;
        operation = 7;
        out = 0;
        out_len = 0;
        reply_buf = 8;
        reply_cap = 64;
      })))
