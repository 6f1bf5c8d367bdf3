-- ===== src/Virtqueue/Tests.antt =====
-- The queue's theorems at a queue of kernel/src/virtqueue.rs on one frame of blank memory, and the
-- handshake's at a device that offers all features.
use the_rack.Base.{
  ◌+◌, ◌%◌, ◌^◌, ◌<◌, ◌≡◌, refl, subst, true, false, some, List, [], ◌∷◌, ◌++◌, ok, arith,
  if◌then◌else◌, ◌==◌, leb,
}
use the_rack.Base.Words.{read_word}
use the_rack.Frames.Bitmap.{new, frame_size}
use the_rack.Frames.Allocator.{Memory, Frame, alloc}
use the_rack.Frames.Allocator.Alloc.{AllocReturns, alloc-AllocReturns, alloc_succeeds}
use the_rack.Frames.Allocator.RoundTrip.{SameMap}
use the_rack.Frames.Allocator.Sample.{
  booted, booted-Inv, booted_bytes, booted_at, booted_size, some_free,
}
use the_rack.Virtio.{Device, wrote, agree}
use the_rack.Virtio.Handshake.{AgreeReturns, agree-AgreeReturns}
use the_rack.Virtqueue
use the_rack.Virtqueue.{
  Buffer, Queue, Outcome, success, queue_size, used_offset, thread_free, add, take_used, used_index,
  used_head, used_length, read_field, release, queue_ready, queue_sel,
}
use the_rack.Virtqueue.Ring.{AreBytes}
use the_rack.Virtqueue.Chain.{drop}
use the_rack.Virtqueue.Filling.{AllWf}
use the_rack.Virtqueue.Adding.{AddReturns, Added, add-Added, add-AddReturns}
use the_rack.Virtqueue.Taking.{Taken, Finished, take_used-Taken}
use the_rack.Virtqueue.Threading.{range, thread_free-Threaded}
use the_rack.Virtqueue.Building.{NewReturns, new-NewReturns, fresh-Represents, new-some, told}
use the_rack.Virtqueue.Announce.{trace_of}
use the_rack.Virtqueue.Release.{new-release}
use the_rack.Virtqueue.Represents.{Request, Represents, Represents-same}
use the_rack.Virtqueue.Runs.{
  driver_takes, DeviceStep, IsHonest, Follows, Step-Follows, add-take_used,
}

abbrev rings : Frame
rings = 0x1000

abbrev blank : Memory
blank = record { bitmap = new; ram_base = 0; ram_length = 0; image_end = 0; bytes = λ a. 0 }

abbrev fresh : Queue
fresh = record {
  frame = rings;
  size = queue_size;
  free_head = 0;
  free_count = queue_size;
  last_used = 0;
}

threaded : Memory
threaded = thread_free queue_size 0 rings blank

fresh-Represents_here : Represents fresh threaded (range 0 queue_size) []
unfolding threaded AreBytes
fresh-Represents_here =
    fresh-Represents rings blank threaded (λ a. omega arith)
      (thread_free-Threaded rings queue_size 0 blank (omega arith))

-- A header that the device reads, and a block that it fills.
abbrev block_read : List Buffer
block_read =
    record { pa = 0x2000; len = 16; device_writes = false }
    ∷ record { pa = 0x3000; len = 512; device_writes = true }
    ∷ []

block_read-AllWf : AllWf block_read
unfolding AllWf
block_read-AllWf = (
  record { address_fits = omega arith; extent_fits = omega arith },
  (record { address_fits = omega arith; extent_fits = omega arith }, tt),
)

add-AddReturns_example :
    AddReturns fresh block_read threaded (range 0 queue_size) [] (add fresh block_read threaded)
add-AddReturns_example =
    add-AddReturns fresh block_read threaded (range 0 queue_size) [] fresh-Represents_here
      block_read-AllWf

queued :
    (q : Queue) × (n : Memory) × (add fresh block_read threaded ≡ ok (success 0, q, n))
    × Added fresh threaded (range 0 queue_size) [] block_read 0 q n
queued =
    add-Added fresh block_read threaded (range 0 queue_size) [] fresh-Represents_here
      block_read-AllWf (omega arith) (omega arith)

-- The device announces the request at head 0 and says that it wrote nothing.
answered : Memory
answered = record queued.1 {
  bytes = λ a.
      if leb (rings + used_offset) a
      then (if a == rings + used_offset + 2 then 1 else 0)
      else queued.1.bytes a;
}

device_step : DeviceStep rings queued.1 answered
unfolding answered AreBytes
device_step = record {
  own = λ a p q. ground arith;
  bytes_fit = λ a. ground (arith, queued.3.represents.bytes_fit a);
}

used_one : used_index rings answered ≡ 1
unfolding used_index read_field read_word answered
used_one = refl

names_zero : used_head rings 0 answered ≡ 0
unfolding used_head read_field read_word answered
names_zero = refl

request : Request
request = record { head = 0; slots = 0 ∷ 1 ∷ []; buffers = block_read }

in_flight_now : Represents queued.0 answered (drop 2 (range 0 queue_size)) ([] ++ request ∷ [])
unfolding request
in_flight_now =
    Represents-same queued.0 queued.1 answered (drop 2 (range 0 queue_size)) (request ∷ [])
      (rw queued.3.same_frame device_step.own) device_step.bytes_fit queued.3.represents

finished : Finished queued.0 answered request
unfolding request
finished = record {
  ahead = rw (queued.3.same_frame, queued.3.last_same, used_one) (λ e. absurd (omega (arith, e)));
  names = rw (queued.3.same_frame, queued.3.last_same) names_zero;
}

take_used-Taken_example :
    (q : Queue) × (n : Memory) × (take_used queued.0 answered
      ≡ ok (
        some (request.head, used_length queued.0.frame (queued.0.last_used % queue_size) answered),
        q,
        n,
      ))
    × Taken queued.0 answered (drop 2 (range 0 queue_size)) request ([] ++ []) q n
take_used-Taken_example =
    take_used-Taken queued.0 answered (drop 2 (range 0 queue_size)) [] [] request in_flight_now
      finished

honest : IsHonest queued.0 answered (request ∷ [])
unfolding IsHonest
honest ahead = ([], [], request, refl, finished)

taken_now :
    (q : Queue) × (n : Memory) × (take_used queued.0 answered
      ≡ ok (
        some (request.head, used_length queued.0.frame (queued.0.last_used % queue_size) answered),
        q,
        n,
      ))
    × Taken queued.0 answered (drop 2 (range 0 queue_size)) request ([] ++ []) q n
taken_now =
    take_used-Taken queued.0 answered (drop 2 (range 0 queue_size)) [] [] request in_flight_now
      finished

Step-Follows_example : Follows (drop 2 (range 0 queue_size)) (request ∷ []) taken_now.0 taken_now.1
Step-Follows_example =
    Step-Follows queued.0 taken_now.0 answered taken_now.1 (drop 2 (range 0 queue_size))
      (request ∷ []) in_flight_now honest
      (driver_takes queued.0 taken_now.0 answered taken_now.1 _ taken_now.2)

add-take_used_example :
    (p : Queue) × (l : Memory) × (take_used queued.0 answered
      ≡ ok (some (0, used_length rings 0 answered), p, l))
    × Represents p l (range 0 queue_size) []
    × (p.free_count ≡ queue_size)
add-take_used_example =
    add-take_used fresh queued.0 threaded queued.1 answered (range 0 queue_size) [] block_read 0
      fresh-Represents_here block_read-AllWf queued.2 device_step
      (λ e. absurd (omega (arith, e, used_one))) names_zero

-- A device that answers every read with all bits set.
abbrev eager : Device
eager t register = 0xffff_ffff

booted-AreBytes : AreBytes booted
unfolding AreBytes
booted-AreBytes a = omega (arith, booted_bytes a)

new-NewReturns_example : NewReturns eager 0 [] booted (Virtqueue.new eager 0 [] booted)
new-NewReturns_example = new-NewReturns eager 0 [] booted booted-Inv booted-AreBytes

agree-AgreeReturns_example : AgreeReturns eager 0 [] (agree eager 0 [])
agree-AgreeReturns_example = agree-AgreeReturns eager 0 []

-- A device that is ready at once.
abbrev idle_device : Device
idle_device t register = 0

first_frame : (n : Memory) × (frame : Frame) × (alloc booted ≡ ok (n, some frame))
first_frame = alloc_succeeds booted booted-Inv some_free

first_frame-lt : first_frame.1 + frame_size < 2 ^ 64
first_frame-lt =
    let (i, at, lowest, a) =
      subst (AllocReturns booted) first_frame.2 (alloc-AllocReturns booted booted-Inv) in
    omega (arith, at, a.within, booted_at, booted_size)

new-release_example :
    (o : Memory) × (release
        (record fresh { frame = first_frame.1 })
        0
        (trace_of first_frame.1 (told eager 0 [] booted))
        (thread_free queue_size 0 first_frame.1 first_frame.0)
      ≡ ok (
        wrote queue_ready 0 ∷ wrote queue_sel 0 ∷ trace_of first_frame.1 (told eager 0 [] booted),
        o,
      ))
    × SameMap booted o
new-release_example =
    new-release eager 0 [] _ booted _ _ booted-Inv booted-AreBytes
      (new-some eager 0 [] booted refl first_frame.0 first_frame.1 first_frame-lt first_frame.2)
