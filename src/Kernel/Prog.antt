-- ===== src/Kernel/Prog.antt =====
-- Handlers as programs that may give up the CPU. `yield k resume` leaves the state `k`, in which
-- another task is current; when this task is current again it goes on as `resume` from the state
-- that it finds. So nothing is assumed of what runs in between. `halt` is a panic. `spent` is none: the
-- source goes on, and the model has used up the rounds that it gives an endless loop.
use the_rack.Base.{Result, ok, panic}
use the_rack.Kernel.{Kernel}

pub data Prog (A : Type 0) : Type 0 where
  ret : A → Kernel → Prog A
  yield : Kernel → (Kernel → Prog A) → Prog A
  halt : Prog A
  spent : Prog A

abbrev pub M : Type 0 → Type 0
M A = Kernel → Prog A

abbrev pub and_then : {A B : Type 0} → Prog A → (A → M B) → Prog B
and_then (ret a k) f = f a k
and_then (yield k resume) f = yield k (λ k'. and_then (resume k') f)
and_then halt f = halt
and_then spent f = spent

infixl 5 ◌>>=◌ ◌>>◌
abbrev pub ◌>>=◌ : {A B : Type 0} → M A → (A → M B) → M B
◌>>=◌ m f k = and_then (m k) f

abbrev pub ◌>>◌ : {B : Type 0} → M (Unit {0}) → M B → M B
◌>>◌ m n k = and_then (m k) (λ _. n)

abbrev pub return : {A : Type 0} → A → M A
return a k = ret a k

abbrev pub get : M Kernel
get k = ret k k

abbrev pub modify : (Kernel → Kernel) → M (Unit {0})
modify f k = ret tt (f k)

-- Code that gives its result and the state after it at once.
abbrev pub run : {A : Type 0} → (Kernel → A × Kernel) → M A
run f k = let (a, k') = f k in ret a k'

-- Code that may panic, which stops the machine.
abbrev pub attempt : {A : Type 0} → (Kernel → Result (A × Kernel)) → M A
attempt f k = elim (f k) [ panic ↦ halt | ok (a, k') ↦ ret a k' ]

-- `P` holds whenever the program gives up the CPU, and when it returns, if every state in which it is
-- resumed satisfies `P`.
abbrev pub Safe : {A : Type 0} → (Kernel → Type 0) → Prog A → Type 0
Safe P (ret a k) = P k
Safe P (yield k resume) = P k × ((k' : Kernel) → P k' → Safe P (resume k'))
Safe P halt = Unit
Safe P spent = Unit

pub Safe-and_then :
    {A B : Type 0} (P : Kernel → Type 0) (m : Prog A) (f : A → M B)
    → Safe P m
    → ((a : A) (k : Kernel) → P k → Safe P (f a k))
    → Safe P (and_then m f)
Safe-and_then P (ret a k) f safe step = step a k safe
Safe-and_then P (yield k resume) f (now, later) step =
    (now, λ k' p. Safe-and_then P (resume k') f (later k' p) step)
Safe-and_then P halt f safe step = tt
Safe-and_then P spent f safe step = tt
