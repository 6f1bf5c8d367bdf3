-- ===== src/Frames/Allocator/Scan.antt =====
-- The scans over the bitmap in `reserve_range`, `adopt` and `alloc_contiguous`.
use the_rack.Base.{
  ℕ, zero, suc, ◌+◌, ◌≤◌, ◌<◌, ◌≡◌, refl, ap, ◌⊎◌, inl, inr, Bool, true, false, Option, none, some,
  ok, arith, Bool-cases, ltb, ◌==◌, if◌then◌else◌,
}
use the_rack.Frames.Bitmap.{Bitmap, max_frames}
use the_rack.Frames.Bitmap.Bit.{taken, IsWf, is_set_lem}
use the_rack.Frames.Allocator.{find_taken, find_run}

-- The answer of a scan of the indices from `i` up to `e` for a taken one.
abbrev pub FirstTaken : Bitmap → ℕ → ℕ → Option ℕ → Type 0
FirstTaken b i e none = (j : ℕ) → i ≤ j → j < e → taken b j ≡ false
FirstTaken b i e (some k) =
    (i ≤ k) × (k < e) × (taken b k ≡ true) × ((j : ℕ) → i ≤ j → j < k → taken b j ≡ false)

FirstTaken-suc :
    (b : Bitmap) (i e : ℕ) (o : Option ℕ)
    → taken b i ≡ false
    → FirstTaken b (i + 1) e o
    → FirstTaken b i e o
FirstTaken-suc b i e none clear rest = λ j p q. elim (Bool-cases (j == i)) [
  | inl same ↦ let e : j ≡ i = ground arith in rw e clear
  | inr other ↦ rest j (ground arith) q
]
FirstTaken-suc b i e (some k) clear (p, q, t, below) = (
  omega arith,
  q,
  t,
  λ j r s. elim (Bool-cases (j == i)) [
    | inl same ↦ let e : j ≡ i = ground arith in rw e clear
    | inr other ↦ below j (ground arith) s
  ],
)

pub find_taken-FirstTaken :
    (n i e : ℕ) (b : Bitmap)
    → i + n ≡ e
    → e ≤ max_frames
    → IsWf b
    → (o : Option ℕ) × (find_taken n i b ≡ ok o) × FirstTaken b i e o
unfolding find_taken
find_taken-FirstTaken zero i e b s h wf = (none, refl, λ j p q. absurd (omega arith))
find_taken-FirstTaken (suc n) i e b s h wf = elim (Bool-cases (taken b i)) [
  | inl hit ↦ (
    some i,
    ground (arith, is_set_lem b i wf),
    (omega arith, omega arith, hit, λ j p q. absurd (omega arith)),
  )
  | inr miss ↦
      let (o, ran, first) = find_taken-FirstTaken n (i + 1) e b (omega arith) h wf in
      (o, ground (arith, is_set_lem b i wf), FirstTaken-suc b i e o miss first)
]

-- No run of `count` free indices starts at `s`.
abbrev pub Blocked : (ℕ → Bool) → ℕ → ℕ → Type 0
Blocked f count s = (j : ℕ) × (s ≤ j) × (j < s + count) × (f j ≡ true)

-- First fit: the lowest start of `count` free indices below `stop`, if there is one.
abbrev pub FirstRun : (ℕ → Bool) → ℕ → ℕ → Option ℕ → Type 0
FirstRun f count stop none = (s : ℕ) → s + count ≤ stop → Blocked f count s
FirstRun f count stop (some s) =
    (s + count ≤ stop)
    × ((j : ℕ) → s ≤ j → j < s + count → f j ≡ false)
    × ((r : ℕ) → r < s → Blocked f count r)

-- Where the scan stands before `index`: the last `run` indices, from `start` on, are free, and every
-- earlier start is ruled out.
record Scanned (f : ℕ → Bool) (count index start run : ℕ) : Type 0 where
  short : run < count
  begins : start + run ≡ index
  run_free : (j : ℕ) → start ≤ j → j < index → f j ≡ false
  ruled_out : (r : ℕ) → r < start → Blocked f count r

module _ (f : ℕ → Bool) (count index start run : ℕ) (s : Scanned f count index start run) where
  Scanned-taken : f index ≡ true → Scanned f count (index + 1) (index + 1) 0
  Scanned-taken hit = record {
    short = omega (arith, s.short);
    begins = omega arith;
    run_free = λ j p q. absurd (omega arith);
    ruled_out = λ r h. elim (Bool-cases (ltb r start)) [
      | inl earlier ↦ s.ruled_out r (ground arith)
      | inr later ↦ (index, omega arith, ground (arith, s.short, s.begins), hit)
    ];
  }

  run_free-suc : f index ≡ false → (j : ℕ) → start ≤ j → j < index + 1 → f j ≡ false
  run_free-suc miss j p q = elim (Bool-cases (j == index)) [
    | inl same ↦ let e : j ≡ index = ground arith in rw e miss
    | inr other ↦ s.run_free j p (ground arith)
  ]

  Scanned-free : f index ≡ false → run + 1 < count → Scanned f count (index + 1) start (run + 1)
  Scanned-free miss h = record {
    short = h;
    begins = omega (arith, s.begins);
    run_free = run_free-suc miss;
    ruled_out = s.ruled_out;
  }

  ran_out : FirstRun f count index none
  ran_out = λ r h. s.ruled_out r (omega (arith, s.short, s.begins))

  run_found :
      (stop : ℕ)
      → f index ≡ false
      → count ≤ run + 1
      → index < stop
      → FirstRun f count stop (some start)
  run_found stop miss h k = (
    omega (arith, s.short, s.begins),
    λ j p q. run_free-suc miss j p (omega (arith, s.short, s.begins)),
    s.ruled_out,
  )

find_run-FirstRun :
    (count n index run_start run start stop : ℕ) (b : Bitmap)
    → index + n ≡ stop
    → stop ≤ max_frames
    → IsWf b
    → Scanned (taken b) count index start run
    → (run ≡ 0) ⊎ (run_start ≡ start)
    → (o : Option ℕ) × (find_run count n index run_start run b ≡ ok o)
      × FirstRun (taken b) count stop o
unfolding find_run
find_run-FirstRun count zero index run_start run start stop b e h wf s known =
    let same : stop ≡ index = omega arith in
    (none, refl, rw same (ran_out (taken b) count index start run s))
find_run-FirstRun count (suc n) index run_start run start stop b e h wf s known =
    let read = is_set_lem b index wf (omega arith) in
    elim (Bool-cases (taken b index)) [
      | inl hit ↦
          let (o, ran, first) =
            find_run-FirstRun count n (index + 1) run_start 0 (index + 1) stop b (omega arith) h wf
              (Scanned-taken (taken b) count index start run s hit) (inl refl) in
          (o, rw (read, hit) ran, first)
      | inr miss ↦
          let from = if run == 0 then index else run_start in
          let begun : from ≡ start = ground (arith, s.begins) in
          elim (Bool-cases (ltb (run + 1) count)) [
            | inl short ↦
                let (o, ran, first) =
                  find_run-FirstRun count n (index + 1) from (run + 1) start stop b (omega arith) h
                    wf (Scanned-free (taken b) count index start run s miss (ground arith))
                    (inr begun) in
                (o, rw (read, miss, short) ran, first)
            | inr enough ↦ (
              some start,
              rw (read, miss, enough) (ap (λ t. ok (some t)) begun),
              run_found (taken b) count index start run s stop miss (ground arith) (omega arith),
            )
          ]
    ]

-- The scan as `alloc_contiguous` starts it is first fit over the first `stop` frames.
pub find_run_lem :
    (count stop : ℕ) (b : Bitmap)
    → 0 < count
    → stop ≤ max_frames
    → IsWf b
    → (o : Option ℕ) × (find_run count stop 0 0 0 b ≡ ok o) × FirstRun (taken b) count stop o
find_run_lem count stop b h k wf =
    find_run-FirstRun count stop 0 0 0 0 stop b (omega arith) k wf
      (record {
        short = h;
        begins = refl;
        run_free = λ j p q. absurd (omega arith);
        ruled_out = λ r q. absurd (omega arith);
      })
      (inl refl)
