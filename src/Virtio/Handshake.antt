-- ===== src/Virtio/Handshake.antt =====
-- The handshake of kernel/src/virtio.rs: the reset, and what the two sides agree on.
use the_rack.Base.{
  ℕ, zero, suc, ◌%◌, ◌^◌, ◌<◌, ◌≡◌, refl, ◌∙◌, ap, inl, inr, Bool, true, false, ◌&&◌, ◌||◌, some,
  ◌∷◌, arith, Bool-cases, ◌==◌, bit_and, bit_or,
}
use the_rack.Base.Bits.{bit, bit-bit_and, bit-bit_or, bit-pow, test_bit}
use the_rack.Virtio.{
  Trace, Device, Answer, agreed, failed, legacy, not_virtio, wrong_version, features_refused, wrote,
  read_from, last_written, status_reg, status_failed, virtio_f_version_1, device_features,
  set_driver_features, await_reset, agree, status_features_ok,
}

-- The trace after `k` reads of the status register.
pub status_reads : ℕ → Trace → Trace
status_reads zero t = t
status_reads (suc k) t = status_reads k (read_from status_reg ∷ t)

-- A device whose status reads zero after some number of reads ends the wait of `reset`: any fuel
-- above that number is enough.
pub await_reset_ends :
    (device : Device) (k fuel : ℕ) (t : Trace)
    → device (status_reads k t) status_reg % 2 ^ 32 ≡ 0
    → k < fuel
    → (t' : Trace) × (await_reset fuel device t ≡ some t')
unfolding await_reset status_reads
await_reset_ends device k zero t h l = absurd (omega arith)
await_reset_ends device zero (suc fuel) t h l =
    let still : (device t status_reg % 2 ^ 32 == 0) ≡ true = ground (arith, h) in
    (read_from status_reg ∷ t, rw still refl)
await_reset_ends device (suc k) (suc fuel) t h l =
    let (t', ran) = await_reset_ends device k fuel (read_from status_reg ∷ t) h (omega arith) in
    elim (Bool-cases (device t status_reg % 2 ^ 32 == 0)) [
      | inl still ↦ (read_from status_reg ∷ t, rw still refl)
      | inr busy ↦ (t', rw busy ran)
    ]

-- What the device offers in `agree`.
abbrev pub offered_in : Device → Trace → ℕ
offered_in device t = (device_features device (wrote status_reg 3 ∷ wrote status_reg 1 ∷ t)).0

-- The status was set to ACKNOWLEDGE, DRIVER and FEATURES_OK and then read, and `kept` is whether the
-- device answered with FEATURES_OK.
abbrev pub ReadBack : Device → Trace → Bool → Type 0
ReadBack device t kept =
    (before : Trace) × (t ≡ read_from status_reg ∷ before)
    × (last_written status_reg before ≡ some 11)
    × (bit (device before status_reg % 2 ^ 32) 3 ≡ kept)

-- What `agree` may answer.
abbrev pub AgreeReturns : Device → ℕ → Trace → Answer × Trace → Type 0
AgreeReturns device wanted t (agreed features, t') =
    ((k : ℕ) → bit features k ≡ (bit (offered_in device t) k && (bit wanted k || (32 == k))))
    × (bit features 32 ≡ true)
    × ReadBack device t' true
AgreeReturns device wanted t (failed (not_virtio magic), t') = ⊥
AgreeReturns device wanted t (failed (wrong_version version), t') = ⊥
AgreeReturns device wanted t (failed legacy, t') =
    (bit (offered_in device t) 32 ≡ false) × (last_written status_reg t' ≡ some status_failed)
AgreeReturns device wanted t (failed features_refused, t') =
    (bit (offered_in device t) 32 ≡ true)
    × ((before : Trace) × (t' ≡ wrote status_reg status_failed ∷ before)
        × ReadBack device before false)

module _ (device : Device) (wanted : ℕ) (t : Trace) where
  -- The features that `agree` settles on.
  settled : ℕ
  settled = bit_and (offered_in device t) (bit_or wanted virtio_f_version_1)

  settled_bits :
      (k : ℕ) → bit settled k ≡ (bit (offered_in device t) k && (bit wanted k || (32 == k)))
  unfolding settled
  settled_bits k =
      bit-bit_and (offered_in device t) (bit_or wanted virtio_f_version_1) k
      ∙ ap (λ x. bit (offered_in device t) k && x)
          (bit-bit_or wanted virtio_f_version_1 k ∙ ap (λ x. bit wanted k || x) (bit-pow 32 k))

  settled_modern : bit (offered_in device t) 32 ≡ true → bit settled 32 ≡ true
  settled_modern modern = ground (arith, settled_bits 32, modern)

  -- The trace when `agree` says FEATURES_OK.
  ready : Trace
  ready =
      wrote status_reg 11
      ∷ set_driver_features settled
          (device_features device (wrote status_reg 3 ∷ wrote status_reg 1 ∷ t)).1

  -- Once both sides speak the non-legacy specification.
  agree_modern :
      bit (offered_in device t) 32 ≡ true → AgreeReturns device wanted t (agree device wanted t)
  unfolding agree last_written settled ready
  agree_modern modern =
      let version : (bit_and (offered_in device t) virtio_f_version_1 == 0) ≡ false =
        ground (arith, test_bit (offered_in device t) 32) in
      elim (Bool-cases (bit_and (device ready status_reg % 2 ^ 32) status_features_ok == 0)) [
        | inl cleared ↦
            rw (version, cleared)
              (
                modern,
                (
                  read_from status_reg ∷ ready,
                  refl,
                  (
                    ready,
                    refl,
                    refl,
                    ground (arith, test_bit (device ready status_reg % 2 ^ 32) 3),
                  ),
                ),
              )
        | inr kept ↦
            rw (version, kept)
              (
                settled_bits,
                settled_modern modern,
                (ready, refl, refl, ground (arith, test_bit (device ready status_reg % 2 ^ 32) 3)),
              )
      ]

  agree_legacy :
      bit (offered_in device t) 32 ≡ false → AgreeReturns device wanted t (agree device wanted t)
  unfolding agree last_written
  agree_legacy old =
      let version : (bit_and (offered_in device t) virtio_f_version_1 == 0) ≡ true =
        ground (arith, test_bit (offered_in device t) 32) in
      rw version (old, refl)

-- After the reset, the handshake with any device either agrees or fails. It agrees on exactly the
-- features that the device offers and the driver wants, with bit 32 always wanted and always among
-- them; it fails as legacy exactly when the device does not offer bit 32, and leaves the status at
-- FAILED. If the device offers it, the driver sets the status to ACKNOWLEDGE, DRIVER and
-- FEATURES_OK and reads it back: it agrees exactly if the device kept FEATURES_OK, and otherwise
-- fails as refused and leaves the status at FAILED.
pub agree-AgreeReturns :
    (device : Device) (wanted : ℕ) (t : Trace)
    → AgreeReturns device wanted t (agree device wanted t)
agree-AgreeReturns device wanted t = elim (Bool-cases (bit (offered_in device t) 32)) [
  | inl modern ↦ agree_modern device wanted t modern
  | inr old ↦ agree_legacy device wanted t old
]
