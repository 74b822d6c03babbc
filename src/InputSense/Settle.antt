-- ===== src/InputSense/Settle.antt =====
-- What a poll makes of the inputs' levels.
use signalk_esp_os_8relay.Base.{
  ℕ, zero, suc, ◌<◌, if◌then◌else◌, Bool, true, false, ◌&&◌, ◌||◌, ◌==◌, ltb, leb, xor, ◌≡◌, refl,
  ap, ◌∙◌, arith, same_at,
}
use signalk_esp_os_8relay.Base.Bits.{test, bit, test-bit_xor, test-bit}
use signalk_esp_os_8relay.Base.Masks.{test-mask_of}
use signalk_esp_os_8relay.Base.Words.{add32, sub32}
use package.signalk_esp_os_8relay.InputSense.{Inputs, read_input, startup_grace_ms}
use package.signalk_esp_os_8relay.InputSense.Poll.{
  sampled, settled, settled_value, start_up, Accepted, accept_late, accept_change, accept_loop,
  accept, running, poll,
}

-- The input has not changed for the debounce time, as of a poll.
abbrev pub is_settled : ℕ → ℕ → Inputs → ℕ → Bool
is_settled raw now s i =
    leb s.cfg.debounce_ms (
      sub32 now (if xor (read_input s.cfg raw i) (s.candidate i) then now else s.candidate_since i))

pub test-settled :
    (raw now : ℕ) (s : Inputs) (i : ℕ)
    → i < 8
    → test (settled now (sampled raw now s)) i ≡ is_settled raw now s i
unfolding settled sampled
test-settled raw now s i h = test-mask_of 8 (is_settled raw now s) i ∙ ground arith

accept_late-stable : (i : ℕ) (a : Accepted) → (accept_late i a).stable ≡ a.stable
unfolding accept_late
accept_late-stable i a = ground arith

accept_late-changed : (i : ℕ) (a : Accepted) → (accept_late i a).changed ≡ a.changed
unfolding accept_late
accept_late-changed i a = ground arith

module _ (candidate : ℕ → Bool) where
  accept_change-stable :
      (i : ℕ) (a : Accepted) (j : ℕ)
      → test (accept_change candidate i a).stable j
        ≡ (if i == j then candidate j else test a.stable j)
  unfolding accept_change
  accept_change-stable i a j = ground (
    arith,
    test-bit_xor j a.stable (bit i),
    test-bit i j,
    same_at candidate i j,
    same_at (test a.stable) i j,
  )

  accept_loop-stable :
      (settled_ : ℕ) (a : Accepted) (n j : ℕ)
      → test (accept_loop candidate settled_ a n).stable j
        ≡ (if ltb j n && test settled_ j then candidate j else test a.stable j)
  unfolding accept_loop
  accept_loop-stable settled_ a zero j = ground arith
  accept_loop-stable settled_ a (suc n) j =
      let b = accept_loop candidate settled_ a n in
      let rest = accept_loop-stable settled_ a n j in
      let step =
        accept_change-stable n (accept_late n b) j
        ∙ ap (λ m. if n == j then candidate j else test m j) (accept_late-stable n b) in
      ground (arith, rest, step, same_at (test settled_) n j)

module _ (now : ℕ) (s : Inputs) where
  running-stable :
      (j : ℕ)
      → j < 8
      → test (running now s).0.stable j
        ≡ (if test (settled now s) j then s.candidate j else test s.stable j)
  unfolding running accept
  running-stable j h =
      let a =
        accept_loop-stable s.candidate (settled now s)
          (record { stable = s.stable; late = s.late; changed = 0; boot = 0 }) 8 j in
      ground (arith, a)

  running-ready : (running now s).0.ready ≡ s.ready
  unfolding running
  running-ready = ground arith

  pub start_up-ready : (start_up now s).0.ready ≡ (
      s.ready
      || (settled now s == 255)
      || leb (add32 s.cfg.debounce_ms startup_grace_ms) (sub32 now s.start_ms))
  unfolding start_up
  start_up-ready = ground arith

  pub start_up-stable :
      (j : ℕ)
      → j < 8
      → (start_up now s).0.ready ≡ true
      → s.ready ≡ false
      → test (start_up now s).0.stable j ≡ (test (settled now s) j && s.candidate j)
  unfolding start_up settled_value settled
  start_up-stable j h up down =
      let v =
        test-mask_of 8
          (λ i. leb s.cfg.debounce_ms (sub32 now (s.candidate_since i)) && s.candidate i) j in
      let m = test-mask_of 8 (λ i. leb s.cfg.debounce_ms (sub32 now (s.candidate_since i))) j in
      ground (arith, v, m)

module _ (raw now : ℕ) (s : Inputs) where
  sampled-ready : (sampled raw now s).ready ≡ s.ready
  unfolding sampled
  sampled-ready = refl

  poll-running : s.ready ≡ true → poll raw now s ≡ running now (sampled raw now s)
  unfolding poll
  poll-running up =
      ap (λ b. if b then running now (sampled raw now s) else start_up now (sampled raw now s))
        (sampled-ready ∙ up)

  pub poll-start_up : s.ready ≡ false → poll raw now s ≡ start_up now (sampled raw now s)
  unfolding poll
  poll-start_up down =
      ap (λ b. if b then running now (sampled raw now s) else start_up now (sampled raw now s))
        (sampled-ready ∙ down)

  stable_after :
      (i : ℕ)
      → i < 8
      → s.ready ≡ true
      → test (running now (sampled raw now s)).0.stable i
        ≡ (if is_settled raw now s i then read_input s.cfg raw i else test s.stable i)
  unfolding sampled
  stable_after i h up =
      running-stable now (sampled raw now s) i h
      ∙ ap (λ b. if b then read_input s.cfg raw i else test s.stable i) (test-settled raw now s i h)

  -- Once the inputs are ready, a poll takes over the level that was read for an input that has not
  -- changed for the debounce time, counted on a clock that wraps, and leaves every other input as
  -- it was reported.
  pub poll-stable :
      (i : ℕ)
      → i < 8
      → s.ready ≡ true
      → test (poll raw now s).0.stable i
        ≡ (if is_settled raw now s i then read_input s.cfg raw i else test s.stable i)
  poll-stable i h up = ap (λ r. test r.0.stable i) (poll-running up) ∙ stable_after i h up
