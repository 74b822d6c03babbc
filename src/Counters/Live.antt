-- ===== src/Counters/Live.antt =====
-- What counters_get() reads does not depend on when the running periods were folded.
use signalk_esp_os_8relay.Base.{
  ◌⊎◌, ℕ, ◌+◌, ◌-◌, ◌*◌, ◌/◌, ◌^◌, ◌<◌, ◌≤◌, if◌then◌else◌, Bool, true, false, ◌&&◌, ◌==◌, ◌≡◌,
  refl, ap, ◌∙◌, arith, inl, inr, Bool-cases, lt→ltb,
}
use signalk_esp_os_8relay.Base.Words.{add32, sub32}
use package.signalk_esp_os_8relay.Counters.{
  Kind, Store, Slot, Counters, is_channel, whole_s, fold_running, fold_all, get, tick_begin,
  tick_end, tick_due, tick, save_now, flush_now,
}

-- The run time that counters_get() adds up for a slot.
abbrev live_s : ℕ → Slot → ℕ
live_s now slot = add32 slot.saved.runtime_s (whole_s now slot)

elapsed_later :
    (now since later : ℕ)
    → now < 2 ^ 32
    → since < 2 ^ 32
    → sub32 now since + later < 2 ^ 32
    → sub32 (add32 now later) since ≡ sub32 now since + later
elapsed_later now since later h k near = omega arith

-- The same after `w` whole seconds have been folded.
elapsed_folded :
    (now since later w : ℕ)
    → now < 2 ^ 32
    → since < 2 ^ 32
    → sub32 now since + later < 2 ^ 32
    → w * 1000 ≤ sub32 now since
    → sub32 (add32 now later) (add32 since (w * 1000)) ≡ sub32 now since + later - w * 1000
elapsed_folded now since later w h k near le = omega arith

seconds_split : (e w : ℕ) → w * 1000 ≤ e → w + (e - w * 1000) / 1000 ≡ e / 1000
seconds_split e w le = omega arith

add32-add32 : (r a b : ℕ) → add32 (add32 r a) b ≡ add32 r (a + b)
add32-add32 r a b = omega arith

-- The slot is off, or its running period, from where it was last folded, is shorter than 2^32 ms at
-- `later` after `now`.
abbrev pub IsRecent : ℕ → ℕ → Slot → Type 0
IsRecent now later slot =
    (slot.on ≡ false)
    ⊎ ((slot.on_since_ms < 2 ^ 32) × (sub32 now slot.on_since_ms + later < 2 ^ 32))

module _ (now later : ℕ) (slot : Slot) (h : now < 2 ^ 32) where
  folded-live :
      slot.on_since_ms < 2 ^ 32
      → sub32 now slot.on_since_ms + later < 2 ^ 32
      → (w : ℕ) → w ≡ sub32 now slot.on_since_ms / 1000
      → add32
          (add32 slot.saved.runtime_s w)
          (sub32 (add32 now later) (add32 slot.on_since_ms (w * 1000)) / 1000)
        ≡ add32 slot.saved.runtime_s (sub32 (add32 now later) slot.on_since_ms / 1000)
  folded-live k near w e =
      let since = slot.on_since_ms in
      let le : w * 1000 ≤ sub32 now since = omega arith in
      let le' : w * 1000 ≤ sub32 now since + later = omega arith in
      rw (elapsed_folded now since later w h k near le, elapsed_later now since later h k near)
        (add32-add32 slot.saved.runtime_s w ((sub32 now since + later - w * 1000) / 1000)
          ∙ ap (add32 slot.saved.runtime_s) (seconds_split (sub32 now since + later) w le'))

  fold_running-on :
      slot.on ≡ true
      → slot.on_since_ms < 2 ^ 32
      → sub32 now slot.on_since_ms + later < 2 ^ 32
      → live_s (add32 now later) (fold_running now slot) ≡ live_s (add32 now later) slot
  unfolding fold_running whole_s
  fold_running-on on k near = elim (Bool-cases (sub32 now slot.on_since_ms / 1000 == 0)) [
    | inl nil ↦ simp (on, nil) refl
    | inr few ↦ simp (on, few) (folded-live k near (sub32 now slot.on_since_ms / 1000) refl)
  ]

  fold_running-off :
      slot.on ≡ false
      → live_s (add32 now later) (fold_running now slot) ≡ live_s (add32 now later) slot
  unfolding fold_running whole_s
  fold_running-off off = simp off refl

  fold_running-live :
      IsRecent now later slot
      → live_s (add32 now later) (fold_running now slot) ≡ live_s (add32 now later) slot
  fold_running-live (inl off) = fold_running-off off
  fold_running-live (inr (k, near)) = elim (Bool-cases slot.on) [
    | inl on ↦ fold_running-on on k near
    | inr off ↦ fold_running-off off
  ]

module _ {World : Type 0} (hw : Store World) (s : Counters World) where
  tick-slots :
      (now : ℕ)
      → (tick hw now s).slots ≡ (if tick_due hw now s then (fold_all now s).slots else s.slots)
  unfolding tick tick_begin tick_end
  tick-slots now = ground arith

  tick-ready : (now : ℕ) → (tick hw now s).ready ≡ s.ready
  unfolding tick tick_begin tick_end fold_all
  tick-ready now = ground arith

  flush_now-slots :
      (now : ℕ) → (flush_now hw now s).slots ≡ (if s.ready then (fold_all now s).slots else s.slots)
  unfolding flush_now save_now
  flush_now-slots now = ground arith

  flush_now-ready : (now : ℕ) → (flush_now hw now s).ready ≡ s.ready
  unfolding flush_now save_now fold_all
  flush_now-ready now = ground arith

  module _ (now later : ℕ) (h : now < 2 ^ 32) where
    fold_all-live :
        (k : Kind) (i : ℕ)
        → IsRecent now later (s.slots k i)
        → i < 8
        → live_s (add32 now later) ((fold_all now s).slots k i)
          ≡ live_s (add32 now later) (s.slots k i)
    unfolding fold_all
    fold_all-live k i near l = rw (lt→ltb i 8 l) (fold_running-live now later (s.slots k i) h near)

    fold_all-cycles :
        (k : Kind) (i : ℕ) → ((fold_all now s).slots k i).saved.cycles ≡ (s.slots k i).saved.cycles
    unfolding fold_all fold_running
    fold_all-cycles k i = ground arith

    slot_same :
        (b : Bool) (slots : Kind → ℕ → Slot)
        → slots ≡ (if b then (fold_all now s).slots else s.slots)
        → (k : Kind) (i : ℕ) → IsRecent now later (s.slots k i)
        → i < 8
        → ((slots k i).saved.cycles ≡ (s.slots k i).saved.cycles)
          × (live_s (add32 now later) (slots k i) ≡ live_s (add32 now later) (s.slots k i))
    slot_same true slots e k i near l = (
      ap (λ f. (f k i).saved.cycles) e ∙ fold_all-cycles k i,
      ap (λ f. live_s (add32 now later) (f k i)) e ∙ fold_all-live k i near l,
    )
    slot_same false slots e k i near l =
        (ap (λ f. (f k i).saved.cycles) e, ap (λ f. live_s (add32 now later) (f k i)) e)

    -- Two states that show the same counts at a time.
    get-fold :
        (b : Bool) (s' : Counters World)
        → s'.ready ≡ s.ready
        → s'.slots ≡ (if b then (fold_all now s).slots else s.slots)
        → (k : Kind) (channel : ℕ) → IsRecent now later (s.slots k (channel - 1))
        → get k channel (add32 now later) s' ≡ get k channel (add32 now later) s
    unfolding get is_channel
    get-fold b s' r e k channel near = elim (Bool-cases (is_channel channel && s.ready)) [
      | inl c ↦
          let same = slot_same b s'.slots e k (channel - 1) near (ground (arith, c)) in
          simp (r, c) (ground (arith, same.0, same.1))
      | inr c ↦ simp (r, c) refl
    ]

    -- A tick changes no count that is read at the time of the tick or later, as long as the running
    -- period of the channel that is read, if it is on, has not lasted for 2^32 ms then, counted
    -- from where it was last folded.
    pub get-tick :
        (k : Kind) (channel : ℕ)
        → IsRecent now later (s.slots k (channel - 1))
        → get k channel (add32 now later) (tick hw now s) ≡ get k channel (add32 now later) s
    get-tick = get-fold (tick_due hw now s) (tick hw now s) (tick-ready now) (tick-slots now)

    -- A flush changes no count that is read at the time of the flush or later, as long as the
    -- running period of its channel, if there is one, counted from where it was last folded, has not
    -- lasted for 2^32 ms then.
    pub get-flush_now :
        (k : Kind) (channel : ℕ)
        → IsRecent now later (s.slots k (channel - 1))
        → get k channel (add32 now later) (flush_now hw now s) ≡ get k channel (add32 now later) s
    get-flush_now =
        get-fold s.ready (flush_now hw now s) (flush_now-ready now) (flush_now-slots now)
