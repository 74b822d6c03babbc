-- ===== src/Counters/Kept.antt =====
-- Nothing that is not marked as dirty differs from what is stored, as long as no call of the module
-- comes between the two parts of counters_tick().
use signalk_esp_os_8relay.Base.{
  ℕ, zero, suc, ◌-◌, ◌<◌, if◌then◌else◌, Bool, true, false, ◌&&◌, ◌==◌, List, [], ◌∷◌, ◌≡◌, sym, ap,
  ◌∙◌, some, none, arith, inl, inr, Bool-cases, lt→ltb,
}
use package.signalk_esp_os_8relay.Counters.{
  Kind, relay, input, Snapshot, Store, Slot, Counters, is_channel, same_kind, put, whole_s,
  fold_running, any_folds, snapshot, fold_all, changed_slot, on_change, save_to, tick_begin,
  tick_end, tick_due, tick, save_now, flush_now, reset,
}

true_not_false : true ≡ false → ⊥
true_not_false e = cc

-- The calls of the module that change its state.
pub data Call : Type 0 where
  changes : Kind → (channel : ℕ) → (on : Bool) → (now : ℕ) → Call
  ticks flushes : (now : ℕ) → Call
  resets : Kind → (channel now : ℕ) → Call

module _ {World : Type 0} (hw : Store World) where
  unfoldable pub call : Call → Counters World → Counters World
  call (changes k channel on now) s = on_change k channel on now s
  call (ticks now) s = tick hw now s
  call (flushes now) s = flush_now hw now s
  call (resets k channel now) s = reset hw k channel now s

  abbrev pub run : List Call → Counters World → Counters World
  run [] s = s
  run (c ∷ calls) s = run calls (call c s)

any_folds-none :
    (now : ℕ) (slots : Kind → ℕ → Slot) (n : ℕ)
    → any_folds now slots n ≡ false
    → (k : Kind) (i : ℕ) → i < n
    → (whole_s now (slots k i) == 0) ≡ true
unfolding any_folds
any_folds-none now slots zero e k i l = absurd (omega arith)
any_folds-none now slots (suc n) e k i l = elim (Bool-cases (i == n)) [
  | inl same ↦ last k (ground (arith, same))
  | inr other ↦ any_folds-none now slots n (ground (arith, e)) k i (ground (arith, other))
]
  where
    last : (k : Kind) → i ≡ n → (whole_s now (slots k i) == 0) ≡ true
    last relay same = rw same (ground (arith, e))
    last input same = rw same (ground (arith, e))

fold_running-idle :
    (now : ℕ) (slot : Slot) → (whole_s now slot == 0) ≡ true → fold_running now slot ≡ slot
unfolding fold_running
fold_running-idle now slot e = ground (arith, e)

-- The slot that `put` replaces.
same_slot :
    (slots : Kind → ℕ → Slot) (k k' : Kind) (i j : ℕ)
    → (same_kind k k' && (i == j)) ≡ true
    → slots k' j ≡ slots k i
same_slot slots relay relay i j e = ap (slots relay) (ground (arith, e))
same_slot slots relay input i j e = absurd (true_not_false (sym e))
same_slot slots input relay i j e = absurd (true_not_false (sym e))
same_slot slots input input i j e = ap (slots input) (ground (arith, e))

changed_slot-saved :
    (on : Bool) (now : ℕ) (slot : Slot)
    → (changed_slot on now slot).1 ≡ false
    → (changed_slot on now slot).0.saved ≡ slot.saved
unfolding changed_slot
changed_slot-saved on now slot e = ground (arith, e)

module _ {World : Type 0} (hw : Store World) (stored : World → Snapshot) where
  -- The store as the flash library has it: a save that succeeds stores the blob, and one that fails
  -- leaves the old one.
  pub record Faithful : Type 0 where
    pub saves :
        (w : World) (snap : Snapshot)
        → (save_to hw w snap).1 ≡ true
        → stored (save_to hw w snap).0 ≡ snap
    pub fails :
        (w : World) (snap : Snapshot)
        → (save_to hw w snap).1 ≡ false
        → stored (save_to hw w snap).0 ≡ stored w

  -- If nothing is dirty, each channel is stored as it stands.
  unfoldable pub Kept : Counters World → Type 0
  Kept s = s.dirty ≡ false → (k : Kind) (i : ℕ) → i < 8 → stored s.world k i ≡ (s.slots k i).saved

  fold_all-Kept : (now : ℕ) (s : Counters World) → Kept s → Kept (fold_all now s)
  unfolding fold_all Kept
  fold_all-Kept now s kept d k i l =
      let quiet = any_folds-none now s.slots 8 (ground (arith, d)) k i l in
      let same : fold_running now (s.slots k i) ≡ s.slots k i =
        fold_running-idle now (s.slots k i) quiet in
      kept (ground (arith, d)) k i l
      ∙ sym (
          ap (λ b. (if b then fold_running now (s.slots k i) else s.slots k i).saved) (lt→ltb i 8 l)
          ∙ ap (λ (r : Slot). r.saved) same)

  quiet_end : (now : ℕ) (s : Counters World) → Kept s → Kept (tick_end hw now none s)
  unfolding tick_end Kept
  quiet_end now s kept = kept

  on_change-Kept :
      (k : Kind) (channel : ℕ) (on : Bool) (now : ℕ) (s : Counters World)
      → Kept s
      → Kept (on_change k channel on now s)
  unfolding on_change put Kept
  on_change-Kept k channel on now s kept =
      let slot = s.slots k (channel - 1) in
      elim (Bool-cases (is_channel channel && s.ready)) [
        | inr e ↦ simp e kept
        | inl e ↦ simp e (λ d k' i l.
            let before = kept (ground (arith, d)) k' i l in
            let marks : (changed_slot on now slot).1 ≡ false = ground (arith, d) in
            let same = changed_slot-saved on now slot marks in
            elim (Bool-cases (same_kind k k' && (channel - 1 == i))) [
              | inl here ↦ simp here (
                  before
                  ∙ ap (λ (r : Slot). r.saved) (same_slot s.slots k k' (channel - 1) i here)
                  ∙ sym same)
              | inr there ↦ simp there before
            ])
      ]

  module _ (f : Faithful) where
    save_now-Kept : (now : ℕ) (s : Counters World) → Kept s → Kept (save_now hw now s)
    unfolding save_now snapshot Kept
    save_now-Kept now s kept = elim (Bool-cases (save_to hw s.world (snapshot s.slots)).1) [
      | inl e ↦ rw e (λ _ k i l. ap (λ m. m k i) (f.saves s.world (snapshot s.slots) e))
      | inr e ↦
          rw e (λ d k i l. ap (λ m. m k i) (f.fails s.world (snapshot s.slots) e) ∙ kept d k i l)
    ]

    tick_end-Kept :
        (now : ℕ) (s : Counters World)
        → s.dirty ≡ true
        → Kept (tick_end hw now (some (snapshot s.slots)) s)
    unfolding tick_end snapshot Kept
    tick_end-Kept now s marked = elim (Bool-cases (save_to hw s.world (snapshot s.slots)).1) [
      | inl e ↦ rw e (λ _ k i l. ap (λ m. m k i) (f.saves s.world (snapshot s.slots) e))
      | inr e ↦ rw e (λ d. absurd (true_not_false (sym marked ∙ d)))
    ]

    tick_body-Kept :
        (now : ℕ) (s : Counters World)
        → Kept s
        → Kept (tick_end hw now (tick_begin hw now s).1 (tick_begin hw now s).0)
    unfolding tick_begin Kept
    tick_body-Kept now s kept =
        let s1 = fold_all now s in
        elim (Bool-cases s1.dirty) [
          | inl e ↦ simp e (tick_end-Kept now s1 e)
          | inr e ↦ simp e (quiet_end now s1 (fold_all-Kept now s kept))
        ]

    tick-Kept : (now : ℕ) (s : Counters World) → Kept s → Kept (tick hw now s)
    unfolding tick Kept
    tick-Kept now s kept = elim (Bool-cases (tick_due hw now s)) [
      | inl e ↦ simp e (tick_body-Kept now s kept)
      | inr e ↦ simp e kept
    ]

    flush_now-Kept : (now : ℕ) (s : Counters World) → Kept s → Kept (flush_now hw now s)
    unfolding flush_now Kept
    flush_now-Kept now s kept = elim (Bool-cases s.ready) [
      | inl e ↦ simp e (save_now-Kept now (fold_all now s) (fold_all-Kept now s kept))
      | inr e ↦ simp e kept
    ]

    reset-Kept :
        (k : Kind) (channel now : ℕ) (s : Counters World) → Kept s → Kept (reset hw k channel now s)
    unfolding reset Kept
    reset-Kept k channel now s kept = elim (Bool-cases (is_channel channel && s.ready)) [
      | inl e ↦ simp e (save_now-Kept now _ (λ d. absurd (true_not_false d)))
      | inr e ↦ simp e kept
    ]

  -- If, whenever nothing is marked as dirty, every channel is stored as it stands, that is so after
  -- any sequence of reports, ticks, flushes and resets, each of which ends before the next begins:
  -- this for a store whose saves that succeed store the blob and whose saves that fail leave the
  -- old one.
  pub run-Kept :
      Faithful → (calls : List Call) (s : Counters World) → Kept s → Kept (run hw calls s)
  unfolding call
  run-Kept f [] s kept = kept
  run-Kept f (c ∷ calls) s kept = run-Kept f calls (call hw c s) (step c)
    where
      step : (c : Call) → Kept (call hw c s)
      step (changes k channel on now) = on_change-Kept k channel on now s kept
      step (ticks now) = tick-Kept f now s kept
      step (flushes now) = flush_now-Kept f now s kept
      step (resets k channel now) = reset-Kept f k channel now s kept
