-- ===== src/Counters/Race.antt =====
-- A cycle that is counted while counters_tick() writes the store, after it has given the lock back
-- and before it takes it again.
use signalk_esp_os_8relay.Base.{
  ℕ, suc, ◌<◌, if◌then◌else◌, true, false, ◌≡◌, refl, ap, ◌∙◌, some, none, arith, lt→ltb,
}
use signalk_esp_os_8relay.Base.Words.{add32}
use package.signalk_esp_os_8relay.Counters.{
  Kind, relay, input, Channel, Snapshot, Store, Slot, Counters, is_channel, same_kind, put, whole_s,
  fold_running, snapshot, fold_all, changed_slot, on_change, save_to, tick_begin, tick_end,
}
use package.signalk_esp_os_8relay.Counters.Kept.{Faithful}

same_kind_refl : (k : Kind) → same_kind k k ≡ true
same_kind_refl relay = refl
same_kind_refl input = refl

fold_running-off : (now : ℕ) (slot : Slot) → slot.on ≡ false → fold_running now slot ≡ slot
unfolding fold_running whole_s
fold_running-off now slot off = simp off refl

module _ {World : Type 0} (k : Kind) (i now : ℕ) (l : i < 8) where
  -- A channel that comes on is counted.
  on_change-counts :
      (s : Counters World)
      → s.ready ≡ true
      → (s.slots k i).seen ≡ true
      → (s.slots k i).on ≡ false
      → ((on_change k (suc i) true now s).slots k i).saved.cycles
        ≡ add32 (s.slots k i).saved.cycles 1
  unfolding on_change put changed_slot is_channel
  on_change-counts s ready seen off =
      ground (arith, ready, seen, off, same_kind_refl k, lt→ltb i 8 l)

  on_change-world : (s : Counters World) → (on_change k (suc i) true now s).world ≡ s.world
  unfolding on_change
  on_change-world s = ground arith

  fold_all-off :
      (s : Counters World) → (s.slots k i).on ≡ false → (fold_all now s).slots k i ≡ s.slots k i
  unfolding fold_all
  fold_all-off s off =
      ap (λ b. if b then fold_running now (s.slots k i) else s.slots k i) (lt→ltb i 8 l)
      ∙ fold_running-off now (s.slots k i) off

  fold_all-ready : (s : Counters World) → (fold_all now s).ready ≡ s.ready
  unfolding fold_all
  fold_all-ready s = refl

  -- The second part of the tick, with the blob that the first part took of `s1`, at `s2`.
  tick_end-old :
      (hw : Store World) (stored : World → Snapshot)
      → Faithful hw stored
      → (s1 s2 : Counters World) → s2.world ≡ s1.world
      → (save_to hw s1.world (snapshot s1.slots)).1 ≡ true
      → ((tick_end hw now (some (snapshot s1.slots)) s2).dirty ≡ false)
        × (stored (tick_end hw now (some (snapshot s1.slots)) s2).world k i ≡ (s1.slots k i).saved)
        × ((tick_end hw now (some (snapshot s1.slots)) s2).slots ≡ s2.slots)
  unfolding tick_end snapshot
  tick_end-old hw stored f s1 s2 same saved =
      let snap = snapshot s1.slots in
      let done : (save_to hw s2.world snap).1 ≡ true =
        ap (λ w. (save_to hw w snap).1) same ∙ saved in
      (
        ap (λ b. if b then false else s2.dirty) done,
        ap (λ m. m k i) (f.saves s2.world snap done),
        refl,
      )

  module _ (hw : Store World) (stored : World → Snapshot) (f : Faithful hw stored)
      (s : Counters World) where
    -- `counters_tick` with that call in between.
    abbrev pub raced : Counters World
    raced =
        let s1 = (tick_begin hw now s).0 in
        tick_end hw now (tick_begin hw now s).1 (on_change k (suc i) true now s1)

    tick_begin-some :
        (tick_begin hw now s).0.dirty ≡ true
        → (tick_begin hw now s).1 ≡ some (snapshot (fold_all now s).slots)
    unfolding tick_begin
    tick_begin-some marked =
        ap (λ b. if b then some (snapshot (fold_all now s).slots) else none) marked

    tick_begin-fold : (tick_begin hw now s).0 ≡ fold_all now s
    unfolding tick_begin
    tick_begin-fold = refl

    -- When a relay or input that was off comes on after a tick with something to save has given the
    -- lock back and before the tick takes it again, and the save succeeds, then nothing is marked
    -- as dirty any more, although the stored cycles of that channel lack the one that was counted:
    -- this for a store whose saves that succeed store the blob.
    pub tick_raced :
        s.ready ≡ true
        → (s.slots k i).seen ≡ true
        → (s.slots k i).on ≡ false
        → (tick_begin hw now s).0.dirty ≡ true
        → (save_to hw (fold_all now s).world (snapshot (fold_all now s).slots)).1 ≡ true
        → (raced.dirty ≡ false)
          × ((stored raced.world k i).cycles ≡ (s.slots k i).saved.cycles)
          × ((raced.slots k i).saved.cycles ≡ add32 (s.slots k i).saved.cycles 1)
    tick_raced ready seen off marked saved =
        let s1 = fold_all now s in
        let s2 = on_change k (suc i) true now s1 in
        let same = fold_all-off s off in
        let old = tick_end-old hw stored f s1 s2 (on_change-world s1) saved in
        let e = raced_lem marked in
        (
          ap (λ (r : Counters World). r.dirty) e ∙ old.0,
          ap (λ (r : Counters World). (stored r.world k i).cycles) e
              ∙ ap (λ (c : Channel). c.cycles) old.1
              ∙ ap (λ (r : Slot). r.saved.cycles) same,
          ap (λ (r : Counters World). (r.slots k i).saved.cycles) e
              ∙ ap (λ m. (m k i).saved.cycles) old.2
              ∙ on_change-counts s1 (fold_all-ready s ∙ ready)
                  (ap (λ (r : Slot). r.seen) same ∙ seen) (ap (λ (r : Slot). r.on) same ∙ off)
              ∙ ap (λ (r : Slot). add32 r.saved.cycles 1) same,
        )
      where
        raced_lem :
            (tick_begin hw now s).0.dirty ≡ true
            → raced
              ≡ tick_end hw now
                  (some (snapshot (fold_all now s).slots))
                  (on_change k (suc i) true now (fold_all now s))
        raced_lem marked =
            ap (λ d. tick_end hw now d (on_change k (suc i) true now (tick_begin hw now s).0))
              (tick_begin-some marked)
            ∙ ap
                (λ (r : Counters World).
                  tick_end hw now (some (snapshot (fold_all now s).slots))
                    (on_change k (suc i) true now r))
                tick_begin-fold
