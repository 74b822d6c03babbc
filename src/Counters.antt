-- ===== src/Counters.antt =====
-- components/counters/src/counters.c: cycles and run times of the relays and the inputs. The two
-- arrays of slots are one function of the kind and the index. A function pointer that may be NULL
-- is an Option. What runs between a take and a give of the lock is one step; `counters_tick`,
-- which calls the store between two such parts, is made of `tick_begin` and `tick_end`.
pub mod Live
pub mod Kept
pub mod Race
use signalk_esp_os_8relay.Base.{
  ℕ, zero, suc, ◌-◌, ◌*◌, ◌/◌, if◌then◌else◌, Bool, true, false, not, ◌&&◌, ◌||◌, ◌==◌, ltb, leb,
  xor, Option, none, some,
}
use signalk_esp_os_8relay.Base.Words.{add32, sub32}
use signalk_esp_os_8relay.Board.{channels, Status, ok, fail, Reply, got, failed, no_mem}

-- counters_kind_t
pub data Kind : Type 0 where
  relay input : Kind

-- counters_channel_t
pub record Channel : Type 0 where
  pub cycles : ℕ
  pub runtime_s : ℕ

-- counters_data_t
abbrev pub Snapshot : Type 0
Snapshot = Kind → ℕ → Channel

-- counters_store_t and counters_hw_t
pub record Store (World : Type 0) : Type 0 where
  pub load : Option (World → World × Reply Snapshot)
  pub save : Option (World → Snapshot → World × Status)
  pub now_ms : Option (World → ℕ)

abbrev pub save_interval_ms : ℕ
save_interval_ms = 600000

-- slot_t
pub record Slot : Type 0 where
  pub seen : Bool
  pub on : Bool
  pub on_since_ms : ℕ
  pub saved : Channel

-- `s`; `ready` says that the lock was created.
pub record Counters (World : Type 0) : Type 0 where
  pub world : World
  pub ready : Bool
  pub slots : Kind → ℕ → Slot
  pub dirty : Bool
  pub last_save_ms : ℕ

abbrev pub no_counts : Channel
no_counts = record { cycles = 0; runtime_s = 0 }

abbrev pub empty_slot : Slot
empty_slot = record { seen = false; on = false; on_since_ms = 0; saved = no_counts }

-- slot_of(): the guard for the index `channel - 1`.
unfoldable pub is_channel : ℕ → Bool
is_channel channel = leb 1 channel && leb channel channels

abbrev pub same_kind : Kind → Kind → Bool
same_kind relay relay = true
same_kind relay input = false
same_kind input relay = false
same_kind input input = true

-- A slot replaced.
unfoldable pub put : Kind → ℕ → Slot → (Kind → ℕ → Slot) → Kind → ℕ → Slot
put k i v slots k' j = if same_kind k k' && (i == j) then v else slots k' j

-- `whole_s` of fold_running_locked(), 0 for a slot that is off.
unfoldable pub whole_s : ℕ → Slot → ℕ
whole_s now slot = if slot.on then sub32 now slot.on_since_ms / 1000 else 0

unfoldable pub fold_running : ℕ → Slot → Slot
unfolding whole_s
fold_running now slot =
    let whole = whole_s now slot in
    if whole == 0 then slot else record slot {
      saved = record (slot.saved) { runtime_s = add32 slot.saved.runtime_s whole };
      on_since_ms = add32 slot.on_since_ms (whole * 1000);
    }

-- Whether one of the first `n` relays or inputs is folded.
unfoldable pub any_folds : ℕ → (Kind → ℕ → Slot) → ℕ → Bool
any_folds now slots zero = false
any_folds now slots (suc i) =
    any_folds now slots i
    || not (whole_s now (slots relay i) == 0)
    || not (whole_s now (slots input i) == 0)

-- snapshot_locked
unfoldable pub snapshot : (Kind → ℕ → Slot) → Snapshot
snapshot slots k i = (slots k i).saved

-- counters_on_change() for a slot, and whether it marks the state as dirty.
unfoldable pub changed_slot : Bool → ℕ → Slot → Slot × Bool
changed_slot on now slot =
    if not slot.seen
    then (record slot { seen = true; on = on; on_since_ms = now }, false)
    else if not (xor on slot.on)
    then (slot, false)
    else if on
    then (
      record slot {
        saved = record (slot.saved) { cycles = add32 slot.saved.cycles 1 };
        on = true;
        on_since_ms = now;
      },
      true,
    )
    else (record (fold_running now slot) { on = false }, true)

module _ {World : Type 0} where
  -- The loop of counters_tick() and counters_flush_now().
  unfoldable pub fold_all : ℕ → Counters World → Counters World
  fold_all now s = record s {
    slots = λ k i. if ltb i channels then fold_running now (s.slots k i) else s.slots k i;
    dirty = s.dirty || any_folds now s.slots channels;
  }

  unfoldable pub on_change : Kind → ℕ → Bool → ℕ → Counters World → Counters World
  on_change k channel on now s =
      if not (is_channel channel && s.ready)
      then s
      else let (slot, marks) = changed_slot on now (s.slots k (channel - 1)) in
        record s { slots = put k (channel - 1) slot s.slots; dirty = s.dirty || marks }

  -- counters_get
  unfoldable pub get : Kind → ℕ → ℕ → Counters World → Channel
  get k channel now s =
      if not (is_channel channel && s.ready)
      then no_counts
      else let slot = s.slots k (channel - 1) in
        record (slot.saved) { runtime_s = add32 slot.saved.runtime_s (whole_s now slot) }

module _ {World : Type 0} (hw : Store World) where
  -- The call of `save`: whether it is there and succeeds.
  unfoldable pub save_to : World → Snapshot → World × Bool
  save_to w snap = elim hw.save [
    | none ↦ (w, false)
    | some save ↦
        let (w', status) = save w snap in elim status [ ok ↦ (w', true) | fail e ↦ (w', false) ]
  ]

  -- The first part of counters_tick() under the lock: `data`, if `save_now`.
  unfoldable pub tick_begin : ℕ → Counters World → Counters World × Option Snapshot
  tick_begin now s =
      let s1 = fold_all now s in (s1, if s1.dirty then some (snapshot s1.slots) else none)

  -- What follows the give of the lock.
  unfoldable pub tick_end : ℕ → Option Snapshot → Counters World → Counters World
  tick_end now none s = record s { last_save_ms = now }
  tick_end now (some snap) s =
      let (w, saved) = save_to s.world snap in
      record s { world = w; dirty = if saved then false else s.dirty; last_save_ms = now }

  unfoldable pub tick_due : ℕ → Counters World → Bool
  tick_due now s = s.ready && leb save_interval_ms (sub32 now s.last_save_ms)

  -- counters_tick
  unfoldable pub tick : ℕ → Counters World → Counters World
  tick now s =
      if tick_due now s then (let (s1, snap) = tick_begin now s in tick_end now snap s1) else s

  -- The end of counters_reset() and counters_flush_now().
  unfoldable pub save_now : ℕ → Counters World → Counters World
  save_now now s =
      let (w, saved) = save_to s.world (snapshot s.slots) in
      if saved
      then record s { world = w; dirty = false; last_save_ms = now }
      else record s { world = w }

  -- counters_flush_now
  unfoldable pub flush_now : ℕ → Counters World → Counters World
  flush_now now s = if s.ready then save_now now (fold_all now s) else s

  unfoldable pub cleared_slot : ℕ → Slot → Slot
  cleared_slot now slot = record slot {
    saved = no_counts;
    on_since_ms = if slot.on then now else slot.on_since_ms;
  }

  -- counters_reset
  unfoldable pub reset : Kind → ℕ → ℕ → Counters World → Counters World
  reset k channel now s =
      if not (is_channel channel && s.ready)
      then s
      else let slot = cleared_slot now (s.slots k (channel - 1)) in
        save_now now (record s { slots = put k (channel - 1) slot s.slots; dirty = true })

  -- counters_init(), `lock` being the outcome of xSemaphoreCreateMutex() where it is called.
  unfoldable pub load_slots : Counters World → Counters World
  load_slots s = elim hw.load [
    | none ↦ s
    | some load ↦
        let (w, reply) = load s.world in
        elim reply [
          | got loaded ↦ record s {
            world = w;
            slots = λ k i.
                if ltb i channels then record empty_slot { saved = loaded k i } else empty_slot;
          }
          | failed e ↦ record s { world = w }
        ]
  ]

  unfoldable pub init : Bool → Counters World → Counters World × Status
  init lock s = if not (s.ready || lock) then (s, fail no_mem) else (
    load_slots (record s {
      ready = true;
      slots = λ k i. empty_slot;
      dirty = false;
      last_save_ms = elim hw.now_ms [ none ↦ 0 | some now_ms ↦ now_ms s.world ];
    }),
    ok,
  )
