-- ===== src/Tests/CounterExamples.antt =====
-- The theorems on counters.c at a store that always works.
use signalk_esp_os_8relay.Base.{true, false, List, [], ◌∷◌, some, ◌≡◌, refl, arith}
use signalk_esp_os_8relay.Base.Words.{add32}
use signalk_esp_os_8relay.Board.{ok, got}
use signalk_esp_os_8relay.Counters.{
  relay, input, Snapshot, Store, Counters, no_counts, empty_slot, snapshot, fold_all, get, tick,
  save_to, tick_begin,
}
use signalk_esp_os_8relay.Counters.Live.{get-tick}
use signalk_esp_os_8relay.Counters.Kept.{
  Faithful, Kept, Call, changes, ticks, resets, run, run-Kept,
}
use signalk_esp_os_8relay.Counters.Race.{raced, tick_raced}

-- The outside is the stored blob.
abbrev flash : Store Snapshot
flash = record {
  load = some (λ w. (w, got w));
  save = some (λ w snap. (snap, ok));
  now_ms = some (λ w. 0);
}

abbrev stored : Snapshot → Snapshot
stored w = w

flash-Faithful : Faithful flash stored
unfolding save_to
flash-Faithful = record { saves = λ w snap e. refl; fails = λ w snap e. absurd (cc (e)) }

abbrev fresh : Counters Snapshot
fresh = record {
  world = λ k i. no_counts;
  ready = true;
  slots = λ k i. record empty_slot { seen = true };
  dirty = false;
  last_save_ms = 0;
}

-- Relay 1 is on since the start.
abbrev running : Counters Snapshot
running = record fresh { slots = λ k i. record empty_slot { seen = true; on = true } }

get-tick_example :
    get relay 1 (add32 600500 700) (tick flash 600500 running)
    ≡ get relay 1 (add32 600500 700) running
get-tick_example = get-tick flash running 600500 700 (omega arith) relay 1 (omega arith)

abbrev calls : List Call
calls =
    changes relay 1 true 5 ∷ ticks 700000 ∷ changes input 3 true 700010 ∷ resets relay 1 800000 ∷ []

fresh-Kept : Kept flash stored fresh
unfolding Kept
fresh-Kept d k i l = refl

run-Kept_example : Kept flash stored (run flash calls fresh)
run-Kept_example = run-Kept flash stored flash-Faithful calls fresh fresh-Kept

-- Input 1 has been on, so that the tick has something to save; relay 1 comes on meanwhile.
abbrev half : Counters Snapshot
half = record fresh { dirty = true }

half-saved :
    (save_to flash (fold_all 600000 half).world (snapshot (fold_all 600000 half).slots)).1 ≡ true
unfolding save_to
half-saved = refl

half-marked : (tick_begin flash 600000 half).0.dirty ≡ true
unfolding tick_begin fold_all
half-marked = refl

tick_raced_example :
    ((raced relay 0 600000 (omega arith) flash stored flash-Faithful half).dirty ≡ false)
    × ((stored
          (raced relay 0 600000 (omega arith) flash stored flash-Faithful half).world
          relay
          0).cycles
        ≡ 0)
    × (((raced relay 0 600000 (omega arith) flash stored flash-Faithful half).slots relay
          0).saved.cycles
        ≡ add32 0 1)
tick_raced_example =
    tick_raced relay 0 600000 (omega arith) flash stored flash-Faithful half refl refl refl
      half-marked half-saved
