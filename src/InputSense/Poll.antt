-- ===== src/InputSense/Poll.antt =====
-- input_sense_poll().
use signalk_esp_os_8relay.Base.{
  ℕ, zero, suc, if◌then◌else◌, Bool, true, not, ◌&&◌, ◌==◌, ltb, leb, xor, List, [], ◌++◌, bit_or,
  bit_xor,
}
use signalk_esp_os_8relay.Base.Bits.{test, bit, not8, clear}
use signalk_esp_os_8relay.Base.Masks.{mask_of}
use signalk_esp_os_8relay.Base.Words.{add32, sub32}
use signalk_esp_os_8relay.Board.{channels}
use package.signalk_esp_os_8relay.InputSense.{
  Inputs, Event, startup_grace_ms, read_input, report_input, apply_override, each,
}

-- The first part of the first loop: what was read, and since when.
unfoldable pub sampled : ℕ → ℕ → Inputs → Inputs
sampled raw now s = record s {
  candidate = read_input s.cfg raw;
  candidate_since =
      λ i. if xor (read_input s.cfg raw i) (s.candidate i) then now else s.candidate_since i;
}

-- `settled`, the second part.
unfoldable pub settled : ℕ → Inputs → ℕ
settled now s = mask_of channels (λ i. leb s.cfg.debounce_ms (sub32 now (s.candidate_since i)))

-- `settled_value`
unfoldable pub settled_value : ℕ → Inputs → ℕ
settled_value now s =
    mask_of channels (λ i. leb s.cfg.debounce_ms (sub32 now (s.candidate_since i)) && s.candidate i)

-- The branch where the inputs are not ready yet.
unfoldable pub start_up : ℕ → Inputs → Inputs × List Event
unfolding settled settled_value
start_up now s =
    if not (settled now s == 255)
      && ltb (sub32 now s.start_ms) (add32 s.cfg.debounce_ms startup_grace_ms)
    then (s, [])
    else (let stable = settled_value now s in
        (
          record s {
            stable = stable;
            late = not8 (settled now s);
            published = stable;
            ready = true;
          },
          each (λ i. report_input s.listeners i (test stable i) stable) channels
              ++ each
                  (λ i.
                    if test (settled now s) i
                    then apply_override s.cfg i (test stable i) true
                    else [])
                  channels,
        ))

-- `s.stable`, `s.late`, `changed` and `boot` in the loop that follows.
pub record Accepted : Type 0 where
  pub stable : ℕ
  pub late : ℕ
  pub changed : ℕ
  pub boot : ℕ

unfoldable pub accept_late : ℕ → Accepted → Accepted
accept_late i a =
    if test a.late i
    then record a { late = clear a.late (bit i); boot = bit_or a.boot (bit i) }
    else a

unfoldable pub accept_change : (ℕ → Bool) → ℕ → Accepted → Accepted
accept_change candidate i a =
    if xor (candidate i) (test a.stable i)
    then record a { stable = bit_xor a.stable (bit i); changed = bit_or a.changed (bit i) }
    else a

unfoldable pub accept_loop : (ℕ → Bool) → ℕ → Accepted → ℕ → Accepted
accept_loop candidate settled_ a zero = a
accept_loop candidate settled_ a (suc i) =
    let b = accept_loop candidate settled_ a i in
    if test settled_ i then accept_change candidate i (accept_late i b) else b

unfoldable pub accept : ℕ → Inputs → Accepted
unfolding settled
accept now s =
    accept_loop s.candidate (settled now s)
      (record { stable = s.stable; late = s.late; changed = 0; boot = 0 }) channels

-- The branch where they are.
unfoldable pub running : ℕ → Inputs → Inputs × List Event
running now s =
    let a = accept now s in
    let s1 = record s { stable = a.stable; late = a.late } in
    if a.changed == 0 then (s1, []) else (
      record s1 { published = a.stable },
      each
          (λ i.
            if test a.changed i
            then report_input s.listeners i (test a.stable i) a.stable
              ++ apply_override s.cfg i (test a.stable i) (test a.boot i)
            else [])
          channels,
    )

-- input_sense_poll
unfoldable pub poll : ℕ → ℕ → Inputs → Inputs × List Event
unfolding sampled
poll raw now s = let s1 = sampled raw now s in if s1.ready then running now s1 else start_up now s1
