-- ===== src/Tone/Player.antt =====
-- tone_player.c: one pass of a tune against a free-running clock. tone_t is here without its name.
use signalk_esp_os_8relay.Base.{
  ℕ, if◌then◌else◌, Bool, true, false, not, leb, List, [], ◌∷◌, Option, none,
}
use signalk_esp_os_8relay.Base.Words.{sub32}
use signalk_esp_os_8relay.Tone.Rtttl.{Note, rtttl_duration_ms, rtttl_tone_at}

-- tone_player_t
pub record Player : Type 0 where
  pub tone : List Note
  pub playing : Bool
  pub start_ms : ℕ
  pub len_ms : ℕ

-- tone_player_start
unfoldable pub start : List Note → ℕ → Player → Player × Bool
start [] now_ms p = (record p { playing = false }, false)
start (v ∷ notes) now_ms p = (
  record {
    tone = v ∷ notes;
    playing = true;
    start_ms = now_ms;
    len_ms = rtttl_duration_ms (v ∷ notes);
  },
  true,
)

-- tone_player_stop
unfoldable pub stop : Player → Player
stop p = record p { playing = false }

-- tone_player_step: the pitch, or `none` where it returns false.
unfoldable pub step : ℕ → Player → Player × Option ℕ
step now_ms p =
    let t_ms = sub32 now_ms p.start_ms in
    if not p.playing
    then (p, none)
    else if leb p.len_ms t_ms
    then (record p { playing = false }, none)
    else (p, rtttl_tone_at p.tone t_ms)
