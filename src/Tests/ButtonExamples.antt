-- ===== src/Tests/ButtonExamples.antt =====
-- The theorems on button_logic.c at concrete presses.
use signalk_esp_os_8relay.Base.{ℕ, List, true, false, [], ◌∷◌, ◌++◌, map, ◌≡◌}
use signalk_esp_os_8relay.Button.Debounce.{polled, accepted, debounce-accepted}
use signalk_esp_os_8relay.Button.Press.{
  run, at_rest, quiet, showing, pressed_at, released, letting_go, press_and_release,
}

-- A bounce of one poll does not count.
debounce-accepted_example :
    (polled false (true ∷ false ∷ true ∷ true ∷ true ∷ [])).debounced
    ≡ accepted false (true ∷ false ∷ true ∷ true ∷ true ∷ [])
debounce-accepted_example = debounce-accepted false (true ∷ false ∷ true ∷ true ∷ true ∷ [])

-- Held for six seconds, across the wrap of the clock.
press_and_release_example :
    run (at_rest 7) (
      pressed_at 4294966000
      ∷ pressed_at 4294966020
      ∷ pressed_at 4294966040
      ∷ (map pressed_at (4294967000 ∷ 3000 ∷ []) ++ released 4700 4720 4740))
    ≡ (
      at_rest 4294966040,
      quiet
          ∷ quiet
          ∷ showing 4294966040 4294966040
          ∷ (map (showing 4294966040) (4294967000 ∷ 3000 ∷ [])
              ++ letting_go 4294966040 4700 4720 4740),
    )
press_and_release_example =
    press_and_release 7 4294966000 4294966020 4294966040 (4294967000 ∷ 3000 ∷ []) 4700 4720 4740

abbrev long : List ℕ
long = 20 ∷ 20000 ∷ []
