-- ===== src/Button/Debounce.antt =====
-- What debounce() accepts, described on the samples so far instead of by its counter.
use signalk_esp_os_8relay.Base.{
  ℕ, ◌≤◌, if◌then◌else◌, Bool, xor, List, [], ◌∷◌, ◌||◌, get_or, ◌≡◌, refl, arith,
}
use package.signalk_esp_os_8relay.Button.{Button, debounce, init}

-- The samples of the polls so far, the newest first, on a button that was first read as `initial`.
abbrev pub polled : Bool → List Bool → Button
polled initial [] = init initial
polled initial (level ∷ earlier) = debounce (polled initial earlier) level

-- The sample `back` polls ago; before the first poll, what was first read.
abbrev pub level_ago : Bool → List Bool → ℕ → Bool
level_ago initial levels back = get_or levels back initial

-- The level of the latest three samples in a row that agree.
abbrev pub accepted : Bool → List Bool → Bool
accepted initial [] = initial
accepted initial (level ∷ earlier) =
    let before = accepted initial earlier in
    if xor level (level_ago initial earlier 0) || xor level (level_ago initial earlier 1)
    then before
    else level

-- The samples were `l0`, `l1` and `l2`, the newest first, and the level `level`.
record Follows (l0 l1 l2 level : Bool) (st : Button) : Type 0 where
  newest : st.raw ≡ l0
  count : st.same_count ≡ (if xor l0 l1 then 1 else if xor l1 l2 then 2 else 3)
  accepts : st.debounced ≡ level
  settled : 3 ≤ st.same_count → st.debounced ≡ st.raw

module _ (l0 l1 l2 level : Bool) (st : Button) (f : Follows l0 l1 l2 level st) (l : Bool) where
  debounce-count : (debounce st l).same_count ≡ (if xor l l0 then 1 else if xor l0 l1 then 2 else 3)
  unfolding debounce
  debounce-count = ground (arith, f.newest, f.count)

  debounce-raw : (debounce st l).raw ≡ l
  unfolding debounce
  debounce-raw = ground (arith, f.newest)

  debounce-level : (debounce st l).debounced ≡ (if xor l l0 || xor l l1 then level else l)
  unfolding debounce
  debounce-level = ground (arith, f.newest, f.count, f.accepts, f.settled)

  debounce-settled :
      3 ≤ (debounce st l).same_count → (debounce st l).debounced ≡ (debounce st l).raw
  unfolding debounce
  debounce-settled = ground (arith, f.newest, f.settled)

  debounce-Follows : Follows l l0 l1 (if xor l l0 || xor l l1 then level else l) (debounce st l)
  debounce-Follows = record {
    newest = debounce-raw;
    count = debounce-count;
    accepts = debounce-level;
    settled = debounce-settled;
  }

polled-Follows :
    (initial : Bool) (levels : List Bool)
    → Follows
        (level_ago initial levels 0)
        (level_ago initial levels 1)
        (level_ago initial levels 2)
        (accepted initial levels)
        (polled initial levels)
unfolding init
polled-Follows initial [] = record {
  newest = refl;
  count = ground arith;
  accepts = refl;
  settled = λ _. refl;
}
polled-Follows initial (level ∷ earlier) =
    debounce-Follows (level_ago initial earlier 0) (level_ago initial earlier 1)
      (level_ago initial earlier 2) (accepted initial earlier) (polled initial earlier)
      (polled-Follows initial earlier) level

-- After any polls, the level that the counter of debounce() has accepted is that of the latest
-- three samples in a row that agree, where the first read counts as three samples.
pub debounce-accepted :
    (initial : Bool) (levels : List Bool)
    → (polled initial levels).debounced ≡ accepted initial levels
debounce-accepted initial levels = (polled-Follows initial levels).accepts
