-- ===== src/Mood.antt =====
-- The health score and the mood (internal/mood/mood.go), over float64.
pub mod Ladder
pub mod Bounds
mod Tests
use k8s_buddy.Common.{
  ℕ, String, Bool, true, false, not, ◌&&◌, List, [], ◌∷◌, ℤ, pos, ltb_ℤ, if◌then◌else◌,
}
use k8s_buddy.Common.Float.{FloatOps}

-- `Mood` is a string type; any string but the six is `other`.
pub data Mood : Type 0 where
  leafy sprouting thirsty lost_a_leaf not_too_hot wilting : Mood
  other : String → Mood

unfoldable pub all_moods : List Mood
all_moods = leafy ∷ sprouting ∷ thirsty ∷ lost_a_leaf ∷ not_too_hot ∷ wilting ∷ []

-- The string that a mood is.
unfoldable pub mood_string : Mood → String
mood_string leafy = "leafy"
mood_string sprouting = "sprouting"
mood_string thirsty = "thirsty"
mood_string lost_a_leaf = "lost-a-leaf"
mood_string not_too_hot = "not-too-hot"
mood_string wilting = "wilting"
mood_string (other s) = s

unfoldable pub message : Mood → String
message leafy = "I'm feeling leafy and stable"
message sprouting = "I'm ready to rock and roll"
message thirsty = "Could use a drink, but I'm managing."
message lost_a_leaf = "Lost a leaf, but I'm recovering."
message not_too_hot = "I'm not feeling too hot."
message wilting = "I'm wilting. Send help."
message (other s) = "I'm not sure how I'm feeling right now."

pub record Signals (F : Type 0) : Type 0 where
  pub ready : Bool
  pub error_rate : F
  pub p95_latency : ℤ
  pub latency_budget : ℤ
  pub restart_count : ℤ

pub record Report (F : Type 0) : Type 0 where
  pub mood : Mood
  pub message : String
  pub health_score : F
  pub ready : Bool
  pub species : String
  pub name : String
  pub uptime : ℤ
  pub checked_at : ℤ

module _ {F : Type 0} (float : FloatOps F) where
  open float use {of_ℤ, add, sub, mul, div, lt, le}

  -- A constant of the source.
  abbrev pub lit : ℕ → F
  lit n = of_ℤ (pos n)

  -- `restartPenalty`, with its cap and its floor.
  unfoldable pub restart_penalty : ℤ → F
  restart_penalty n =
      let raw = mul (of_ℤ n) (lit 2) in
      let capped = if lt (lit 10) raw then lit 10 else raw in
      if lt capped (lit 0) then lit 0 else capped

  unfoldable pub latency_component : ℤ → ℤ → F
  latency_component p95 budget =
      let scaled = mul (lit 30) (sub (lit 1) (div (of_ℤ p95) (of_ℤ budget))) in
      if ltb_ℤ (pos 0) budget then (if lt scaled (lit 0) then lit 0 else scaled) else lit 30

  unfoldable pub error_component : F → F
  error_component e = mul (sub (lit 1) e) (lit 50)

  unfoldable pub readiness_component : Bool → F
  readiness_component ready = if ready then lit 20 else lit 0

  -- The sum of the components.
  unfoldable pub raw_score : Signals F → F
  unfolding error_component latency_component readiness_component restart_penalty
  raw_score s =
      sub
        (add (add (error_component s.error_rate) (latency_component s.p95_latency s.latency_budget))
          (readiness_component s.ready))
        (restart_penalty s.restart_count)

  -- The ceiling of 35 where the plant is not ready.
  unfoldable pub ceiling : Bool → F → F
  ceiling ready x = if not ready && lt (lit 35) x then lit 35 else x

  -- The final `switch`.
  unfoldable pub clamp : F → F
  clamp x = if lt (lit 100) x then lit 100 else if lt x (lit 0) then lit 0 else x

  unfoldable pub score : Signals F → F
  unfolding raw_score ceiling clamp
  score s = clamp (ceiling s.ready (raw_score s))

  unfoldable pub from_score : F → Mood
  from_score x =
      if le (lit 95) x
      then leafy
      else if le (lit 80) x
      then sprouting
      else if le (lit 60) x
      then thirsty
      else if le (lit 40) x
      then lost_a_leaf
      else if le (lit 20) x
      then not_too_hot
      else wilting

  -- `now` is what the package's clock reads.
  unfoldable pub new_report : Signals F → String → String → ℤ → ℤ → Report F
  unfolding score from_score
  new_report s name species uptime now =
      let x = score s in
      let m = from_score x in
      record {
        mood = m;
        message = message m;
        health_score = x;
        ready = s.ready;
        species = species;
        name = name;
        uptime = uptime;
        checked_at = now;
      }
