-- ===== src/DevicePage/Monitoring/Wanted.antt =====
-- What the user of the two pages with a log has typed and picked, without the pages' state, and how a
-- select's items are followed by it.
use edge_guardian.Base.{
  ℕ, zero, suc, ◌-◌, ◌*◌, ◌≡◌, Option, none, some, List, [], ◌∷◌, map, Text, codes, ltb,
  if◌then◌else◌, lookup, get_elem?, last_or,
}
use edge_guardian.Api.Request.{Call}
use edge_guardian.Api.Devices.{
  LogParams, TelemetryBucket, raw, hourly, get_device_logs, get_device_telemetry,
}
use edge_guardian.LogsPage.{or_undefined}
use edge_guardian.LogsPage.Choices.{Choice, searched, level_picked, range_picked, pick}
use edge_guardian.DevicePage.{time_range_ms, telemetry_bucket}
use edge_guardian.DevicePage.Monitoring.{when_known}
use edge_guardian.DevicePage.Monitoring.Choices.{FilterChoice, log_choice, telemetry_picked}

-- What the items of the selects stand for.
abbrev pub level_words : List Text
level_words = codes "all" ∷ codes "ERROR" ∷ codes "WARN" ∷ codes "INFO" ∷ codes "DEBUG" ∷ []

abbrev pub log_minutes : List ℕ
log_minutes = 15 ∷ 60 ∷ 360 ∷ 1440 ∷ 10080 ∷ []

abbrev pub telemetry_minutes : List ℕ
telemetry_minutes = 15 ∷ 60 ∷ 360 ∷ 1440 ∷ 10080 ∷ 43200 ∷ []

-- What was typed and picked, in the order in which it was.
unfoldable pub also : {A : Type 0} → Option A → List A → List A
also none rest = rest
also (some a) rest = a ∷ rest

unfoldable pub texts : List Choice → List Text
texts [] = []
texts (searched t ∷ cs) = t ∷ texts cs
texts (level_picked i ∷ cs) = texts cs
texts (range_picked i ∷ cs) = texts cs

unfoldable pub levels : List Choice → List Text
unfolding also get_elem?
levels [] = []
levels (searched t ∷ cs) = levels cs
levels (level_picked i ∷ cs) = also (get_elem? level_words i) (levels cs)
levels (range_picked i ∷ cs) = levels cs

unfoldable pub ranges : List Choice → List ℕ
unfolding also get_elem?
ranges [] = []
ranges (searched t ∷ cs) = ranges cs
ranges (level_picked i ∷ cs) = ranges cs
ranges (range_picked i ∷ cs) = also (get_elem? log_minutes i) (ranges cs)

unfoldable pub log_choices : List FilterChoice → List Choice
log_choices [] = []
log_choices (log_choice c ∷ cs) = c ∷ log_choices cs
log_choices (telemetry_picked i ∷ cs) = log_choices cs

unfoldable pub telemetry_ranges : List FilterChoice → List ℕ
unfolding also get_elem?
telemetry_ranges [] = []
telemetry_ranges (log_choice c ∷ cs) = telemetry_ranges cs
telemetry_ranges (telemetry_picked i ∷ cs) =
    also (get_elem? telemetry_minutes i) (telemetry_ranges cs)

-- The values of a select stand for the entries of a list, one for one.
unfoldable pub Aligned : {A : Type 0} → (Text → A → Type 0) → List (Text × Text) → List A → Type 0
Aligned P [] [] = Unit
Aligned P [] (a ∷ xs) = ⊥
Aligned P (item ∷ items) [] = ⊥
Aligned P (item ∷ items) (a ∷ xs) = P item.0 a × Aligned P items xs

-- What holds after nothing and after each item holds after any place is picked.
pub pick-also :
    {S A : Type 0} (P : Text → A → Type 0) (set : Text → S → S) (C : S → List A → Type 0)
    (items : List (Text × Text)) (xs : List A)
    → Aligned P items xs
    → (s : S) (rest : List A) (i : ℕ) → C s rest
    → ((v : Text) (a : A) → P v a → C (set v s) (a ∷ rest))
    → C (pick items set i s) (also (get_elem? xs i) rest)
unfolding Aligned pick also get_elem?
pick-also P set C [] [] al s rest i keep change = keep
pick-also P set C [] (a ∷ xs) al s rest i keep change = absurd al
pick-also P set C (item ∷ items) [] al s rest i keep change = absurd al
pick-also P set C (item ∷ items) (a ∷ xs) al s rest zero keep change = change item.0 a al.0
pick-also P set C (item ∷ items) (a ∷ xs) al s rest (suc i) keep change =
    pick-also P set C items xs al.1 s rest i keep change

-- The same for what does not depend on the item.
pub pick_keeps :
    {S : Type 0} (set : Text → S → S) (C : S → Type 0) (items : List (Text × Text)) (s : S) (i : ℕ)
    → C s
    → ((v : Text) → C (set v s))
    → C (pick items set i s)
unfolding pick get_elem?
pick_keeps set C [] s i keep change = keep
pick_keeps set C (item ∷ items) s zero keep change = change item.0
pick_keeps set C (item ∷ items) s (suc i) keep change = pick_keeps set C items s i keep change

-- What stands for a level, and for a time range in either of the tables.
abbrev pub IsLevel : Text → Text → Type 0
IsLevel v word = or_undefined v ≡ some word

abbrev pub IsRange : List (Text × ℕ) → Text → ℕ → Type 0
IsRange table v m = lookup v table ≡ some (m * 60000)

abbrev pub bucket_of : ℕ → TelemetryBucket
bucket_of m = if ltb 360 m then hourly else raw

abbrev pub IsTelemetryRange : Text → ℕ → Type 0
IsTelemetryRange v m = IsRange time_range_ms v m × (telemetry_bucket v ≡ bucket_of m)

abbrev pub wanted : (ℕ → Text) → ℕ → Text → Option Text → ℕ → LogParams
wanted to_iso now text level m = record {
  start = some (to_iso (now - m * 60000));
  end = none;
  limit = some 200;
  level = level;
  search = or_undefined text;
}

unfoldable pub asked : (ℕ → Text) → ℕ → Text → Text → Text → Option Text → ℕ → Option Call
asked to_iso now token id text level m =
    when_known token id (get_device_logs token id (some (wanted to_iso now text level m)))

-- The request for the log with what was typed and picked last.
unfoldable pub asked_logs : (ℕ → Text) → ℕ → Text → Text → List Choice → Option Call
asked_logs to_iso now token id cs =
    asked to_iso now token id (last_or [] (texts cs)) (last_or none (map some (levels cs)))
      (last_or 60 (ranges cs))

-- The request for the telemetry of so many minutes.
unfoldable pub asked_telemetry : (ℕ → Text) → ℕ → Text → Text → ℕ → Option Call
asked_telemetry to_iso now token id m = when_known token id (
    get_device_telemetry token id
      record { start = to_iso (now - m * 60000); end = to_iso now; bucket = some (bucket_of m) })
