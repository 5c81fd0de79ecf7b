-- ===== src/DevicePage/Monitoring/Requests.antt =====
-- What the page of a device and the page of its log ask for after any choices of filters.
use edge_guardian.Base.{
  ℕ, ◌≡◌, refl, ap, Option, none, some, List, [], ◌∷◌, map, Text, lookup, text_eq, last_or,
}
use edge_guardian.Api.Devices.{get_device_logs}
use edge_guardian.LogsPage.{
  PageState, initial, range_ms, get_start, log_params, or_undefined, set_search, set_level,
  set_time_range,
}
use edge_guardian.LogsPage.Screen.{page_logs_query}
use edge_guardian.LogsPage.Choices.{
  Choice, searched, level_picked, range_picked, level_items, range_items, make_choice,
  after_choices,
}
use edge_guardian.DevicePage.{time_range_ms, range_start, telemetry_bucket}
use edge_guardian.DevicePage.Monitoring.{
  Filters, no_filters, when_known, logs_query, telemetry_query, set_log_search, set_log_level,
  set_log_time_range, set_telemetry_range,
}
use edge_guardian.DevicePage.Monitoring.Choices.{
  FilterChoice, log_choice, telemetry_picked, log_level_items, log_range_items, telemetry_items,
  choose_log, choose_filter, after_filters,
}
use edge_guardian.DevicePage.Monitoring.Wanted.{
  level_words, log_minutes, telemetry_minutes, texts, levels, ranges, log_choices, telemetry_ranges,
  pick-also, pick_keeps, asked, IsLevel, IsRange, IsTelemetryRange, wanted, asked_logs,
  asked_telemetry, Aligned,
}

level_items-Aligned : Aligned IsLevel level_items level_words
unfolding Aligned
level_items-Aligned = (refl, (refl, (refl, (refl, (refl, tt)))))

range_items-Aligned : Aligned (IsRange range_ms) range_items log_minutes
unfolding Aligned lookup text_eq
range_items-Aligned = (refl, (refl, (refl, (refl, (refl, tt)))))

log_range_items-Aligned : Aligned (IsRange time_range_ms) log_range_items log_minutes
unfolding Aligned lookup text_eq
log_range_items-Aligned = (refl, (refl, (refl, (refl, (refl, tt)))))

telemetry_items-Aligned : Aligned IsTelemetryRange telemetry_items telemetry_minutes
unfolding Aligned lookup text_eq telemetry_bucket
telemetry_items-Aligned = (
  (refl, refl),
  ((refl, refl), ((refl, refl), ((refl, refl), ((refl, refl), ((refl, refl), tt))))),
)

module _ (to_iso : ℕ → Text) (now : ℕ) where
  log_params-after_choices :
      (cs : List Choice) (s : PageState) (level : Option Text) (m : ℕ)
      → or_undefined s.level ≡ level
      → IsRange range_ms s.time_range m
      → log_params to_iso now (after_choices cs s)
        ≡ wanted to_iso now
            (last_or s.search (texts cs))
            (last_or level (map some (levels cs)))
            (last_or m (ranges cs))
  unfolding after_choices make_choice texts levels ranges last_or log_params get_start set_search
      set_level set_time_range
  log_params-after_choices [] s level m hl hm = rw (hl, hm) refl
  log_params-after_choices (searched t ∷ cs) s level m hl hm =
      log_params-after_choices cs (set_search t s) level m hl hm
  log_params-after_choices (level_picked i ∷ cs) s level m hl hm =
      pick-also IsLevel set_level
        (λ p xs.
          log_params to_iso now (after_choices cs p)
          ≡ wanted to_iso now (last_or s.search (texts cs)) (last_or level (map some xs))
              (last_or m (ranges cs)))
        level_items level_words level_items-Aligned s (levels cs) i
        (log_params-after_choices cs s level m hl hm)
        (λ v a h. log_params-after_choices cs (set_level v s) (some a) m h hm)
  log_params-after_choices (range_picked i ∷ cs) s level m hl hm =
      pick-also (IsRange range_ms) set_time_range
        (λ p xs.
          log_params to_iso now (after_choices cs p)
          ≡ wanted to_iso now (last_or s.search (texts cs)) (last_or level (map some (levels cs)))
              (last_or m xs))
        range_items log_minutes range_items-Aligned s (ranges cs) i
        (log_params-after_choices cs s level m hl hm)
        (λ v a h. log_params-after_choices cs (set_time_range v s) level a hl h)

  module _ (token id : Text) where
    initial-IsRange : IsRange range_ms initial.time_range 60
    unfolding lookup text_eq
    initial-IsRange = refl

    page_logs_query-after_choices :
        (cs : List Choice)
        → page_logs_query to_iso now (some token) id (after_choices cs initial)
          ≡ asked_logs to_iso now token id cs
    unfolding page_logs_query asked_logs asked
    page_logs_query-after_choices cs =
        ap (λ p. when_known token id (get_device_logs token id (some p)))
          (log_params-after_choices cs initial none 60 refl initial-IsRange)

    logs_query-after_filters :
        (cs : List FilterChoice) (f : Filters) (level : Option Text) (m : ℕ)
        → or_undefined f.log_level ≡ level
        → IsRange time_range_ms f.log_time_range m
        → logs_query to_iso token id now (after_filters cs f)
          ≡ asked to_iso now token id
              (last_or f.log_search (texts (log_choices cs)))
              (last_or level (map some (levels (log_choices cs))))
              (last_or m (ranges (log_choices cs)))
    unfolding after_filters choose_filter choose_log texts levels ranges log_choices last_or
        set_log_search set_log_level set_log_time_range set_telemetry_range
    logs_query-after_filters [] f level m hl hm =
        unfold logs_query range_start asked in (rw (hl, hm) refl)
    logs_query-after_filters (log_choice (searched t) ∷ cs) f level m hl hm =
        logs_query-after_filters cs (set_log_search t f) level m hl hm
    logs_query-after_filters (log_choice (level_picked i) ∷ cs) f level m hl hm =
        pick-also IsLevel set_log_level
          (λ g xs.
            logs_query to_iso token id now (after_filters cs g)
            ≡ asked to_iso now token id (last_or f.log_search (texts (log_choices cs)))
                (last_or level (map some xs)) (last_or m (ranges (log_choices cs))))
          log_level_items level_words level_items-Aligned f (levels (log_choices cs)) i
          (logs_query-after_filters cs f level m hl hm)
          (λ v a h. logs_query-after_filters cs (set_log_level v f) (some a) m h hm)
    logs_query-after_filters (log_choice (range_picked i) ∷ cs) f level m hl hm =
        pick-also (IsRange time_range_ms) set_log_time_range
          (λ g xs.
            logs_query to_iso token id now (after_filters cs g)
            ≡ asked to_iso now token id (last_or f.log_search (texts (log_choices cs)))
                (last_or level (map some (levels (log_choices cs)))) (last_or m xs))
          log_range_items log_minutes log_range_items-Aligned f (ranges (log_choices cs)) i
          (logs_query-after_filters cs f level m hl hm)
          (λ v a h. logs_query-after_filters cs (set_log_time_range v f) level a hl h)
    logs_query-after_filters (telemetry_picked i ∷ cs) f level m hl hm =
        pick_keeps set_telemetry_range
          (λ g.
            logs_query to_iso token id now (after_filters cs g)
            ≡ asked to_iso now token id (last_or f.log_search (texts (log_choices cs)))
                (last_or level (map some (levels (log_choices cs))))
                (last_or m (ranges (log_choices cs))))
          telemetry_items f i (logs_query-after_filters cs f level m hl hm)
          (λ v. logs_query-after_filters cs (set_telemetry_range v f) level m hl hm)

    telemetry_query-after_filters :
        (cs : List FilterChoice) (f : Filters) (m : ℕ)
        → IsTelemetryRange f.telemetry_range m
        → telemetry_query to_iso token id now (after_filters cs f)
          ≡ asked_telemetry to_iso now token id (last_or m (telemetry_ranges cs))
    unfolding after_filters choose_filter choose_log telemetry_ranges last_or set_log_search
        set_log_level set_log_time_range set_telemetry_range
    telemetry_query-after_filters [] f m h =
        unfold telemetry_query range_start asked_telemetry in (rw (h.1, h.0) refl)
    telemetry_query-after_filters (log_choice (searched t) ∷ cs) f m h =
        telemetry_query-after_filters cs (set_log_search t f) m h
    telemetry_query-after_filters (log_choice (level_picked i) ∷ cs) f m h =
        pick_keeps set_log_level
          (λ g.
            telemetry_query to_iso token id now (after_filters cs g)
            ≡ asked_telemetry to_iso now token id (last_or m (telemetry_ranges cs)))
          log_level_items f i (telemetry_query-after_filters cs f m h)
          (λ v. telemetry_query-after_filters cs (set_log_level v f) m h)
    telemetry_query-after_filters (log_choice (range_picked i) ∷ cs) f m h =
        pick_keeps set_log_time_range
          (λ g.
            telemetry_query to_iso token id now (after_filters cs g)
            ≡ asked_telemetry to_iso now token id (last_or m (telemetry_ranges cs)))
          log_range_items f i (telemetry_query-after_filters cs f m h)
          (λ v. telemetry_query-after_filters cs (set_log_time_range v f) m h)
    telemetry_query-after_filters (telemetry_picked i ∷ cs) f m h =
        pick-also IsTelemetryRange set_telemetry_range
          (λ g xs.
            telemetry_query to_iso token id now (after_filters cs g)
            ≡ asked_telemetry to_iso now token id (last_or m xs))
          telemetry_items telemetry_minutes telemetry_items-Aligned f (telemetry_ranges cs) i
          (telemetry_query-after_filters cs f m h)
          (λ v a g. telemetry_query-after_filters cs (set_telemetry_range v f) a g)

    -- Whatever is typed and picked on the page of a device, its request for the log is the one that
    -- the page of the log makes after the same choices there: none without a token and a device, and
    -- else with the text that was typed last, the level of the item picked last, which is the word all
    -- for All Levels, and the minutes of the time range picked last, 60 before one was. The request
    -- for the telemetry has the minutes of the item picked last in its own select, and asks for hourly
    -- points exactly if they are more than six hours.
    pub queries-after_filters :
        (cs : List FilterChoice)
        → (logs_query to_iso token id now (after_filters cs no_filters)
            ≡ asked_logs to_iso now token id (log_choices cs))
          × (page_logs_query to_iso now (some token) id (after_choices (log_choices cs) initial)
              ≡ asked_logs to_iso now token id (log_choices cs))
          × (telemetry_query to_iso token id now (after_filters cs no_filters)
              ≡ asked_telemetry to_iso now token id (last_or 60 (telemetry_ranges cs)))
    unfolding Aligned
    queries-after_filters cs = (
      unfold asked_logs in
          (logs_query-after_filters cs no_filters none 60 refl log_range_items-Aligned.1.0),
      page_logs_query-after_choices (log_choices cs),
      telemetry_query-after_filters cs no_filters 60 telemetry_items-Aligned.1.0,
    )
