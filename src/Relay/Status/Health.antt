-- ===== src/Relay/Status/Health.antt =====
-- When the relay says that it is healthy.
use ld_relay.Base.{
  ◌||◌, not, ltb, leb, ◌+◌, ◌%◌, ◌^◌, ℕ, ◌≡◌, ◌∙◌, none, some, Bool, true, false, not, ◌&&◌, List,
  [], ◌∷◌, arith,
}
use ld_relay.Relay.Status.{
  ClientReport, is_valid, EnvReport, StatusConfig, StatusRep, client_connected, big_segments_stale,
  show_client, show_big_segments, environment_status, stays_healthy, show_environment, status_loop,
  status_handler,
}

-- Is the client initialized, and is its connection valid, or without one for less than the time that counts?
abbrev pub well_connected : ℕ → StatusConfig → ClientReport → Bool
well_connected now config c =
    c.initialized && (is_valid c.state || ltb now (c.state_since + config.disconnected_status_time))

-- Have the big segments been synchronized, and not too long ago?
abbrev pub fresh : ℕ → StatusConfig → ℕ → Bool
fresh now config t = ltb 0 t && leb now ((t + config.big_segments_stale_threshold) % 2 ^ 64)

-- A client that is well connected, and big segments that are fresh if stale ones count. A big segment
-- store that gives an error counts as healthy.
unfoldable pub is_healthy : ℕ → StatusConfig → EnvReport → Bool
is_healthy now config e =
    elim e.client [ none ↦ false | some c ↦ well_connected now config c ]
    && elim e.big_segment_store [
      | none ↦ true
      | some none ↦ true
      | some (some t) ↦ not config.big_segments_stale_as_degraded || fresh now config t
    ]

unfoldable pub all_healthy : ℕ → StatusConfig → List EnvReport → Bool
all_healthy now config [] = true
all_healthy now config (e ∷ es) = is_healthy now config e && all_healthy now config es

stays_healthy_lem :
    (now : ℕ) (config : StatusConfig) (e : EnvReport)
    → stays_healthy config (environment_status now config e) ≡ is_healthy now config e
unfolding stays_healthy environment_status is_healthy show_client show_big_segments client_connected
    big_segments_stale
stays_healthy_lem now config e = ground arith

show_environment-healthy :
    (now : ℕ) (config : StatusConfig) (e : EnvReport) (rep : StatusRep) (rest : Bool)
    → (show_environment now config e rep).healthy && rest
      ≡ rep.healthy && (is_healthy now config e && rest)
unfolding show_environment
show_environment-healthy now config e rep rest = ground (arith, stays_healthy_lem now config e)

status_loop-healthy :
    (now : ℕ) (config : StatusConfig) (es : List EnvReport) (rep : StatusRep)
    → (status_loop now config es rep).healthy ≡ rep.healthy && all_healthy now config es
unfolding status_loop show_environment all_healthy
status_loop-healthy now config [] rep = ground arith
status_loop-healthy now config (e ∷ es) rep =
    status_loop-healthy now config es (show_environment now config e rep)
    ∙ show_environment-healthy now config e rep (all_healthy now config es)

-- The relay is healthy exactly if it is fully configured and, for each of its environments: there is a
-- client, which is initialized, and whose connection is valid or has not been so for less than the time
-- that counts; and, if stale big segments count as degraded and the environment has a big segment store
-- that answers, its last synchronization is known and now is not past that plus the threshold (the sum is
-- one of 64-bit words). A big segment store that gives an error leaves the relay healthy.
pub status_handler-healthy :
    (now : ℕ) (config : StatusConfig) (fully_configured : Bool) (es : List EnvReport)
    → (status_handler now config fully_configured es).healthy
      ≡ fully_configured && all_healthy now config es
unfolding status_handler
status_handler-healthy now config fully_configured es =
    status_loop-healthy now config es (record { environments = []; healthy = fully_configured })
