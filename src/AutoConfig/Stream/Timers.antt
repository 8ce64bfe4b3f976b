-- ===== src/AutoConfig/Stream/Timers.antt =====
-- The timers of expiring keys, through the rounds of the loop.
use ld_relay.Base.{
  String, inl, inr, Option-cases, ite, List, [], ◌∷◌, string_discrete, ℕ, ◌≡◌, true, arith,
}
use ld_relay.Base.Assoc.{lookup, lookup-insert, is_some}
use ld_relay.Credential.{string_key, SdkKey, EnvironmentId, FilterId}
use ld_relay.EnvFactory.{EnvironmentRep, FilterRep}
use ld_relay.AutoConfig.Receiver.{
  Action, action_insert, action_update, action_delete, action_noop, upsert, remove, retain,
}
use ld_relay.AutoConfig.Stream.{
  HandlerCall, skip, StreamManager, Effect, params_of, ignore_expiring_sdk_key, and_then, each,
  dispatch_env_action, dispatch_filter_action, upsert_env, upsert_filter, delete_env, remove_filter,
  put_env, retain_envs, retain_filters, put_envs, keep_envs, put_filters, keep_filters, handle_put,
  zero_environment_rep, zero_filter_rep, PutContent,
}
use ld_relay.AutoConfig.Stream.Consume.{
  Decoder, Input, Round, Control, continue, restart, leave, ending, restarting, ignored, on_put,
  on_patch, on_patch_env, on_patch_filter, on_delete, on_event, consume, stream_event, closed,
  expired, halt, environment_path_prefix, filter_path_prefix,
}
use ld_relay.AutoConfig.Stream.Run.{after, consume_stream}

-- An effect after which a key has a timer if it had one before.
abbrev pub KeepsTimer : SdkKey → Effect → Type 0
KeepsTimer k f =
    (s : StreamManager)
    → is_some (lookup k s.expiry_timers) ≡ true
    → is_some (lookup k (f s).0.expiry_timers) ≡ true

module _ (k : SdkKey) where
  and_then-KeepsTimer :
      (f g : Effect) → KeepsTimer k f → KeepsTimer k g → KeepsTimer k (and_then f g)
  unfolding and_then
  and_then-KeepsTimer f g hf hg s h = hg (f s).0 (hf s h)

  ite-KeepsTimer :
      {P : Type 0} (q : Dec P) (f g : Effect)
      → KeepsTimer k f
      → KeepsTimer k g
      → KeepsTimer k (ite q f g)
  ite-KeepsTimer (yes m) f g hf hg = hf
  ite-KeepsTimer (no m) f g hf hg = hg

  each-KeepsTimer :
      {A : Type 0} (f : A → Effect)
      → ((a : A) → KeepsTimer k (f a))
      → (l : List A) → KeepsTimer k (each f l)
  unfolding each
  each-KeepsTimer f hf [] s h = h
  each-KeepsTimer f hf (a ∷ l) s h =
      and_then-KeepsTimer (f a) (each f l) (hf a) (each-KeepsTimer f hf l) s h

  params_of-keeps :
      (now : ℕ) (rep : EnvironmentRep) (s : StreamManager)
      → is_some (lookup k s.expiry_timers) ≡ true
      → is_some (lookup k (params_of now rep s).0.expiry_timers) ≡ true
  unfolding params_of ignore_expiring_sdk_key
  params_of-keeps now rep s h =
      let key = rep.sdk_key.expiring.value in
      ground (
        arith,
        h,
        lookup-insert key k (record { env_id = rep.env_id; proj_key = rep.proj_key; key = key })
            s.expiry_timers,
      )

  dispatch_env_action-KeepsTimer :
      (now : ℕ) (id : EnvironmentId) (rep : EnvironmentRep) (a : Action)
      → KeepsTimer k (dispatch_env_action now id rep a)
  unfolding dispatch_env_action
  dispatch_env_action-KeepsTimer now id rep action_noop s h = h
  dispatch_env_action-KeepsTimer now id rep action_insert s h = params_of-keeps now rep s h
  dispatch_env_action-KeepsTimer now id rep action_delete s h = h
  dispatch_env_action-KeepsTimer now id rep action_update s h = params_of-keeps now rep s h

  dispatch_filter_action-KeepsTimer :
      (id : FilterId) (rep : FilterRep) (a : Action)
      → KeepsTimer k (dispatch_filter_action id rep a)
  unfolding dispatch_filter_action
  dispatch_filter_action-KeepsTimer id rep action_noop s h = h
  dispatch_filter_action-KeepsTimer id rep action_insert s h = h
  dispatch_filter_action-KeepsTimer id rep action_delete s h = h
  dispatch_filter_action-KeepsTimer id rep action_update s h = h

  upsert_env-KeepsTimer :
      (now : ℕ) (id : EnvironmentId) (rep : EnvironmentRep) → KeepsTimer k (upsert_env now id rep)
  unfolding upsert_env
  upsert_env-KeepsTimer now id rep s h =
      let (r, a) = upsert id rep rep.version s.env_receiver in
      dispatch_env_action-KeepsTimer now id rep a (record s { env_receiver = r }) h

  upsert_filter-KeepsTimer : (id : FilterId) (rep : FilterRep) → KeepsTimer k (upsert_filter id rep)
  unfolding upsert_filter
  upsert_filter-KeepsTimer id rep s h =
      let (r, a) = upsert id rep rep.version s.filter_receiver in
      dispatch_filter_action-KeepsTimer id rep a (record s { filter_receiver = r }) h

  delete_env-KeepsTimer :
      (now : ℕ) (id : EnvironmentId) (version : ℕ) → KeepsTimer k (delete_env now id version)
  unfolding delete_env
  delete_env-KeepsTimer now id version s h =
      let (r, a) = remove id version s.env_receiver in
      dispatch_env_action-KeepsTimer now id zero_environment_rep a (record s { env_receiver = r }) h

  remove_filter-KeepsTimer : (id : FilterId) (version : ℕ) → KeepsTimer k (remove_filter id version)
  unfolding remove_filter
  remove_filter-KeepsTimer id version s h =
      let (r, a) = remove id version s.filter_receiver in
      dispatch_filter_action-KeepsTimer id zero_filter_rep a (record s { filter_receiver = r }) h

  put_env-KeepsTimer : (now : ℕ) (e : EnvironmentId × EnvironmentRep) → KeepsTimer k (put_env now e)
  unfolding put_env
  put_env-KeepsTimer now (id, rep) =
      ite-KeepsTimer (string_discrete id rep.env_id) (upsert_env now id rep) skip
        (upsert_env-KeepsTimer now id rep) (λ s h. h)

  keep_envs-KeepsTimer : (now : ℕ) (content : PutContent) → KeepsTimer k (keep_envs now content)
  unfolding retain_envs
  keep_envs-KeepsTimer now content s h =
      let (r, deleted) = retain (λ id. is_some (lookup id content.environments)) s.env_receiver in
      each-KeepsTimer (λ id. dispatch_env_action now id zero_environment_rep action_delete)
        (λ id. dispatch_env_action-KeepsTimer now id zero_environment_rep action_delete) deleted
        (record s { env_receiver = r }) h

  keep_filters-KeepsTimer : (content : PutContent) → KeepsTimer k (keep_filters content)
  unfolding retain_filters
  keep_filters-KeepsTimer content s h =
      let (r, deleted) = retain (λ id. is_some (lookup id content.filters)) s.filter_receiver in
      each-KeepsTimer (λ id. dispatch_filter_action id zero_filter_rep action_delete)
        (λ id. dispatch_filter_action-KeepsTimer id zero_filter_rep action_delete) deleted
        (record s { filter_receiver = r }) h

  handle_put-KeepsTimer : (now : ℕ) (content : PutContent) → KeepsTimer k (handle_put now content)
  unfolding handle_put and_then
  handle_put-KeepsTimer now content s h =
      let s1 = (put_envs now content s).0 in
      let h1 = each-KeepsTimer (put_env now) (put_env-KeepsTimer now) content.environments s h in
      let s2 = (keep_envs now content s1).0 in
      let h2 = keep_envs-KeepsTimer now content s1 h1 in
      let s3 = (put_filters content s2).0 in
      let h3 =
        each-KeepsTimer (λ f. upsert_filter f.0 f.1) (λ f. upsert_filter-KeepsTimer f.0 f.1)
          content.filters s2 h2 in
      keep_filters-KeepsTimer content s3 h3

-- A round after which the key has a timer if it had one before.
abbrev KeepsRound : SdkKey → Round → Type 0
KeepsRound k r =
    (s : StreamManager)
    → is_some (lookup k s.expiry_timers) ≡ true
    → is_some (lookup k (r s).0.expiry_timers) ≡ true

module _ (k : SdkKey) where
  ite-KeepsRound :
      {P : Type 0} (q : Dec P) (f g : Round)
      → KeepsRound k f
      → KeepsRound k g
      → KeepsRound k (ite q f g)
  ite-KeepsRound (yes m) f g hf hg = hf
  ite-KeepsRound (no m) f g hf hg = hg

  module _ (d : Decoder) (now : ℕ) where
    on_put-KeepsRound : (text : String) → KeepsRound k (on_put d now text)
    unfolding on_put
    on_put-KeepsRound text = elim (Option-cases (d.decode_put text)) [
      | inl e ↦ rw (on_put, e) (λ s h. h)
      | inr (m, e) ↦
          rw (on_put, e)
            (ite-KeepsRound (string_discrete m.path "/")
              (ending continue (handle_put now m.content)) ignored
              (handle_put-KeepsTimer k now m.content) (λ s h. h))
    ]

    on_patch_env-KeepsRound : (id raw : String) → KeepsRound k (on_patch_env d now id raw)
    unfolding on_patch_env
    on_patch_env-KeepsRound id raw = elim (Option-cases (d.decode_env raw)) [
      | inl e ↦ rw (on_patch_env, e) (λ s h. h)
      | inr (rep, e) ↦
          rw (on_patch_env, e)
            (ite-KeepsRound (string_discrete id rep.env_id)
              (ending continue (upsert_env now id rep)) ignored (upsert_env-KeepsTimer k now id rep)
              (λ s h. h))
    ]

    on_patch_filter-KeepsRound : (id raw : String) → KeepsRound k (on_patch_filter d now id raw)
    unfolding on_patch_filter
    on_patch_filter-KeepsRound id raw = elim (Option-cases (d.decode_filter raw)) [
      | inl e ↦ rw (on_patch_filter, e) (λ s h. h)
      | inr (rep, e) ↦ rw (on_patch_filter, e) (upsert_filter-KeepsTimer k id rep)
    ]

    on_patch-KeepsRound : (text : String) → KeepsRound k (on_patch d now text)
    unfolding on_patch
    on_patch-KeepsRound text = elim (Option-cases (d.decode_patch text)) [
      | inl e ↦ rw (on_patch, e) (λ s h. h)
      | inr (m, e) ↦
          let (prefix, id) = d.split m.path in
          rw (on_patch, e)
            (ite-KeepsRound (string_discrete prefix environment_path_prefix)
              (on_patch_env d now id m.raw)
              (ite (string_discrete prefix filter_path_prefix) (on_patch_filter d now id m.raw)
                ignored)
              (on_patch_env-KeepsRound id m.raw)
              (ite-KeepsRound (string_discrete prefix filter_path_prefix)
                (on_patch_filter d now id m.raw) ignored (on_patch_filter-KeepsRound id m.raw)
                (λ s h. h)))
    ]

    on_delete-KeepsRound : (text : String) → KeepsRound k (on_delete d now text)
    unfolding on_delete
    on_delete-KeepsRound text = elim (Option-cases (d.decode_delete text)) [
      | inl e ↦ rw (on_delete, e) (λ s h. h)
      | inr (m, e) ↦
          let (prefix, id) = d.split m.path in
          let env : Round = ending continue (delete_env now id m.version) in
          let filter : Round = ending continue (remove_filter id m.version) in
          rw (on_delete, e)
            (ite-KeepsRound (string_discrete prefix environment_path_prefix) env
              (ite (string_discrete prefix filter_path_prefix) filter ignored)
              (delete_env-KeepsTimer k now id m.version)
              (ite-KeepsRound (string_discrete prefix filter_path_prefix) filter ignored
                (remove_filter-KeepsTimer k id m.version) (λ s h. h)))
    ]

    consume-KeepsRound : (i : Input) → KeepsRound k (consume d now i)
    unfolding consume on_event
    consume-KeepsRound closed = λ s h. h
    consume-KeepsRound (expired key) = λ s h. h
    consume-KeepsRound halt = λ s h. h
    consume-KeepsRound (stream_event e) =
        let other : Round = ite (string_discrete e.event "reconnect") restarting ignored in
        let deleting : Round =
          ite (string_discrete e.event "delete") (on_delete d now e.payload) other in
        let patching : Round =
          ite (string_discrete e.event "patch") (on_patch d now e.payload) deleting in
        ite-KeepsRound (string_discrete e.event "put") (on_put d now e.payload) patching
          (on_put-KeepsRound e.payload)
          (ite-KeepsRound (string_discrete e.event "patch") (on_patch d now e.payload) deleting
            (on_patch-KeepsRound e.payload)
            (ite-KeepsRound (string_discrete e.event "delete") (on_delete d now e.payload) other
              (on_delete-KeepsRound e.payload)
              (ite-KeepsRound (string_discrete e.event "reconnect") restarting ignored (λ s h. h)
                (λ s h. h))))

  after-timer :
      (c : Control) (rest : StreamManager × List HandlerCall) (calls : List HandlerCall)
      (s' : StreamManager)
      → is_some (lookup k s'.expiry_timers) ≡ true
      → is_some (lookup k rest.0.expiry_timers) ≡ true
      → is_some (lookup k (after c rest calls s').0.expiry_timers) ≡ true
  after-timer leave rest calls s' h r = h
  after-timer continue rest calls s' h r = r
  after-timer restart rest calls s' h r = r

  -- Whatever arrives, a key that has a timer keeps one.
  pub consume_stream-timer :
      (d : Decoder) (is : List (ℕ × Input)) (s : StreamManager)
      → is_some (lookup k s.expiry_timers) ≡ true
      → is_some (lookup k (consume_stream d is s).0.expiry_timers) ≡ true
  unfolding consume_stream
  consume_stream-timer d [] s h = h
  consume_stream-timer d ((now, i) ∷ is) s h =
      let (s', calls, control) = consume d now i s in
      let kept = consume-KeepsRound d now i s h in
      after-timer control (consume_stream d is s') calls s' kept (consume_stream-timer d is s' kept)
