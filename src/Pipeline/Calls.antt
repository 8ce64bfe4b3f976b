-- ===== src/Pipeline/Calls.antt =====
-- The environments that the stream adds name no filter.
use ld_relay.Base.{
  ℕ, String, ◌≡◌, Bool, List, [], ◌∷◌, All, All-append, ite, string_discrete, Bool-cases,
  Option-cases, inl, inr,
}
use ld_relay.Base.Assoc.{is_some, lookup}
use ld_relay.Credential.{string_key, EnvironmentId, FilterId, default_filter}
use ld_relay.EnvFactory.{EnvironmentRep, FilterRep, to_params}
use ld_relay.AutoConfig.Receiver.{
  Action, action_insert, action_update, action_delete, action_noop, upsert, remove, retain,
}
use ld_relay.AutoConfig.Stream.{
  HandlerCall, StreamManager, Effect, call, skip, and_then, each, params_of, dispatch_env_action,
  dispatch_filter_action, upsert_env, upsert_filter, delete_env, remove_filter,
  zero_environment_rep, zero_filter_rep, PutContent, put_env, retain_envs, retain_filters, put_envs,
  keep_envs, put_filters, keep_filters, handle_put, received_all_environments,
  ignore_expiring_sdk_key,
}
use ld_relay.AutoConfig.Stream.Consume.{
  Decoder, Input, stream_event, closed, expired, halt, StreamEvent, Control, continue, restart,
  leave, Round, on_put, on_patch_env, on_patch_filter, on_patch, on_delete, on_event, consume,
  ending, ignored, restarting, environment_path_prefix, filter_path_prefix,
}
use ld_relay.AutoConfig.Stream.Run.{after, consume_stream}
use ld_relay.ProjManager.Router.Accounts.{Plain}

-- Whatever the state, the calls add environments without a filter.
abbrev Sends : Effect → Type 0
Sends f = (s : StreamManager) → All Plain (f s).1

and_then-Sends : (f g : Effect) → Sends f → Sends g → Sends (and_then f g)
unfolding and_then
and_then-Sends f g hf hg s = All-append Plain (f s).1 (g (f s).0).1 (hf s) (hg (f s).0)

each-Sends : {A : Type 0} (f : A → Effect) (l : List A) → ((a : A) → Sends (f a)) → Sends (each f l)
unfolding each
each-Sends f [] h s = tt
each-Sends f (a ∷ l) h s = and_then-Sends (f a) (each f l) (h a) (each-Sends f l h) s

params_of-filter :
    (now : ℕ) (rep : EnvironmentRep) (s : StreamManager)
    → (params_of now rep s).1.identifiers.filter_key ≡ default_filter
unfolding params_of to_params
params_of-filter now rep s = elim (Bool-cases (ignore_expiring_sdk_key now rep s).1) [
  | inl e ↦ rw (e, params_of)
  | inr e ↦ rw (e, params_of)
]

dispatch_env-Sends :
    (now : ℕ) (id : EnvironmentId) (rep : EnvironmentRep) (a : Action)
    → Sends (dispatch_env_action now id rep a)
unfolding dispatch_env_action
dispatch_env-Sends now id rep action_noop s = tt
dispatch_env-Sends now id rep action_insert s = (params_of-filter now rep s, tt)
dispatch_env-Sends now id rep action_delete s = (tt, tt)
dispatch_env-Sends now id rep action_update s = (tt, tt)

dispatch_filter-Sends :
    (id : FilterId) (rep : FilterRep) (a : Action) → Sends (dispatch_filter_action id rep a)
unfolding dispatch_filter_action
dispatch_filter-Sends id rep action_noop s = tt
dispatch_filter-Sends id rep action_insert s = (tt, tt)
dispatch_filter-Sends id rep action_delete s = (tt, tt)
dispatch_filter-Sends id rep action_update s = tt

upsert_env-Sends :
    (now : ℕ) (id : EnvironmentId) (rep : EnvironmentRep) → Sends (upsert_env now id rep)
unfolding upsert_env
upsert_env-Sends now id rep s =
    dispatch_env-Sends now id rep (upsert id rep rep.version s.env_receiver).1 _

upsert_filter-Sends : (id : FilterId) (rep : FilterRep) → Sends (upsert_filter id rep)
unfolding upsert_filter
upsert_filter-Sends id rep s =
    dispatch_filter-Sends id rep (upsert id rep rep.version s.filter_receiver).1 _

delete_env-Sends : (now : ℕ) (id : EnvironmentId) (n : ℕ) → Sends (delete_env now id n)
unfolding delete_env
delete_env-Sends now id n s =
    dispatch_env-Sends now id zero_environment_rep (remove id n s.env_receiver).1 _

remove_filter-Sends : (id : FilterId) (n : ℕ) → Sends (remove_filter id n)
unfolding remove_filter
remove_filter-Sends id n s =
    dispatch_filter-Sends id zero_filter_rep (remove id n s.filter_receiver).1 _

-- A choice between two effects, or two rounds.
ite-All :
    {P R : Type 0} (d : Dec P) (f g : StreamManager → R) (Q : R → Type 0) (s : StreamManager)
    → Q (f s)
    → Q (g s)
    → Q (ite d f g s)
ite-All (yes p) f g Q s hf hg = hf
ite-All (no n) f g Q s hf hg = hg

put_env-Sends : (now : ℕ) (p : EnvironmentId × EnvironmentRep) → Sends (put_env now p)
unfolding put_env
put_env-Sends now (id, rep) s =
    ite-All (string_discrete id rep.env_id) (upsert_env now id rep) skip (λ r. All Plain r.1) s
      (upsert_env-Sends now id rep s) tt

keep_envs-Sends : (now : ℕ) (known : String → Bool) → Sends (retain_envs now known)
unfolding retain_envs
keep_envs-Sends now known s =
    each-Sends (λ id. dispatch_env_action now id zero_environment_rep action_delete)
      (retain known s.env_receiver).1
      (λ id. dispatch_env-Sends now id zero_environment_rep action_delete) _

keep_filters-Sends : (known : String → Bool) → Sends (retain_filters known)
unfolding retain_filters
keep_filters-Sends known s =
    each-Sends (λ id. dispatch_filter_action id zero_filter_rep action_delete)
      (retain known s.filter_receiver).1
      (λ id. dispatch_filter-Sends id zero_filter_rep action_delete) _

received-Sends : Sends (call received_all_environments)
received-Sends s = (tt, tt)

handle_put-Sends : (now : ℕ) (content : PutContent) → Sends (handle_put now content)
unfolding handle_put
handle_put-Sends now content =
    let last : Effect = and_then (keep_filters content) (call received_all_environments) in
    let filters : Effect = and_then (put_filters content) last in
    let kept : Effect = and_then (keep_envs now content) filters in
    and_then-Sends (put_envs now content) kept
      (each-Sends (put_env now) content.environments (put_env-Sends now))
      (and_then-Sends (keep_envs now content) filters
        (keep_envs-Sends now (λ id. is_some (lookup id content.environments)))
        (and_then-Sends (put_filters content) last
          (each-Sends (λ f. upsert_filter f.0 f.1) content.filters
            (λ f. upsert_filter-Sends f.0 f.1))
          (and_then-Sends (keep_filters content) (call received_all_environments)
            (keep_filters-Sends (λ id. is_some (lookup id content.filters))) received-Sends)))

module _ (d : Decoder) (now : ℕ) where
  open d use {decode_put, decode_patch, decode_delete, decode_env, decode_filter, split}

  -- A round's calls.
  abbrev RoundSends : Round → Type 0
  RoundSends r = (s : StreamManager) → All Plain (r s).1

  choose :
      {P : Type 0} (c : Dec P) (f g : Round) → RoundSends f → RoundSends g → RoundSends (ite c f g)
  choose c f g hf hg s = ite-All c f g (λ r. All Plain r.1) s (hf s) (hg s)

  quiet : RoundSends ignored
  quiet s = tt

  on_put-Sends : (text : String) → RoundSends (on_put d now text)
  unfolding on_put
  on_put-Sends text s = elim (Option-cases (decode_put text)) [
    | inl e ↦ rw (e, on_put) tt
    | inr (m, e) ↦
        rw (e, on_put)
          (choose (string_discrete m.path "/") (ending continue (handle_put now m.content)) ignored
            (handle_put-Sends now m.content) quiet s)
  ]

  on_patch_env-Sends : (id raw : String) → RoundSends (on_patch_env d now id raw)
  unfolding on_patch_env
  on_patch_env-Sends id raw s = elim (Option-cases (decode_env raw)) [
    | inl e ↦ rw (e, on_patch_env) tt
    | inr (rep, e) ↦
        rw (e, on_patch_env)
          (choose (string_discrete id rep.env_id) (ending continue (upsert_env now id rep)) ignored
            (upsert_env-Sends now id rep) quiet s)
  ]

  on_patch_filter-Sends : (id raw : String) → RoundSends (on_patch_filter d now id raw)
  unfolding on_patch_filter
  on_patch_filter-Sends id raw s = elim (Option-cases (decode_filter raw)) [
    | inl e ↦ rw (e, on_patch_filter) tt
    | inr (rep, e) ↦ rw (e, on_patch_filter) (upsert_filter-Sends id rep s)
  ]

  on_patch-Sends : (text : String) → RoundSends (on_patch d now text)
  unfolding on_patch
  on_patch-Sends text s = elim (Option-cases (decode_patch text)) [
    | inl e ↦ rw (e, on_patch) tt
    | inr (m, e) ↦
        let (prefix, id) = split m.path in
        rw (e, on_patch)
          (choose (string_discrete prefix environment_path_prefix) (on_patch_env d now id m.raw) _
            (on_patch_env-Sends id m.raw)
            (choose (string_discrete prefix filter_path_prefix) (on_patch_filter d now id m.raw)
              ignored (on_patch_filter-Sends id m.raw) quiet)
            s)
  ]

  on_delete-Sends : (text : String) → RoundSends (on_delete d now text)
  unfolding on_delete
  on_delete-Sends text s = elim (Option-cases (decode_delete text)) [
    | inl e ↦ rw (e, on_delete) tt
    | inr (m, e) ↦
        let (prefix, id) = split m.path in
        rw (e, on_delete)
          (choose (string_discrete prefix environment_path_prefix)
            (ending continue (delete_env now id m.version)) _ (delete_env-Sends now id m.version)
            (choose (string_discrete prefix filter_path_prefix)
              (ending continue (remove_filter id m.version)) ignored
              (remove_filter-Sends id m.version) quiet)
            s)
  ]

  on_event-Sends : (e : StreamEvent) → RoundSends (on_event d now e)
  unfolding on_event
  on_event-Sends e =
      choose (string_discrete e.event "put") (on_put d now e.payload) _ (on_put-Sends e.payload) (
        choose (string_discrete e.event "patch") (on_patch d now e.payload) _
          (on_patch-Sends e.payload)
          (choose (string_discrete e.event "delete") (on_delete d now e.payload) _
            (on_delete-Sends e.payload)
            (choose (string_discrete e.event "reconnect") restarting ignored (λ s. tt) quiet)))

  consume-Sends : (i : Input) → RoundSends (consume d now i)
  unfolding consume
  consume-Sends (stream_event e) s = on_event-Sends e s
  consume-Sends closed s = tt
  consume-Sends (expired k) s = (tt, tt)
  consume-Sends halt s = tt

after-Plain :
    (c : Control) (rest : StreamManager × List HandlerCall) (calls : List HandlerCall)
    (s : StreamManager)
    → All Plain calls
    → All Plain rest.1
    → All Plain (after c rest calls s).1
after-Plain continue rest calls s h k = All-append Plain calls rest.1 h k
after-Plain restart rest calls s h k = All-append Plain calls rest.1 h k
after-Plain leave rest calls s h k = h

pub consume_stream-Plain :
    (d : Decoder) (is : List (ℕ × Input)) (s : StreamManager) → All Plain (consume_stream d is s).1
unfolding consume_stream
consume_stream-Plain d [] s = tt
consume_stream-Plain d ((now, i) ∷ is) s =
    let (s', calls, control) = consume d now i s in
    after-Plain control (consume_stream d is s') calls s' (consume-Sends d now i s)
      (consume_stream-Plain d is s')
