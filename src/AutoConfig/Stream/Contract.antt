-- ===== src/AutoConfig/Stream/Contract.antt =====
-- Every round of the stream's loop keeps the contract between the calls and the environments.
use ld_relay.Base.{ℕ, String, ◌≡◌, refl, Option, none, some, Bool, ite, string_discrete}
use ld_relay.Base.Assoc.{lookup, is_some}
use ld_relay.Credential.{string_key, EnvironmentId, FilterId}
use ld_relay.EnvFactory.{EnvironmentRep, FilterRep}
use ld_relay.AutoConfig.Receiver.{
  Action, action_insert, action_update, action_delete, action_noop, upsert, remove, retain,
}
use ld_relay.AutoConfig.Receiver.Protocol.{live, follow}
use ld_relay.AutoConfig.Stream.{
  received_all_environments, StreamManager, Effect, call, skip, and_then, dispatch_filter_action,
  upsert_env, upsert_filter, delete_env, remove_filter, zero_filter_rep, PutContent, put_env,
  retain_filters, handle_put, put_envs, keep_envs, put_filters, keep_filters,
}
use ld_relay.AutoConfig.Stream.Calls.{
  env_actions, Follows, and_then-Follows, each-Follows, upsert_env-Follows, delete_env-Follows,
  retain_envs-Follows,
}
use ld_relay.AutoConfig.Stream.Consume.{
  Decoder, Input, stream_event, closed, expired, halt, StreamEvent, continue, Round, ending,
  restarting, ignored, on_put, on_patch_env, on_patch_filter, on_patch, on_delete, on_event,
  consume, PutMessageData, PatchMessageData, DeleteMessageData, environment_path_prefix,
  filter_path_prefix,
}

skip-Follows : (j : EnvironmentId) → Follows j skip
skip-Follows j s = unfold follow env_actions in refl

received-Follows : (j : EnvironmentId) → Follows j (call received_all_environments)
received-Follows j s = unfold follow env_actions in refl

dispatch_filter-Follows :
    (j : EnvironmentId) (id : FilterId) (rep : FilterRep) (a : Action)
    → Follows j (dispatch_filter_action id rep a)
unfolding dispatch_filter_action follow env_actions
dispatch_filter-Follows j id rep action_insert s = refl
dispatch_filter-Follows j id rep action_update s = refl
dispatch_filter-Follows j id rep action_delete s = refl
dispatch_filter-Follows j id rep action_noop s = refl

upsert_filter-Follows :
    (j : EnvironmentId) (id : FilterId) (rep : FilterRep) → Follows j (upsert_filter id rep)
unfolding upsert_filter
upsert_filter-Follows j id rep s =
    let (r, a) = upsert id rep rep.version s.filter_receiver in
    dispatch_filter-Follows j id rep a (record s { filter_receiver = r })

remove_filter-Follows : (j : EnvironmentId) (id : FilterId) (n : ℕ) → Follows j (remove_filter id n)
unfolding remove_filter
remove_filter-Follows j id n s =
    let (r, a) = remove id n s.filter_receiver in
    dispatch_filter-Follows j id zero_filter_rep a (record s { filter_receiver = r })

retain_filters-Follows :
    (j : EnvironmentId) (known : String → Bool) → Follows j (retain_filters known)
unfolding retain_filters
retain_filters-Follows j known s =
    let (r, ids) = retain known s.filter_receiver in
    each-Follows j (λ id. dispatch_filter_action id zero_filter_rep action_delete) ids
      (λ id. dispatch_filter-Follows j id zero_filter_rep action_delete)
      (record s { filter_receiver = r })

ite-Follows :
    {P : Type 0} (j : EnvironmentId) (d : Dec P) (f g : Effect)
    → (P → Follows j f)
    → Follows j g
    → Follows j (ite d f g)
ite-Follows j (yes p) f g h k = h p
ite-Follows j (no n) f g h k = k

put_env-Follows :
    (j : EnvironmentId) (now : ℕ) (e : EnvironmentId × EnvironmentRep) → Follows j (put_env now e)
unfolding put_env
put_env-Follows j now (id, rep) =
    ite-Follows j (string_discrete id rep.env_id) (upsert_env now id rep) skip
      (upsert_env-Follows j id now rep) (skip-Follows j)

put_filters-Follows :
    (j : EnvironmentId) (content : PutContent)
    → Follows j (
        and_then
          (put_filters content)
          (and_then (keep_filters content) (call received_all_environments)))
put_filters-Follows j content =
    and_then-Follows j (put_filters content)
      (and_then (keep_filters content) (call received_all_environments))
      (each-Follows j (λ f. upsert_filter f.0 f.1) content.filters
        (λ f. upsert_filter-Follows j f.0 f.1))
      (and_then-Follows j (keep_filters content) (call received_all_environments)
        (retain_filters-Follows j (λ id. is_some (lookup id content.filters))) (received-Follows j))

-- A full set of environments and filters.
pub handle_put-Follows :
    (j : EnvironmentId) (now : ℕ) (content : PutContent) → Follows j (handle_put now content)
unfolding handle_put
handle_put-Follows j now content =
    and_then-Follows j (put_envs now content)
      (and_then (keep_envs now content) (
        and_then (put_filters content)
          (and_then (keep_filters content) (call received_all_environments))))
      (each-Follows j (put_env now) content.environments (put_env-Follows j now))
      (and_then-Follows j (keep_envs now content)
        (and_then (put_filters content)
          (and_then (keep_filters content) (call received_all_environments)))
        (retain_envs-Follows j now (λ id. is_some (lookup id content.environments)))
        (put_filters-Follows j content))

-- The round keeps the contract for the environment.
abbrev pub RoundFollows : EnvironmentId → Round → Type 0
RoundFollows j f =
    (s : StreamManager)
    → follow (some (live j s.env_receiver)) (env_actions j (f s).1)
      ≡ some (live j (f s).0.env_receiver)

ite-RoundFollows :
    {P : Type 0} (j : EnvironmentId) (d : Dec P) (f g : Round)
    → (P → RoundFollows j f)
    → RoundFollows j g
    → RoundFollows j (ite d f g)
ite-RoundFollows j (yes p) f g h k = h p
ite-RoundFollows j (no n) f g h k = k

-- A decoder's answer.
option-RoundFollows :
    {A : Type 0} (j : EnvironmentId) (o : Option A) (f : A → Round)
    → ((a : A) → RoundFollows j (f a))
    → RoundFollows j (elim o [ none ↦ restarting | some a ↦ f a ])
option-RoundFollows j none f h = skip-Follows j
option-RoundFollows j (some a) f h = h a

module _ (d : Decoder) (now : ℕ) (j : EnvironmentId) where
  on_put-Follows : (text : String) → RoundFollows j (on_put d now text)
  unfolding on_put
  on_put-Follows text = option-RoundFollows j (d.decode_put text) chosen λ m.
      ite-RoundFollows j (string_discrete m.path "/") (ending continue (handle_put now m.content))
        ignored (λ _. handle_put-Follows j now m.content) (skip-Follows j)
    where
      chosen : PutMessageData → Round
      chosen m =
          ite (string_discrete m.path "/") (ending continue (handle_put now m.content)) ignored

  on_patch_env-Follows : (id raw : String) → RoundFollows j (on_patch_env d now id raw)
  unfolding on_patch_env
  on_patch_env-Follows id raw = option-RoundFollows j (d.decode_env raw) chosen λ rep.
      ite-RoundFollows j (string_discrete id rep.env_id) (ending continue (upsert_env now id rep))
        ignored (upsert_env-Follows j id now rep) (skip-Follows j)
    where
      chosen : EnvironmentRep → Round
      chosen rep =
          ite (string_discrete id rep.env_id) (ending continue (upsert_env now id rep)) ignored

  on_patch_filter-Follows : (id raw : String) → RoundFollows j (on_patch_filter d now id raw)
  unfolding on_patch_filter
  on_patch_filter-Follows id raw =
      option-RoundFollows j (d.decode_filter raw) (λ rep. ending continue (upsert_filter id rep))
        (upsert_filter-Follows j id)

  on_patch-Follows : (text : String) → RoundFollows j (on_patch d now text)
  unfolding on_patch
  on_patch-Follows text = option-RoundFollows j (d.decode_patch text) chosen λ m.
      let (prefix, id) = d.split m.path in
      ite-RoundFollows j (string_discrete prefix environment_path_prefix)
        (on_patch_env d now id m.raw) (filters prefix id m.raw) (λ _. on_patch_env-Follows id m.raw)
        (ite-RoundFollows j (string_discrete prefix filter_path_prefix)
          (on_patch_filter d now id m.raw) ignored (λ _. on_patch_filter-Follows id m.raw)
          (skip-Follows j))
    where
      filters : String → String → String → Round
      filters prefix id raw =
          ite (string_discrete prefix filter_path_prefix) (on_patch_filter d now id raw) ignored

      chosen : PatchMessageData → Round
      chosen m =
          let (prefix, id) = d.split m.path in
          ite (string_discrete prefix environment_path_prefix) (on_patch_env d now id m.raw)
            (filters prefix id m.raw)

  on_delete-Follows : (text : String) → RoundFollows j (on_delete d now text)
  unfolding on_delete
  on_delete-Follows text = option-RoundFollows j (d.decode_delete text) chosen λ m.
      let (prefix, id) = d.split m.path in
      ite-RoundFollows j (string_discrete prefix environment_path_prefix)
        (ending continue (delete_env now id m.version)) (filters prefix id m.version)
        (λ _. delete_env-Follows j id now m.version)
        (ite-RoundFollows j (string_discrete prefix filter_path_prefix)
          (ending continue (remove_filter id m.version)) ignored
          (λ _. remove_filter-Follows j id m.version) (skip-Follows j))
    where
      filters : String → String → ℕ → Round
      filters prefix id n =
          ite (string_discrete prefix filter_path_prefix) (ending continue (remove_filter id n))
            ignored

      chosen : DeleteMessageData → Round
      chosen m =
          let (prefix, id) = d.split m.path in
          ite (string_discrete prefix environment_path_prefix)
            (ending continue (delete_env now id m.version)) (filters prefix id m.version)

  on_event-Follows : (e : StreamEvent) → RoundFollows j (on_event d now e)
  unfolding on_event
  on_event-Follows e =
      ite-RoundFollows j (string_discrete e.event "put") (on_put d now e.payload) _
        (λ _. on_put-Follows e.payload)
        (ite-RoundFollows j (string_discrete e.event "patch") (on_patch d now e.payload) _
          (λ _. on_patch-Follows e.payload)
          (ite-RoundFollows j (string_discrete e.event "delete") (on_delete d now e.payload) _
            (λ _. on_delete-Follows e.payload)
            (ite-RoundFollows j (string_discrete e.event "reconnect") restarting ignored
              (λ _. skip-Follows j) (skip-Follows j))))

  pub consume-Follows : (i : Input) → RoundFollows j (consume d now i)
  unfolding consume
  consume-Follows (stream_event e) = on_event-Follows e
  consume-Follows closed = skip-Follows j
  consume-Follows (expired k) = λ s. unfold follow env_actions in refl
  consume-Follows halt = skip-Follows j
