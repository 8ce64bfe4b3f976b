-- ===== src/AutoConfig/Stream/Calls.antt =====
-- The calls of the handler about one environment, against the contract of the receiver.
use mathlib.Core.List.{append_assoc}
use ld_relay.Base.{
  ℕ, String, ◌≡◌, refl, sym, ◌∙◌, ap, ◌⊎◌, inl, inr, some, Bool, List, [], ◌∷◌, ◌++◌, ite,
  string_discrete, arith,
}
use ld_relay.Credential.{string_key, EnvironmentId}
use ld_relay.EnvFactory.{EnvironmentRep}
use ld_relay.AutoConfig.Receiver.{
  Action, action_insert, action_update, action_delete, action_noop, Receiver, upsert, remove,
  retain,
}
use ld_relay.AutoConfig.Receiver.Protocol.{
  live, follow, follow-append, about, deletions, msg_upsert, msg_delete, msg_retain, receive,
  receive_accept,
}
use ld_relay.AutoConfig.Stream.{
  HandlerCall, add_environment, update_environment, delete_environment, StreamManager, Effect,
  and_then, each, dispatch_env_action, upsert_env, delete_env, zero_environment_rep, retain_envs,
}

abbrev pub on : String → String → Action → List Action
on j id a = ite (string_discrete j id) (a ∷ []) []

abbrev pub env_action : EnvironmentId → HandlerCall → List Action
env_action j (add_environment p) = on j p.env_id action_insert
env_action j (update_environment p) = on j p.env_id action_update
env_action j (delete_environment id) = on j id action_delete
env_action j _ = []

-- What the calls do to one environment.
unfoldable pub env_actions : EnvironmentId → List HandlerCall → List Action
env_actions j [] = []
env_actions j (c ∷ cs) = env_action j c ++ env_actions j cs

pub env_actions-append :
    (j : EnvironmentId) (xs ys : List HandlerCall)
    → env_actions j (xs ++ ys) ≡ env_actions j xs ++ env_actions j ys
unfolding env_actions
env_actions-append j [] ys = refl
env_actions-append j (x ∷ xs) ys =
    ap (◌++◌ (env_action j x)) (env_actions-append j xs ys)
    ∙ sym (append_assoc (env_action j x) (env_actions j xs) (env_actions j ys))

-- The effect keeps the contract for the environment, from the state before it to the state after it.
abbrev pub Follows : EnvironmentId → Effect → Type 0
Follows j f =
    (s : StreamManager)
    → follow (some (live j s.env_receiver)) (env_actions j (f s).1)
      ≡ some (live j (f s).0.env_receiver)

pub and_then-Follows :
    (j : EnvironmentId) (f g : Effect) → Follows j f → Follows j g → Follows j (and_then f g)
unfolding and_then
and_then-Follows j f g hf hg s =
    rw
      (
        env_actions-append j (f s).1 (g (f s).0).1,
        follow-append (some (live j s.env_receiver)) (env_actions j (f s).1)
            (env_actions j (g (f s).0).1),
        hf s,
      )
      (hg (f s).0)

pub each-Follows :
    {A : Type 0} (j : EnvironmentId) (f : A → Effect) (l : List A)
    → ((a : A) → Follows j (f a))
    → Follows j (each f l)
unfolding each
each-Follows j f [] h s = unfold follow env_actions in refl
each-Follows j f (a ∷ l) h s = and_then-Follows j (f a) (each f l) (h a) (each-Follows j f l h) s

-- A dispatched action is the action, but for a `noop`, which is no call.
dispatch-follow :
    (j id : EnvironmentId) (b : Bool) (now : ℕ) (rep : EnvironmentRep) (a : Action)
    (s : StreamManager)
    → (rep.env_id ≡ id) ⊎ ((a ≡ action_delete) ⊎ (a ≡ action_noop))
    → follow (some b) (env_actions j (dispatch_env_action now id rep a s).1)
      ≡ follow (some b) (about j ((id, a) ∷ []))
unfolding dispatch_env_action follow about env_actions
dispatch-follow j id b now rep action_insert s h = ground arith
dispatch-follow j id b now rep action_update s h = ground arith
dispatch-follow j id b now rep action_delete s h = ground arith
dispatch-follow j id b now rep action_noop s h = ground arith

dispatch-receiver :
    (id : EnvironmentId) (now : ℕ) (rep : EnvironmentRep) (a : Action) (s : StreamManager)
    → (dispatch_env_action now id rep a s).0.env_receiver ≡ s.env_receiver
unfolding dispatch_env_action
dispatch-receiver id now rep action_insert s = ground arith
dispatch-receiver id now rep action_update s = ground arith
dispatch-receiver id now rep action_delete s = refl
dispatch-receiver id now rep action_noop s = refl

pub upsert_env-Follows :
    (j id : EnvironmentId) (now : ℕ) (rep : EnvironmentRep)
    → id ≡ rep.env_id
    → Follows j (upsert_env now id rep)
unfolding upsert_env receive
upsert_env-Follows j id now rep e s =
    let (r, a) = upsert id rep rep.version s.env_receiver in
    let s' : StreamManager = record s { env_receiver = r } in
    dispatch-follow j id (live j s.env_receiver) now rep a s' (inl (sym e))
    ∙ receive_accept j (msg_upsert id rep rep.version) s.env_receiver
    ∙ ap (λ q. some (live j q)) (sym (dispatch-receiver id now rep a s'))

remove-delete_or_noop :
    (id : String) (n : ℕ) (r : Receiver EnvironmentRep)
    → ((remove id n r).1 ≡ action_delete) ⊎ ((remove id n r).1 ≡ action_noop)
unfolding remove
remove-delete_or_noop id n r = ground arith

pub delete_env-Follows : (j id : EnvironmentId) (now n : ℕ) → Follows j (delete_env now id n)
unfolding delete_env receive
delete_env-Follows j id now n s =
    let (r, a) = remove id n s.env_receiver in
    let s' : StreamManager = record s { env_receiver = r } in
    dispatch-follow j id (live j s.env_receiver) now zero_environment_rep a s'
      (inr (remove-delete_or_noop id n s.env_receiver))
    ∙ receive_accept j (msg_delete id n) s.env_receiver
    ∙ ap (λ q. some (live j q)) (sym (dispatch-receiver id now zero_environment_rep a s'))

-- The loop over the ids that `Retain` returns.
abbrev delete_each : ℕ → List String → Effect
delete_each now = each (λ id. dispatch_env_action now id zero_environment_rep action_delete)

delete_each-actions :
    (j : EnvironmentId) (now : ℕ) (ids : List String) (s : StreamManager)
    → env_actions j (delete_each now ids s).1 ≡ about j (deletions ids)
unfolding env_actions about each dispatch_env_action
delete_each-actions j now [] s = refl
delete_each-actions j now (id ∷ ids) s = ground (arith, delete_each-actions j now ids s)

delete_each-state :
    (now : ℕ) (ids : List String) (s : StreamManager) → (delete_each now ids s).0 ≡ s
unfolding each dispatch_env_action
delete_each-state now [] s = refl
delete_each-state now (id ∷ ids) s = delete_each-state now ids s

pub retain_envs-Follows :
    (j : EnvironmentId) (now : ℕ) (known : String → Bool) → Follows j (retain_envs now known)
unfolding retain_envs receive
retain_envs-Follows j now known s =
    let (r, ids) = retain known s.env_receiver in
    let s' : StreamManager = record s { env_receiver = r } in
    rw (delete_each-actions j now ids s', delete_each-state now ids s')
      (receive_accept j (msg_retain known) s.env_receiver)
