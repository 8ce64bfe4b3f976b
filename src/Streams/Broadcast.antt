-- ===== src/Streams/Broadcast.antt =====
-- Who is told of an update.
use mathlib.Core.List.{append-nil}
use ld_relay.Base.{
  ℕ, zero, suc, map, String, ◌+◌, ◌≡◌, refl, sym, ap, ◌∙◌, none, some, Bool, true, false, ◌&&◌,
  List, [], ◌∷◌, ◌++◌, ite, if◌then◌else◌, arith,
}
use ld_relay.Base.Assoc.{lookup, is_some}
use ld_relay.Credential.{
  SdkCredential, credential_key, string_key, ScopedCredential, ScopedCredential-discrete,
  new_scoped,
}
use ld_relay.EnvFactory.{EnvIdentifiers, EnvConfig}
use ld_relay.RelayEnv.{
  StreamProvider, server_side, server_side_flags, mobile_ping, js_client_ping, supports, StreamInfo,
  new_env_context,
}
use ld_relay.RelayEnv.Lookup.{Change, change_all}
use ld_relay.Streams.{
  DataKind, features, segments, other_kind, ItemDescriptor, Event, patch_event, delete_event,
  flags_patch_event, flags_delete_event, ping_event, send_flag_update, Publication, DataStore,
  upsert, publish, broadcast, send_single_item_update,
}
use ld_relay.Streams.Counts.{same_provider, count_streams, same_provider-eq}
use ld_relay.Streams.Registered.{change_all-Streaming, new_env_context-Streaming}

module _ {I : Type 0} where
  -- The events of a provider on a channel, in order.
  unfoldable pub events_on :
      StreamProvider → ScopedCredential → List (Publication I) → List (Event I)
  events_on p c [] = []
  events_on p c (x ∷ xs) =
      if same_provider p x.provider
      then ite (ScopedCredential-discrete x.channel c) (x.event ∷ events_on p c xs)
          (events_on p c xs)
      else events_on p c xs

  events_on-append :
      (p : StreamProvider) (c : ScopedCredential) (xs ys : List (Publication I))
      → events_on p c (xs ++ ys) ≡ events_on p c xs ++ events_on p c ys
  unfolding events_on
  events_on-append p c [] ys = refl
  events_on-append p c (x ∷ xs) ys = ground (arith, events_on-append p c xs ys)

  events_on-publish :
      (p : StreamProvider) (c : ScopedCredential) (s : StreamInfo) (es : List (Event I))
      → events_on p c (publish s es) ≡ (
          if same_provider p s.provider
          then ite (ScopedCredential-discrete s.credential c) es []
          else [])
  unfolding events_on
  events_on-publish p c s [] = ground arith
  events_on-publish p c s (e ∷ es) = ground (arith, events_on-publish p c s es)

  unfoldable copies : ℕ → List (Event I) → List (Event I)
  copies zero es = []
  copies (suc n) es = es ++ copies n es

  copies-step :
      (b : Bool) {P : Type 0} (q : Dec P) (es es' : List (Event I)) (k : ℕ)
      → (b ≡ true → es ≡ es')
      → (if b then ite q es [] else []) ++ copies k es'
        ≡ copies ((if b then ite q 1 0 else 0) + k) es'
  unfolding copies
  copies-step false q es es' k h = let z : k ≡ 0 + k = omega arith in ap (λ n. copies n es') z
  copies-step true (yes m) es es' k h =
      let z : suc k ≡ 1 + k = omega arith in
      ap (λ l. l ++ copies k es') (h refl) ∙ ap (λ n. copies n es') z
  copies-step true (no m) es es' k h = let z : k ≡ 0 + k = omega arith in ap (λ n. copies n es') z

  events_on-broadcast :
      (p : StreamProvider) (c : ScopedCredential) (send : StreamProvider → List (Event I))
      (ss : List StreamInfo)
      → events_on p c (broadcast send ss) ≡ copies (count_streams p c ss) (send p)
  unfolding broadcast events_on count_streams copies
  events_on-broadcast p c send [] = refl
  events_on-broadcast p c send (s ∷ ss) =
      rw
        (
          events_on-append p c (publish s (send s.provider)) (broadcast send ss),
          events_on-publish p c s (send s.provider),
          events_on-broadcast p c send ss,
        )
        (copies-step (same_provider p s.provider) (ScopedCredential-discrete s.credential c)
          (send s.provider) (send p) (count_streams p c ss)
          (λ e. ap send (sym (same_provider-eq p s.provider e))))

-- What an event tells the client that gets it: an item, of the protocol with all data or of the one with
-- flags only, or to ask for the evaluations again. A deleted item is one without a value; a patch has one.
pub data News (I : Type 0) : Type 0 where
  item_news : DataKind → String → ItemDescriptor I → News I
  flag_news : String → ItemDescriptor I → News I
  ask_again nothing_new : News I

module _ {I : Type 0} where
  abbrev pub news : Event I → News I
  news (patch_event kind k d) = elim d.item [ none ↦ nothing_new | some i ↦ item_news kind k d ]
  news (delete_event kind k v) = item_news kind k (record { version = v; item = none })
  news (flags_patch_event k d) = elim d.item [ none ↦ nothing_new | some i ↦ flag_news k d ]
  news (flags_delete_event k v) = flag_news k (record { version = v; item = none })
  news ping_event = ask_again
  news _ = nothing_new

  -- What the clients of a provider are to be told of an update: the server-side ones the item, those that
  -- only know flags if it is one, the others that something has changed.
  abbrev pub due : StreamProvider → DataKind → String → ItemDescriptor I → List (News I)
  due server_side kind k d = item_news kind k d ∷ []
  due server_side_flags features k d = flag_news k d ∷ []
  due server_side_flags _ k d = []
  due mobile_ping kind k d = ask_again ∷ []
  due js_client_ping kind k d = ask_again ∷ []

  news-copies :
      (b : Bool) (es : List (Event I))
      → map news (copies (if b then 1 else 0) es) ≡ (if b then map news es else [])
  unfolding copies
  news-copies false es = refl
  news-copies true es = ap (map news) (append-nil es)

  -- Each event tells exactly the item, deleted or not.
  news-send_single_item_update :
      (p : StreamProvider) (kind : DataKind) (k : String) (d : ItemDescriptor I)
      → map news (send_single_item_update p kind k d) ≡ due p kind k d
  unfolding send_single_item_update send_flag_update
  news-send_single_item_update server_side kind k d = ground arith
  news-send_single_item_update server_side_flags features k d = ground arith
  news-send_single_item_update server_side_flags segments k d = refl
  news-send_single_item_update server_side_flags other_kind k d = refl
  news-send_single_item_update mobile_ping kind k d = refl
  news-send_single_item_update js_client_ping kind k d = refl

  -- After any changes of the credentials of a new environment, and whatever the wrapped store makes of an
  -- update: what a provider publishes on the channel of a credential of its kind that the environment has
  -- tells its clients of the update once, and it publishes nothing on another credential's channel. A
  -- server-side client is told the item itself with its version, deleted or not, one that only knows flags
  -- only if the item is a flag, and a client-side one to ask again.
  pub upsert-announced :
      {L D : Type 0} (store : DataStore I D) (identifiers : EnvIdentifiers) (config : EnvConfig L)
      (xs : List Change) (kind : DataKind) (key : String) (item : ItemDescriptor I) (d : D)
      (p : StreamProvider) (c : SdkCredential)
      → let env = change_all xs (new_env_context identifiers config) in
        let published = (upsert store kind key item env.active_streams d).2 in
        map news (events_on p (new_scoped config.filter_key c) published)
        ≡ (if supports p c && is_some (lookup c env.credentials) then due p kind key item else [])
  unfolding upsert copies
  upsert-announced store identifiers config xs kind key item d p c =
      let env = change_all xs (new_env_context identifiers config) in
      let (k, n, registered) =
        change_all-Streaming config.filter_key xs (new_env_context identifiers config)
          (new_env_context-Streaming identifiers config) in
      let send : StreamProvider → List (Event I) = λ q. send_single_item_update q kind key item in
      let sent = events_on-broadcast p (new_scoped config.filter_key c) send env.active_streams in
      let told = news-send_single_item_update p kind key item in
      ap (map news) sent
      ∙ (ap (λ n. map news (copies n (send p))) (registered p c)
          ∙ (news-copies (supports p c && is_some (lookup c env.credentials)) (send p)
              ∙ ap (λ l. if supports p c && is_some (lookup c env.credentials) then l else [])
                  told))
