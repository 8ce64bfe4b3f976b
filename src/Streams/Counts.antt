-- ===== src/Streams/Counts.antt =====
-- How many streams a credential has at a provider.
use ld_relay.Base.{
  ℕ, ◌+◌, ◌≡◌, refl, sym, ap, ◌∙◌, Bool, true, false, ◌&&◌, List, [], ◌∷◌, ◌++◌, map, ite, if_pos,
  if_neg, if◌then◌else◌, inl, inr, Bool-cases, arith,
}
use ld_relay.Base.Assoc.{Assoc, lookup, keys, is_some, UniqueKeys}
use ld_relay.Credential.{
  SdkCredential, SdkCredential-discrete, credential_key, ScopedCredential,
  ScopedCredential-discrete, new_scoped, FilterKey,
}
use ld_relay.RelayEnv.{
  StreamProvider, server_side, server_side_flags, mobile_ping, js_client_ping, supports, StreamInfo,
  Handlers, register_streams, unregister_streams, all_providers, register_all,
}

abbrev pub same_provider : StreamProvider → StreamProvider → Bool
same_provider server_side server_side = true
same_provider server_side_flags server_side_flags = true
same_provider mobile_ping mobile_ping = true
same_provider js_client_ping js_client_ping = true
same_provider _ _ = false

pub same_provider-eq : (p q : StreamProvider) → same_provider p q ≡ true → p ≡ q
same_provider-eq server_side server_side h = refl
same_provider-eq server_side_flags server_side_flags h = refl
same_provider-eq mobile_ping mobile_ping h = refl
same_provider-eq js_client_ping js_client_ping h = refl
same_provider-eq p q h = cc

unfoldable pub count_streams : StreamProvider → ScopedCredential → List StreamInfo → ℕ
count_streams p c [] = 0
count_streams p c (s ∷ ss) =
    (if same_provider p s.provider then ite (ScopedCredential-discrete s.credential c) 1 0 else 0)
    + count_streams p c ss

count_streams-append :
    (p : StreamProvider) (c : ScopedCredential) (ss ss' : List StreamInfo)
    → count_streams p c (ss ++ ss') ≡ count_streams p c ss + count_streams p c ss'
unfolding count_streams
count_streams-append p c [] ss' = omega arith
count_streams-append p c (s ∷ ss) ss' = omega (arith, count_streams-append p c ss ss')

pub unregister_streams-count :
    (p : StreamProvider) (c d : ScopedCredential) (ss : List StreamInfo)
    → count_streams p d (unregister_streams c ss)
      ≡ ite (ScopedCredential-discrete c d) 0 (count_streams p d ss)
unfolding count_streams unregister_streams
unregister_streams-count p c d [] = ground arith
unregister_streams-count p c d (s ∷ ss) = ground (arith, unregister_streams-count p c d ss)

-- The providers of the handlers.
abbrev pub names : List (StreamProvider × Handlers) → List StreamProvider
names = map (λ q. q.0)

-- The streams of a credential that the providers add.
unfoldable pub added :
    StreamProvider → ScopedCredential → ScopedCredential → List StreamProvider → ℕ
added p c d [] = 0
added p c d (q ∷ qs) =
    (if supports q c.credential
      then if same_provider p q then ite (ScopedCredential-discrete c d) 1 0 else 0
      else 0)
    + added p c d qs

register_streams-count :
    (p : StreamProvider) (c d : ScopedCredential) (ps : List (StreamProvider × Handlers))
    (ss : List StreamInfo)
    → count_streams p d (register_streams c ps ss) ≡ count_streams p d ss + added p c d (names ps)
unfolding count_streams register_streams added
register_streams-count p c d [] ss = omega arith
register_streams-count p c d (q ∷ ps) ss = elim (Bool-cases (supports q.0 c.credential)) [
  | inl e ↦
      rw (e, register_streams-count p c d ps (ss ++ record { credential = c; provider = q.0 } ∷ []))
        (omega
          (arith, count_streams-append p d ss (record { credential = c; provider = q.0 } ∷ [])))
  | inr e ↦ rw (e, register_streams-count p c d ps ss) (omega arith)
]

-- One at each provider that supports the credential.
added-all_providers :
    (p : StreamProvider) (c d : ScopedCredential)
    → added p c d all_providers
      ≡ (if supports p c.credential then ite (ScopedCredential-discrete c d) 1 0 else 0)
unfolding added
added-all_providers server_side c d = ground arith
added-all_providers server_side_flags c d = ground arith
added-all_providers mobile_ping c d = ground arith
added-all_providers js_client_ping c d = ground arith

pub register_streams-all_providers :
    (p : StreamProvider) (c d : ScopedCredential) (ps : List (StreamProvider × Handlers))
    (ss : List StreamInfo)
    → names ps ≡ all_providers
    → count_streams p d (register_streams c ps ss)
      ≡ count_streams p d ss
        + (if supports p c.credential then ite (ScopedCredential-discrete c d) 1 0 else 0)
register_streams-all_providers p c d ps ss h =
    register_streams-count p c d ps ss
    ∙ ap (λ n. count_streams p d ss + n) (ap (added p c d) h ∙ added-all_providers p c d)

pub scoped_ite :
    (f : FilterKey) (c d : SdkCredential) (m n : ℕ)
    → ite (ScopedCredential-discrete (new_scoped f c) (new_scoped f d)) m n
      ≡ ite (credential_key.dec c d) m n
scoped_ite f c d m n = elim (SdkCredential-discrete c d) [
  | yes e ↦
      if_pos (ScopedCredential-discrete (new_scoped f c) (new_scoped f d)) (ap (new_scoped f) e) m n
      ∙ sym (if_pos (SdkCredential-discrete c d) e m n)
  | no k ↦
      if_neg (ScopedCredential-discrete (new_scoped f c) (new_scoped f d))
        (λ e. k (ap (λ s. s.credential) e)) m n
      ∙ sym (if_neg (SdkCredential-discrete c d) k m n)
]

-- How often a provider registers a credential that is among others.
unfoldable held : StreamProvider → SdkCredential → List SdkCredential → ℕ
held p d [] = 0
held p d (c ∷ cs) = (if supports p c then ite (credential_key.dec c d) 1 0 else 0) + held p d cs

register_all-count :
    (f : FilterKey) (p : StreamProvider) (d : SdkCredential) (cs : List SdkCredential)
    (ps : List (StreamProvider × Handlers)) (ss : List StreamInfo)
    → names ps ≡ all_providers
    → count_streams p (new_scoped f d) (register_all f cs ps ss)
      ≡ count_streams p (new_scoped f d) ss + held p d cs
unfolding register_all held
register_all-count f p d [] ps ss h = omega arith
register_all-count f p d (c ∷ cs) ps ss h = ground (
  arith,
  register_all-count f p d cs ps (register_streams (new_scoped f c) ps ss) h,
  register_streams-all_providers p (new_scoped f c) (new_scoped f d) ps ss h,
  scoped_ite f c d 1 0,
)

held-keys :
    (p : StreamProvider) (d : SdkCredential) (cs : Assoc SdkCredential Bool)
    → UniqueKeys cs
    → held p d (keys cs) ≡ (if supports p d && is_some (lookup d cs) then 1 else 0)
unfolding held lookup
held-keys p d [] u = ground arith
held-keys p d ((c, v) ∷ cs) u = elim (SdkCredential-discrete c d) [
  | yes e ↦ ground (arith, e, held-keys p d cs u.1, u.0)
  | no n ↦ ground (arith, n, held-keys p d cs u.1)
]

pub register_all-keys :
    (f : FilterKey) (p : StreamProvider) (d : SdkCredential) (cs : Assoc SdkCredential Bool)
    (ps : List (StreamProvider × Handlers))
    → names ps ≡ all_providers
    → UniqueKeys cs
    → count_streams p (new_scoped f d) (register_all f (keys cs) ps [])
      ≡ (if supports p d && is_some (lookup d cs) then 1 else 0)
unfolding count_streams
register_all-keys f p d cs ps h u =
    ground (arith, register_all-count f p d (keys cs) ps [] h, held-keys p d cs u)
