-- ===== src/BigSegments/Redis/Semantics.antt =====
-- What Redis documents of the commands, and the memberships that a patch asks for.
use ld_relay.Base.{
  String, ◌≡◌, some, Bool, true, false, List, [], ◌∷◌, ite, string_discrete, if◌then◌else◌,
}
use ld_relay.BigSegments.{Bytes, bytes_key, Mutations}
use ld_relay.BigSegments.Redis.{
  Command, set_text, s_add, s_rem, GetReply, text_reply, RedisClient, any_failed,
}

-- Does no command but a SET, or no SET, touch the key?
unfoldable pub only_set : String → List Command → Bool
only_set k [] = true
only_set k (set_text j v ∷ cs) = only_set k cs
only_set k (s_add j m ∷ cs) = ite (string_discrete j k) false (only_set k cs)
only_set k (s_rem j m ∷ cs) = ite (string_discrete j k) false (only_set k cs)

unfoldable pub never_set : String → List Command → Bool
never_set k [] = true
never_set k (set_text j v ∷ cs) = ite (string_discrete j k) false (never_set k cs)
never_set k (s_add j m ∷ cs) = never_set k cs
never_set k (s_rem j m ∷ cs) = never_set k cs

-- What the commands make of the text and of a member at a key.
unfoldable pub text_after : String → List Command → GetReply → GetReply
text_after k [] r = r
text_after k (set_text j v ∷ cs) r = text_after k cs (ite (string_discrete j k) (text_reply v) r)
text_after k (s_add j m ∷ cs) r = text_after k cs r
text_after k (s_rem j m ∷ cs) r = text_after k cs r

unfoldable pub member_after : String → Bytes → List Command → Bool → Bool
member_after k m [] b = b
member_after k m (set_text j v ∷ cs) b = member_after k m cs b
member_after k m (s_add j n ∷ cs) b =
    member_after k m cs (ite (string_discrete j k) (ite (bytes_key.dec n m) true b) b)
member_after k m (s_rem j n ∷ cs) b =
    member_after k m cs (ite (string_discrete j k) (ite (bytes_key.dec n m) false b) b)

-- What Redis documents of a transaction none of whose commands fails. A member is what
-- SISMEMBER answers.
pub record Documented {D : Type 0} (client : RedisClient D) : Type 0 where
  pub is_member : String → Bytes → D → Bool
  pub executed_text :
      (cs : List Command) (d : D) (failures : List Bool) (k : String)
      → (client.tx_pipelined cs d).1 ≡ some failures
      → any_failed failures ≡ false
      → only_set k cs ≡ true
      → client.get k (client.tx_pipelined cs d).0 ≡ text_after k cs (client.get k d)
  pub executed_member :
      (cs : List Command) (d : D) (failures : List Bool) (k : String) (m : Bytes)
      → (client.tx_pipelined cs d).1 ≡ some failures
      → any_failed failures ≡ false
      → never_set k cs ≡ true
      → is_member k m (client.tx_pipelined cs d).0 ≡ member_after k m cs (is_member k m d)

-- Is the user in the list?
unfoldable pub listed : String → List String → Bool
listed u [] = false
listed u (v ∷ vs) = ite (string_discrete v u) true (listed u vs)

-- A user's membership after some mutations: a removal counts more than an addition.
unfoldable pub mutated : Mutations → String → Bool → Bool
unfolding listed
mutated ms u b = if listed u ms.remove then false else if listed u ms.add then true else b
