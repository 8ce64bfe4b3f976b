-- ===== src/BigSegments/Redis/Loops.antt =====
-- The commands of a patch, loop by loop.
use ld_relay.Base.{
  String, ◌≡◌, refl, ◌∙◌, Bool, true, false, ◌&&◌, List, [], ◌∷◌, ◌++◌, if◌then◌else◌, arith,
}
use ld_relay.BigSegments.{Bytes, bytes_key}
use ld_relay.BigSegments.Redis.{Command, set_text, s_add, s_rem, GetReply, for_each}
use ld_relay.BigSegments.Redis.Semantics.{only_set, never_set, text_after, member_after, listed}

only_set-append :
    (k : String) (cs cs' : List Command) → only_set k (cs ++ cs') ≡ only_set k cs && only_set k cs'
unfolding only_set
only_set-append k [] cs' = refl
only_set-append k (set_text j v ∷ cs) cs' = only_set-append k cs cs'
only_set-append k (s_add j v ∷ cs) cs' = ground (arith, only_set-append k cs cs')
only_set-append k (s_rem j v ∷ cs) cs' = ground (arith, only_set-append k cs cs')

never_set-append :
    (k : String) (cs cs' : List Command)
    → never_set k (cs ++ cs') ≡ never_set k cs && never_set k cs'
unfolding never_set
never_set-append k [] cs' = refl
never_set-append k (set_text j v ∷ cs) cs' = ground (arith, never_set-append k cs cs')
never_set-append k (s_add j v ∷ cs) cs' = never_set-append k cs cs'
never_set-append k (s_rem j v ∷ cs) cs' = never_set-append k cs cs'

text_after-append :
    (k : String) (cs cs' : List Command) (r : GetReply)
    → text_after k (cs ++ cs') r ≡ text_after k cs' (text_after k cs r)
unfolding text_after
text_after-append k [] cs' r = refl
text_after-append k (set_text j v ∷ cs) cs' r = text_after-append k cs cs' _
text_after-append k (s_add j v ∷ cs) cs' r = text_after-append k cs cs' r
text_after-append k (s_rem j v ∷ cs) cs' r = text_after-append k cs cs' r

member_after-append :
    (k : String) (m : Bytes) (cs cs' : List Command) (b : Bool)
    → member_after k m (cs ++ cs') b ≡ member_after k m cs' (member_after k m cs b)
unfolding member_after
member_after-append k m [] cs' b = refl
member_after-append k m (set_text j v ∷ cs) cs' b = member_after-append k m cs cs' b
member_after-append k m (s_add j n ∷ cs) cs' b = member_after-append k m cs cs' _
member_after-append k m (s_rem j n ∷ cs) cs' b = member_after-append k m cs cs' _

-- The loops, at a key of theirs and at another one.
module _ (key : String → String) (seg : Bytes) where
  abbrev pub adds : List String → List Command
  adds = for_each (λ v. s_add (key v) seg)

  abbrev pub rems : List String → List Command
  rems = for_each (λ v. s_rem (key v) seg)

  pub adds-text : (k : String) (vs : List String) (r : GetReply) → text_after k (adds vs) r ≡ r
  unfolding text_after for_each
  adds-text k [] r = refl
  adds-text k (v ∷ vs) r = adds-text k vs r

  pub rems-text : (k : String) (vs : List String) (r : GetReply) → text_after k (rems vs) r ≡ r
  unfolding text_after for_each
  rems-text k [] r = refl
  rems-text k (v ∷ vs) r = rems-text k vs r

  pub adds-never_set : (k : String) (vs : List String) → never_set k (adds vs) ≡ true
  unfolding never_set for_each
  adds-never_set k [] = refl
  adds-never_set k (v ∷ vs) = adds-never_set k vs

  pub rems-never_set : (k : String) (vs : List String) → never_set k (rems vs) ≡ true
  unfolding never_set for_each
  rems-never_set k [] = refl
  rems-never_set k (v ∷ vs) = rems-never_set k vs

  module _ (k : String) (other : (v : String) → ¬ (key v ≡ k)) where
    pub adds-only_set : (vs : List String) → only_set k (adds vs) ≡ true
    unfolding only_set for_each
    adds-only_set [] = refl
    adds-only_set (v ∷ vs) = ground (arith, other v, adds-only_set vs)

    pub rems-only_set : (vs : List String) → only_set k (rems vs) ≡ true
    unfolding only_set for_each
    rems-only_set [] = refl
    rems-only_set (v ∷ vs) = ground (arith, other v, rems-only_set vs)

    pub adds-other : (m : Bytes) (vs : List String) (b : Bool) → member_after k m (adds vs) b ≡ b
    unfolding member_after for_each
    adds-other m [] b = refl
    adds-other m (v ∷ vs) b = ground (arith, other v, adds-other m vs b)

    pub rems-other : (m : Bytes) (vs : List String) (b : Bool) → member_after k m (rems vs) b ≡ b
    unfolding member_after for_each
    rems-other m [] b = refl
    rems-other m (v ∷ vs) b = ground (arith, other v, rems-other m vs b)

  module _ (inj : (u v : String) → key u ≡ key v → u ≡ v) (u : String) where
    pub adds-member :
        (vs : List String) (b : Bool)
        → member_after (key u) seg (adds vs) b ≡ (if listed u vs then true else b)
    unfolding member_after for_each listed
    adds-member [] b = refl
    adds-member (v ∷ vs) b = ground (arith, inj v u, adds-member vs b, adds-member vs true)

    pub rems-member :
        (vs : List String) (b : Bool)
        → member_after (key u) seg (rems vs) b ≡ (if listed u vs then false else b)
    unfolding member_after for_each listed
    rems-member [] b = refl
    rems-member (v ∷ vs) b = ground (arith, inj v u, rems-member vs b, rems-member vs false)

pub only_set-four :
    (k : String) (a b c d : List Command)
    → only_set k a ≡ true
    → only_set k b ≡ true
    → only_set k c ≡ true
    → only_set k d ≡ true
    → only_set k (a ++ (b ++ (c ++ d))) ≡ true
only_set-four k a b c d ha hb hc hd = ground (
  arith,
  only_set-append k a (b ++ (c ++ d)),
  only_set-append k b (c ++ d),
  only_set-append k c d,
)

pub never_set-four :
    (k : String) (a b c d : List Command)
    → never_set k a ≡ true
    → never_set k b ≡ true
    → never_set k c ≡ true
    → never_set k d ≡ true
    → never_set k (a ++ (b ++ (c ++ d))) ≡ true
never_set-four k a b c d ha hb hc hd = ground (
  arith,
  never_set-append k a (b ++ (c ++ d)),
  never_set-append k b (c ++ d),
  never_set-append k c d,
)

pub text_after-four :
    (k : String) (a b c d : List Command) (r : GetReply)
    → text_after k (a ++ (b ++ (c ++ d))) r
      ≡ text_after k d (text_after k c (text_after k b (text_after k a r)))
text_after-four k a b c d r =
    text_after-append k a (b ++ (c ++ d)) r
    ∙ (text_after-append k b (c ++ d) _ ∙ text_after-append k c d _)

pub member_after-four :
    (k : String) (m : Bytes) (a b c d : List Command) (x : Bool)
    → member_after k m (a ++ (b ++ (c ++ d))) x
      ≡ member_after k m d (member_after k m c (member_after k m b (member_after k m a x)))
member_after-four k m a b c d x =
    member_after-append k m a (b ++ (c ++ d)) x
    ∙ (member_after-append k m b (c ++ d) _ ∙ member_after-append k m c d _)
