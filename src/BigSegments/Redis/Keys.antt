-- ===== src/BigSegments/Redis/Keys.antt =====
-- The keys of a store do not collide.
use ld_relay.Base.{String, ◌≡◌, ap, sym, refl, ◌∙◌, texts_apart}
use ld_relay.BigSegments.Redis.{
  redis_lock_key, redis_cursor_key, redis_include_key, redis_exclude_key,
}
use text.Mathlib.TextLemmas.{append_cancel_left, append_inj, append_assoc}
use Prim.Native.String.{◌++◌ as str_append, count}

-- Behind one prefix, texts that begin with different texts of one length.
apart :
    (prefix a b s t : String)
    → count a ≡ count b
    → ¬ (a ≡ b)
    → ¬ (str_append prefix (str_append a s) ≡ str_append prefix (str_append b t))
apart prefix a b s t l n h =
    let (p, q) =
      append_inj {s₁ = a} {s₂ = b} {t₁ = s} {t₂ = t}
        (append_cancel_left prefix (str_append a s) (str_append b t) h) l in
    n p

-- The same where the first text is in two parts.
apart_split :
    (prefix a a' b s t : String)
    → count a ≡ count b
    → ¬ (a ≡ b)
    → ¬ (str_append prefix (str_append (str_append a a') s) ≡ str_append prefix (str_append b t))
apart_split prefix a a' b s t l n h =
    apart prefix a b (str_append a' s) t l n
      (ap (str_append prefix) (sym (append_assoc a a' s)) ∙ h)

pub include-exclude :
    (prefix u v : String) → ¬ (redis_include_key prefix u ≡ redis_exclude_key prefix v)
include-exclude prefix u v =
    apart prefix ":big_segment_include:" ":big_segment_exclude:" u v refl
      (texts_apart ":big_segment_include:" ":big_segment_exclude:" refl)

pub include-cursor : (prefix u : String) → ¬ (redis_include_key prefix u ≡ redis_cursor_key prefix)
include-cursor prefix u =
    apart_split prefix ":big_segment_" "include:" ":big_segments" u "_cursor" refl
      (texts_apart ":big_segment_" ":big_segments" refl)

pub include-lock : (prefix u : String) → ¬ (redis_include_key prefix u ≡ redis_lock_key prefix)
include-lock prefix u =
    apart_split prefix ":big_segment_" "include:" ":big_segments" u "_lock" refl
      (texts_apart ":big_segment_" ":big_segments" refl)

pub exclude-cursor : (prefix u : String) → ¬ (redis_exclude_key prefix u ≡ redis_cursor_key prefix)
exclude-cursor prefix u =
    apart_split prefix ":big_segment_" "exclude:" ":big_segments" u "_cursor" refl
      (texts_apart ":big_segment_" ":big_segments" refl)

pub exclude-lock : (prefix u : String) → ¬ (redis_exclude_key prefix u ≡ redis_lock_key prefix)
exclude-lock prefix u =
    apart_split prefix ":big_segment_" "exclude:" ":big_segments" u "_lock" refl
      (texts_apart ":big_segment_" ":big_segments" refl)

pub redis_include_key-inj :
    (prefix u v : String) → redis_include_key prefix u ≡ redis_include_key prefix v → u ≡ v
redis_include_key-inj prefix u v h =
    append_cancel_left ":big_segment_include:" u v (append_cancel_left prefix _ _ h)

pub redis_exclude_key-inj :
    (prefix u v : String) → redis_exclude_key prefix u ≡ redis_exclude_key prefix v → u ≡ v
redis_exclude_key-inj prefix u v h =
    append_cancel_left ":big_segment_exclude:" u v (append_cancel_left prefix _ _ h)
