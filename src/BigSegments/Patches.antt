-- ===== src/BigSegments/Patches.antt =====
-- What applying patches leaves in a store, against the chain of their versions.
use ld_relay.Base.{
  ◌+◌, ◌≡◌, refl, inl, inr, ite, String, string_discrete, Option, none, some, Bool, true, false,
  List, [], ◌∷◌, length, arith, Bool-cases, if◌then◌else◌,
}
use ld_relay.BigSegments.{
  Patch, Store, Fault, Changes, no_changes, ApplyPatchesResult, add_segment_id, apply_loop,
  apply_patches,
}

-- Does the patch start from the version, `none` for a store that has none?
unfoldable pub starts_from : Option String → Patch → Bool
starts_from none p = true
starts_from (some v) p = ite (string_discrete p.previous_version v) true false

-- The patches that a store at a version takes: each one starts from where the one before has led.
unfoldable pub chain : Option String → List Patch → List Patch
unfolding starts_from
chain v [] = []
chain v (p ∷ ps) = let rest = chain (some p.version) ps in if starts_from v p then p ∷ rest else []

-- The version after the last of some patches.
unfoldable pub last_version : Option String → List Patch → Option String
last_version v [] = v
last_version v (p ∷ ps) = last_version (some p.version) ps

unfoldable pub segment_changes : List Patch → Changes → Changes
unfolding add_segment_id
segment_changes [] c = c
segment_changes (p ∷ ps) c = segment_changes ps (add_segment_id p.segment_id c)

-- A store that keeps its contract: it applies a patch exactly if the patch starts from its cursor or
-- it has none, the cursor then is the patch's version, and it does not fail.
pub record Sequential {S : Type 0} (store : Store S) : Type 0 where
  pub cursor : S → Option String
  pub applies :
      (p : Patch) (s : S)
      → starts_from (cursor s) p ≡ true
      → ((store.apply_patch p s).1 ≡ some true)
        × (cursor (store.apply_patch p s).0 ≡ some p.version)
  pub refuses :
      (p : Patch) (s : S)
      → starts_from (cursor s) p ≡ false
      → ((store.apply_patch p s).1 ≡ some false) × (cursor (store.apply_patch p s).0 ≡ cursor s)

module _ {S : Type 0} (store : Store S) (seq : Sequential store) where
  abbrev Result :
      ApplyPatchesResult → S → List Patch → S × ApplyPatchesResult × Option Fault → Type 0
  Result ret s ps r =
      (r.2 ≡ none)
      × (r.1.total_patches_count ≡ ret.total_patches_count)
      × (r.1.patches_applied_count ≡ ret.patches_applied_count + length (chain (seq.cursor s) ps))
      × (r.1.segments_updated ≡ segment_changes (chain (seq.cursor s) ps) ret.segments_updated)
      × (seq.cursor r.0 ≡ last_version (seq.cursor s) (chain (seq.cursor s) ps))

  abbrev count : Patch → ApplyPatchesResult → ApplyPatchesResult
  count p ret = record ret {
    patches_applied_count = ret.patches_applied_count + 1;
    segments_updated = add_segment_id p.segment_id ret.segments_updated;
  }

  apply_loop-chain :
      (ps : List Patch) (ret : ApplyPatchesResult) (s : S)
      → Result ret s ps (apply_loop store ps ret s)
  unfolding apply_loop chain starts_from last_version segment_changes
  apply_loop-chain [] ret s = (refl, refl, omega arith, refl, refl)
  apply_loop-chain (p ∷ ps) ret s = elim (Bool-cases (starts_from (seq.cursor s) p)) [
    | inl q ↦
        let (a, b) = seq.applies p s q in
        let ih = apply_loop-chain ps (count p ret) (store.apply_patch p s).0 in
        rw (a, apply_loop, q) (ih.0, ih.1, omega (arith, rw b at ih.2), rw b at ih.3, rw b at ih.4)
    | inr n ↦
        let (a, b) = seq.refuses p s n in rw (a, apply_loop, n) (refl, refl, omega arith, refl, b)
  ]

  -- In a store that applies a patch exactly if it starts from the store's cursor or there is none, a batch of patches is
  -- applied up to the first that does not start where the one before has led, without an error: as many
  -- are counted, the segments of just these are reported as updated, and the cursor is the version of
  -- the last of them. The total is the length of the batch.
  pub apply_patches-chain :
      (ps : List Patch) (s : S)
      → let r = apply_patches store (some ps) s in
        (r.2 ≡ none)
        × (r.1.total_patches_count ≡ length ps)
        × (r.1.patches_applied_count ≡ length (chain (seq.cursor s) ps))
        × (r.1.segments_updated ≡ segment_changes (chain (seq.cursor s) ps) no_changes)
        × (seq.cursor r.0 ≡ last_version (seq.cursor s) (chain (seq.cursor s) ps))
  unfolding apply_patches
  apply_patches-chain ps s =
      let h = apply_loop-chain ps _ s in (h.0, h.1, omega (arith, h.2), h.3, h.4)
