-- ===== src/Streams/Deleted.antt =====
-- The items that are not deleted.
use mathlib.Core.List.{append-nil, append_assoc}
use ld_relay.Base.{
  ap₂, length-append, inl, inr, Option-cases, ℕ, suc, ◌≡◌, refl, sym, ap, ◌∙◌, Option, none, some,
  List, [], ◌∷◌, ◌++◌, take, length, arith,
}
use ld_relay.Streams.{KeyedItem, remove_deleted_loop, remove_deleted}

module _ {I : Type 0} where
  unfoldable pub present : List (KeyedItem I) → List (KeyedItem I)
  present [] = []
  present ((k, d) ∷ items) = elim d.item [ none ↦ present items | some i ↦ (k, d) ∷ present items ]

  loop_copied :
      (items : List (KeyedItem I)) (i : ℕ) (rest ret : List (KeyedItem I))
      → remove_deleted_loop items i rest (some ret) ≡ some (ret ++ present rest)
  unfolding remove_deleted_loop present
  loop_copied items i [] ret = ap some (sym (append-nil ret))
  loop_copied items i ((k, d) ∷ rest) ret = elim (Option-cases d.item) [
    | inl e ↦ rw e (loop_copied items (suc i) rest ret)
    | inr (x, e) ↦ rw e (
        loop_copied items (suc i) rest (ret ++ (k, d) ∷ [])
        ∙ ap some (append_assoc ret ((k, d) ∷ []) (present rest)))
  ]

  result : List (KeyedItem I) → Option (List (KeyedItem I)) → List (KeyedItem I)
  result items none = items
  result items (some ret) = ret

  take-front : (front rest : List (KeyedItem I)) → take (length front) (front ++ rest) ≡ front
  take-front [] [] = refl
  take-front [] (x ∷ rest) = refl
  take-front (x ∷ front) rest = ap (◌∷◌ x) (take-front front rest)

  loop_not_copied :
      (items front rest : List (KeyedItem I)) (i : ℕ)
      → items ≡ front ++ rest
      → i ≡ length front
      → result items (remove_deleted_loop items i rest none) ≡ front ++ present rest
  unfolding remove_deleted_loop present result
  loop_not_copied items front [] i e l = e
  loop_not_copied items front ((k, d) ∷ rest) i e l = elim (Option-cases d.item) [
    | inl f ↦
        let copied : take i items ≡ front = ap₂ take l e ∙ take-front front ((k, d) ∷ rest) in
        rw (f, loop_copied items (suc i) rest (take i items)) (ap (λ t. t ++ present rest) copied)
    | inr (x, f) ↦ rw f (
        loop_not_copied items (front ++ (k, d) ∷ []) rest (suc i)
          (e ∙ sym (append_assoc front ((k, d) ∷ []) rest))
          (omega (arith, l, length-append front ((k, d) ∷ [])))
        ∙ append_assoc front ((k, d) ∷ []) (present rest))
  ]

  -- The items that a new client is sent are those that are not deleted, in their order.
  pub remove_deleted_lem : (items : List (KeyedItem I)) → remove_deleted items ≡ present items
  unfolding remove_deleted result
  remove_deleted_lem items = loop_not_copied items [] items 0 refl refl
