-- ===== src/AutoConfig/Receiver/Versions.antt =====
-- Versions decide, and not the order of arrival: what an id holds after any messages.
use mathlib.Core.List.{Memᴰ}
use mathlib.Core.List.Memᴰ as MemD
use ld_relay.Base.{
  ℕ, ◌≤◌, String, ◌≡◌, refl, sym, ◌∙◌, ◌⊎◌, inl, inr, Option, none, some, List, [], ◌∷◌, ite,
  if_pos, if_neg, ap, Bool-cases, leb, if◌then◌else◌, string_discrete, Option-cases, arith,
}
use ld_relay.Base.Assoc.{lookup, lookup-insert}
use ld_relay.Credential.{string_key}
use ld_relay.AutoConfig.Receiver.{
  Versioned, Receiver, new_receiver, new_versioned, new_tombstone, entomb, update, upsert, remove,
}

-- An upsert carries an item, a delete none.
abbrev pub Revision : Type 0 → Type 0
Revision T = ℕ × Option T

mem-cons_cases {ℓ} : {A : Type ℓ} (a x : A) (xs : List A) → Memᴰ a (x ∷ xs) → (a ≡ x) ⊎ Memᴰ a xs
mem-cons_cases a x xs (Memᴰ.head e) = inl e
mem-cons_cases a x xs (Memᴰ.tail t) = inr t

module _ {T : Type 0} where
  abbrev view_of : Option (Versioned T) → Option (Revision T)
  view_of none = none
  view_of (some v) = some (v.version, if v.entombed then none else v.item)

  -- The version that an id is at, and its item unless it is deleted.
  abbrev pub view : String → Receiver T → Option (Revision T)
  view id r = view_of (lookup id r.seen)

  pub deliver : String × Revision T → Receiver T → Receiver T
  deliver (id, (n, some item)) r = (upsert id item n r).0
  deliver (id, (n, none)) r = (remove id n r).0

  pub deliver_all : List (String × Revision T) → Receiver T → Receiver T
  deliver_all [] r = r
  deliver_all (d ∷ ds) r = deliver_all ds (deliver d r)

  abbrev merge : Option (Revision T) → Revision T → Option (Revision T)
  merge none m = some m
  merge (some w) m = if leb m.0 w.0 then some w else some m

  merge_all : Option (Revision T) → List (Revision T) → Option (Revision T)
  merge_all o [] = o
  merge_all o (m ∷ ms) = merge_all (merge o m) ms

  for_id : String → List (String × Revision T) → List (Revision T)
  for_id j [] = []
  for_id j ((id, m) ∷ ds) = ite (string_discrete j id) (m ∷ for_id j ds) (for_id j ds)

  -- One message moves only its own id, and that only to a higher version.
  pub view-deliver :
      (j id : String) (m : Revision T) (r : Receiver T)
      → view j (deliver (id, m) r) ≡ ite (string_discrete j id) (merge (view j r) m) (view j r)
  unfolding deliver upsert remove
  view-deliver j id (n, some item) r = elim (Option-cases (lookup id r.seen)) [
    | inl e ↦ ground (arith, lookup-insert id j (new_versioned item n) r.seen)
    | inr (v, e) ↦ ground (arith, lookup-insert id j (update item n v).0 r.seen)
  ]
  view-deliver j id (n, none) r = elim (Option-cases (lookup id r.seen)) [
    | inl e ↦ ground (arith, lookup-insert id j (new_tombstone n) r.seen)
    | inr (v, e) ↦ ground (
      arith,
      lookup-insert id j (entomb n v) r.seen,
      lookup-insert id j (record v { version = n }) r.seen,
    )
  ]

  view-deliver_all :
      (j : String) (ds : List (String × Revision T)) (r : Receiver T)
      → view j (deliver_all ds r) ≡ merge_all (view j r) (for_id j ds)
  unfolding deliver_all merge_all for_id
  view-deliver_all j [] r = refl
  view-deliver_all j ((id, m) ∷ ds) r =
      view-deliver_all j ds (deliver (id, m) r) ∙ ground (arith, view-deliver j id m r)

  for_id-mem :
      (j : String) (m : Revision T) (ds : List (String × Revision T))
      → Memᴰ m (for_id j ds)
      → Memᴰ (j, m) ds
  unfolding for_id
  for_id-mem j m [] h = absurd (MemD.not-nil h)
  for_id-mem j m ((id, w) ∷ ds) h = elim (string_discrete j id) [
    | yes p ↦ elim (mem-cons_cases m w (for_id j ds) (rw (if_pos _ p) at h)) [
      | inl e ↦ Memᴰ.head (cc)
      | inr t ↦ Memᴰ.tail (for_id-mem j m ds t)
    ]
    | no p ↦ Memᴰ.tail (for_id-mem j m ds (rw (if_neg _ p) at h))
  ]

  mem-for_id :
      (j : String) (m : Revision T) (ds : List (String × Revision T))
      → Memᴰ (j, m) ds
      → Memᴰ m (for_id j ds)
  unfolding for_id
  mem-for_id j m [] h = elim h [ ]
  mem-for_id j m ((id, w) ∷ ds) (Memᴰ.head e) =
      rw (if_pos (string_discrete j id) (ap (λ (d : String × Revision T). d.0) e))
        (Memᴰ.head (ap (λ (d : String × Revision T). d.1) e))
  mem-for_id j m ((id, w) ∷ ds) (Memᴰ.tail t) = elim (string_discrete j id) [
    | yes p ↦ rw (if_pos _ p) (Memᴰ.tail (mem-for_id j m ds t))
    | no p ↦ rw (if_neg _ p) (mem-for_id j m ds t)
  ]

  merge-covers :
      (o : Option (Revision T)) (m : Revision T)
      → (x : Revision T) × (merge o m ≡ some x) × (m.0 ≤ x.0)
  merge-covers none m = (m, refl, omega arith)
  merge-covers (some w) m = elim (Bool-cases (leb m.0 w.0)) [
    | inl e ↦ (w, ground arith, ground arith)
    | inr e ↦ (m, ground arith, omega arith)
  ]

  merge-keeps : (w m : Revision T) → (x : Revision T) × (merge (some w) m ≡ some x) × (w.0 ≤ x.0)
  merge-keeps w m = elim (Bool-cases (leb m.0 w.0)) [
    | inl e ↦ (w, ground arith, omega arith)
    | inr e ↦ (m, ground arith, ground arith)
  ]

  merge-from :
      (o : Option (Revision T)) (m x : Revision T) → merge o m ≡ some x → (o ≡ some x) ⊎ (x ≡ m)
  merge-from none m x e = inr (cc)
  merge-from (some w) m x e = elim (Bool-cases (leb m.0 w.0)) [
    | inl h ↦ inl (rw h at e)
    | inr h ↦ inr (let e' : some m ≡ some x = rw h at e in cc)
  ]

  merge_all-keeps :
      (w : Revision T) (ms : List (Revision T))
      → (x : Revision T) × (merge_all (some w) ms ≡ some x) × (w.0 ≤ x.0)
  unfolding merge_all
  merge_all-keeps w [] = (w, refl, omega arith)
  merge_all-keeps w (m ∷ ms) =
      let (x, e, h) = merge-keeps w m in
      let (y, e', h') = merge_all-keeps x ms in (y, ap (λ o. merge_all o ms) e ∙ e', omega arith)

  merge_all-covers :
      (o : Option (Revision T)) (ms : List (Revision T)) {m : Revision T}
      → Memᴰ m ms
      → (w : Revision T) × (merge_all o ms ≡ some w) × (m.0 ≤ w.0)
  unfolding merge_all
  merge_all-covers o [] h = elim h [ ]
  merge_all-covers o (x ∷ ms) {m} (Memᴰ.head p) =
      let (y, e, h) = merge-covers o x in
      let (z, e', h') = merge_all-keeps y ms in
      (z, ap (λ o. merge_all o ms) e ∙ e', omega (arith, ap (λ (r : Revision T). r.0) p))
  merge_all-covers o (x ∷ ms) (Memᴰ.tail t) = merge_all-covers (merge o x) ms t

  merge_all-from :
      (o : Option (Revision T)) (ms : List (Revision T)) (w : Revision T)
      → merge_all o ms ≡ some w
      → (o ≡ some w) ⊎ Memᴰ w ms
  unfolding merge_all
  merge_all-from o [] w e = inl e
  merge_all-from o (m ∷ ms) w e = elim (merge_all-from (merge o m) ms w e) [
    | inl h ↦ elim (merge-from o m w h) [ inl k ↦ inl k | inr k ↦ inr (Memᴰ.head k) ]
    | inr t ↦ inr (Memᴰ.tail t)
  ]

  -- One version of one id is one message.
  abbrev pub Consistent : List (String × Revision T) → Type 0
  Consistent ds =
      (j : String) (m w : Revision T) → Memᴰ (j, m) ds → Memᴰ (j, w) ds → m.0 ≡ w.0 → m ≡ w

  none-from :
      (j : String) (ds es : List (String × Revision T))
      → ((d : String × Revision T) → Memᴰ d es → Memᴰ d ds)
      → merge_all none (for_id j ds) ≡ none
      → merge_all none (for_id j es) ≡ none
  none-from j ds es sub e = elim (Option-cases (merge_all none (for_id j es))) [
    | inl h ↦ h
    | inr (w, h) ↦ elim (merge_all-from none (for_id j es) w h) [
      | inl k ↦ cc
      | inr t ↦
          let (x, e', _) =
            merge_all-covers none (for_id j ds)
              (mem-for_id j w ds (sub (j, w) (for_id-mem j w es t))) in
          cc
    ]
  ]

  -- The newest message is in both lists, and the two newest ones have each the higher version.
  same_newest :
      (ds es : List (String × Revision T))
      → Consistent ds
      → ((d : String × Revision T) → Memᴰ d ds → Memᴰ d es)
      → ((d : String × Revision T) → Memᴰ d es → Memᴰ d ds)
      → (j : String) → merge_all none (for_id j ds) ≡ merge_all none (for_id j es)
  same_newest ds es one there back j = elim (Option-cases (merge_all none (for_id j ds))) [
    | inl e ↦ e ∙ sym (none-from j ds es back e)
    | inr (w, e) ↦ elim (merge_all-from none (for_id j ds) w e) [
      | inl k ↦ cc
      | inr t ↦
          let at_es = there (j, w) (for_id-mem j w ds t) in
          let (x, ex, wx) = merge_all-covers none (for_id j es) (mem-for_id j w es at_es) in
          elim (merge_all-from none (for_id j es) x ex) [
            | inl k ↦ cc
            | inr u ↦
                let at_ds = back (j, x) (for_id-mem j x es u) in
                let (y, ey, xy) = merge_all-covers none (for_id j ds) (mem-for_id j x ds at_ds) in
                let wy : w ≡ y = cc in
                let same : w ≡ x =
                  one j w x (for_id-mem j w ds t) at_ds
                    (omega (arith, ap (λ (r : Revision T). r.0) wy)) in
                cc
          ]
    ]
  ]

  -- If the messages about one id with one version are one message, then two runs of a new receiver that
  -- hear the same messages, in any orders and with any repetitions, end with every id at the same
  -- version and with the same item, or both with none.
  pub deliver_all_order :
      (ds es : List (String × Revision T))
      → Consistent ds
      → ((d : String × Revision T) → Memᴰ d ds → Memᴰ d es)
      → ((d : String × Revision T) → Memᴰ d es → Memᴰ d ds)
      → (j : String) → view j (deliver_all ds new_receiver) ≡ view j (deliver_all es new_receiver)
  unfolding lookup
  deliver_all_order ds es one there back j =
      view-deliver_all j ds new_receiver
      ∙ same_newest ds es one there back j
      ∙ sym (view-deliver_all j es new_receiver)
