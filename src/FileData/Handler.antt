-- ===== src/FileData/Handler.antt =====
-- What the update handler has been told.
use ld_relay.Base.{
  ◌≡◌, refl, Option, none, some, List, [], ◌∷◌, ◌++◌, inl, inr, Option-cases, arith,
}
use ld_relay.Base.Assoc.{Assoc, lookup, insert, delete, lookup-insert, lookup-delete}
use ld_relay.Credential.{string_key, EnvironmentId}
use ld_relay.EnvFactory.{EnvironmentParams}
use ld_relay.FileData.{
  EnvironmentMetadata, ArchiveReader, UpdateCall, add_environment, update_environment,
  delete_environment, Known, update_known, add_unknown, read_environment, update_loop, delete_loop,
  updated_archive,
}

abbrev pub View : Type 0
View = Assoc EnvironmentId EnvironmentParams

abbrev pub params_of : Option EnvironmentMetadata → Option EnvironmentParams
params_of none = none
params_of (some m) = some m.params

module _ {D : Type 0} where
  -- The environments that a handler has after a call.
  abbrev pub hear : UpdateCall D → View → View
  hear (add_environment e) v = insert e.params.env_id e.params v
  hear (update_environment e) v = insert e.params.env_id e.params v
  hear (delete_environment id f) v = delete id v

  unfoldable pub hear_all : List (UpdateCall D) → View → View
  hear_all [] v = v
  hear_all (c ∷ cs) v = hear_all cs (hear c v)

  hear_all-append :
      (xs ys : List (UpdateCall D)) (v : View) → hear_all (xs ++ ys) v ≡ hear_all ys (hear_all xs v)
  unfolding hear_all
  hear_all-append [] ys v = refl
  hear_all-append (x ∷ xs) ys v = hear_all-append xs ys (hear x v)

module _ {D : Type 0} (ar : ArchiveReader D)
    (named : (id : EnvironmentId) (new : EnvironmentMetadata)
      → ar.environment_metadata id ≡ some new
      → new.params.env_id ≡ id)
    (j : EnvironmentId) where
  abbrev Agrees : Known → View → Type 0
  Agrees known v = lookup j v ≡ params_of (lookup j known)

  insert-Agrees :
      (id : EnvironmentId) (new : EnvironmentMetadata) (known : Known) (v : View)
      → ar.environment_metadata id ≡ some new
      → Agrees known v
      → Agrees (insert id new known) (insert new.params.env_id new.params v)
  insert-Agrees id new known v e h = ground (
    arith,
    h,
    named id new e,
    lookup-insert id j new known,
    lookup-insert new.params.env_id j new.params v,
  )

  read_environment-Agrees :
      (id : EnvironmentId) (new : EnvironmentMetadata) (known : Known) (v : View)
      → ar.environment_metadata id ≡ some new
      → Agrees known v
      → Agrees
          (read_environment ar id new known).0
          (hear_all (read_environment ar id new known).1 v)
  unfolding read_environment update_known add_unknown hear_all
  read_environment-Agrees id new known v e h = elim (Option-cases (lookup id known)) [
    | inl q ↦
        rw (q, read_environment, add_unknown) (ground (arith, h, insert-Agrees id new known v e h))
    | inr (old, q) ↦
        rw (q, read_environment, update_known) (ground (arith, h, insert-Agrees id new known v e h))
  ]

  update_loop-Agrees :
      (ids : List EnvironmentId) (known unused : Known) (v : View)
      → Agrees known v
      → Agrees (update_loop ar ids known unused).0 (hear_all (update_loop ar ids known unused).2 v)
  unfolding update_loop hear_all
  update_loop-Agrees [] known unused v h = h
  update_loop-Agrees (id ∷ ids) known unused v h =
      elim (Option-cases (ar.environment_metadata id)) [
        | inl e ↦ rw (e, update_loop) (update_loop-Agrees ids known unused v h)
        | inr (new, e) ↦
            let r = read_environment ar id new known in
            let rest = update_loop ar ids r.0 (delete id unused) in
            rw (e, update_loop)
              (rw (hear_all-append r.1 rest.2 v) (
                update_loop-Agrees ids r.0 (delete id unused) (hear_all r.1 v)
                  (read_environment-Agrees id new known v e h)))
      ]

  delete_loop-Agrees :
      (unused known : Known) (v : View)
      → Agrees known v
      → Agrees (delete_loop ar unused known).0 (hear_all (delete_loop ar unused known).1 v)
  unfolding delete_loop hear_all
  delete_loop-Agrees [] known v h = h
  delete_loop-Agrees ((id, old) ∷ unused) known v h =
      delete_loop-Agrees unused (delete id known) (delete id v)
        (ground (arith, h, lookup-delete id j known, lookup-delete id j v))

  -- If an archive's metadata has the id that it is listed under, and a handler has an environment with
  -- the parameters that are known of it, or neither has it, then this holds again after the calls for a
  -- new archive.
  pub updated_archive-Agrees :
      (known : Known) (v : View)
      → lookup j v ≡ params_of (lookup j known)
      → let (known', calls) = updated_archive ar known in
        lookup j (hear_all calls v) ≡ params_of (lookup j known')
  unfolding updated_archive
  updated_archive-Agrees known v h =
      let r = update_loop ar ar.environment_ids known known in
      rw (hear_all-append r.2 (delete_loop ar r.1 r.0).1 v) (
        delete_loop-Agrees r.1 r.0 (hear_all r.2 v)
          (update_loop-Agrees ar.environment_ids known known v h))
