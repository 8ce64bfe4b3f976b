-- ===== src/FileData/Updates.antt =====
-- What is known, and what the handler has been told, after a new archive.
use ld_relay.Base.{
  ◌≡◌, refl, Option, none, some, Bool, true, false, ◌&&◌, List, [], ◌∷◌, ite, string_discrete,
  if◌then◌else◌, ◌==◌, inl, inr, Option-cases, arith,
}
use ld_relay.Base.Assoc.{lookup, delete, lookup-insert, lookup-delete, is_some}
use ld_relay.Credential.{string_key, EnvironmentId}
use ld_relay.FileData.{
  EnvironmentMetadata, ArchiveReader, Known, same_data, update_known, add_unknown, read_environment,
  update_loop, delete_loop, updated_archive,
}

-- The metadata that is kept of an environment that an archive has, by its data and what was known.
-- Without data, a new environment is left out, and a known one is only updated if its data is the same.
abbrev pub settle {ℓ} :
    {D : Type ℓ}
    → EnvironmentMetadata
    → Option D
    → Option EnvironmentMetadata
    → Option EnvironmentMetadata
settle new none none = none
settle new (some d) none = some new
settle new data_now (some old) =
    if same_data old new
    then if old.version == new.version then some old else some new
    else elim data_now [ none ↦ some old | some d ↦ some new ]

-- Is the id one of the list's?
abbrev pub listed : EnvironmentId → List EnvironmentId → Bool
listed j [] = false
listed j (id ∷ ids) = ite (string_discrete j id) true (listed j ids)

module _ {D : Type 0} (ar : ArchiveReader D) where
  -- What an archive makes of what was known of an environment.
  abbrev pub settled : EnvironmentId → Option EnvironmentMetadata → Option EnvironmentMetadata
  settled j old = elim (ar.environment_metadata j) [
    | none ↦ none
    | some new ↦ settle new (ar.environment_sdk_data j) old
  ]

  -- The archive has an environment whose metadata can be read.
  abbrev readable : EnvironmentId → List EnvironmentId → Bool
  readable j ids = listed j ids && is_some (ar.environment_metadata j)

  lookup-read_environment :
      (j id : EnvironmentId) (new : EnvironmentMetadata) (known : Known)
      → lookup j (read_environment ar id new known).0
        ≡ ite
            (string_discrete j id)
            (settle new (ar.environment_sdk_data id) (lookup id known))
            (lookup j known)
  unfolding read_environment update_known add_unknown
  lookup-read_environment j id new known = elim (Option-cases (lookup id known)) [
    | inl e ↦
        rw (e, read_environment, add_unknown) (ground (arith, e, lookup-insert id j new known))
    | inr (old, e) ↦
        rw (e, read_environment, update_known) (ground (arith, e, lookup-insert id j new known))
  ]

  settle-settle :
      (new : EnvironmentMetadata) (d : Option D) (old : Option EnvironmentMetadata)
      → settle new d (settle new d old) ≡ settle new d old
  settle-settle new none none = refl
  settle-settle new (some d) none = ground arith
  settle-settle new none (some old) = ground arith
  settle-settle new (some d) (some old) = ground arith

  lookup-update_loop :
      (j : EnvironmentId) (ids : List EnvironmentId) (known unused : Known)
      → (lookup j (update_loop ar ids known unused).0
          ≡ (if readable j ids then settled j (lookup j known) else lookup j known))
        × (lookup j (update_loop ar ids known unused).1
            ≡ (if readable j ids then none else lookup j unused))
  unfolding update_loop
  lookup-update_loop j [] known unused = (refl, refl)
  lookup-update_loop j (id ∷ ids) known unused = elim (Option-cases (ar.environment_metadata id)) [
    | inl e ↦ rw (e, update_loop) (ground (arith, e, lookup-update_loop j ids known unused))
    | inr (new, e) ↦
        rw (e, update_loop)
          (ground (
            arith,
            e,
            lookup-read_environment j id new known,
            lookup-delete id j unused,
            settle-settle new (ar.environment_sdk_data id) (lookup id known),
            lookup-update_loop j ids (read_environment ar id new known).0 (delete id unused),
          ))
  ]

  lookup-delete_loop :
      (j : EnvironmentId) (unused known : Known)
      → lookup j (delete_loop ar unused known).0
        ≡ (if is_some (lookup j unused) then none else lookup j known)
  unfolding delete_loop lookup
  lookup-delete_loop j [] known = refl
  lookup-delete_loop j ((id, old) ∷ unused) known =
      ground (arith, lookup-delete id j known, lookup-delete_loop j unused (delete id known))

  -- After a new archive, what is known of an environment: nothing if the archive does not list it or its
  -- metadata cannot be read, else what the archive's metadata and data make of what was known, however
  -- often it is listed.
  pub updated_archive-lookup :
      (j : EnvironmentId) (known : Known)
      → lookup j (updated_archive ar known).0
        ≡ (if listed j ar.environment_ids then settled j (lookup j known) else none)
  unfolding updated_archive
  updated_archive-lookup j known =
      let r = update_loop ar ar.environment_ids known known in
      ground
        (arith, lookup-update_loop j ar.environment_ids known known, lookup-delete_loop j r.1 r.0)
