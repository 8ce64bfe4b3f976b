-- ===== src/FileData.antt =====
-- internal/filedata/archive_manager.go: what a new archive changes. Reading the archive's files is
-- `archive_reader.go`'s, an interface here; the calls of the `UpdateHandler` are returned, in order.
pub mod Monitor
pub mod Updates
pub mod Handler
use ld_relay.Base.{
  ℕ, String, Option, none, some, Bool, true, false, ◌&&◌, List, [], ◌∷◌, ◌++◌, ite, string_discrete,
  if◌then◌else◌, ◌==◌,
}
use ld_relay.Base.Assoc.{Assoc, lookup, insert, delete}
use ld_relay.Credential.{string_key, EnvironmentId, FilterKey}
use ld_relay.EnvFactory.{EnvironmentParams}

pub record EnvironmentMetadata : Type 0 where
  pub params : EnvironmentParams
  pub version : ℕ
  pub data_id : String

-- `none` is an error.
pub record ArchiveReader (D : Type 0) : Type 0 where
  pub environment_ids : List EnvironmentId
  pub environment_metadata : EnvironmentId → Option EnvironmentMetadata
  pub environment_sdk_data : EnvironmentId → Option D

-- No data: the data has not changed.
pub record ArchiveEnvironment (D : Type 0) : Type 0 where
  pub params : EnvironmentParams
  pub sdk_data : Option D

pub data UpdateCall (D : Type 0) : Type 0 where
  add_environment update_environment : ArchiveEnvironment D → UpdateCall D
  delete_environment : EnvironmentId → FilterKey → UpdateCall D

abbrev pub Known : Type 0
Known = Assoc EnvironmentId EnvironmentMetadata

abbrev pub same_data : EnvironmentMetadata → EnvironmentMetadata → Bool
same_data old new = ite (string_discrete old.data_id new.data_id) true false

module _ {D : Type 0} (ar : ArchiveReader D) where
  -- An environment that is read: what is known after it, and the calls.
  unfoldable pub update_known :
      EnvironmentId
      → EnvironmentMetadata
      → EnvironmentMetadata
      → Known
      → Known × List (UpdateCall D)
  update_known id old new known =
      if same_data old new && (old.version == new.version)
      then (known, [])
      else if same_data old new
      then (
        insert id new known,
        update_environment (record { params = new.params; sdk_data = none }) ∷ [],
      )
      else elim (ar.environment_sdk_data id) [
        | none ↦ (known, [])
        | some d ↦ (
          insert id new known,
          update_environment (record { params = new.params; sdk_data = some d }) ∷ [],
        )
      ]

  unfoldable pub add_unknown :
      EnvironmentId → EnvironmentMetadata → Known → Known × List (UpdateCall D)
  add_unknown id new known = elim (ar.environment_sdk_data id) [
    | none ↦ (known, [])
    | some d ↦ (
      insert id new known,
      add_environment (record { params = new.params; sdk_data = some d }) ∷ [],
    )
  ]

  unfoldable pub read_environment :
      EnvironmentId → EnvironmentMetadata → Known → Known × List (UpdateCall D)
  unfolding update_known add_unknown
  read_environment id new known = elim (lookup id known) [
    | some old ↦ update_known id old new known
    | none ↦ add_unknown id new known
  ]

  -- The loop over the archive's environments: what is known, what is unused, and the calls.
  unfoldable pub update_loop :
      List EnvironmentId → Known → Known → Known × Known × List (UpdateCall D)
  unfolding read_environment
  update_loop [] known unused = (known, unused, [])
  update_loop (id ∷ ids) known unused = elim (ar.environment_metadata id) [
    | none ↦ update_loop ids known unused
    | some new ↦
        let (known', calls) = read_environment id new known in
        let (known'', unused', more) = update_loop ids known' (delete id unused) in
        (known'', unused', calls ++ more)
  ]

  unfoldable pub delete_loop : Known → Known → Known × List (UpdateCall D)
  delete_loop [] known = (known, [])
  delete_loop ((id, old) ∷ unused) known =
      let (known', calls) = delete_loop unused (delete id known) in
      (known', delete_environment id old.params.identifiers.filter_key ∷ calls)

  unfoldable pub updated_archive : Known → Known × List (UpdateCall D)
  unfolding update_loop delete_loop
  updated_archive known =
      let (known', unused, calls) = update_loop ar.environment_ids known known in
      let (known'', deletes) = delete_loop unused known' in (known'', calls ++ deletes)
