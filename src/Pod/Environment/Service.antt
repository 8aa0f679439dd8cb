-- ===== src/Pod/Environment/Service.antt =====
-- read and describe of PodEnvironmentService.ts. `served` says whether a kind is found, and `ask` is the
-- cluster.
use kubiq.Pod.Environment.{SourceKind, ObjectRef, ContainerEnvironment, references_of}
use kubiq.Pod.Environment.Report.{
  Source, Sources, Group, read, missing, forbidden, absent, is_secret, remember, source_of, report,
}
use kubiq.Base.{Bool, List, [], ◌∷◌, Option, none, some, Text, if◌then◌else◌}

-- What the cluster answers for an object: its data, or an error with its status.
pub data Reading : Type 0 where
  object_with : List (Text × Text) → Reading
  status_forbidden status_missing other_error : Reading

module _ (served : SourceKind → Bool) (ask : ObjectRef → Reading) where
  -- `read` of the service; `none` is an error that goes on.
  unfoldable pub read_object : ObjectRef → Option Source
  read_object o =
      if served o.source_kind
      then elim (ask o) [
        | object_with content ↦
            some (record { state = read; content = content; encoded = is_secret o })
        | status_forbidden ↦ some (absent forbidden)
        | status_missing ↦ some (absent missing)
        | other_error ↦ none
      ]
      else some (absent missing)

  -- `Promise.all` and the loop that remembers what was read.
  unfoldable pub remember_all : List ObjectRef → Sources → Option Sources
  unfolding remember
  remember_all [] known = some known
  remember_all (o ∷ os) known = elim (read_object o) [
    | none ↦ none
    | some s ↦ remember_all os (remember o s known)
  ]

  unfoldable pub describe_pod :
      (Text → Text → Bool) → (Text → Option Text) → List ContainerEnvironment → Option (List Group)
  unfolding remember_all source_of
  describe_pod follows from_base64 plans = elim (remember_all (references_of plans) []) [
    | none ↦ none
    | some known ↦ some (report follows from_base64 (source_of known) plans)
  ]
