-- ===== src/Service/State/Moves.antt =====
-- The life cycle that state.py promises, as a relation between two stores: what a method may do to
-- the builds and to their event logs. The children show that the methods keep to it.
pub mod Effects
pub mod Leasing
pub mod Completion
pub mod Recovery
pub mod Transitions
pub mod Publication
pub mod Submit
use headless_blender_charact.Prelude.{
  Bool, List, [], arith, length, nat_eq, none, some, string_eq, true, ◌++◌, ◌+◌, ◌∷◌, ◌≡◌,
}
use headless_blender_charact.Service.Contract.{Datetime, Uuid}
use headless_blender_charact.Service.Dict.{insert, lookup}
use headless_blender_charact.Service.Models.Status.{BuildStatus, allowed}
use headless_blender_charact.Service.Models.Build.{BuildRecord}
use headless_blender_charact.Service.Models.Event.{BuildEvent}
use headless_blender_charact.Service.State.Store.{Store}
use headless_blender_charact.Service.State.Submit.{queued_event, validated_event}

-- The policy of models.py, with the two moves that have methods of their own: publishing a success,
-- and marking a build that cannot be canceled at once.
unfoldable pub edge : BuildStatus → BuildStatus → Bool
unfolding allowed
edge BuildStatus.running BuildStatus.succeeded = true
edge BuildStatus.rendering BuildStatus.succeeded = true
edge BuildStatus.running BuildStatus.running = true
edge BuildStatus.geometry_qa BuildStatus.geometry_qa = true
edge BuildStatus.rendering BuildStatus.rendering = true
edge a b = allowed a b

pub allowed-edge : (a b : BuildStatus) → allowed a b ≡ true → edge a b ≡ true
unfolding edge
allowed-edge a b h = ground arith

-- What a build keeps for its whole life.
pub record SameRequest (r r' : BuildRecord) : Type 0 where
  pub build_id : r'.build_id ≡ r.build_id
  pub request_sha256 : r'.request_sha256 ≡ r.request_sha256
  pub spec_sha256 : r'.spec_sha256 ≡ r.spec_sha256
  pub canonical_request : r'.canonical_request ≡ r.canonical_request
  pub max_attempts : r'.max_attempts ≡ r.max_attempts
  pub created_at : r'.created_at ≡ r.created_at

-- A build moves along one edge, its version goes up by one, and one event says so.
pub record IsMove (r r' : BuildRecord) (log : List BuildEvent) (e : BuildEvent) : Type 0 where
  pub version : r'.state_version ≡ r.state_version + 1
  pub on_edge : edge r.status r'.status ≡ true
  pub sequence : e.sequence ≡ length log + 1
  pub before : e.from_status ≡ some r.status
  pub after : e.to_status ≡ r'.status
  pub same : SameRequest r r'

-- A new build is queued, at version 1.
pub record IsNew (b : Uuid) (r : BuildRecord) : Type 0 where
  pub build_id : r.build_id ≡ b
  pub version : r.state_version ≡ 1
  pub queued : r.status ≡ BuildStatus.queued

pub data Moves (s s' : Store) : Type 0 where
  stays : s'.builds ≡ s.builds → s'.events ≡ s.events → Moves s s'
  opens :
      (b : Uuid) (r : BuildRecord) (now : Datetime)
      → lookup b s.builds ≡ none
      → IsNew b r
      → s'.builds ≡ insert b r s.builds
      → s'.events ≡ insert b (validated_event b now ∷ queued_event b now ∷ []) s.events
      → Moves s s'
  moves :
      (b : Uuid) (r r' : BuildRecord) (log : List BuildEvent) (e : BuildEvent)
      → lookup b s.builds ≡ some r
      → lookup b s.events ≡ some log
      → IsMove r r' log e
      → s'.builds ≡ insert b r' s.builds
      → s'.events ≡ insert b (log ++ e ∷ []) s.events
      → Moves s s'

-- Any number of moves.
pub data Runs (s : Store) : Store → Type 0 where
  here : Runs s s
  next : {t u : Store} → Runs s t → Moves t u → Runs s u

pub Runs-trans : {s t u : Store} → Runs s t → Runs t u → Runs s u
Runs-trans r here = r
Runs-trans r (next q m) = next (Runs-trans r q) m
