-- ===== src/Metadata.antt =====
-- The room metadata of apps/api/src/rooms/livekit.service.ts: what every client of a call sees of it.
-- The metadata's JSON text is represented by the keys that the service writes and, with the text of
-- their values, the others that it carries along; a text that does not parse reads as no keys. Writes to one room run one after the other, as the queue of
-- `mutateRoomMetadata` makes them do.
pub mod Keys
use huddle.Prelude.{
  ℕ, ◌≡◌, ◌≢◌, String, Option, none, some, Bool, true, false, if◌then◌else◌, is_some, List, [],
  ◌&&◌,
}
use huddle.ControlWorld.{SessionSummary}
use huddle.Maintenance.{Phase}
use huddle.Fault.{Result, ok, err}
use huddle.Service.{M}

-- What `publishMaintenance` shows.
pub record MaintenanceNotice : Type 0 where
  pub phase : Phase
  pub starts_at : Option String
  pub message : String
  pub published_at : String

pub record RoomMetadata : Type 0 where
  pub mute_on_entry : Option Bool
  pub recording : Option Bool
  pub recording_started_at : Option ℕ
  pub recording_id : Option String
  pub recording_share_available : Option Bool
  pub started_at : Option ℕ
  pub remote_control : Option SessionSummary
  pub maintenance : Option MaintenanceNotice
  pub others : List (String × String)
  pub server_time : Option ℕ

abbrev pub no_keys : RoomMetadata
no_keys = record {
  mute_on_entry = none;
  recording = none;
  recording_started_at = none;
  recording_id = none;
  recording_share_available = none;
  started_at = none;
  remote_control = none;
  maintenance = none;
  others = [];
  server_time = none;
}

-- LiveKit's RoomServiceClient, as the service calls it: `list_rooms` gives the SID and the metadata of
-- a room that is there, and an update that is accepted is what the next reader sees.
pub record LivekitServer : Type 1 where
  pub State : Type 0
  pub list_rooms : String → State → Option (String × Option RoomMetadata)
  pub update_room_metadata : String → RoomMetadata → State → Result (Unit {0}) × State
  pub list_rooms-update_room_metadata :
      (room : String) (m : RoomMetadata) (s : State) (sid : String) (before : Option RoomMetadata)
      → list_rooms room s ≡ some (sid, before)
      → (update_room_metadata room m s).0 ≡ ok tt
      → list_rooms room (update_room_metadata room m s).1 ≡ some (sid, some m)
  pub list_rooms-other :
      (room other : String) (m : RoomMetadata) (s : State)
      → other ≢ room
      → list_rooms other (update_room_metadata room m s).1 ≡ list_rooms other s

-- `metadata.flag === value`
abbrev pub is_flag : Bool → Option Bool → Bool
is_flag value none = false
is_flag true (some flag) = flag
is_flag false (some flag) = if flag then false else true

abbrev pub parsed : Option (String × Option RoomMetadata) → RoomMetadata
parsed none = no_keys
parsed (some (sid, none)) = no_keys
parsed (some (sid, some m)) = m

-- A mutation gives the new keys, or `none` when there is nothing to write.
abbrev pub Mutation : Type 0
Mutation = RoomMetadata → Option RoomMetadata

unfoldable pub mute_on_entry_mutation : Bool → Mutation
mute_on_entry_mutation muted m =
    if is_flag muted m.mute_on_entry then none else some (record m { mute_on_entry = some muted })

-- `now` is stamped on the transition from off to on only.
unfoldable pub recording_active_mutation : ℕ → Bool → Mutation
recording_active_mutation now true m =
    if is_flag true m.recording
    then none
    else some (record m { recording = some true; recording_started_at = some now })
recording_active_mutation now false m =
    if is_flag true m.recording
    then some (record m {
      recording = some false;
      recording_started_at = none;
      recording_id = none;
      recording_share_available = none;
    })
    else none

unfoldable pub recording_state_mutation : ℕ → String → Bool → Mutation
recording_state_mutation now recording_id share_available m = some (record m {
  recording = some true;
  recording_started_at = some now;
  recording_id = some recording_id;
  recording_share_available = some share_available;
})

-- A time is truthy.
unfoldable pub started_at_mutation : ℕ → Mutation
started_at_mutation now m =
    if is_some m.started_at then none else some (record m { started_at = some now })

unfoldable pub clear_started_at_mutation : Mutation
clear_started_at_mutation m =
    if is_some m.started_at then some (record m { started_at = none }) else none

unfoldable pub remote_control_mutation : Option SessionSummary → Mutation
remote_control_mutation (some state) m = some (record m { remote_control = some state })
remote_control_mutation none m =
    if is_some m.remote_control then some (record m { remote_control = none }) else none

abbrev is_off : Phase → Bool
is_off Phase.off = true
is_off _ = false

-- A notice that the maintenance is off only replaces one that it is not.
unfoldable pub maintenance_mutation : MaintenanceNotice → Mutation
maintenance_mutation state m =
    if is_off state.phase
      && elim m.maintenance [ none ↦ true | some previous ↦ is_off previous.phase ]
    then none
    else some (record m { maintenance = some state })

module _ (lk : LivekitServer) where
  unfoldable pub write : ℕ → String → Option RoomMetadata → M lk.State (Unit {0})
  write now room none s = (ok tt, s)
  write now room (some m) s = lk.update_room_metadata room (record m { server_time = some now }) s

  unfoldable pub mutate_room_metadata : ℕ → String → Mutation → M lk.State (Unit {0})
  unfolding write
  mutate_room_metadata now room mutate s = write now room (mutate (parsed (lk.list_rooms room s))) s

  unfoldable pub set_mute_on_entry : ℕ → String → Bool → M lk.State (Unit {0})
  set_mute_on_entry now room muted = mutate_room_metadata now room (mute_on_entry_mutation muted)

  unfoldable pub set_recording_active : ℕ → String → Bool → M lk.State (Unit {0})
  set_recording_active now room active =
      mutate_room_metadata now room (recording_active_mutation now active)

  unfoldable pub set_recording_state : ℕ → String → String → Bool → M lk.State (Unit {0})
  set_recording_state now room recording_id share_available =
      mutate_room_metadata now room (recording_state_mutation now recording_id share_available)

  unfoldable pub stamp_started_at : ℕ → String → M lk.State (Unit {0})
  stamp_started_at now room = mutate_room_metadata now room (started_at_mutation now)

  unfoldable pub clear_started_at : ℕ → String → M lk.State (Unit {0})
  clear_started_at now room = mutate_room_metadata now room clear_started_at_mutation

  unfoldable pub set_remote_control_state :
      ℕ → String → Option SessionSummary → M lk.State (Unit {0})
  set_remote_control_state now room state =
      mutate_room_metadata now room (remote_control_mutation state)

  unfoldable pub publish_maintenance : ℕ → String → MaintenanceNotice → M lk.State (Unit {0})
  publish_maintenance now room state = mutate_room_metadata now room (maintenance_mutation state)

  unfoldable pub get_mute_on_entry : String → lk.State → Bool
  get_mute_on_entry room s = is_flag true (parsed (lk.list_rooms room s)).mute_on_entry

  -- The Recording Indicator, as the clients read it.
  unfoldable pub is_recording : String → lk.State → Bool
  is_recording room s = is_flag true (parsed (lk.list_rooms room s)).recording
