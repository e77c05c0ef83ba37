-- ===== src/Metadata/Keys.antt =====
-- Which keys of the room metadata a write touches.
use huddle.Prelude.{
  ℕ, ◌≡◌, ap, refl, subst, ◌∙◌, not, ◌&&◌, sym, String, Option, none, some, Bool, true, false,
  if◌then◌else◌, arith,
}
use huddle.Fault.{ok}
use huddle.Metadata.{
  LivekitServer, RoomMetadata, Mutation, parsed, is_flag, recording_active_mutation,
  recording_state_mutation, write, mutate_room_metadata, set_recording_active, set_recording_state,
  is_recording,
}

-- The keys that a mutation leaves, with the time of the write if there is one.
abbrev pub stamped : ℕ → Option RoomMetadata → RoomMetadata → RoomMetadata
stamped now none m = m
stamped now (some m') m = record m' { server_time = some now }

abbrev KeysWritten : ℕ → Bool → RoomMetadata → RoomMetadata → Type 0
KeysWritten now active m m' =
    (m'.recording_started_at ≡ (
      if is_flag true m.recording
      then (if active then m.recording_started_at else none)
      else (if active then some now else m.recording_started_at)))
    × (m'.recording_id ≡ (if is_flag true m.recording && not active then none else m.recording_id))
    × (m'.recording_share_available
        ≡ (if is_flag true m.recording && not active then none else m.recording_share_available))
    × (m'.remote_control ≡ m.remote_control)
    × (m'.mute_on_entry ≡ m.mute_on_entry)
    × (m'.started_at ≡ m.started_at)
    × (m'.maintenance ≡ m.maintenance)
    × (m'.others ≡ m.others)
    × (m'.server_time ≡ (
        if is_flag true m.recording
        then (if active then m.server_time else some now)
        else (if active then some now else m.server_time)))

recording_active-keys :
    (now : ℕ) (active : Bool) (m : RoomMetadata)
    → let m' = stamped now (recording_active_mutation now active m) m in
      (is_flag true m'.recording ≡ active) × KeysWritten now active m m'
unfolding recording_active_mutation
recording_active-keys now true m = ground arith
recording_active-keys now false m = ground arith

module _ (lk : LivekitServer) where
  write-read :
      (now : ℕ) (room : String) (o : Option RoomMetadata) (s : lk.State)
      (found : String × Option RoomMetadata)
      → lk.list_rooms room s ≡ some found
      → (write lk now room o s).0 ≡ ok tt
      → parsed (lk.list_rooms room (write lk now room o s).1) ≡ stamped now o (parsed (some found))
  unfolding write
  write-read now room none s found there done = ap parsed there
  write-read now room (some m) s (sid, before) there done = ap parsed (
      lk.list_rooms-update_room_metadata room (record m { server_time = some now }) s sid before
        there done)

  -- What a write that LiveKit accepts leaves to read.
  pub mutate_room_metadata_read :
      (now : ℕ) (room : String) (f : Mutation) (s : lk.State) (found : String × Option RoomMetadata)
      → lk.list_rooms room s ≡ some found
      → (mutate_room_metadata lk now room f s).0 ≡ ok tt
      → parsed (lk.list_rooms room (mutate_room_metadata lk now room f s).1)
        ≡ stamped now (f (parsed (some found))) (parsed (some found))
  unfolding mutate_room_metadata
  mutate_room_metadata_read now room f s found there done =
      subst
        (λ o.
          (write lk now room (f (parsed o)) s).0 ≡ ok tt
          → parsed (lk.list_rooms room (write lk now room (f (parsed o)) s).1)
            ≡ stamped now (f (parsed (some found))) (parsed (some found)))
        (sym there) (write-read now room (f (parsed (some found))) s found there) done

  -- A write of the Recording Indicator that LiveKit accepts is what every client reads, whatever the
  -- metadata was. Switched on again, it keeps the time at which the recording started; switched off,
  -- the recording's id and its offer to share go with it. A write that changes the indicator stamps its
  -- time. All else stays: Remote Control, muting on entry, the start of the call, the maintenance
  -- notice, and any key that the service does not know.
  pub set_recording_active_lem :
      (now : ℕ) (room : String) (active : Bool) (s : lk.State)
      (found : String × Option RoomMetadata)
      → lk.list_rooms room s ≡ some found
      → (set_recording_active lk now room active s).0 ≡ ok tt
      → let s' = (set_recording_active lk now room active s).1 in
        (is_recording lk room s' ≡ active)
        × KeysWritten now active (parsed (some found)) (parsed (lk.list_rooms room s'))
  unfolding set_recording_active is_recording
  set_recording_active_lem now room active s found there done =
      let e =
        mutate_room_metadata_read now room (recording_active_mutation now active) s found there
          done in
      let (flag, keys) = recording_active-keys now active (parsed (some found)) in
      (
        ap (λ m. is_flag true m.recording) e ∙ flag,
        subst (KeysWritten now active (parsed (some found))) (sym e) keys,
      )

-- LiveKit rejects no write of the room's metadata.
abbrev pub Accepts : LivekitServer → String → Type 0
Accepts lk room = (m : RoomMetadata) (s : lk.State) → (lk.update_room_metadata room m s).0 ≡ ok tt

write_accepted :
    (lk : LivekitServer) (now : ℕ) (room : String) (o : Option RoomMetadata) (s : lk.State)
    → Accepts lk room
    → (write lk now room o s).0 ≡ ok tt
unfolding write
write_accepted lk now room none s accepts = refl
write_accepted lk now room (some m) s accepts = accepts _ s

pub mutate_accepted :
    (lk : LivekitServer) (now : ℕ) (room : String) (f : Mutation) (s : lk.State)
    → Accepts lk room
    → (mutate_room_metadata lk now room f s).0 ≡ ok tt
unfolding mutate_room_metadata
mutate_accepted lk now room f s = write_accepted lk now room (f (parsed (lk.list_rooms room s))) s

pub set_recording_active_accepted :
    (lk : LivekitServer) (now : ℕ) (room : String) (active : Bool) (s : lk.State)
    → Accepts lk room
    → (set_recording_active lk now room active s).0 ≡ ok tt
unfolding set_recording_active
set_recording_active_accepted lk now room active s =
    mutate_accepted lk now room (recording_active_mutation now active) s

pub set_recording_state_accepted :
    (lk : LivekitServer) (now : ℕ) (room recording_id : String) (share : Bool) (s : lk.State)
    → Accepts lk room
    → (set_recording_state lk now room recording_id share s).0 ≡ ok tt
unfolding set_recording_state
set_recording_state_accepted lk now room recording_id share s =
    mutate_accepted lk now room (recording_state_mutation now recording_id share) s

pub set_recording_state-on :
    (lk : LivekitServer) (now : ℕ) (room recording_id : String) (share : Bool) (s : lk.State)
    (found : String × Option RoomMetadata)
    → lk.list_rooms room s ≡ some found
    → Accepts lk room
    → is_recording lk room (set_recording_state lk now room recording_id share s).1 ≡ true
unfolding set_recording_state is_recording recording_state_mutation
set_recording_state-on lk now room recording_id share s found there accepts =
    ap (λ m. is_flag true m.recording)
      (mutate_room_metadata_read lk now room (recording_state_mutation now recording_id share) s
        found there
        (mutate_accepted lk now room (recording_state_mutation now recording_id share) s accepts))
