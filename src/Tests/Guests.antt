-- ===== src/Tests/Guests.antt =====
-- The rooms' service on a table of rooms that is a list.
use huddle.Prelude.{
  ◌≡◌, refl, String, String-discrete, Option, none, some, List, [], ◌∷◌, true, false, ite,
}
use huddle.Records.{KnockStatus}
use huddle.Redis.{Store}
use huddle.RoomState.{resolve_knock}
use huddle.Fault.{Exception, Result, ok, err}
use huddle.RoomsWorld
use huddle.RoomsWorld.{AuthUser, RoomRow, NewRoom, Rooms, World, Environment, RejoinMetadata}
use huddle.Admission
use huddle.Admission.{rejoin_not_allowed}
use huddle.Admission.Guests.{direct_rejoin_sound}
use huddle.RoomsService
use huddle.RoomsService.Hosting.{host_join_sound, remove_lem}
use huddle.Tests.Rooms.{methods, room, knocked, ann, granted, bo_grant}

service : Unit {0}
unfolding methods RoomsWorld.require_room RoomsWorld.get_room_sid RoomsWorld.mint
    RoomsWorld.get_mute_on_entry Admission.direct_rejoin Admission.require_knock
    Admission.admit_once Admission.deny RoomsService.host_join RoomsService.mint_host_join
    RoomsService.allocate
service = tt

abbrev find : String → List RoomRow → Option RoomRow
find slug [] = none
find slug (x ∷ xs) = let later = find slug xs in ite (String-discrete x.slug slug) (some x) later

abbrev row_of : NewRoom → RoomRow
row_of new = record {
  slug = new.slug;
  host_user_id = new.host_user_id;
  host_key = new.host_key;
  scheduled_start = new.scheduled_start;
  created_at = 0;
}

abbrev insert : NewRoom → List RoomRow → Option RoomRow → Result RoomRow × List RoomRow
insert new t (some taken) = (err Exception.unique_violation, t)
insert new t none = (ok (row_of new), row_of new ∷ t)

abbrev db : Rooms
db = record {
  Table = List RoomRow;
  find_by_slug = find;
  insert = λ new t. insert new t (find new.slug t);
  upcoming = λ user_id now t. [];
}

-- The LiveKit room RM_1 runs, and everything is answered by one token.
abbrev env : Environment
env = record {
  answer = λ calls c. some "jwt";
  room_sid = λ calls slug. some (some "RM_1");
  mute_on_entry = λ calls slug. some false;
  is_connected = λ calls slug identity. some true;
  meanwhile = λ redis. redis;
  fresh_identity = λ name. name;
  trim = λ s. s;
  livekit_url = "wss://livekit";
}

abbrev hosted : RoomRow
hosted = record {
  slug = room;
  host_user_id = "u1";
  host_key = "key";
  scheduled_start = none;
  created_at = 0;
}

abbrev at : Store → World (List RoomRow)
at redis = record { now = 3000; redis = redis; rooms = hosted ∷ []; livekit = [] }

abbrev host : AuthUser
host = record { id = "u1"; name = "Hana"; image = none }

abbrev guest : AuthUser
guest = record { id = "u2"; name = "Bo"; image = none }

abbrev metadata : RejoinMetadata
metadata = record { grant_id = "g1"; room_sid = "RM_1" }

direct_rejoin_sound_example : "bo-1" ≡ bo_grant.identity
unfolding service
direct_rejoin_sound_example =
    (direct_rejoin_sound db env room guest bo_grant (at granted) refl refl).0

abbrev denied : Store
denied = (resolve_knock 2500 ann KnockStatus.denied none knocked).1

host_join_sound_example : hosted.host_user_id ≡ "u1"
unfolding service
host_join_sound_example = (host_join_sound db env room host hosted (at granted) refl refl).0

remove_lem_example :
    (Admission.direct_rejoin db env room guest
      (RoomsService.remove db env room "bo-1" (at granted)).1).0
    ≡ err rejoin_not_allowed
unfolding service
remove_lem_example =
    (remove_lem db env room "bo-1" bo_grant hosted guest "RM_1" metadata (at granted) refl refl refl
      refl).0
