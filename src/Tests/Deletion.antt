-- ===== src/Tests/Deletion.antt =====
-- The deletion of an account with one recording.
use huddle.Prelude.{ℕ, ◌≡◌, false, inl, refl, String-discrete, none, [], ◌∷◌}
use huddle.Prisma.{Delegate}
use huddle.Fault.{ok}
use huddle.Service.{each}
use huddle.AccountDeletion.{
  DeletionRow, deletion_key, UserRow, Services, World, Environment, cleanup, delete_found,
  delete_all, leave_room, close_room, require_no_upload, stop_deliveries, delete_objects,
  delete_owned_avatar, delete_user,
}
use huddle.AccountDeletion.Order.{cleanup_deletes_last, IsFree, IsAccepted}
use huddle.Tests.Tables.{listed}
use huddle.Tests.Archive.{tables, running}

abbrev jobs : Delegate DeletionRow deletion_key
jobs = listed deletion_key

abbrev services : Services
services = record {
  State = ℕ;
  remove_pending_knocks = λ room user n. (ok tt, n);
  participant_left = λ room identity n. (ok tt, n);
  room_finished = λ room n. (ok tt, n);
  disconnect = λ user n. (ok tt, n);
}

abbrev env : Environment
env = record {
  active_rooms = λ calls. ok [];
  participants = λ room. ok [];
  accepts = λ calls c. ok tt;
  says_not_found = λ e. false;
  is_bound = λ user proof. false;
  avatar_key = λ url. none;
  describe = λ e. "failed";
}

abbrev host : UserRow
host = record {
  id = "host";
  image = none;
  rooms = record { id = "room"; slug = "abc-defg-hij" } ∷ [];
}

abbrev world : World tables jobs services
world = record {
  now = 5_000;
  recordings = running ∷ [];
  deliveries = [];
  jobs = [];
  users = host ∷ [];
  sessions = "host" ∷ [];
  services = 0;
  calls = [];
}

methods : Unit {0}
unfolding cleanup delete_found delete_all leave_room close_room require_no_upload stop_deliveries
    delete_objects delete_owned_avatar delete_user each String-discrete
methods = tt

cleanup_deletes_last_example :
    let w' = (cleanup tables jobs services env "host" world).1 in
    IsFree tables jobs services env "host" host (running ∷ []) world
    × IsAccepted tables jobs services env "host" host (running ∷ []) w'.calls running
    × ((s : ℕ) × ((services.disconnect "host" s).0 ≡ ok tt)
        × ((services.disconnect "host" s).1 ≡ w'.services))
unfolding methods
cleanup_deletes_last_example =
    cleanup_deletes_last tables jobs services env "host" host (running ∷ [])
      (record { id = "room"; slug = "abc-defg-hij" }) running world refl refl (inl refl) refl refl
      refl
