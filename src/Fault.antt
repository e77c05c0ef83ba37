-- ===== src/Fault.antt =====
-- apps/api/src/common/faults.ts, with the Nest exceptions that carry the codes. Messages are left
-- out.
use huddle.Prelude.{ℕ, String, ◌≡◌, ◌⊎◌, inl, inr, refl}

pub data FaultCode : Type 0 where
  session_expired internal validation upstream_unavailable : FaultCode
  not_host not_participant room_not_found knock_not_found name_required : FaultCode
  direct_rejoin_not_allowed recording_in_progress not_recording_owner recording_not_ready :
      FaultCode
  recording_not_found recording_expired recording_share_unavailable : FaultCode
  recording_share_not_allowed remote_control_in_progress remote_control_not_found : FaultCode
  remote_control_not_allowed remote_control_present_active remote_control_renewal_required :
      FaultCode
  remote_control_helper_not_connected remote_control_bootstrap_invalid : FaultCode
  remote_control_protocol_unsupported download_token_invalid webhook_unverified : FaultCode

-- What a service throws: an HTTP exception with its fault, the database's unique-constraint error
-- P2002, DriveAuthorizationError, DriveApiError with its reason, an
-- HTTP exception with its status and no fault, or any other error.
pub data Exception : Type 0 where
  bad_request unauthorized forbidden not_found conflict service_unavailable gone :
      FaultCode → Exception
  unique_violation drive_authorization failure : Exception
  drive_api : String → Exception
  refused : ℕ → Exception

pub data Result {ℓ} (A : Type ℓ) : Type ℓ where
  ok : A → Result A
  err : Exception → Result A

pub Result-cases {ℓ} :
    {A : Type ℓ} (r : Result A) → ((a : A) × (r ≡ ok a)) ⊎ ((e : Exception) × (r ≡ err e))
Result-cases (ok a) = inl (a, refl)
Result-cases (err e) = inr (e, refl)
