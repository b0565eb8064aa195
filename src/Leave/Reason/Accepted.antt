-- ===== src/Leave/Reason/Accepted.antt =====
-- What is known of an accepted reason.
use leave_management_system.Prelude.{ℕ, ◌≡◌, ◌≤◌, false, List, none, arith}
use leave_management_system.Leave.Reason.{
  Unicode, byte_length, trim_space, contains_denied_keyword, check_reason, validate_leave_reason,
}

-- A reason that is accepted has, without the space around it, 10 to 500 bytes and none of the denied
-- keywords.
pub validate_leave_reason_bounds :
    (u : Unicode) (reason : List ℕ)
    → validate_leave_reason u reason ≡ none
    → (10 ≤ byte_length (trim_space u reason))
      × (byte_length (trim_space u reason) ≤ 500)
      × (contains_denied_keyword u (trim_space u reason) ≡ false)
unfolding validate_leave_reason check_reason
validate_leave_reason_bounds u reason e = ground arith
