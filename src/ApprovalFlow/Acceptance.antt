-- ===== src/ApprovalFlow/Acceptance.antt =====
-- What an accepted approval flow looks like.
use leave_management_system.Prelude.{
  ℕ, ◌≡◌, ◌≤◌, refl, true, false, List, [], ◌∷◌, Option, none, some, All, arith,
}
use leave_management_system.Models.Role.{Role}
use leave_management_system.Models.Leave.{ApprovalStage}
use leave_management_system.Leave.Log.Approvers.{NoApprover, DistinctApprovers}
use leave_management_system.ApprovalFlow.{
  Refusal, is_valid_role, has_role, check_stages, stage_of_role, compare_stages, or_else,
  check_pairs, check_hierarchy, hierarchy, check_flow, allow_to_create,
}

-- The stage has a role that may approve, and a positive number.
abbrev pub IsValidStage : ApprovalStage → Type 0
IsValidStage s = (is_valid_role s.approver_role ≡ true) × (1 ≤ s.stage_no)

-- No stage's role is among those seen.
abbrev Fresh : List ApprovalStage → List ApprovalStage → Type 0
Fresh seen flow = All (λ s. has_role seen s.approver_role ≡ false) flow

Fresh-tail :
    (x : ApprovalStage) (seen flow : List ApprovalStage)
    → Fresh (x ∷ seen) flow
    → Fresh seen flow × NoApprover x.approver_role flow
Fresh-tail x seen [] h = (tt, tt)
Fresh-tail x seen (s ∷ flow) h =
    let rest = Fresh-tail x seen flow h.1 in ((ground arith, rest.0), (ground arith, rest.1))

check_stages_sound :
    (seen flow : List ApprovalStage)
    → check_stages seen flow ≡ none
    → Fresh seen flow × All IsValidStage flow × DistinctApprovers flow
unfolding check_stages
check_stages_sound seen [] e = (tt, tt, tt)
check_stages_sound seen (s ∷ flow) e =
    let (fresh, valid, distinct) = check_stages_sound (s ∷ seen) flow (ground arith) in
    let (older, other) = Fresh-tail s seen flow fresh in
    ((ground arith, older), ((ground arith, ground arith), valid), (other, distinct))

-- The stage of one role does not come behind the stage of another.
abbrev pub AtMost : Option ℕ → Option ℕ → Type 0
AtMost (some a) (some b) = a ≤ b
AtMost _ _ = Unit

abbrev pub InOrder : List ApprovalStage → Role → Role → Type 0
InOrder flow low high = AtMost (stage_of_role flow low) (stage_of_role flow high)

or_else-none : (a b : Option Refusal) → or_else a b ≡ none → (a ≡ none) × (b ≡ none)
or_else-none none b e = (refl, e)
or_else-none (some x) b e = cc

compare_stages-InOrder :
    (flow : List ApprovalStage) (low high : Role)
    → compare_stages low high (stage_of_role flow low) (stage_of_role flow high) ≡ none
    → InOrder flow low high
compare_stages-InOrder flow low high e = ground arith

check_pairs_sound :
    (flow : List ApprovalStage) (low : Role) (roles : List Role)
    → check_pairs flow low roles ≡ none
    → All (InOrder flow low) roles
unfolding check_pairs
check_pairs_sound flow low [] e = tt
check_pairs_sound flow low (high ∷ roles) e =
    let (now, later) = or_else-none _ _ e in
    (compare_stages-InOrder flow low high now, check_pairs_sound flow low roles later)

-- Each role comes before the later ones.
abbrev pub Ordered : List ApprovalStage → List Role → Type 0
Ordered flow [] = Unit
Ordered flow (low ∷ roles) = All (InOrder flow low) roles × Ordered flow roles

check_hierarchy_sound :
    (flow : List ApprovalStage) (roles : List Role)
    → check_hierarchy flow roles ≡ none
    → Ordered flow roles
unfolding check_hierarchy
check_hierarchy_sound flow [] e = tt
check_hierarchy_sound flow (low ∷ roles) e =
    let (now, later) = or_else-none _ _ e in
    (check_pairs_sound flow low roles now, check_hierarchy_sound flow roles later)

check_flow_sound :
    (flow : List ApprovalStage)
    → check_flow flow ≡ none
    → All IsValidStage flow × DistinctApprovers flow × Ordered flow hierarchy
check_flow_sound [] e = cc
check_flow_sound (s ∷ flow) e =
    let (stages, order) = or_else-none _ _ e in
    let (fresh, valid, distinct) = check_stages_sound [] (s ∷ flow) stages in
    (valid, distinct, check_hierarchy_sound (s ∷ flow) hierarchy order)

-- An approval flow that is accepted has valid roles and positive stage numbers, no role twice, and
-- a role that ranks lower never has a later stage than one that ranks higher.
pub allow_to_create_sound :
    (flow : List ApprovalStage)
    → allow_to_create (some flow) ≡ none
    → All IsValidStage flow × DistinctApprovers flow × Ordered flow hierarchy
unfolding allow_to_create
allow_to_create_sound flow e = check_flow_sound flow e
