-- ===== src/Leave/Reason.antt =====
-- The reason of a leave: `ValidateLeaveReason` of leaveValidation.go. A text is its list of code
-- points. The tables of the Unicode standard are a parameter.
pub mod Accepted
use leave_management_system.Prelude.{
  ℕ, ◌+◌, Bool, true, false, ◌&&◌, ◌||◌, not, List, [], ◌∷◌, Option, none, some, ◌==◌, ltb, leb,
  length, any, sum_by, if◌then◌else◌, String, map,
}
use mathlib.Core.List.{reverse}

-- `unicode.IsSpace`, `IsLetter`, `IsDigit` and `ToLower`.
pub record Unicode : Type 0 where
  pub is_space : ℕ → Bool
  pub is_letter : ℕ → Bool
  pub is_digit : ℕ → Bool
  pub to_lower : ℕ → ℕ

abbrev pub min_leave_reason_length : ℕ
min_leave_reason_length = 10

abbrev pub max_leave_reason_length : ℕ
max_leave_reason_length = 500

abbrev pub min_leave_reason_words : ℕ
min_leave_reason_words = 2

abbrev pub max_repeated_runes : ℕ
max_repeated_runes = 6

-- The bytes of a code point in UTF-8.
width : ℕ → ℕ
width r = if ltb r 0x80 then 1 else if ltb r 0x800 then 2 else if ltb r 0x10000 then 3 else 4

-- `len`
unfoldable pub byte_length : List ℕ → ℕ
unfolding width
byte_length reason = sum_by width reason

starts_with : List ℕ → List ℕ → Bool
starts_with [] s = true
starts_with (c ∷ k) [] = false
starts_with (c ∷ k) (d ∷ s) = c == d && starts_with k s

-- `strings.Contains`
contains : List ℕ → List ℕ → Bool
unfolding starts_with
contains k [] = starts_with k []
contains k (d ∷ s) = starts_with k (d ∷ s) || contains k s

abbrev pub deny_keywords : List (List ℕ)
deny_keywords =
    (b'p' ∷ b'e' ∷ b'r' ∷ b's' ∷ b'o' ∷ b'n' ∷ b'a' ∷ b'l' ∷ [])
    ∷ (b'c' ∷ b'a' ∷ b's' ∷ b'u' ∷ b'a' ∷ b'l' ∷ [])
    ∷ (b's' ∷ b'i' ∷ b'c' ∷ b'k' ∷ [])
    ∷ []

-- What the loop knows of the text so far.
pub record Scan : Type 0 where
  pub has_letter : Bool
  pub has_digit : Bool
  pub prev : ℕ
  pub repeat_cnt : ℕ

module _ (u : Unicode) where
  drop_space : List ℕ → List ℕ
  drop_space [] = []
  drop_space (c ∷ s) = if u.is_space c then drop_space s else c ∷ s

  -- `strings.TrimSpace`
  unfoldable pub trim_space : List ℕ → List ℕ
  unfolding drop_space
  trim_space s = reverse (drop_space (reverse (drop_space s)))

  -- `len(strings.Fields(s))`: the number of words begun, after a space or not.
  count_fields : Bool → List ℕ → ℕ
  count_fields after_space [] = 0
  count_fields after_space (c ∷ s) =
      (if after_space && not (u.is_space c) then 1 else 0) + count_fields (u.is_space c) s

  unfoldable pub contains_denied_keyword : List ℕ → Bool
  unfolding contains
  contains_denied_keyword reason = any (λ k. contains k (map u.to_lower reason)) deny_keywords

  -- The `switch` of the loop.
  abbrev classify : ℕ → Scan → Scan
  classify r s =
      if u.is_letter r
      then record s { has_letter = true }
      else if u.is_digit r
      then record s { has_digit = true }
      else s

  abbrev first_rune : ℕ → Scan
  first_rune r =
      record (classify r
        (record { has_letter = false; has_digit = false; prev = 0; repeat_cnt = 0 })) {
          prev = r;
          repeat_cnt = 1;
        }

  abbrev next_rune : ℕ → Scan → Scan
  next_rune r s = record (classify r s) {
    prev = r;
    repeat_cnt = if r == s.prev then s.repeat_cnt + 1 else 1;
  }

  -- The loop behind the first code point; `none` is its early return.
  unfoldable pub scan_runes : Scan → List ℕ → Option Scan
  scan_runes s [] = some s
  scan_runes s (r ∷ rs) =
      let rest = scan_runes (next_rune r s) rs in
      if r == s.prev && leb max_repeated_runes (s.repeat_cnt + 1) then none else rest

  unfoldable pub scan_reason : List ℕ → Option Scan
  scan_reason [] = some (record { has_letter = false; has_digit = false; prev = 0; repeat_cnt = 0 })
  scan_reason (r ∷ rs) = scan_runes (first_rune r) rs

  -- The tests behind the loop.
  abbrev pub after_scan : Scan → List ℕ → Option String
  after_scan s reason =
      if not s.has_letter
      then some "leave reason must contain alphabetic characters"
      else if s.has_digit && not s.has_letter
      then some "leave reason cannot contain only numbers"
      else if contains_denied_keyword reason
      then some "leave reason contains restricted words, please rephrase"
      else none

  -- The message of the error, or nothing.
  unfoldable pub check_reason : List ℕ → Option String
  unfolding count_fields
  check_reason reason =
      if length reason == 0
      then some "leave reason is required"
      else if ltb (byte_length reason) min_leave_reason_length
      then some "leave reason must be at least 10 characters long"
      else if ltb max_leave_reason_length (byte_length reason)
      then some "leave reason cannot exceed 500 characters"
      else if ltb (count_fields true reason) min_leave_reason_words
      then some "please provide a more descriptive leave reason"
      else elim (scan_reason reason) [
        | none ↦ some "leave reason contains too many repeated characters"
        | some s ↦ after_scan s reason
      ]

  unfoldable pub validate_leave_reason : List ℕ → Option String
  validate_leave_reason reason = check_reason (trim_space reason)
