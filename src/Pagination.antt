-- ===== src/Pagination.antt =====
-- Pages of a list: pkg/common/pagination/pagination.go.
pub mod Pages
use leave_management_system.Prelude.{
  ℕ, ◌+◌, ◌-◌, ◌*◌, ◌/◌, ◌%◌, Bool, true, false, ◌&&◌, String, Option, none, some, ◌==◌, ltb,
  if◌then◌else◌,
}
use leave_management_system.Prelude.Int.{ℤ, pos, negsuc, pos_part, ltb_ℤ}

-- A query parameter: not there, empty, or a text with the number that `strconv.Atoi` returns for
-- it. That is 0 for a text that is no number.
pub data QueryParam : Type 0 where
  absent empty : QueryParam
  text : ℤ → QueryParam

pub record PaginationParams : Type 0 where
  pub page : ℕ
  pub page_size : ℕ
  pub offset : ℤ

pub record PaginationResponse : Type 0 where
  pub page : ℕ
  pub page_size : ℕ
  pub total_items : ℕ
  pub total_pages : ℕ

-- `c.Query(key) == ""`
abbrev pub is_blank : QueryParam → Bool
is_blank (text n) = false
is_blank _ = true

-- `strconv.Atoi(c.DefaultQuery(key, default))`
abbrev pub number_or : QueryParam → ℕ → ℤ
number_or absent default = pos default
number_or empty default = pos 0
number_or (text n) default = n

-- A product of two int values, as an int64.
abbrev pub int64 : ℕ → ℤ
int64 n =
    if ltb (n % 18446744073709551616) 9223372036854775808
    then pos (n % 18446744073709551616)
    else negsuc (18446744073709551616 - n % 18446744073709551616 - 1)

abbrev pub valid_page : ℤ → ℕ
valid_page page = if ltb_ℤ page (pos 1) then 1 else pos_part page

abbrev pub valid_page_size : ℤ → ℕ
valid_page_size page_size =
    if ltb_ℤ page_size (pos 1)
    then 10
    else if ltb_ℤ (pos 100) page_size
    then 100
    else pos_part page_size

unfoldable pub get_pagination_params : QueryParam → QueryParam → PaginationParams
get_pagination_params page_str page_size_str =
    if is_blank page_str && is_blank page_size_str
    then record { page = 0; page_size = 0; offset = pos 0 }
    else record {
      page = valid_page (number_or page_str 1);
      page_size = valid_page_size (number_or page_size_str 10);
      offset =
          int64 (
            (valid_page (number_or page_str 1) - 1) * valid_page_size (number_or page_size_str 10));
    }

-- `none` stands for the panic of a division by zero.
unfoldable pub calculate_pagination_response : ℕ → ℕ → ℕ → Option PaginationResponse
calculate_pagination_response page page_size total_items =
    if page_size == 0
    then none
    else some (record {
      page = page;
      page_size = page_size;
      total_items = total_items;
      total_pages =
          if ltb 0 (total_items % page_size)
          then total_items / page_size + 1
          else total_items / page_size;
    })
