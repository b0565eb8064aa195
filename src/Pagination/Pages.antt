-- ===== src/Pagination/Pages.antt =====
-- Page numbers, sizes and counts.
use native.Mathlib.Nat.{div-add-mod', add-mul, mod-lt}
use leave_management_system.Prelude.{
  inl, inr, Bool-cases, some, if◌then◌else◌, ℕ, ◌≡◌, ◌≤◌, ◌<◌, ◌+◌, ◌*◌, ◌/◌, ◌%◌, ◌⊎◌, arith, ltb,
}
use leave_management_system.Pagination.{
  PaginationResponse, QueryParam, PaginationParams, get_pagination_params,
  calculate_pagination_response,
}

-- All rows are wanted, or a page from 1 on with 1 to 100 rows.
abbrev pub IsValidPage : PaginationParams → Type 0
IsValidPage p =
    ((p.page ≡ 0) × (p.page_size ≡ 0)) ⊎ ((1 ≤ p.page) × (1 ≤ p.page_size) × (p.page_size ≤ 100))

-- Whatever text the two query parameters hold, the page size that is used lies between 1 and 100
-- and the page is at least 1, or both are 0 because neither parameter was given.
get_pagination_params-IsValidPage :
    (page_str page_size_str : QueryParam)
    → IsValidPage (get_pagination_params page_str page_size_str)
unfolding get_pagination_params
get_pagination_params-IsValidPage page_str page_size_str = ground arith

abbrev page_count : ℕ → ℕ → ℕ
page_count page_size total_items =
    if ltb 0 (total_items % page_size) then total_items / page_size + 1 else total_items / page_size

page_count-covers :
    (page_size total_items : ℕ)
    → 1 ≤ page_size
    → (total_items ≤ page_count page_size total_items * page_size)
      × (page_count page_size total_items * page_size < total_items + page_size)
page_count-covers page_size total_items h = elim (Bool-cases (ltb 0 (total_items % page_size))) [
  | inl e ↦ rw e (
      ground (
        arith,
        div-add-mod' total_items page_size,
        mod-lt total_items h,
        add-mul (total_items / page_size) 1 page_size,
      ))
  | inr e ↦ rw e (ground (arith, div-add-mod' total_items page_size))
]

-- With a positive page size there is an answer, whose pages hold all items, while one page fewer
-- would not.
pub calculate_pagination_response-covers :
    (page page_size total_items : ℕ)
    → 1 ≤ page_size
    → (r : PaginationResponse) × (calculate_pagination_response page page_size total_items ≡ some r)
      × (total_items ≤ r.total_pages * page_size)
      × (r.total_pages * page_size < total_items + page_size)
unfolding calculate_pagination_response
calculate_pagination_response-covers page page_size total_items h = (
  record {
    page = page;
    page_size = page_size;
    total_items = total_items;
    total_pages = page_count page_size total_items;
  },
  ground arith,
  (page_count-covers page_size total_items h).0,
  (page_count-covers page_size total_items h).1,
)
