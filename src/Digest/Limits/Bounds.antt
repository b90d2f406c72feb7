-- ===== src/Digest/Limits/Bounds.antt =====
-- internal/digest/render.go: what the size tests and the binary search of `truncateContent` give.
use alib_fetcher.Base.{
  ℕ, zero, suc, ◌+◌, ◌-◌, ◌/◌, ◌<◌, ◌≤◌, ◌≡◌, ◌⊎◌, Text, trim_space, ℤ, pos, Option, Bool, true,
  false, ◌-ℤ◌, -ℤ_parts, length, arith,
}
use alib_fetcher.Html.{Node}
use alib_fetcher.Alib.Book.{Book}
use alib_fetcher.Digest.Item.{Options, render_book_markup}
use alib_fetcher.Digest.Limits.{
  ok, exceeds_text_limits, search_length, candidate_fits, kept_length, render_book,
  WithinTextLimits,
}

module _ (fits : ℕ → Bool) where
  -- What a search over the interval promises of its result.
  abbrev Within : ℕ → ℕ → ℕ → Type 0
  Within low high r = (low ≤ r) × (r ≤ high) × ((r ≡ low) ⊎ (fits r ≡ true))

  -- Enough fuel: the interval is shorter than the rounds that are left.
  search_length-Within :
      (fuel low high : ℕ)
      → high - low < fuel
      → low ≤ high
      → Within low high (search_length fits fuel low high)
  unfolding search_length
  search_length-Within zero low high short ordered = absurd (omega arith)
  search_length-Within (suc fuel) low high short ordered =
      let middle : ℕ = (low + high + 1) / 2 in
      ground
        (arith, search_length-Within fuel middle high, search_length-Within fuel low (middle - 1))

  -- A test that, once it fails, fails for every greater number up to `top`.
  abbrev pub IsDownClosed : ℕ → Type 0
  IsDownClosed top = (m n : ℕ) → m ≤ n → n ≤ top → fits n ≡ true → fits m ≡ true

  module _ (top : ℕ) (closed : IsDownClosed top) where
    search_length-greatest :
        (fuel low high m : ℕ)
        → high - low < fuel
        → low ≤ high
        → high ≤ top
        → (high < m → fits m ≡ false)
        → search_length fits fuel low high < m
        → m ≤ top
        → fits m ≡ false
    unfolding search_length
    search_length-greatest zero low high m short ordered fit above later below =
        absurd (omega arith)
    search_length-greatest (suc fuel) low high m short ordered fit above later below =
        let middle : ℕ = (low + high + 1) / 2 in
        ground (
          arith,
          search_length-greatest fuel middle high m,
          search_length-greatest fuel low (middle - 1) m,
          closed middle m,
          search_length-Within fuel middle high,
          search_length-Within fuel low (middle - 1),
        )

module _ (html_parse : Text → Option Node) where
  pub within_limits :
      (value : Text) (rune_limit : ℤ)
      → exceeds_text_limits html_parse value rune_limit ≡ false
      → WithinTextLimits html_parse rune_limit value
  unfolding exceeds_text_limits
  within_limits value rune_limit h = ground arith

  pub not_exceeds :
      (value : Text) (rune_limit : ℤ)
      → WithinTextLimits html_parse rune_limit value
      → exceeds_text_limits html_parse value rune_limit ≡ false
  unfolding exceeds_text_limits
  not_exceeds value rune_limit h = ground arith

  -- A limit that is one smaller is kept too.
  within_weaken :
      (value : Text) (limit : ℤ)
      → WithinTextLimits html_parse (limit -ℤ pos 1) value
      → WithinTextLimits html_parse limit value
  within_weaken value limit h = omega (arith, -ℤ_parts limit (pos 1))

  -- Every listing that is rendered keeps the text limits, cut or not; and a listing whose whole
  -- markup keeps them is rendered uncut.
  pub render_book_limits :
      (book : Book) (options : Options)
      → ((item : Text)
          → render_book html_parse book options ≡ ok item
          → WithinTextLimits html_parse options.limit item)
        × (WithinTextLimits html_parse options.limit (render_book_markup book options)
            → render_book html_parse book options ≡ ok (render_book_markup book options))
  unfolding render_book
  render_book_limits book options = (
    λ item h. ground (
      arith,
      within_limits item options.limit,
      within_limits item (options.limit -ℤ pos 1),
      within_weaken item options.limit,
    ),
    λ h. ground (arith, not_exceeds (render_book_markup book options) options.limit h),
  )

  -- The search of `truncateContent`, where the shorter of two cuts of the content fits whenever the
  -- longer does: the cut that is kept is no longer than the content, it fits unless it is empty,
  -- and no longer cut fits.
  pub kept_length-greatest :
      (book : Book) (options : Options)
      → IsDownClosed (candidate_fits html_parse book options) (length (trim_space book.content))
      → let kept = kept_length html_parse book options in
        (kept ≤ length (trim_space book.content))
        × ((kept ≡ 0) ⊎ (candidate_fits html_parse book options kept ≡ true))
        × ((m : ℕ)
            → kept < m
            → m ≤ length (trim_space book.content)
            → candidate_fits html_parse book options m ≡ false)
  unfolding kept_length
  kept_length-greatest book options closed =
      let runes : ℕ = length (trim_space book.content) in
      let fits : ℕ → Bool = candidate_fits html_parse book options in
      let found : Within fits 0 runes (search_length fits (suc runes) 0 runes) =
        search_length-Within fits (suc runes) 0 runes (omega arith) (omega arith) in
      (
        found.1,
        found.2,
        λ m later below.
            search_length-greatest fits runes closed (suc runes) 0 runes m (omega arith)
              (omega arith) (omega arith) (λ h. absurd (omega arith)) later below,
      )
