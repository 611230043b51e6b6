-- ===== src/Usage/Print.antt =====
-- The printers of portal/lib/pure/format.ts, through doubles (Prelude.Double). Amounts are given in
-- hundredths of a dollar, the double being that quotient; kilobytes and milliseconds are whole.
use canonizr_hda.Prelude.{
  ℕ, ◌/◌, ◌%◌, ◌^◌, ◌<◌, leb, if◌then◌else◌, Text, text, decimal, ◌≡◌, ap, ◌++◌,
}
use canonizr_hda.Prelude.Double.{quotient, to_fixed, to_fixed-quotient}
use canonizr_hda.Prelude.Decimal.{fixed}

unfoldable pub format_kb : ℕ → Text
format_kb kb =
    if leb 1000 kb
    then to_fixed (if leb 10000 kb then 0 else 1) (quotient kb 1000) ++ text " MB"
    else decimal kb ++ text " KB"

unfoldable pub format_currency : ℕ → Text
format_currency hundredths = text "$" ++ to_fixed 2 (quotient hundredths 100)

unfoldable pub format_ms : ℕ → Text
format_ms ms =
    if leb 1000 ms then to_fixed 2 (quotient ms 1000) ++ text "s" else decimal ms ++ text "ms"

-- An amount below 2 ^ 45 hundredths is printed exactly: its whole dollars, a point, and two digits for
-- the hundredths that are left.
pub format_currency_lem :
    (hundredths : ℕ)
    → hundredths < 2 ^ 45
    → format_currency hundredths
      ≡ text "$" ++ (decimal (hundredths / 100) ++ (text "." ++ fixed 2 (hundredths % 100)))
unfolding format_currency
format_currency_lem hundredths h = ap (λ t. text "$" ++ t) (to_fixed-quotient hundredths h)
