-- ===== src/Worker/Cron/Weekdays.antt =====
-- Ranges of days of the week that end with 7, a second number of Sunday.
use simple_host_man.Prelude.Text.{codes, trim}
use simple_host_man.Worker.Cron.{
  parse_integer, normalize_cron_value, match_base, match_cron_segment,
}
use simple_host_man.Prelude.{
  ◌==◌, ◌%◌, ltb, ◌≡◌, ℕ, zero, suc, ◌+◌, ◌-◌, ◌≤◌, false, ◌||◌, ◌∷◌, if◌then◌else◌, arith,
}

no_day :
    (step value low : ℕ)
    → 1 ≤ low
    → (if ltb value low || ltb 0 value then false else ((value - low) % step) == 0) ≡ false
no_day step value low h = ground arith

-- A range of days from `start`, Monday to Saturday, to 7 holds on no day at all.
pub weekday_range_to_seven :
    (start value : ℕ)
    → 1 ≤ start
    → start ≤ 6
    → match_cron_segment ((b'0' + start) ∷ codes "-7") value 0 7 ≡ false
unfolding match_cron_segment match_base normalize_cron_value parse_integer trim
weekday_range_to_seven zero value low high = absurd (omega arith)
weekday_range_to_seven (suc zero) value low high =
    no_day 1 (normalize_cron_value value 7) 1 (omega arith)
weekday_range_to_seven (suc (suc zero)) value low high =
    no_day 1 (normalize_cron_value value 7) 2 (omega arith)
weekday_range_to_seven (suc (suc (suc zero))) value low high =
    no_day 1 (normalize_cron_value value 7) 3 (omega arith)
weekday_range_to_seven (suc (suc (suc (suc zero)))) value low high =
    no_day 1 (normalize_cron_value value 7) 4 (omega arith)
weekday_range_to_seven (suc (suc (suc (suc (suc zero))))) value low high =
    no_day 1 (normalize_cron_value value 7) 5 (omega arith)
weekday_range_to_seven (suc (suc (suc (suc (suc (suc zero)))))) value low high =
    no_day 1 (normalize_cron_value value 7) 6 (omega arith)
weekday_range_to_seven (suc (suc (suc (suc (suc (suc (suc n))))))) value low high =
    absurd (omega arith)
