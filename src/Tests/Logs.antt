-- ===== src/Tests/Logs.antt =====
-- Three entries of the log on two days.
use dobby_ai.Base.{◌≡◌, some, List, [], ◌∷◌, ◌++◌, Bytes, codes, arith}
use dobby_ai.History.{History}
use dobby_ai.History.Days.{Call, log_all, days_of, after_day, file_text, log_all-days}

abbrev call : Bytes → Bytes → Call
call date title = record {
  date = date;
  time = codes "10:00:00";
  category = 6;
  title = title;
  details = some (codes "first\n* second\n");
}

abbrev calls : List Call
calls =
    call (codes "2026-01-01") (codes "a")
    ∷ call (codes "2026-01-02") (codes "b")
    ∷ call (codes "2026-01-02") (codes "c")
    ∷ []

abbrev new_year : History
new_year = record { file = some (codes "\n## 2026-01-01\n\n"); last_date = codes "2026-01-01" }

log_all-days_example :
    file_text (log_all calls (some new_year))
    ≡ codes "\n## 2026-01-01\n\n" ++ after_day (codes "2026-01-01") (days_of calls)
log_all-days_example = log_all-days calls new_year (omega arith, (omega arith, (omega arith, tt)))
