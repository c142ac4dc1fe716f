-- ===== src/Clock.antt =====
-- `time.strftime("%Y-%m-%dT%H:%M:%SZ", time.gmtime(ts))`, the times of `_iso` in
-- cross-domain-id-jag-vc/agntcy_identity_client/vc.py.
use Prim.Native.String.{String}
use agent_identity_demos.Prelude.{
  ℕ, ◌+◌, ◌-◌, ◌*◌, ◌/◌, ◌%◌, ◌<>◌, ◌≡◌, refl, ltb, leb, nat_eq, if◌then◌else◌,
}
use agent_identity_demos.Prelude.Text.{decimal}

-- The Gregorian date of a number of days since 1970. Years begin in March while counting.
pub record Date : Type 0 where
  pub year : ℕ
  pub month : ℕ
  pub day : ℕ

unfoldable pub civil : ℕ → Date
civil days =
    let shifted = days + 719468 in
    let era = shifted / 146097 in
    let doe = shifted % 146097 in
    let yoe = (doe + doe / 36524 - doe / 1460 - doe / 146096) / 365 in
    let doy = doe - (365 * yoe + yoe / 4 - yoe / 100) in
    let mp = (5 * doy + 2) / 153 in
    let month = if ltb mp 10 then mp + 3 else mp - 9 in
    record {
      year = yoe + era * 400 + (if leb month 2 then 1 else 0);
      month = month;
      day = doy - (153 * mp + 2) / 5 + 1;
    }

two_digits : ℕ → String
two_digits n = if ltb n 10 then "0" <> decimal n else decimal n

unfoldable pub iso : ℕ → String
unfolding civil two_digits decimal
iso ts =
    let date = civil (ts / 86400) in
    decimal date.year
    <> ("-"
        <> (two_digits date.month
            <> ("-"
                <> (two_digits date.day
                    <> ("T"
                        <> (two_digits (ts % 86400 / 3600)
                            <> (":"
                                <> (two_digits (ts % 3600 / 60)
                                    <> (":" <> (two_digits (ts % 60) <> "Z"))))))))))

iso_run : iso 1709210096 ≡ "2024-02-29T12:34:56Z"
unfolding iso
iso_run = refl
