-- ===== src/Tests/Retention.antt =====
-- A policy, and the versions of a volume that it is applied to.
use benji.Prelude.{
  ℕ, ◌+◌, ◌/◌, ◌%◌, ◌≡◌, refl, List, [], ◌∷◌, codes, All, Any, length, leb, ◌⊎◌, map,
}
use benji.Prelude.Int.{pos}
use benji.Retention.{Rules, Version, latest, every, days}
use benji.Retention.Timedelta.{Wall, timedelta, elapsed}
use benji.Retention.Rules.{
  parsed, split, parse_rules, read_elements, read_element, match_element, arrange,
}
use benji.Retention.Rules.Sound.{IsInForce, IsRising, IsPositive, parse_rules_sound}
use benji.Retention.Filter.{
  filter, filter_versions, periods_of, considered, consider_all, consider, matching, file_version,
  append_to, reject_all, rejects, sort,
}
use benji.Retention.Counts.{count, members, later}
use benji.Retention.Total.{filter_versions-count}
use benji.Retention.Covers.{IsTooOld, IsCovered, dismissed-IsCovered}
use benji.Retention.Latest.{is_younger, latest-IsKept}
use benji.NavList.Decimal.{read_digits}

-- Hours from the beginning of the year 1, in a calendar of equal months.
abbrev wall : ℕ → Wall
wall t = record {
  year = t / 8640 + 1;
  month = t / 720 % 12 + 1;
  ordinal = t / 24 + 1;
  hour = t % 24;
}

abbrev rules : Rules
rules = (latest, 1) ∷ (every days, 2) ∷ []

abbrev version : ℕ → ℕ → Version
version uid date = record { uid = uid; date = date }

-- One of the day, two of the day before, one of long ago, and one behind the reference time.
abbrev versions : List Version
versions = version 1 70 ∷ version 2 75 ∷ version 3 71 ∷ version 4 1 ∷ version 5 80 ∷ []

parses : parse_rules (codes "days2,latest1") ≡ parsed rules
unfolding parse_rules split read_elements read_element match_element arrange read_digits
parses = refl

-- The youngest is kept as the latest, and the one of long ago is too old; of the two of the day before
-- the older is kept.
dismisses : map (λ v. v.uid) (filter wall 76 rules versions) ≡ 4 ∷ 3 ∷ []
unfolding filter filter_versions consider_all consider matching file_version append_to reject_all
    rejects sort timedelta elapsed
dismisses = refl

parse_rules_sound_example :
    All (IsInForce rules) (split (codes "days2,latest1")) × IsRising rules × All IsPositive rules
parse_rules_sound_example = parse_rules_sound (codes "days2,latest1") rules parses

filter_versions-count_example :
    count (λ v. leb 71 v.date) (filter_versions wall 76 rules versions).dismissed
      + count (λ v. leb 71 v.date) (members (filter_versions wall 76 rules versions).remaining)
      + count (λ v. leb 71 v.date) (later 76 (considered wall 76 rules versions))
    ≡ count (λ v. leb 71 v.date) versions
filter_versions-count_example = filter_versions-count wall 76 rules versions (λ v. leb 71 v.date)

dismissed-IsCovered_example :
    All
      (λ w.
        IsTooOld wall 76 (periods_of rules) w
        ⊎ IsCovered wall 76
            (periods_of rules)
            (members (filter_versions wall 76 rules versions).remaining)
            w)
      (filter_versions wall 76 rules versions).dismissed
dismissed-IsCovered_example = dismissed-IsCovered wall 76 rules versions

latest-IsKept_example :
    (kept : List Version) × Any
      (λ e. e ≡ (latest, (pos 0, kept) ∷ []))
      (filter_versions wall 76 rules versions).remaining
    × (length kept ≡ 1)
    × All (λ v. count (is_younger v) (filter_versions wall 76 rules versions).dismissed ≡ 0) kept
latest-IsKept_example = latest-IsKept wall 76 rules versions 1 refl
