-- ===== src/Retention.antt =====
-- `RetentionFilter` of src/benji/retentionfilter.py: which versions of a volume a retention policy
-- dismisses. This file has the data and `_filter`; Retention/Rules.antt parses the policy, and
-- Retention/Timedelta.antt has the ages of versions.
pub mod Timedelta
pub mod Rules
pub mod Filter
pub mod Counts
pub mod Total
pub mod Falling
pub mod Covers
pub mod Latest
use benji.Prelude.{ℕ, ◌==◌, Bool, Option, none, some, List, [], ◌∷◌, if◌then◌else◌}

-- The categories of a policy: the latest versions, and one version for every period of time.
pub data Period : Type 0 where
  hours days weeks months years : Period

pub data Category : Type 0 where
  latest : Category
  every : Period → Category

-- Rules in the order of an ordered dictionary.
abbrev pub Rules : Type 0
Rules = List (Category × ℕ)

-- A version: its uid, and its date in microseconds of UTC.
pub record Version : Type 0 where
  pub uid : ℕ
  pub date : ℕ

-- A number for each category, in the order of `_valid_categories`.
abbrev pub rank_of_period : Period → ℕ
rank_of_period hours = 1
rank_of_period days = 2
rank_of_period weeks = 3
rank_of_period months = 4
rank_of_period years = 5

abbrev pub rank : Category → ℕ
rank latest = 0
rank (every p) = rank_of_period p

abbrev pub period_eq : Period → Period → Bool
period_eq p q = rank_of_period p == rank_of_period q

abbrev pub category_eq : Category → Category → Bool
category_eq c d = rank c == rank d

-- `rules.get(category)`
abbrev pub lookup : Category → Rules → Option ℕ
lookup c [] = none
lookup c ((d, n) ∷ rules) = let rest = lookup c rules in if category_eq c d then some n else rest
