-- ===== src/Match.antt =====
-- internal/match: whether an installed package is affected by an advisory, and how serious it is.
-- The types that its files share.
pub mod Ecosystem
pub mod Affects
pub mod Score
pub mod Purl
pub mod Fix
pub mod Tests
use pkgwatch.Base.{
  Ordering, lt, eq, gt, Bool, true, false, List, [], ◌∷◌, Option, none, some, ℤ, ◌≡◌,
}
use pkgwatch.Base.Text.{Text, codes}
use pkgwatch.Version.{Result, ok, err}

abbrev pub kind_vulnerability : Text
kind_vulnerability = codes "vulnerability"

abbrev pub kind_malware : Text
kind_malware = codes "malware"

abbrev pub scope_global : Text
scope_global = codes "global"

abbrev pub scope_project : Text
scope_project = codes "project"

abbrev pub tier_critical : Text
tier_critical = codes "critical"

abbrev pub tier_high : Text
tier_high = codes "high"

abbrev pub tier_medium : Text
tier_medium = codes "medium"

abbrev pub tier_low : Text
tier_low = codes "low"

-- `Range`; an empty bound is no bound.
pub record Range : Type 0 where
  pub introduced : Text
  pub fixed : Text
  pub last_affected : Text

-- `Advisory`; `Num` is float64, and a time is a number of nanoseconds.
pub record Advisory (Num : Type 0) : Type 0 where
  pub id : Text
  pub kind : Text
  pub ecosystem : Text
  pub package_name : Text
  pub summary : Text
  pub severity_cvss : Option Num
  pub withdrawn : Bool
  pub versions : List Text
  pub ranges : List Range
  pub source : Text
  pub published : ℤ
  pub modified : ℤ

-- `Package`
pub record Package : Type 0 where
  pub ecosystem : Text
  pub name : Text
  pub version : Text
  pub scope : Text
  pub has_scripts : Bool
  pub last_seen : ℤ

-- `comparator`
abbrev pub Comparator : Type 0
Comparator = Text → Text → Result Ordering
