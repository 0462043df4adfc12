-- ===== src/UpgradeRepo/Packages.antt =====
-- `get_packages_version` and `CortxISOInfo` of set_swupgrade_repo.py, and the constraints on
-- single packages in `CompatibilityValidator` of commands/validator/validator.py.
use Prim.Native.Char.{code}
use Prim.Native.String.{len}
use package.text.Mathlib.Text.{starts_with}
use cortx_prvsnr.Prelude.{ℕ, zero, suc, String, ◌<>◌, Bool, true, false, Option, none, some}
use cortx_prvsnr.Prelude.{List, [], ◌∷◌, ◌++◌, ◌==◌, if◌then◌else◌, eqb, ◌-◌}
use cortx_prvsnr.Prelude.Text.{is_empty}
use cortx_prvsnr.Prelude.Dict.{Dict, lookup, insert}
use cortx_prvsnr.Exec.{Result, ok, err}
use cortx_prvsnr.Fallible.{◌>>=◌}
use cortx_prvsnr.Utils.Version.{before, split_two, strip, normalize_rpm_version}
use cortx_prvsnr.UpgradeRepo.{IsoVersion, version1, version2, Ops}

-- What is known of a package: its version, absent only for the entry of the whole release, and the
-- constraint on the installed version.
pub record Package : Type 0 where
  pub version : Option String
  pub compatibility : Option String

-- `packages[name] = …` for each line `name.arch version`.
unfoldable pub parse_line : String → Result (String × String)
unfolding before split_two normalize_rpm_version
parse_line line = split_two b' ' line >>= λ parts.
    normalize_rpm_version parts.1 >>= λ version. ok (before (eqb b'.') parts.0, version)

unfoldable pub parse_lines : List String → Dict String → Result (Dict String)
unfolding parse_line insert
parse_lines [] d = ok d
parse_lines (line ∷ lines) d =
    parse_line line >>= λ entry. parse_lines lines (insert entry.0 entry.1 d)

-- `s.split('\n')`
unfoldable pub split_lines : String → List String
split_lines String.[] = "" ∷ []
split_lines (String.◌∷◌ c s) =
    let rest = split_lines s in
    if eqb (code c) 10
    then "" ∷ rest
    else elim rest [ [] ↦ String.◌∷◌ c "" ∷ [] | line ∷ lines ↦ String.◌∷◌ c line ∷ lines ]

-- A text of packages, which may be empty.
unfoldable pub parse_packages : String → Result (Dict String)
unfolding parse_lines split_lines is_empty
parse_packages text = if is_empty text then ok [] else parse_lines (split_lines text) []

unfoldable pub as_packages : Dict String → Dict Package
as_packages [] = []
as_packages ((name, version) ∷ d) =
    (name, record { version = some version; compatibility = none }) ∷ as_packages d

-- The name of the repository in `get_packages_version`.
unfoldable pub repo_name : IsoVersion → String
repo_name version1 = "cortx_iso"
repo_name version2 = "cortx"

-- `VERSION_DELIMITERS` are `>`, `<`, `==`, `!=`, `>=` and `<=`.
unfoldable pub name_part : String → String
name_part String.[] = ""
name_part (String.◌∷◌ c s) =
    let rest = name_part s in
    let here = String.◌∷◌ c s in
    if starts_with here ">"
    then ""
    else if starts_with here "<"
    then ""
    else if starts_with here "=="
    then ""
    else if starts_with here "!="
    then ""
    else String.◌∷◌ c rest

-- `s.replace(t, '')` for a `t` that is not empty: the number of characters to skip comes first.
removed : ℕ → String → String → String
removed n t String.[] = ""
removed zero t (String.◌∷◌ c s) =
    let skipped = removed (len t - 1) t s in
    let kept = removed 0 t s in
    if starts_with (String.◌∷◌ c s) t then skipped else String.◌∷◌ c kept
removed (suc n) t (String.◌∷◌ c s) = removed n t s

unfoldable pub replace : String → String → String
unfolding removed is_empty
replace t s = if is_empty t then s else removed 0 t s

-- One entry of `REQUIRES`: a constraint on a package of the bundle or on the whole release.
unfoldable pub with_constraint : String → String → Dict Package → Dict Package
unfolding lookup insert
with_constraint name version packages = elim (lookup name packages) [
  | some p ↦ insert name (record p { compatibility = some version }) packages
  | none ↦
      if name == "CORTX"
      then insert name (record { version = none; compatibility = some version }) packages
      else packages
]

-- `CortxISOInfo.__attrs_post_init__`
unfoldable pub with_requires : List String → Dict Package → Result (Dict Package)
unfolding name_part replace strip with_constraint normalize_rpm_version
with_requires [] packages = ok packages
with_requires (entry ∷ entries) packages =
    normalize_rpm_version (strip (replace (name_part entry) entry)) >>= λ version.
    with_requires entries (with_constraint (strip (name_part entry)) version packages)

unfoldable pub names_of : Dict Package → List String
names_of [] = []
names_of ((name, p) ∷ d) = name ∷ names_of d

module _ (O : Ops) where
  open O use {satisfies}

  unfoldable pub message : String → String → List String
  message name version = (name <> " of version " <> version <> " does not satisfy") ∷ []

  unfoldable pub judged : String → String → Result Bool → Result (List String)
  unfolding message
  judged name version (ok true) = ok []
  judged name version (ok false) = ok (message name version)
  judged name version (err e) = err e

  -- The message for a package with a constraint that is installed in some version.
  unfoldable pub violation_of : String → Option String → Option String → Result (List String)
  unfolding judged
  violation_of name none installed_ver = ok []
  violation_of name (some c) none = ok []
  violation_of name (some c) (some v) = judged name v (satisfies v c)

  unfoldable pub violation : Dict String → String → Package → Result (List String)
  unfolding violation_of lookup
  violation installed name p = violation_of name p.compatibility (lookup name installed)

  unfoldable pub violations : Dict String → Dict Package → Result (List String)
  unfolding violation
  violations installed [] = ok []
  violations installed ((name, p) ∷ d) =
      violation installed name p >>= λ ms. violations installed d >>= λ rest. ok (ms ++ rest)
