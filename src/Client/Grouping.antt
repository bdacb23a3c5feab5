-- ===== src/Client/Grouping.antt =====
-- src/main/python/apache/aurora/client/base.py: hosts in groups, by a function that a site may add.
pub mod Partition
use aurora_client.Base.{
  String, Bool, true, false, Option, none, some, List, [], ◌∷◌, ◌==◌, string_eq, Result, ok, err,
  if◌then◌else◌, Eq,
}
use aurora_client.Base.Sets.{add}
use aurora_client.Base.Dicts.{Dict, get, put, get_default, remove}

unfoldable pub group_by_host : String → String
group_by_host hostname = hostname

unfoldable pub no_grouping : String → String
no_grouping hostname = "_all_hosts_"

-- `GROUPING_FUNCTIONS`, as it is at the start.
abbrev pub GroupingFunctions : Type 0
GroupingFunctions = Dict String (String → String)

unfoldable pub grouping_functions : GroupingFunctions
grouping_functions = ("by_host", group_by_host) ∷ ("none", no_grouping) ∷ []

unfoldable pub add_grouping : GroupingFunctions → String → (String → String) → GroupingFunctions
add_grouping functions name function = put functions name function

-- A missing name raises KeyError.
unfoldable pub remove_grouping : GroupingFunctions → String → Option GroupingFunctions
remove_grouping functions name = elim (get functions name) [
  | none ↦ none
  | some _ ↦ some (remove functions name)
]

-- `none` where the client dies.
unfoldable pub get_grouping_or_die : GroupingFunctions → String → Option (String → String)
get_grouping_or_die functions name = get functions name

-- `d[k].add(x)` and `d[k].append(x)` of a defaultdict.
module _ {K X : Type 0} ⦃k : Eq K⦄ ⦃x : Eq X⦄ where
  unfoldable pub put_add : Dict K (List X) → K → X → Dict K (List X)
  put_add d key item = put d key (add item (get_default d key []))

unfoldable pub group_all :
    (String → String) → Dict String (List String) → List String → Dict String (List String)
group_all group groups [] = groups
group_all group groups (hostname ∷ hostnames) =
    group_all group (put_add groups (group hostname) hostname) hostnames

unfoldable pub group_hosts :
    GroupingFunctions → List String → String → Option (Dict String (List String))
group_hosts functions hostnames name = elim (get_grouping_or_die functions name) [
  | none ↦ none
  | some group ↦ some (group_all group [] hostnames)
]
