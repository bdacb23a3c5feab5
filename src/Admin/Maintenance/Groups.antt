-- ===== src/Admin/Maintenance/Groups.antt =====
-- src/main/python/apache/aurora/admin/host_maintenance.py: `iter_batches` takes every host once.
use aurora_client.Base.{
  String, ◌≡◌, refl, Bool, true, false, none, some, List, [], ◌∷◌, ◌==◌, ==_iff, string_eq,
  string_leb, if◌then◌else◌, map, arith, all, inl, inr, Bool-cases,
}
use aurora_client.Base.Sets.{member, add}
use aurora_client.Base.Dicts.{Dict, get, get_default, put, IsDict, put-IsDict}
use aurora_client.Base.Sorting.{count_if, count_if-sort_by, sort_by}
use aurora_client.Client.Grouping.{
  GroupingFunctions, get_grouping_or_die, put_add, group_all, group_hosts,
}
use aurora_client.Client.Grouping.Partition.{group_all_lem}
use aurora_client.Admin.Maintenance.{iter_batches}

abbrev Groups : Type 0
Groups = Dict String (List String)

-- Every host of an entry has its name.
unfoldable IsUniform : (String → String) → Groups → Type 0
IsUniform group [] = Unit
IsUniform group ((name, hosts) ∷ groups) =
    (all (λ host. group host == name) hosts ≡ true) × IsUniform group groups

all-add :
    (p : String → Bool) (h : String) (hosts : List String)
    → p h ≡ true
    → all p hosts ≡ true
    → all p (add h hosts) ≡ true
unfolding add
all-add p h hosts q r = ground arith

put_add-IsUniform :
    (group : String → String) (groups : Groups) (h : String)
    → IsUniform group groups
    → IsUniform group (put_add groups (group h) h)
unfolding IsUniform put_add put get add member
put_add-IsUniform group [] h _ = (ground (arith, ==_iff (group h) (group h)), tt)
put_add-IsUniform group ((name, hosts) ∷ groups) h (here, rest) =
    elim (Bool-cases (name == group h)) [
      | inl same ↦ rw same (
        ground (
          arith,
          ==_iff name (group h),
          ==_iff (group h) name,
          all-add (λ host. group host == name) h hosts,
        ),
        rest,
      )
      | inr other ↦ rw other (here, put_add-IsUniform group groups h rest)
    ]

group_all-IsUniform :
    (group : String → String) (groups : Groups) (hostnames : List String)
    → IsUniform group groups
    → IsUniform group (group_all group groups hostnames)
unfolding group_all
group_all-IsUniform group groups [] h = h
group_all-IsUniform group groups (host ∷ hostnames) h =
    group_all-IsUniform group (put_add groups (group host) host) hostnames
      (put_add-IsUniform group groups host h)

group_all-IsDict :
    (group : String → String) (groups : Groups) (hostnames : List String)
    → IsDict groups
    → IsDict (group_all group groups hostnames)
unfolding group_all put_add
group_all-IsDict group groups [] h = h
group_all-IsDict group groups (host ∷ hostnames) h =
    group_all-IsDict group (put_add groups (group host) host) hostnames
      (put-IsDict groups (group host) (add host (get_default groups (group host) [])) h)

abbrev pub has_host : String → String × List String → Bool
has_host host entry = member host entry.1

not_in_name :
    (group : String → String) (name : String) (hosts : List String) (host : String)
    → all (λ h. group h == name) hosts ≡ true
    → (group host == name) ≡ false
    → member host hosts ≡ false
unfolding member
not_in_name group name [] host h other = refl
not_in_name group name (x ∷ hosts) host h other =
    ground (arith, ==_iff x host, not_in_name group name hosts host)

count_none :
    (group : String → String) (groups : Groups) (host : String)
    → IsUniform group groups
    → get groups (group host) ≡ none
    → count_if (has_host host) groups ≡ 0
unfolding IsUniform get count_if
count_none group [] host _ h = refl
count_none group ((name, hosts) ∷ groups) host (here, rest) h = ground (
  arith,
  not_in_name group name hosts host here,
  ==_iff name (group host),
  ==_iff (group host) name,
  count_none group groups host rest,
)

-- A host is in one entry, if it is in that of its name.
count_once :
    (group : String → String) (groups : Groups) (host : String)
    → IsUniform group groups
    → IsDict groups
    → count_if (has_host host) groups
      ≡ (if member host (get_default groups (group host) []) then 1 else 0)
unfolding IsUniform IsDict get count_if member
count_once group [] host _ _ = refl
count_once group ((name, hosts) ∷ groups) host (here, rest) (new, d) =
    elim (Bool-cases (name == group host)) [
      | inl same ↦ ground (arith, ==_iff name (group host), count_none group groups host rest)
      | inr other ↦ ground (
        arith,
        not_in_name group name hosts host here,
        ==_iff name (group host),
        ==_iff (group host) name,
        count_once group groups host rest d,
      )
    ]

pub count_map :
    (groups : Groups) (host : String)
    → count_if (member host) (map (λ g. g.1) groups) ≡ count_if (has_host host) groups
unfolding count_if
count_map [] host = refl
count_map (g ∷ groups) host = ground (arith, count_map groups host)

-- The groups in any order have each host once, if it was given.
pub groups_once :
    (group : String → String) (hostnames : List String)
    (is_le : String × List String → String × List String → Bool) (host : String)
    → count_if (has_host host) (sort_by is_le (group_all group [] hostnames))
      ≡ (if member host hostnames then 1 else 0)
unfolding IsUniform IsDict get member
groups_once group hostnames is_le host = ground (
  arith,
  count_if-sort_by is_le (has_host host) (group_all group [] hostnames),
  count_once group (group_all group [] hostnames) host (group_all-IsUniform group [] hostnames tt)
      (group_all-IsDict group [] hostnames tt),
  group_all_lem group [] hostnames (group host) host,
  ==_iff (group host) (group host),
)

-- With a known grouping function, `iter_batches` puts each of the hosts that it is given into exactly
-- one batch, and no other host into any.
pub iter_batches_partition :
    (functions : GroupingFunctions) (hostnames : List String) (grouping : String)
    (group : String → String)
    → get_grouping_or_die functions grouping ≡ some group
    → (batches : List (List String)) × (iter_batches functions hostnames grouping ≡ some batches)
      × ((host : String)
          → count_if (member host) batches ≡ (if member host hostnames then 1 else 0))
unfolding iter_batches group_hosts
iter_batches_partition functions hostnames grouping group known =
    let is_le : String × List String → String × List String → Bool = λ a b. string_leb a.0 b.0 in
    let ordered = sort_by is_le (group_all group [] hostnames) in
    (
      map (λ g. g.1) ordered,
      ground (arith, known),
      λ host. ground (arith, count_map ordered host, groups_once group hostnames is_le host),
    )
