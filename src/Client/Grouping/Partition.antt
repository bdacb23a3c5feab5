-- ===== src/Client/Grouping/Partition.antt =====
-- src/main/python/apache/aurora/client/base.py: the groups of `group_hosts`.
use aurora_client.Base.{
  String, ◌≡◌, refl, ◌&&◌, ◌||◌, some, List, [], ◌∷◌, ◌==◌, ==_iff, string_eq, arith, Eq,
}
use aurora_client.Base.Sets.{member, add, member-add}
use aurora_client.Base.Dicts.{Dict, get, get-put, get_default}
use aurora_client.Client.Grouping.{
  GroupingFunctions, get_grouping_or_die, put_add, group_all, group_hosts,
}

module _ {K X : Type 0} ⦃k : Eq K⦄ ⦃x : Eq X⦄ where
  pub member-put_add :
      (d : Dict K (List X)) (key : K) (item : X) (j : K) (i : X)
      → member i (get_default (put_add d key item) j [])
        ≡ (((key == j) && (item == i)) || member i (get_default d j []))
  unfolding put_add
  member-put_add d key item j i = ground (
    arith,
    get-put d key (add item (get_default d key [])) j,
    ==_iff key j,
    member-add item (get_default d key []) i,
  )

pub group_all_lem :
    (group : String → String) (groups : Dict String (List String)) (hostnames : List String)
    (name host : String)
    → member host (get_default (group_all group groups hostnames) name []) ≡ (
        (member host hostnames && (group host == name)) || member host (get_default groups name []))
unfolding group_all member
group_all_lem group groups [] name host = refl
group_all_lem group groups (h ∷ hostnames) name host = ground (
  arith,
  group_all_lem group (put_add groups (group h) h) hostnames name host,
  member-put_add groups (group h) h name host,
  ==_iff h host,
)

-- With a known grouping function, a host is in the group of a name exactly when it is one of the
-- hosts that are given and the function gives it that name: every host is in one group and in no
-- other, and no other host is.
pub group_hosts_lem :
    (functions : GroupingFunctions) (hostnames : List String) (name : String)
    (group : String → String)
    → get_grouping_or_die functions name ≡ some group
    → (groups : Dict String (List String)) × (group_hosts functions hostnames name ≡ some groups)
      × ((key host : String)
          → member host (get_default groups key [])
            ≡ (member host hostnames && (group host == key)))
unfolding group_hosts member get
group_hosts_lem functions hostnames name group known = (
  group_all group [] hostnames,
  ground (arith, known),
  λ key host. ground (arith, group_all_lem group [] hostnames key host),
)
