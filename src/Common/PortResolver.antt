-- ===== src/Common/PortResolver.antt =====
-- src/main/python/apache/aurora/config/port_resolver.py: `PortResolver`, which follows the aliases of a
-- map of ports. `int(text)`, which raises for most texts, is an argument.
pub mod Chains
pub mod Resolved
mod Samples
use aurora_client.Base.{
  ℕ, zero, suc, String, Bool, true, false, Option, none, some, List, [], ◌∷◌, if◌then◌else◌, ◌==◌,
  string_eq, length, Result, ok, err, ◌>>=◌,
}
use aurora_client.Base.Int.{ℤ}
use aurora_client.Base.Sets.{member}
use aurora_client.Base.Dicts.{Dict, get, map_values, keys}

pub data Port : Type 0 where
  number : ℤ → Port
  named : String → Port

pub data PortError : Type 0 where
  cycle_exception out_of_fuel : PortError

abbrev pub PortMap : Type 0
PortMap = Dict String Port

-- `portmap[port] = int(portmap[port])`, where that is not a ValueError.
unfoldable pub to_number : (String → Option ℤ) → Port → Port
to_number int (number n) = number n
to_number int (named text) = elim (int text) [ none ↦ named text | some n ↦ number n ]

-- `portmap[root] in visited`: the names visited are strings.
unfoldable pub is_visited : List String → Port → Bool
is_visited visited (number n) = false
is_visited visited (named name) = member name visited

-- The loop of `resolve_one` from a root.
unfoldable pub follow : ℕ → PortMap → List String → Port → Result PortError Port
follow fuel ports visited (number n) = ok (number n)
follow zero ports visited (named name) = err out_of_fuel
follow (suc fuel) ports visited (named name) = elim (get ports name) [
  | none ↦ ok (named name)
  | some root ↦
      let rest = follow fuel ports (name ∷ visited) root in
      if is_visited (name ∷ visited) root then err cycle_exception else rest
]

-- `resolve_one`, for the value of a name: a round for each port and one more.
unfoldable pub resolve_one : PortMap → Port → Result PortError Port
resolve_one ports root = follow (suc (length ports)) ports [] root

-- `dict((name, resolve_one(name)) for name in portmap)`
unfoldable pub resolve_each : PortMap → PortMap → Result PortError PortMap
resolve_each ports [] = ok []
resolve_each ports ((name, root) ∷ rest) = resolve_one ports root >>= λ port.
    resolve_each ports rest >>= λ others. ok ((name, port) ∷ others)

unfoldable pub converted : (String → Option ℤ) → PortMap → PortMap
converted int portmap = map_values (to_number int) portmap

unfoldable pub resolve : (String → Option ℤ) → PortMap → Result PortError PortMap
resolve int portmap = resolve_each (converted int portmap) (converted int portmap)
