-- ===== src/Common/PortResolver/Samples.antt =====
-- The map of ports of the documentation, and one with a cycle.
use aurora_client.Base.{
  ◌≡◌, ◌⊎◌, refl, String, Option, none, some, [], ◌∷◌, ok, err, if◌then◌else◌, ◌==◌, string_eq,
}
use aurora_client.Base.Int.{ℤ, pos}
use aurora_client.Base.Sets.{member}
use aurora_client.Base.Dicts.{get, map_values, IsDict}
use aurora_client.Common.PortResolver.{
  number, named, cycle_exception, PortMap, to_number, is_visited, follow, resolve_one, resolve_each,
  converted, resolve,
}
use aurora_client.Common.PortResolver.Resolved.{Resolves, IsCyclic, resolve-Resolves}

-- `int`, as far as the examples need it.
abbrev digits : String → Option ℤ
digits text = if text == "80" then some (pos 80) else none

abbrev portmap : PortMap
portmap =
    ("http", named "80")
    ∷ ("aurora", named "http")
    ∷ ("https", named "aurora")
    ∷ ("thrift", named "service")
    ∷ []

resolved :
    resolve digits portmap
    ≡ ok (
        ("http", number (pos 80))
        ∷ ("aurora", number (pos 80))
        ∷ ("https", number (pos 80))
        ∷ ("thrift", named "service")
        ∷ [])
unfolding resolve resolve_each converted map_values to_number resolve_one follow is_visited member
    get
resolved = refl

cyclic :
    resolve digits (("http", named "https") ∷ ("https", named "http") ∷ []) ≡ err cycle_exception
unfolding resolve resolve_each converted map_values to_number resolve_one follow is_visited member
    get
cyclic = refl

portmap-IsDict : IsDict portmap
unfolding IsDict get
portmap-IsDict = (refl, (refl, (refl, (refl, tt))))

resolve-Resolves_example :
    (let ports = converted digits portmap in
      ((resolved : PortMap) × (resolve digits portmap ≡ ok resolved)
        × Resolves ports ports resolved)
      ⊎ ((resolve digits portmap ≡ err cycle_exception) × IsCyclic ports ports))
resolve-Resolves_example = resolve-Resolves digits portmap portmap-IsDict
