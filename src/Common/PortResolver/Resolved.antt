-- ===== src/Common/PortResolver/Resolved.antt =====
-- `resolve` ends, and gives each name the end of its chain of aliases.
use aurora_client.Base.{
  ℕ, ◌≡◌, ◌⊎◌, inl, inr, refl, String, Option, none, some, [], ◌∷◌, ◌==◌, ==_iff, string_eq, ok,
  err, arith, Bool-cases,
}
use aurora_client.Base.Int.{ℤ}
use aurora_client.Base.Dicts.{get, IsDict, map_values, get-map_values}
use aurora_client.Common.PortResolver.{
  Port, cycle_exception, PortMap, to_number, resolve_each, resolve, converted,
}
use aurora_client.Common.PortResolver.Chains.{settles, resolve_one_lem}

-- Each entry of a map holds the end of the chain that begins at the value of the same name.
unfoldable pub Resolves : PortMap → PortMap → PortMap → Type 0
Resolves ports given resolved =
    (name : String)
    → ((get given name ≡ none) × (get resolved name ≡ none))
      ⊎ ((root : Port) × (end : Port) × (n : ℕ) × (get given name ≡ some root)
          × (settles n ports root ≡ some end)
          × (get resolved name ≡ some end))

-- A name with a chain that does not end.
unfoldable pub IsCyclic : PortMap → PortMap → Type 0
IsCyclic ports given =
    (name : String) × (root : Port) × (get given name ≡ some root)
    × ((n : ℕ) → settles n ports root ≡ none)

resolve_each_lem :
    (ports given : PortMap)
    → IsDict given
    → ((resolved : PortMap) × (resolve_each ports given ≡ ok resolved)
        × Resolves ports given resolved)
      ⊎ ((resolve_each ports given ≡ err cycle_exception) × IsCyclic ports given)
unfolding resolve_each Resolves IsCyclic get IsDict
resolve_each_lem ports [] h = inl ([], refl, λ name. inl (refl, refl))
resolve_each_lem ports ((name, root) ∷ given) (single, h) = elim (resolve_one_lem ports root) [
  | inr (endless, cyclic) ↦
      inr (ground (arith, cyclic), (name, root, ground (arith, ==_iff name name), endless))
  | inl (n, end, ends, got) ↦ elim (resolve_each_lem ports given h) [
    | inr (cyclic, (other, root', there, endless)) ↦ inr (
      ground (arith, got, cyclic),
      (other, root', ground (arith, ==_iff name other, single, there), endless),
    )
    | inl (others, each, found) ↦ inl (
      (name, end) ∷ others,
      ground (arith, got, each),
      λ other. elim (Bool-cases (name == other)) [
        | inl same ↦ inr (root, end, n, ground (arith, same), ends, ground (arith, same))
        | inr apart ↦ elim (found other) [
          | inl (missing, missing') ↦ inl (ground (arith, apart), ground (arith, apart))
          | inr (root', end', m, there, ends', there') ↦
              inr (root', end', m, ground (arith, apart), ends', ground (arith, apart))
        ]
      ],
    )
  ]
]

map_values-IsDict : (f : Port → Port) (ports : PortMap) → IsDict ports → IsDict (map_values f ports)
unfolding IsDict map_values
map_values-IsDict f [] h = tt
map_values-IsDict f ((name, port) ∷ ports) (single, h) =
    (ground (arith, get-map_values f ports name, single), map_values-IsDict f ports h)

-- A map of ports has each name once. `resolve` comes to an end in one of two ways: it gives a map of
-- the same names, each with the end of the chain of aliases that begins at its value, or it raises
-- CycleException, and some name begins a chain without an end.
pub resolve-Resolves :
    (int : String → Option ℤ) (portmap : PortMap)
    → IsDict portmap
    → (let ports = converted int portmap in
        ((resolved : PortMap) × (resolve int portmap ≡ ok resolved) × Resolves ports ports resolved)
        ⊎ ((resolve int portmap ≡ err cycle_exception) × IsCyclic ports ports))
unfolding resolve converted
resolve-Resolves int portmap h =
    let ports = converted int portmap in
    resolve_each_lem ports ports (map_values-IsDict (to_number int) portmap h)
