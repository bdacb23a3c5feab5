-- ===== src/Common/PortResolver/Chains.antt =====
-- The chain of aliases that a port begins, and that `resolve_one` follows it to its end.
use aurora_client.Base.{
  ℕ, zero, suc, ◌<◌, ◌≡◌, ◌⊎◌, inl, inr, refl, String, true, false, not, Option, none, some, List,
  [], ◌∷◌, if◌then◌else◌, ◌==◌, ==_iff, string_eq, Result, ok, err, arith, length, Bool-cases,
  Option-cases, is_some,
}
use aurora_client.Base.Sets.{member}
use aurora_client.Base.Dicts.{get, keys, has, member-keys}
use aurora_client.Base.Sorting.{count_if, count_if_le, count_if_mono}
use aurora_client.Common.PortResolver.{
  Port, number, named, PortError, cycle_exception, PortMap, is_visited, follow, resolve_one,
}

-- The end of a chain of exactly n aliases; `none` where the chain is shorter or longer.
unfoldable pub settles : ℕ → PortMap → Port → Option Port
settles zero ports (number n) = some (number n)
settles zero ports (named name) = if has ports name then none else some (named name)
settles (suc n) ports (number k) = none
settles (suc n) ports (named name) = elim (get ports name) [
  | none ↦ none
  | some root ↦ settles n ports root
]

-- A chain has one length.
settles_once :
    (n m : ℕ) (ports : PortMap) (p : Port)
    → is_some (settles n ports p) ≡ true
    → is_some (settles m ports p) ≡ true
    → n ≡ m
unfolding settles
settles_once zero zero ports p h i = refl
settles_once zero (suc m) ports (number k) h i = cc
settles_once zero (suc m) ports (named name) h i = ground arith
settles_once (suc n) zero ports (number k) h i = cc
settles_once (suc n) zero ports (named name) h i = ground arith
settles_once (suc n) (suc m) ports (number k) h i = cc
settles_once (suc n) (suc m) ports (named name) h i = elim (Option-cases (get ports name)) [
  | inl missing ↦ absurd (ground (arith, missing))
  | inr (root, there) ↦
      ground (arith, settles_once n m ports root (ground (arith, there)) (ground (arith, there)))
]

-- Every name visited begins a chain that is longer than the one of the root, if it ends at all.
Longer : PortMap → List String → Port → Type 0
Longer ports visited root =
    (name : String) (n m : ℕ)
    → member name visited ≡ true
    → is_some (settles n ports root) ≡ true
    → is_some (settles m ports (named name)) ≡ true
    → n < m

Longer-next :
    (ports : PortMap) (visited : List String) (name : String) (root : Port)
    → get ports name ≡ some root
    → Longer ports visited (named name)
    → Longer ports (name ∷ visited) root
unfolding member settles Longer
Longer-next ports visited name root there h other n m seen ends ends' =
    elim (Bool-cases (name == other)) [
      | inl same ↦ ground (
        arith,
        ==_iff name other,
        settles_once (suc n) m ports (named name) (ground (arith, there))
            (ground (arith, ==_iff name other)),
      )
      | inr apart ↦ ground (arith, h other (suc n) m (ground arith) (ground (arith, there)) ends')
    ]

-- A root that has been visited begins a chain without an end.
visited_endless :
    (ports : PortMap) (visited : List String) (root : Port)
    → Longer ports visited root
    → is_visited visited root ≡ true
    → (n : ℕ) → settles n ports root ≡ none
unfolding is_visited Longer
visited_endless ports visited (number k) h seen n = cc
visited_endless ports visited (named name) h seen n =
    elim (Option-cases (settles n ports (named name))) [
      | inl endless ↦ endless
      | inr (end, ends) ↦
          absurd (omega (arith, h name n n seen (ground (arith, ends)) (ground (arith, ends))))
    ]

length-keys : (ports : PortMap) → length (keys ports) ≡ length ports
length-keys [] = refl
length-keys (_ ∷ ports) = ground (arith, length-keys ports)

-- How many names have not been visited.
abbrev unvisited : PortMap → List String → ℕ
unvisited ports visited = count_if (λ name. not (member name visited)) (keys ports)

count_strict :
    (names visited : List String) (name : String)
    → member name names ≡ true
    → member name visited ≡ false
    → count_if (λ k. not (member k (name ∷ visited))) names
      < count_if (λ k. not (member k visited)) names
unfolding member count_if
count_strict [] visited name h i = cc
count_strict (x ∷ names) visited name h i = elim (Bool-cases (name == x)) [
  | inl same ↦ ground (
    arith,
    ==_iff name x,
    count_if_mono (λ k. not (member k (name ∷ visited))) (λ k. not (member k visited)) names
        (λ k fresh. ground arith),
  )
  | inr apart ↦ ground (arith, ==_iff x name, ==_iff name x, count_strict names visited name)
]

-- What is to be had of the loop from a root: the end of its chain, or that it has none.
abbrev pub Followed : PortMap → Port → Result PortError Port → Type 0
Followed ports root result =
    ((n : ℕ) × (end : Port) × (settles n ports root ≡ some end) × (result ≡ ok end))
    ⊎ (((n : ℕ) → settles n ports root ≡ none) × (result ≡ err cycle_exception))

endless_before :
    (ports : PortMap) (name : String) (root : Port)
    → get ports name ≡ some root
    → ((n : ℕ) → settles n ports root ≡ none)
    → (n : ℕ) → settles n ports (named name) ≡ none
unfolding settles
endless_before ports name root there h zero = ground (arith, there)
endless_before ports name root there h (suc n) = ground (arith, there, h n)

follow_lem :
    (fuel : ℕ) (ports : PortMap) (visited : List String) (root : Port)
    → Longer ports visited root
    → is_visited visited root ≡ false
    → unvisited ports visited < fuel
    → Followed ports root (follow fuel ports visited root)
unfolding follow settles is_visited
follow_lem fuel ports visited (number k) h fresh_ enough = inl (0, number k, refl, ground arith)
follow_lem zero ports visited (named name) h fresh_ enough = absurd (omega (arith, enough))
follow_lem (suc fuel) ports visited (named name) h fresh_ enough =
    elim (Option-cases (get ports name)) [
      | inl unknown ↦ inl (0, named name, ground (arith, unknown), ground (arith, unknown))
      | inr (root, there) ↦
          let longer = Longer-next ports visited name root there h in
          elim (Bool-cases (is_visited (name ∷ visited) root)) [
            | inl seen ↦ inr (
              endless_before ports name root there
                  (visited_endless ports (name ∷ visited) root longer seen),
              ground (arith, there, seen),
            )
            | inr unseen ↦
                elim (follow_lem fuel ports (name ∷ visited) root longer unseen (
                  ground (
                    arith,
                    count_strict (keys ports) visited name,
                    member-keys ports name,
                    there,
                  ))) [
                    | inl (n, end, ends, got) ↦ inl (
                      suc n,
                      end,
                      ground (arith, there, ends),
                      ground (arith, there, unseen, got),
                    )
                    | inr (endless, got) ↦ inr (
                      endless_before ports name root there endless,
                      ground (arith, there, unseen, got),
                    )
                  ]
          ]
    ]

pub resolve_one_lem : (ports : PortMap) (root : Port) → Followed ports root (resolve_one ports root)
unfolding resolve_one member is_visited Longer
resolve_one_lem ports root =
    follow_lem (suc (length ports)) ports [] root (λ name n m seen ends ends'. absurd (cc seen))
      (ground arith)
      (omega (arith, count_if_le (λ name. not (member name [])) (keys ports), length-keys ports))
