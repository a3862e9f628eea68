-- ===== src/Timeline/Dependency.antt =====
-- `dependency_roots` and `assign_dependency_group`. A map is a list of entries; `find_root` is on
-- fuel, and `none` is a recursion that has not come back within it.
use Prim.Native.String.{◌++◌ as append}
use solana_whale_intelligenc.Prelude.{ℕ, zero, suc, Option, none, some, List, [], ◌∷◌, String, each}
use solana_whale_intelligenc.Prelude.Dict.{get, put}
use solana_whale_intelligenc.Timeline.{RecentEvent}

abbrev pub Refs : Type 0
Refs = List (String × String)

-- `parent`, from `deps`: later pairs overwrite.
unfoldable pub parents : Refs → Refs → Refs
parents parent [] = parent
parents parent ((upstream, downstream) ∷ deps) = parents (put downstream upstream parent) deps

unfoldable pub find_root : ℕ → String → Refs → Refs → Option (String × Refs)
find_root zero r parent roots = none
find_root (suc n) r parent roots = elim (get r roots) [
  | some cached ↦ some (cached, roots)
  | none ↦ elim (get r parent) [
    | none ↦ some (r, put r r roots)
    | some up ↦ elim (find_root n up parent roots) [
      | none ↦ none
      | some (root, roots) ↦ some (root, put r root roots)
    ]
  ]
]

-- `for r in parent.keys()`
unfoldable pub root_all : ℕ → Refs → Refs → Refs → Option Refs
root_all n [] parent roots = some roots
root_all n ((r, up) ∷ keys) parent roots = elim (find_root n r parent roots) [
  | none ↦ none
  | some (root, roots) ↦ root_all n keys parent roots
]

-- `entry(upstream).or_insert_with(…)`
unfoldable pub or_insert : Refs → String × String → Refs
or_insert roots (upstream, downstream) = elim (get upstream roots) [
  | none ↦ put upstream upstream roots
  | some root ↦ roots
]

unfoldable pub dependency_roots : ℕ → Refs → Option Refs
dependency_roots n deps =
    let parent = parents [] deps in
    elim (root_all n parent parent []) [
      | none ↦ none
      | some roots ↦ some (each or_insert roots deps)
    ]

-- `find_map(|r| roots.get(r).cloned())`, and the first of the refs where it has none.
unfoldable pub cited_root : Refs → List String → Option String
cited_root roots [] = none
cited_root roots (r ∷ refs) = elim (get r roots) [
  | none ↦ cited_root roots refs
  | some root ↦ some root
]

unfoldable pub group_root : Refs → List String → Option String
group_root roots [] = none
group_root roots (r ∷ refs) = elim (cited_root roots (r ∷ refs)) [
  | none ↦ some r
  | some root ↦ some root
]

unfoldable pub assign_group : {F : Type 0} → Refs → RecentEvent F → RecentEvent F
assign_group roots e = elim e.dependency_group [
  | some group ↦ e
  | none ↦ elim (group_root roots e.evidence_refs) [
    | none ↦ e
    | some root ↦ record e { dependency_group = some (append "group:" root) }
  ]
]

unfoldable pub assign_groups : {F : Type 0} → Refs → List (RecentEvent F) → List (RecentEvent F)
assign_groups roots [] = []
assign_groups roots (e ∷ events) = assign_group roots e ∷ assign_groups roots events

unfoldable pub assign_dependency_group :
    {F : Type 0} → ℕ → List (RecentEvent F) → Refs → Option (List (RecentEvent F))
assign_dependency_group n events deps = elim (dependency_roots n deps) [
  | none ↦ none
  | some roots ↦ some (assign_groups roots events)
]
