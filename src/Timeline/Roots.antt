-- ===== src/Timeline/Roots.antt =====
-- `dependency_roots` and the roots of the references.
use mathlib.Core.Option.{some-injective, none-ne-some}
use solana_whale_intelligenc.Prelude.{
  ◌≡◌, refl, sym, ap, ◌∙◌, subst, ℕ, zero, suc, ◌<◌, Option, none, some, [], ◌∷◌, String, each,
  str_eq, str_eq→≡, ≡→str_eq, Option-cases, Bool-cases, arith, inl, inr,
}
use solana_whale_intelligenc.Prelude.Dict.{get, put, get-put}
use solana_whale_intelligenc.Timeline.Dependency.{
  Refs, parents, find_root, root_all, or_insert, dependency_roots,
}

-- The way from a reference up to one that has no parent.
pub data LeadsTo (parent : Refs) : String → String → Type 0 where
  top : {r : String} → get r parent ≡ none → LeadsTo parent r r
  above :
      {r up root : String} → get r parent ≡ some up → LeadsTo parent up root → LeadsTo parent r root

-- Every entry of `roots` is right.
abbrev pub IsRooted : Refs → Refs → Type 0
IsRooted parent roots = (r root : String) → get r roots ≡ some root → LeadsTo parent r root

-- Every reference with a parent ranks above it: there is no cycle.
abbrev pub IsAcyclic : Refs → (String → ℕ) → Type 0
IsAcyclic parent rank = (r up : String) → get r parent ≡ some up → rank up < rank r

-- No entry is lost.
abbrev Keeps : Refs → Refs → Type 0
Keeps roots larger = (k : String) → get k larger ≡ none → get k roots ≡ none

-- What `find_root` gives back.
record Found (parent : Refs) (r : String) (before : Refs) (result : Option (String × Refs))
    : Type 0 where
  root : String
  roots : Refs
  found : result ≡ some (root, roots)
  leads : LeadsTo parent r root
  rooted : IsRooted parent roots
  there : get r roots ≡ some root
  keeps : Keeps before roots

get-put_same : (r root : String) (roots : Refs) → get r (put r root roots) ≡ some root
get-put_same r root roots = rw (get-put r r root roots, ≡→str_eq r r refl) refl

put-IsRooted :
    (parent roots : Refs) (r root : String)
    → IsRooted parent roots
    → LeadsTo parent r root
    → IsRooted parent (put r root roots)
put-IsRooted parent roots r root h l s t e = elim (Bool-cases (str_eq r s)) [
  | inl q ↦
      subst (λ x. LeadsTo parent x t) (str_eq→≡ r s q)
        (subst (λ x. LeadsTo parent r x) (some-injective _ _ (rw (get-put s r root roots, q) at e))
          l)
  | inr q ↦ h s t (rw (get-put s r root roots, q) at e)
]

put-Keeps : (roots : Refs) (r root : String) → Keeps roots (put r root roots)
put-Keeps roots r root k e = elim (Bool-cases (str_eq r k)) [
  | inl q ↦ absurd (none-ne-some _ (sym (rw (get-put k r root roots, q) at e)))
  | inr q ↦ rw (get-put k r root roots, q) at e
]

module _ (parent : Refs) (rank : String → ℕ) (acyclic : IsAcyclic parent rank) where
  find_root-Found :
      (n : ℕ) (r : String) (roots : Refs)
      → IsRooted parent roots
      → rank r < n
      → Found parent r roots (find_root n r parent roots)
  unfolding find_root
  find_root-Found zero r roots h l = absurd (omega arith)
  find_root-Found (suc n) r roots h l = elim (Option-cases (get r roots)) [
    | inr (root, e) ↦ record {
      root = root;
      roots = roots;
      found = rw (find_root, e) refl;
      leads = h r root e;
      rooted = h;
      there = e;
      keeps = λ k q. q;
    }
    | inl e ↦ elim (Option-cases (get r parent)) [
      | inl p ↦ record {
        root = r;
        roots = put r r roots;
        found = rw (find_root, e, p) refl;
        leads = LeadsTo.top p;
        rooted = put-IsRooted parent roots r r h (LeadsTo.top p);
        there = get-put_same r r roots;
        keeps = put-Keeps roots r r;
      }
      | inr (up, p) ↦
          let f = find_root-Found n up roots h (omega (arith, acyclic r up p)) in
          record {
            root = f.root;
            roots = put r f.root f.roots;
            found = rw (find_root, e, p, f.found) refl;
            leads = LeadsTo.above p f.leads;
            rooted = put-IsRooted parent f.roots r f.root f.rooted (LeadsTo.above p f.leads);
            there = get-put_same r f.root f.roots;
            keeps = λ k q. f.keeps k (put-Keeps f.roots r f.root k q);
          }
    ]
  ]

  -- What the loop over the keys gives back.
  record AllFound (keys before : Refs) (result : Option Refs) : Type 0 where
    roots : Refs
    found : result ≡ some roots
    rooted : IsRooted parent roots
    keeps : Keeps before roots
    covers : (k : String) → get k roots ≡ none → get k keys ≡ none

  module _ (n : ℕ) (fuel : (r : String) → rank r < n) where
    root_all-AllFound :
        (keys roots : Refs)
        → IsRooted parent roots
        → AllFound keys roots (root_all n keys parent roots)
    unfolding root_all
    root_all-AllFound [] roots h = record {
      roots = roots;
      found = refl;
      rooted = h;
      keeps = λ k q. q;
      covers = λ k q. refl;
    }
    root_all-AllFound ((r, up) ∷ keys) roots h =
        let f = find_root-Found n r roots h (fuel r) in
        let a = root_all-AllFound keys f.roots f.rooted in
        record {
          roots = a.roots;
          found = rw (root_all, f.found) a.found;
          rooted = a.rooted;
          keeps = λ k q. f.keeps k (a.keeps k q);
          covers = λ k q. elim (Bool-cases (str_eq r k)) [
            | inl e ↦ absurd (
                none-ne-some _
                  (sym (a.keeps k q) ∙ ap (λ x. get x f.roots) (sym (str_eq→≡ r k e)) ∙ f.there))
            | inr e ↦ rw e (a.covers k q)
          ];
        }

    -- A reference without an entry has no parent, once every parent's key has one.
    or_insert-IsRooted :
        (roots deps : Refs)
        → IsRooted parent roots
        → ((k : String) → get k roots ≡ none → get k parent ≡ none)
        → IsRooted parent (each or_insert roots deps)
    unfolding or_insert
    or_insert-IsRooted roots [] h c = h
    or_insert-IsRooted roots ((up, down) ∷ deps) h c = elim (Option-cases (get up roots)) [
      | inr (root, e) ↦ rw (or_insert, e) (or_insert-IsRooted roots deps h c)
      | inl e ↦
          rw (or_insert, e)
            (or_insert-IsRooted (put up up roots) deps
              (put-IsRooted parent roots up up h (LeadsTo.top (c up e)))
              (λ k q. c k (put-Keeps roots up up k q)))
    ]

module _ (deps : Refs) (rank : String → ℕ) (n : ℕ) where
  -- With dependencies that have no cycle, and with more fuel than any rank, `dependency_roots` comes
  -- back, and whatever it maps a reference to is reached from it by going up to the parents until
  -- there is none.
  pub dependency_roots-IsRooted :
      IsAcyclic (parents [] deps) rank
      → ((r : String) → rank r < n)
      → (roots : Refs) × (dependency_roots n deps ≡ some roots) × IsRooted (parents [] deps) roots
  unfolding dependency_roots
  dependency_roots-IsRooted acyclic fuel =
      let parent = parents [] deps in
      let a =
        root_all-AllFound parent rank acyclic n fuel parent []
          (λ r root e. absurd (none-ne-some _ e)) in
      (
        each or_insert a.roots deps,
        rw (dependency_roots, a.found) refl,
        or_insert-IsRooted parent rank acyclic n fuel a.roots deps a.rooted a.covers,
      )

-- A reference that is its own parent has no root, whatever the fuel.
pub find_root_self :
    (n : ℕ) (r : String) (parent roots : Refs)
    → get r parent ≡ some r
    → get r roots ≡ none
    → find_root n r parent roots ≡ none
unfolding find_root
find_root_self zero r parent roots p e = refl
find_root_self (suc n) r parent roots p e =
    rw (find_root, e, p, find_root_self n r parent roots p e) refl
