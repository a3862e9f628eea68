-- ===== src/Prelude/Dict.antt =====
-- A map with text keys as an association list: the first entry of a key counts.
use mathlib.Core.Path.{◌≡◌, refl, sym, ap, ◌∙◌}
use mathlib.Core.Logic.{◌↔◌, inl, inr}
use mathlib.Core.Bool.{Bool, true, false, ◌||◌}
use mathlib.Core.Option.{Option, none, some}
use mathlib.Core.List.{List, [], ◌∷◌}
use native.Mathlib.Omega.{arith}
use text.Mathlib.TextEquality.{eq_iff}
use Prim.Native.String.{String}
use solana_whale_intelligenc.Prelude.Tests.{if◌then◌else◌, if-keeps}
use solana_whale_intelligenc.Prelude.Lists.{All, In, All-in}
use solana_whale_intelligenc.Prelude.Sort.{Apart}
use solana_whale_intelligenc.Prelude.Texts.{str_eq}

module _ {ℓ} {V : Type ℓ} where
  abbrev pub get : String → List (String × V) → Option V
  get key [] = none
  get key ((k, v) ∷ entries) = if str_eq k key then some v else get key entries

  abbrev pub put : String → V → List (String × V) → List (String × V)
  put key new [] = (key, new) ∷ []
  put key new ((k, v) ∷ entries) =
      if str_eq k key then (k, new) ∷ entries else (k, v) ∷ put key new entries

  pub get-put :
      (j k : String) (v : V) (m : List (String × V))
      → get j (put k v m) ≡ (if str_eq k j then some v else get j m)
  get-put j k v [] = refl
  get-put j k v ((i, w) ∷ m) = ground (arith, eq_iff k j, eq_iff i k, eq_iff i j, get-put j k v m)

-- A map with keys of any type, as an association list by a test of equal keys.
module _ {ℓ κ} {K : Type ℓ} {V : Type κ} (same : K → K → Bool) where
  unfoldable pub lookup : K → List (K × V) → Option V
  lookup key [] = none
  lookup key ((k, v) ∷ entries) = if same k key then some v else lookup key entries

  unfoldable pub has_key : K → List (K × V) → Bool
  has_key key [] = false
  has_key key ((k, v) ∷ entries) = same k key || has_key key entries

  -- `*entry(key).or_insert(new) = f(*entry)`; a new entry stands behind the others.
  unfoldable pub alter : K → V → (V → V) → List (K × V) → List (K × V)
  alter key new f [] = (key, f new) ∷ []
  alter key new f ((k, v) ∷ entries) =
      let rest = alter key new f entries in if same k key then (k, f v) ∷ entries else (k, v) ∷ rest

  -- The value of a key, or the one of a missing key.
  unfoldable pub lookup_or : V → K → List (K × V) → V
  lookup_or new key [] = new
  lookup_or new key ((k, v) ∷ entries) = if same k key then v else lookup_or new key entries

  module _ (test : (a b : K) → (same a b ≡ true) ↔ (a ≡ b)) where
    pub lookup_or-alter :
        (new : V) (f : V → V) (j k : K) (m : List (K × V))
        → lookup_or new j (alter k new f m)
          ≡ (if same k j then f (lookup_or new j m) else lookup_or new j m)
    unfolding lookup_or alter
    lookup_or-alter new f j k [] = ground (arith)
    lookup_or-alter new f j k ((i, w) ∷ m) =
        ground (arith, test k j, test i k, test i j, lookup_or-alter new f j k m)

module _ {ℓ κ} {K : Type ℓ} {V : Type κ} (same : K → K → Bool) where
  -- No two entries have one key.
  abbrev pub DistinctKeys : List (K × V) → Type 0
  DistinctKeys m = Apart (λ (a : K × V) (b : K × V). same a.0 b.0 ≡ false) m

  alter-All {ι} :
      (P : K → Type ι) (key : K) (new : V) (f : V → V) (m : List (K × V))
      → P key
      → All (λ (e : K × V). P e.0) m
      → All (λ (e : K × V). P e.0) (alter same key new f m)
  unfolding alter
  alter-All P key new f [] h k = (h, tt)
  alter-All P key new f ((j, v) ∷ m) h k =
      if-keeps (All (λ (e : K × V). P e.0)) (same j key) (λ _. (k.0, k.1))
        (λ _. (k.0, alter-All P key new f m h k.1))

  pub alter-DistinctKeys :
      (key : K) (new : V) (f : V → V) (m : List (K × V))
      → DistinctKeys m
      → DistinctKeys (alter same key new f m)
  unfolding alter
  alter-DistinctKeys key new f [] h = (tt, tt)
  alter-DistinctKeys key new f ((j, v) ∷ m) h =
      if-keeps DistinctKeys (same j key) (λ _. h)
        (λ q.
          (alter-All (λ i. same j i ≡ false) key new f m q h.0, alter-DistinctKeys key new f m h.1))

module _ {K V : Type 0} (same : K → K → Bool) where
  -- Where the keys are distinct, an entry is what its key is looked up as.
  pub lookup_or-In :
      ((a b : K) → (same a b ≡ true) ↔ (a ≡ b))
      → (new : V) (m : List (K × V)) (k : K) (v : V) → DistinctKeys same m
      → In (k, v) m
      → lookup_or same new k m ≡ v
  unfolding lookup_or
  lookup_or-In test new [] k v d i = absurd i
  lookup_or-In test new ((j, w) ∷ m) k v d (inl e) =
      ap (λ b. if b then w else lookup_or same new k m)
        ((test j k).1 (sym (ap (λ (e : K × V). e.0) e)))
      ∙ sym (ap (λ (e : K × V). e.1) e)
  lookup_or-In test new ((j, w) ∷ m) k v d (inr i) =
      ap (λ b. if b then w else lookup_or same new k m)
        (All-in (λ (e : K × V). same j e.0 ≡ false) m i d.0)
      ∙ lookup_or-In test new m k v d.1 i
