-- ===== src/Canonical/Bounds.antt =====
-- What the walk over a value yields: it ends, and the clone is canonical, nests at most sixteen
-- containers deep and shares none of them.
use metaframer_kernel.Base.{
  ℕ, suc, ◌+◌, ◌≤◌, ◌≡◌, refl, true, false, List, [], ◌∷◌, arith, any, ◌==◌, all, length, All, Ends,
  >>=-Ends,
}
use metaframer_kernel.Text.{Text}
use metaframer_kernel.Js.{Num, neg_zero, not_finite, Value, Key, name, sym, Property, read}
use metaframer_kernel.Canonical.{
  Json, null, bool, num, str, arr, obj, Items, nil, cons, Members, end, member, Walk, walk_items,
  walk_members, is_refused_key, key_names, admits_member,
}
use metaframer_kernel.Canonical.Sorting.{Ascending}

abbrev pub member_keys : Members → List Text
member_keys end = []
member_keys (member k j ms) = k ∷ member_keys ms

abbrev pub IsPlainKey : Text → Type 0
IsPlainKey k = is_refused_key k ≡ false

-- A number with a JSON form, and no negative zero.
abbrev pub IsPlainNumber : Num → Type 0
IsPlainNumber neg_zero = ⊥
IsPlainNumber not_finite = ⊥
IsPlainNumber _ = Unit

-- Canonical data whose root stands at level `depth`.
unfoldable mutual
  pub IsCanonical : ℕ → Json → Type 0
  IsCanonical depth null = Unit
  IsCanonical depth (bool b) = Unit
  IsCanonical depth (num n) = IsPlainNumber n
  IsCanonical depth (str s) = Unit
  IsCanonical depth (arr xs) = (depth ≤ 16) × ItemsCanonical (suc depth) xs
  IsCanonical depth (obj ms) =
      (depth ≤ 16)
      × Ascending (member_keys ms)
      × All IsPlainKey (member_keys ms)
      × MembersCanonical (suc depth) ms

  pub ItemsCanonical : ℕ → Items → Type 0
  ItemsCanonical depth nil = Unit
  ItemsCanonical depth (cons x xs) = IsCanonical depth x × ItemsCanonical depth xs

  pub MembersCanonical : ℕ → Members → Type 0
  MembersCanonical depth end = Unit
  MembersCanonical depth (member k j ms) = IsCanonical depth j × MembersCanonical depth ms

-- The number of arrays and objects in a clone.
unfoldable mutual
  pub containers : Json → ℕ
  containers null = 0
  containers (bool b) = 0
  containers (num n) = 0
  containers (str s) = 0
  containers (arr xs) = suc (item_containers xs)
  containers (obj ms) = suc (member_containers ms)

  pub item_containers : Items → ℕ
  item_containers nil = 0
  item_containers (cons x xs) = containers x + item_containers xs

  pub member_containers : Members → ℕ
  member_containers end = 0
  member_containers (member k j ms) = containers j + member_containers ms

abbrev pub Distinct : List ℕ → Type 0
Distinct [] = Unit
Distinct (r ∷ rs) = (any (λ s. s == r) rs ≡ false) × Distinct rs

-- A walk that made `n` containers has put `n` addresses into `seen`, and none twice.
pub record Visits (n : ℕ) (seen later : List ℕ) : Type 0 where
  pub counted : length later ≡ n + length seen
  pub distinct : Distinct seen → Distinct later

pub Visits-zero : (seen : List ℕ) → Visits 0 seen seen
Visits-zero seen = record { counted = omega arith; distinct = λ d. d }

Visits-add : {n m : ℕ} {s t u : List ℕ} → Visits n s t → Visits m t u → Visits (n + m) s u
Visits-add v w = record {
  counted = omega (arith, v.counted, w.counted);
  distinct = λ d. w.distinct (v.distinct d);
}

abbrev pub Good : ℕ → List ℕ → Json × List ℕ → Type 0
Good depth seen r = IsCanonical depth r.0 × Visits (containers r.0) seen r.1

abbrev pub GoodItems : ℕ → List ℕ → Items × List ℕ → Type 0
GoodItems depth seen r = ItemsCanonical depth r.0 × Visits (item_containers r.0) seen r.1

abbrev pub GoodMembers : ℕ → List ℕ → List Text → Members × List ℕ → Type 0
GoodMembers depth seen ks r =
    MembersCanonical depth r.0 × (member_keys r.0 ≡ ks) × Visits (member_containers r.0) seen r.1

module _ (depth : ℕ) (visit : List ℕ → Value → Walk Json)
    (good : (seen : List ℕ) (v : Value) → Ends (Good depth seen) (visit seen v)) where
  pub walk_items-Good :
      (seen : List ℕ) (vs : List Value) → Ends (GoodItems depth seen) (walk_items visit seen vs)
  unfolding walk_items IsCanonical containers
  walk_items-Good seen [] = (tt, Visits-zero seen)
  walk_items-Good seen (v ∷ vs) =
      >>=-Ends (Good depth seen) (GoodItems depth seen) (visit seen v) _ (good seen v) λ head g.
        >>=-Ends (GoodItems depth head.1) (GoodItems depth seen) (walk_items visit head.1 vs) _
          (walk_items-Good head.1 vs) λ rest k. ((g.0, k.0), Visits-add g.1 k.1)

  pub walk_members-Good :
      (ps : List (Key × Property)) (seen : List ℕ) (ks : List Text)
      → Ends (GoodMembers depth seen ks) (walk_members visit ps seen ks)
  unfolding walk_members IsCanonical containers
  walk_members-Good ps seen [] = (tt, refl, Visits-zero seen)
  walk_members-Good ps seen (k ∷ ks) =
      >>=-Ends (Good depth seen) (GoodMembers depth seen (k ∷ ks)) (visit seen (read k ps)) _
        (good seen (read k ps))
        λ head g.
          >>=-Ends (GoodMembers depth head.1 ks) (GoodMembers depth seen (k ∷ ks))
            (walk_members visit ps head.1 ks) _ (walk_members-Good ps head.1 ks)
            λ rest w. ((g.0, w.0), cc (w.1), Visits-add g.1 w.2)

pub key_names-All :
    (ps : List (Key × Property)) → all admits_member ps ≡ true → All IsPlainKey (key_names ps)
unfolding admits_member
key_names-All [] h = tt
key_names-All ((name k, p) ∷ ps) h = (ground arith, key_names-All ps (ground arith))
key_names-All ((sym n, p) ∷ ps) h = key_names-All ps (ground arith)
