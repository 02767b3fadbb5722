-- ===== src/Delivery/Receive.antt =====
-- src/delivery/asgi-core-profile.mjs: which bodies the loop of `callFromReceive` takes.
use metaframer_kernel.Base.{
  append_assoc, ◌≡◌, refl, ap, ◌∙◌, ◌↔◌, ℕ, ◌+◌, ◌≤◌, Bool, true, false, Option, none, some, List,
  [], ◌∷◌, ◌++◌, length, arith, if◌then◌else◌,
}
use metaframer_kernel.Delivery.{
  Part, absent, bytes, other_part, More, unsaid, more, no_more, other_more, Event, other_event,
  request, complete, refused, exceeds, chunk_of, is_other, goes_on, merge, collect,
}
use metaframer_kernel.Delivery.Merge.{concat, length-append, merge-concat, concat-append}

-- The body that the events spell: the chunks up to the first that says there is no more.
pub data Delivered : List Event → List ℕ → Type 0 where
  last :
      (part : Part) (m : More) (es : List Event) (c : List ℕ)
      → chunk_of part ≡ some c
      → is_other m ≡ false
      → goes_on m ≡ false
      → Delivered (request part m ∷ es) c
  then_more :
      (part : Part) (es : List Event) (c b : List ℕ)
      → chunk_of part ≡ some c
      → Delivered es b
      → Delivered (request part more ∷ es) (c ++ b)

abbrev pub Within : Option ℕ → ℕ → Type 0
Within none n = Unit
Within (some bound) n = n ≤ bound

exceeds-Within : (bound : Option ℕ) (n : ℕ) → exceeds bound n ≡ false → Within bound n
unfolding exceeds
exceeds-Within none n h = tt
exceeds-Within (some b) n h = ground arith

Within-exceeds : (bound : Option ℕ) (n : ℕ) → Within bound n → exceeds bound n ≡ false
unfolding exceeds
Within-exceeds none n h = refl
Within-exceeds (some b) n h = ground arith

Within-mono : (bound : Option ℕ) (n m : ℕ) → m ≤ n → Within bound n → Within bound m
Within-mono none n m l h = tt
Within-mono (some b) n m l h = omega (arith, l, h)

-- What is left to show of a run that has the chunks already.
abbrev Remainder : Option ℕ → ℕ → List (List ℕ) → List Event → List ℕ → Type 0
Remainder bound n chunks es b =
    (t : List ℕ) × (b ≡ concat chunks ++ t) × Delivered es t × Within bound (n + length t)

merged : (chunks : List (List ℕ)) (c : List ℕ) → merge (chunks ++ (c ∷ [])) ≡ concat chunks ++ c
merged chunks c = merge-concat (chunks ++ (c ∷ [])) ∙ concat-append chunks c

regrouped :
    (chunks : List (List ℕ)) (c t : List ℕ)
    → concat (chunks ++ (c ∷ [])) ++ t ≡ concat chunks ++ (c ++ t)
regrouped chunks c t = ap (λ s. s ++ t) (concat-append chunks c) ∙ append_assoc (concat chunks) c t

chunk-Remainder :
    (bound : Option ℕ) (n : ℕ) (chunks : List (List ℕ)) (es : List Event) (b : List ℕ) (part : Part)
    (c : List ℕ) (m : More) (x : Bool)
    → chunk_of part ≡ some c
    → exceeds bound (n + length c) ≡ x
    → (collect bound (n + length c) (chunks ++ (c ∷ [])) es ≡ complete b
        → Remainder bound (n + length c) (chunks ++ (c ∷ [])) es b)
    → (if x
        then refused
        else if is_other m
        then refused
        else if goes_on m
        then collect bound (n + length c) (chunks ++ (c ∷ [])) es
        else complete (merge (chunks ++ (c ∷ []))))
      ≡ complete b
    → Remainder bound n chunks (request part m ∷ es) b
chunk-Remainder bound n chunks es b part c m true h x ih e = cc
chunk-Remainder bound n chunks es b part c other_more false h x ih e = cc
chunk-Remainder bound n chunks es b part c more false h x ih e =
    let (t, same, d, w) = ih e in
    let longer : (n + length c) + length t ≡ n + length (c ++ t) =
      omega (arith, length-append c t) in
    (c ++ t, same ∙ regrouped chunks c t, then_more part es c t h d, rw (longer) at w)
chunk-Remainder bound n chunks es b part c unsaid false h x ih e =
    let same : b ≡ merge (chunks ++ (c ∷ [])) = cc in
    (c, same ∙ merged chunks c, last part unsaid es c h refl refl, exceeds-Within bound _ x)
chunk-Remainder bound n chunks es b part c no_more false h x ih e =
    let same : b ≡ merge (chunks ++ (c ∷ [])) = cc in
    (c, same ∙ merged chunks c, last part no_more es c h refl refl, exceeds-Within bound _ x)

collect-Remainder :
    (bound : Option ℕ) (n : ℕ) (chunks : List (List ℕ)) (es : List Event) (b : List ℕ)
    → collect bound n chunks es ≡ complete b
    → Remainder bound n chunks es b
unfolding collect
collect-Remainder bound n chunks [] b e = cc
collect-Remainder bound n chunks (other_event ∷ es) b e = cc
collect-Remainder bound n chunks (request other_part m ∷ es) b e = cc
collect-Remainder bound n chunks (request absent m ∷ es) b e =
    chunk-Remainder bound n chunks es b absent [] m _ refl refl
      (collect-Remainder bound (n + 0) (chunks ++ ([] ∷ [])) es b) e
collect-Remainder bound n chunks (request (bytes c) m ∷ es) b e =
    chunk-Remainder bound n chunks es b (bytes c) c m _ refl refl
      (collect-Remainder bound (n + length c) (chunks ++ (c ∷ [])) es b) e

Remainder-collect :
    (bound : Option ℕ) (n : ℕ) (chunks : List (List ℕ)) (es : List Event) (t : List ℕ)
    → Delivered es t
    → Within bound (n + length t)
    → collect bound n chunks es ≡ complete (concat chunks ++ t)
unfolding collect
Remainder-collect bound n chunks es t (last part m es' c h i j) w =
    rw (collect, h, Within-exceeds bound (n + length c) w, i, j) (ap complete (merged chunks c))
Remainder-collect bound n chunks es t (then_more part es' c b h d) w =
    let longer : n + length (c ++ b) ≡ (n + length c) + length b =
      omega (arith, length-append c b) in
    let room : Within bound ((n + length c) + length b) = rw (longer) at w in
    let here : Within bound (n + length c) = Within-mono bound _ _ (omega arith) room in
    rw (collect, h, Within-exceeds bound (n + length c) here)
      (Remainder-collect bound (n + length c) (chunks ++ (c ∷ [])) es' b d room
        ∙ ap complete (regrouped chunks c b))

-- A body is taken exactly if the events deliver it, each of them a request event with bytes or
-- none, and it is no longer than the bound, if there is one; the body is then the chunks one after
-- the other, and what comes after the last of them is not read.
pub collect-complete_iff :
    (bound : Option ℕ) (es : List Event) (b : List ℕ)
    → (collect bound 0 [] es ≡ complete b) ↔ (Delivered es b × Within bound (length b))
collect-complete_iff bound es b = (
  (λ e.
      let (t, same, d, w) = collect-Remainder bound 0 [] es b e in
      (rw (← same) at d, Within-mono bound _ _ (omega (arith, ap (λ x. length x) same)) w)),
  (λ (d, w). Remainder-collect bound 0 [] es b d (Within-mono bound _ _ (omega arith) w)),
)
