-- ===== src/Router/Dispatch.antt =====
-- src/delivery/standard-router.mjs: which handler a message reaches.
use metaframer_kernel.Base.{
  ◌≡◌, refl, sym, ap, ◌∙◌, inl, inr, Bool, true, false, Option, none, some, List, [], ◌∷◌, any,
  filter, find, In, In-filter, In-of_filter, ok, OnOk_elim, require-OnOk, type_error, arith,
  if◌then◌else◌,
}
use metaframer_kernel.Base.Effects.{Eff, pure, ◌>>=◌ as ◌then◌}
use metaframer_kernel.Text.{Text, text_eq, text_eq_iff}
use metaframer_kernel.Router.{
  Message, Route, Response, error_response, route_key, check_records, unseen, check_routes, respond,
  route_with, dispatch,
}

module _ {W B R : Type 0} where
  -- Two routes of the table with one method and one path are the same route.
  abbrev pub Unambiguous : List (Route W B R) → Type 0
  Unambiguous rs =
      (r q : Route W B R) → In r rs → In q rs → r.method ≡ q.method → r.path ≡ q.path → r ≡ q

  unseen-fresh :
      (seen : List Text) (rs : List (Route W B R)) (r : Route W B R)
      → unseen seen rs ≡ true
      → In r rs
      → any (λ k. text_eq k (route_key r)) seen ≡ false
  unfolding unseen
  unseen-fresh seen [] r h m = absurd m
  unseen-fresh seen (x ∷ rs) r h (inl e) = rw (e) (ground arith)
  unseen-fresh seen (x ∷ rs) r h (inr m) =
      let later : any (λ k. text_eq k (route_key r)) (route_key x ∷ seen) ≡ false =
        unseen-fresh (route_key x ∷ seen) rs r (ground arith) m in
      ground arith

  not_first :
      (seen : List Text) (rs : List (Route W B R)) (x r : Route W B R)
      → unseen (route_key x ∷ seen) rs ≡ true
      → In r rs
      → ¬ (route_key x ≡ route_key r)
  not_first seen rs x r h m e =
      let fresh : any (λ k. text_eq k (route_key r)) (route_key x ∷ seen) ≡ false =
        unseen-fresh (route_key x ∷ seen) rs r h m in
      let same : text_eq (route_key x) (route_key r) ≡ true = (text_eq_iff _ _).1 e in ground arith

  unseen-Unambiguous :
      (seen : List Text) (rs : List (Route W B R)) → unseen seen rs ≡ true → Unambiguous rs
  unfolding unseen
  unseen-Unambiguous seen [] h r q m n e f = absurd m
  unseen-Unambiguous seen (x ∷ rs) h r q (inl a) (inl b) e f = a ∙ sym b
  unseen-Unambiguous seen (x ∷ rs) h r q (inl a) (inr n) e f =
      absurd (not_first seen rs x q (ground arith) n (rw (← a, e, f) refl))
  unseen-Unambiguous seen (x ∷ rs) h r q (inr m) (inl b) e f =
      absurd (not_first seen rs x r (ground arith) m (rw (← b, e, f) refl))
  unseen-Unambiguous seen (x ∷ rs) h r q (inr m) (inr n) e f =
      unseen-Unambiguous (route_key x ∷ seen) rs (ground arith) r q m n e f

  -- A router can only be built of a table in which a method and a path name one route.
  check_routes-Unambiguous :
      (given routes : List (Route W B R)) → check_routes given ≡ ok routes → Unambiguous routes
  unfolding check_routes
  check_routes-Unambiguous [] routes e = cc
  check_routes-Unambiguous (r ∷ rs) routes e =
      OnOk_elim Unambiguous _
        (require-OnOk Unambiguous (check_records (r ∷ rs)) type_error _ λ _.
          require-OnOk Unambiguous (unseen [] (r ∷ rs)) type_error _
            λ h. unseen-Unambiguous [] (r ∷ rs) h)
        e

  find-only :
      (p : Route W B R → Bool) (rs : List (Route W B R)) (r : Route W B R)
      → In r rs
      → p r ≡ true
      → ((q : Route W B R) → In q rs → p q ≡ true → q ≡ r)
      → find p rs ≡ some r
  find-only p [] r m h u = absurd m
  find-only p (x ∷ rs) r m h u =
      at_head (p x) refl m (λ k. find-only p rs r k h (λ q n. u q (inr n)))
    where
      at_head :
          (b : Bool)
          → p x ≡ b
          → In r (x ∷ rs)
          → (In r rs → find p rs ≡ some r)
          → (if b then some x else find p rs) ≡ some r
      at_head true e m ih = ap some (u x (inl refl) e)
      at_head false e (inl a) ih = absurd (let yes' : p x ≡ true = rw (← a) h in cc)
      at_head false e (inr k) ih = ih k

  route_with-found :
      (m : Message B) (rs : List (Route W B R)) (r : Route W B R) (w : W)
      → find (λ c. text_eq c.method m.method) rs ≡ some r
      → route_with m rs w ≡ (r.handler m then respond) w
  unfolding route_with
  route_with-found m [] r w h = cc
  route_with-found m (x ∷ rs) r w h = answered (find (λ c. text_eq c.method m.method) (x ∷ rs)) h
    where
      answered :
          (g : Option (Route W B R))
          → g ≡ some r
          → (elim g as (λ _. Eff W (Response R)) [
            | none ↦ pure (error_response 405)
            | some route ↦ route.handler m then respond
          ])
              w
            ≡ (r.handler m then respond) w
      answered none e = cc
      answered (some q) e = let same : q ≡ r = cc in rw (same) refl

  -- In a router that could be built, a message whose method and path are those of a route reaches
  -- the handler of that very route, wherever the table lists it, and no other; the answer is the
  -- handler's.
  pub dispatch-route :
      (given routes : List (Route W B R)) (r : Route W B R) (m : Message B) (w : W)
      → check_routes given ≡ ok routes
      → In r routes
      → r.method ≡ m.method
      → r.path ≡ m.path
      → dispatch routes (some m) w ≡ (r.handler m then respond) w
  unfolding dispatch route_with
  dispatch-route given routes r m w built here e f =
      let at_path : Route W B R → Bool = λ c. text_eq c.path m.path in
      let at_method : Route W B R → Bool = λ c. text_eq c.method m.method in
      route_with-found m (filter at_path routes) r w (
        find-only at_method (filter at_path routes) r
          (In-filter at_path routes r here ((text_eq_iff _ _).1 f)) ((text_eq_iff _ _).1 e)
          λ q listed k.
            let (there, same_path) = In-of_filter at_path routes q listed in
            check_routes-Unambiguous given routes built q r there here
              ((text_eq_iff _ _).0 k ∙ sym e) ((text_eq_iff _ _).0 same_path ∙ sym f))
