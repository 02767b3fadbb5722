-- ===== src/Router.antt =====
-- src/delivery/standard-router.mjs: a table of routes by method and path.
pub mod Dispatch
use metaframer_kernel.Base.{
  ℕ, Bool, true, false, ◌&&◌, ◌||◌, not, Option, none, some, List, [], ◌∷◌, ◌++◌, any, filter, find,
  Outcome, ok, err, type_error, ◌>>=◌, ◌>>◌, require, if◌then◌else◌,
}
use metaframer_kernel.Base.Effects.{Eff, pure, throw, ◌>>=◌ as ◌then◌}
use metaframer_kernel.Text.{Text, text_eq}

-- A request message; what else it carries is the handler's.
pub record Message (B : Type 0) : Type 0 where
  pub method : Text
  pub path : Text
  pub rest : B

-- A route with its handler, whose answer is `none` where it is no ordinary object.
pub record Route (W B R : Type 0) : Type 0 where
  pub method : Text
  pub path : Text
  pub handler : Message B → Eff W (Option R)

-- A response of the router itself by its status, or that of a handler.
pub data Response (R : Type 0) : Type 0 where
  error_response : ℕ → Response R
  handled : R → Response R

abbrev pub is_empty : Text → Bool
is_empty [] = true
is_empty (_ ∷ _) = false

-- `if (!isOrdinaryObject(response)) throw …`
unfoldable pub respond : {W R : Type 0} → Option R → Eff W (Response R)
respond none = throw type_error
respond (some response) = pure (handled response)

module _ {W B R : Type 0} where
  -- `${method} ${path}`
  abbrev pub route_key : Route W B R → Text
  route_key r = r.method ++ (b' ' ∷ r.path)

  -- `checkRouteRecord`, of a record with its three keys and a handler.
  unfoldable pub check_route_record : Route W B R → Bool
  check_route_record r = not (is_empty r.method) && not (is_empty r.path)

  unfoldable pub check_records : List (Route W B R) → Bool
  unfolding check_route_record
  check_records [] = true
  check_records (r ∷ rs) = check_route_record r && check_records rs

  -- The loop over `seen`.
  unfoldable pub unseen : List Text → List (Route W B R) → Bool
  unseen seen [] = true
  unseen seen (r ∷ rs) =
      not (any (λ k. text_eq k (route_key r)) seen) && unseen (route_key r ∷ seen) rs

  -- The constructor, over the array of its routes.
  unfoldable pub check_routes : List (Route W B R) → Outcome (List (Route W B R))
  unfolding check_records unseen
  check_routes [] = err type_error
  check_routes (r ∷ rs) = do
    require (check_records (r ∷ rs)) type_error
    require (unseen [] (r ∷ rs)) type_error
    ok (r ∷ rs)

  unfoldable pub route_with : Message B → List (Route W B R) → Eff W (Response R)
  unfolding respond
  route_with m [] = pure (error_response 404)
  route_with m (r ∷ rs) =
      elim (find (λ c. text_eq c.method m.method) (r ∷ rs)) as (λ _. Eff W (Response R)) [
        | none ↦ pure (error_response 405)
        | some route ↦ route.handler m then respond
      ]

  -- `StandardRouter.handle`; `none` is no ordinary object with a method and a path.
  unfoldable pub dispatch : List (Route W B R) → Option (Message B) → Eff W (Response R)
  unfolding route_with
  dispatch routes none = pure (error_response 400)
  dispatch routes (some m) = route_with m (filter (λ r. text_eq r.path m.path) routes)
