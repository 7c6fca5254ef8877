-- ===== src/App/Routing.antt =====
-- `_resolve_route_handler` of backend/app/main.py: which handler the rate limiter prices. Whether a
-- route's pattern fully matches the request is starlette's answer, `full_match`.
use table_queue.Common.{
  ℕ, ◌≡◌, refl, sym, ap, ◌∙◌, Bool, Option, none, some, List, [], ◌∷◌, ◌++◌, Text, inl, inr,
  if◌then◌else◌, Bool-cases,
}

-- A route has a pattern, and, where it is a leaf, a path and an endpoint; `mounted` are the routes
-- of a mounted application, `included` those of the router that an `include_router` container
-- holds.
mutual
  pub data Route : Type 0 where
    node : ℕ → Option ℕ → Option Text → Routes → Routes → Route

  pub data Routes : Type 0 where
    nil : Routes
    cons : Route → Routes → Routes

-- `if inner is not None: handler = inner`
abbrev pub or_before : Option ℕ → Option ℕ → Option ℕ
or_before handler none = handler
or_before handler (some found) = some found

module _ (full_match : ℕ → Bool) where
  -- The loop, with the handler found so far.
  unfoldable pub resolve_from : Option ℕ → Routes → Option ℕ
  resolve_from handler nil = handler
  resolve_from handler (cons (node pattern endpoint path mounted included) rest) =
      let inner = resolve_from none included in
      resolve_from
        (if full_match pattern
          then (elim endpoint [ some found ↦ some found | none ↦ or_before handler inner ])
          else handler)
        rest

  unfoldable pub resolve_route_handler : Routes → Option ℕ
  unfolding resolve_from
  resolve_route_handler routes = resolve_from none routes

-- The last of a list, or what came before it.
abbrev pub last_or : Option ℕ → List ℕ → Option ℕ
last_or handler [] = handler
last_or handler (x ∷ xs) = last_or (some x) xs

last_or-append :
    (handler : Option ℕ) (xs ys : List ℕ)
    → last_or handler (xs ++ ys) ≡ last_or (last_or handler xs) ys
last_or-append handler [] ys = refl
last_or-append handler (x ∷ xs) ys = last_or-append (some x) xs ys

last_or-some : (x : ℕ) (xs : List ℕ) → (y : ℕ) × ((h : Option ℕ) → last_or h (x ∷ xs) ≡ some y)
last_or-some x [] = (x, λ h. refl)
last_or-some x (z ∷ xs) = let r = last_or-some z xs in (r.0, λ h. r.1 (some x))

last_or-none :
    (handler : Option ℕ) (xs : List ℕ) → or_before handler (last_or none xs) ≡ last_or handler xs
last_or-none handler [] = refl
last_or-none handler (x ∷ xs) = let r = last_or-some x xs in rw (r.1 none) refl

module _ (full_match : ℕ → Bool) where
  -- The endpoints that a request can land on, in order, containers opened in place.
  unfoldable pub endpoints : Routes → List ℕ
  endpoints nil = []
  endpoints (cons (node pattern endpoint path mounted included) rest) =
      let inner = endpoints included in
      (if full_match pattern
        then (elim endpoint [ some found ↦ found ∷ [] | none ↦ inner ])
        else [])
      ++ endpoints rest

  resolve_from-last_or :
      (handler : Option ℕ) (routes : Routes)
      → resolve_from full_match handler routes ≡ last_or handler (endpoints routes)
  unfolding resolve_from endpoints
  resolve_from-last_or handler nil = refl
  resolve_from-last_or handler (cons (node pattern (some e) path mounted included) rest) =
      elim (Bool-cases (full_match pattern)) [
        | inl matches ↦ rw matches (resolve_from-last_or (some e) rest)
        | inr other ↦ rw other (resolve_from-last_or handler rest)
      ]
  resolve_from-last_or handler (cons (node pattern none path mounted included) rest) =
      elim (Bool-cases (full_match pattern)) [
        | inr other ↦ rw other (resolve_from-last_or handler rest)
        | inl matches ↦ rw matches (
            resolve_from-last_or (or_before handler (resolve_from full_match none included)) rest
            ∙ ap (λ o. last_or (or_before handler o) (endpoints rest))
                (resolve_from-last_or none included)
            ∙ ap (λ h. last_or h (endpoints rest)) (last_or-none handler (endpoints included))
            ∙ sym (last_or-append handler (endpoints included) (endpoints rest)))
      ]

  -- The handler that the limiter prices is the last of the endpoints that fully match the request,
  -- with containers opened in place.
  pub resolve_route_handler-last :
      (routes : Routes) → resolve_route_handler full_match routes ≡ last_or none (endpoints routes)
  unfolding resolve_route_handler
  resolve_route_handler-last routes = resolve_from-last_or none routes
