-- ===== src/App/Paths.antt =====
-- `_reachable_paths` of backend/app/main.py, by which `mount` proves that a router's paths are
-- served.
use table_queue.Common.{
  ℕ, zero, suc, ◌+◌, ◌≤◌, ◌≡◌, refl, ap, ◌∙◌, Bool, false, ◌||◌, Option, none, some, List, [], ◌∷◌,
  Text, text_eq, any_of, arith,
}
use table_queue.App.Routing.{Route, Routes, node, nil, cons}

-- `stack.extend(routes)`; the top of the stack comes first.
unfoldable pub push_all : Routes → List Route → List Route
push_all nil stack = stack
push_all (cons route routes) stack = push_all routes (route ∷ stack)

-- `found.add(path)`; a set is the list of its members, where a repeat says nothing.
abbrev pub add_path : Option Text → List Text → List Text
add_path none found = found
add_path (some path) found = path ∷ found

-- The loop tries the attribute `routes` twice, so mounted routes are pushed twice.
abbrev pub pushed : Route → List Route → List Route
pushed (node pattern endpoint path mounted included) stack =
    push_all included (push_all mounted (push_all mounted stack))

abbrev pub path_of : Route → Option Text
path_of (node pattern endpoint path mounted included) = path

-- The `while` loop; `none` means that the fuel ran out.
unfoldable pub visit : ℕ → List Route → List Text → Option (List Text)
visit fuel [] found = some found
visit zero (route ∷ stack) found = none
visit (suc fuel) (route ∷ stack) found =
    visit fuel (pushed route stack) (add_path (path_of route) found)

-- How often the loop runs for the routes.
unfoldable pub rounds : Routes → ℕ
rounds nil = 0
rounds (cons (node pattern endpoint path mounted included) rest) =
    suc (rounds mounted + rounds mounted + rounds included + rounds rest)

unfoldable pub reachable_paths : Routes → Option (List Text)
unfolding visit rounds push_all
reachable_paths routes = visit (rounds routes) (push_all routes []) []

turned :
    (x m i r s : Bool) → (r || ((x || (m || (i || false))) || s)) ≡ ((x || (m || (i || r))) || s)
turned x m i r s = ground arith

doubled : (x m i s : Bool) → (x || (i || (m || (m || s)))) ≡ ((x || (m || (i || false))) || s)
doubled x m i s = ground arith

exchanged : (x f o s : Bool) → (x || o) ≡ s → ((x || f) || o) ≡ (f || s)
exchanged x f o s h = ground arith

no_more : (b : Bool) → (b || false) ≡ b
no_more b = ground arith

module _ (p : Text) where
  abbrev pub is_path : Option Text → Bool
  is_path none = false
  is_path (some path) = text_eq p path

  -- Some route of the tree has the path.
  unfoldable pub is_served : Routes → Bool
  is_served nil = false
  is_served (cons (node pattern endpoint path mounted included) rest) =
      is_path path || (is_served mounted || (is_served included || is_served rest))

  abbrev on_stack : List Route → Bool
  on_stack [] = false
  on_stack (route ∷ stack) = is_served (cons route nil) || on_stack stack

  on_stack-push_all :
      (routes : Routes) (stack : List Route)
      → on_stack (push_all routes stack) ≡ (is_served routes || on_stack stack)
  unfolding push_all is_served
  on_stack-push_all nil stack = refl
  on_stack-push_all (cons (node pattern endpoint path mounted included) rest) stack =
      on_stack-push_all rest (node pattern endpoint path mounted included ∷ stack)
      ∙ turned (is_path path) (is_served mounted) (is_served included) (is_served rest)
          (on_stack stack)

  on_stack-pushed :
      (route : Route) (stack : List Route)
      → (is_path (path_of route) || on_stack (pushed route stack)) ≡ on_stack (route ∷ stack)
  unfolding is_served
  on_stack-pushed (node pattern endpoint path mounted included) stack =
      ap (λ b. is_path path || b)
        (on_stack-push_all included (push_all mounted (push_all mounted stack))
          ∙ ap (λ b. is_served included || b)
              (on_stack-push_all mounted (push_all mounted stack)
                ∙ ap (λ b. is_served mounted || b) (on_stack-push_all mounted stack)))
      ∙ doubled (is_path path) (is_served mounted) (is_served included) (on_stack stack)

abbrev stack_rounds : List Route → ℕ
stack_rounds [] = 0
stack_rounds (route ∷ stack) = rounds (cons route nil) + stack_rounds stack

stack_rounds-push_all :
    (routes : Routes) (stack : List Route)
    → stack_rounds (push_all routes stack) ≡ rounds routes + stack_rounds stack
unfolding push_all rounds
stack_rounds-push_all nil stack = omega arith
stack_rounds-push_all (cons (node pattern endpoint path mounted included) rest) stack =
    omega (arith, stack_rounds-push_all rest (node pattern endpoint path mounted included ∷ stack))

stack_rounds-pushed :
    (route : Route) (stack : List Route)
    → stack_rounds (route ∷ stack) ≡ suc (stack_rounds (pushed route stack))
unfolding rounds
stack_rounds-pushed (node pattern endpoint path mounted included) stack = omega (
  arith,
  stack_rounds-push_all included (push_all mounted (push_all mounted stack)),
  stack_rounds-push_all mounted (push_all mounted stack),
  stack_rounds-push_all mounted stack,
)

any_of-add_path :
    (p : Text) (path : Option Text) (found : List Text)
    → any_of (text_eq p) (add_path path found) ≡ (is_path p path || any_of (text_eq p) found)
any_of-add_path p none found = refl
any_of-add_path p (some path) found = refl

-- With enough rounds the loop ends, and it finds what it had and what the stack serves.
visit-exact :
    (fuel : ℕ) (stack : List Route) (found : List Text)
    → stack_rounds stack ≤ fuel
    → (paths : List Text) × (visit fuel stack found ≡ some paths)
      × ((p : Text) → any_of (text_eq p) paths ≡ (any_of (text_eq p) found || on_stack p stack))
unfolding visit
visit-exact zero [] found enough = (found, refl, λ p. ground arith)
visit-exact (suc fuel) [] found enough = (found, refl, λ p. ground arith)
visit-exact zero (route ∷ stack) found enough =
    absurd (omega (arith, stack_rounds-pushed route stack))
visit-exact (suc fuel) (route ∷ stack) found enough =
    let ih =
      visit-exact fuel (pushed route stack) (add_path (path_of route) found)
        (omega (arith, stack_rounds-pushed route stack)) in
    (
      ih.0,
      ih.1,
      λ p.
          ih.2 p
          ∙ ap (λ b. b || on_stack p (pushed route stack)) (any_of-add_path p (path_of route) found)
          ∙ exchanged (is_path p (path_of route)) (any_of (text_eq p) found)
              (on_stack p (pushed route stack)) (on_stack p (route ∷ stack))
              (on_stack-pushed p route stack),
    )

-- The loop over the routes ends within the counted rounds, and the paths that it finds are exactly
-- those of some route of the tree.
pub reachable_paths-exact :
    (routes : Routes)
    → (paths : List Text) × (reachable_paths routes ≡ some paths)
      × ((p : Text) → any_of (text_eq p) paths ≡ is_served p routes)
unfolding reachable_paths
reachable_paths-exact routes =
    let (paths, ends, exact) =
      visit-exact (rounds routes) (push_all routes []) []
        (omega (arith, stack_rounds-push_all routes [])) in
    (paths, ends, λ p. exact p ∙ on_stack-push_all p routes [] ∙ no_more (is_served p routes))
