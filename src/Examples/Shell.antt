-- ===== src/Examples/Shell.antt =====
-- The theorems of the start, the fixture, the routes, the responses and the rate limiter.
use table_queue.Common.{
  ◌≤◌, ◌≡◌, refl, true, false, any_of, text_eq, none, some, List, [], ◌∷◌, Text, codes, strip,
  lstrip, is_space, arith, length, drop, ◌-◌, if◌then◌else◌,
}
use table_queue.Errors.{ok, err}
use table_queue.Store.{Db}
use table_queue.Config.{development}
use table_queue.Schemas.Pin.{is_pin, pin_refused}
use table_queue.Auth.Routes.{StaffLoginResponse, login, get_current_staff, staff_claims}
use table_queue.App.Bootstrap.{
  bootstrap_defaults, bootstrap_staff_pin_hash, default_settings_rows, default_settings,
  default_restaurant, default_branch,
}
use table_queue.App.Start.{bootstrap_defaults-login}
use table_queue.App.Seed.{Draws, no_rows, with_fixture, reset_data, seed_data}
use table_queue.App.Fixture.{reset_data-IsSeated}
use table_queue.App.Routing.{
  Routes, node, nil, cons, resolve_route_handler, endpoints, last_or, resolve_route_handler-last,
}
use table_queue.App.Paths.{reachable_paths, is_served, reachable_paths-exact}
use table_queue.App.Middleware.{Request, Limiter, escapes, error_envelope, limited, serve}
use table_queue.App.Headers.{Carried, serve-Carried}
use table_queue.ErrorHandlers.Render.{FieldError, name, validation_details}
use table_queue.ErrorHandlers.Fields.{
  message_of, first_message, HasUniqueFields, validation_details-first,
}
use table_queue.RateLimit.Storage.{
  Counters, Hit, no_counters, counter_key_cap, enforce_cap, after_hits,
}
use table_queue.RateLimit.Sweep.{live}
use table_queue.RateLimit.Cap.{enforce_cap-keeps_newest, after_hits-within_cap}
use table_queue.Tables.Admin.{labels_clash}
use table_queue.Invariant.Defs.{IsSeated}
use table_queue.Examples.Fixture.{here_env, noon}
use table_queue.Examples.Packages.{dollars, readable, counting}
use table_queue.Examples.Auth.{process, secret, secret-accepted}

abbrev started : Db
started = record no_rows {
  restaurants = default_restaurant ∷ [];
  branches = default_branch ∷ [];
  settings = default_settings (dollars.hashpw (codes "0042") 5) ∷ [];
}

starts : bootstrap_defaults dollars process 5 no_rows ≡ some started
unfolding bootstrap_defaults default_settings_rows bootstrap_staff_pin_hash strip lstrip is_space
starts = refl

bootstrap_defaults-login_example :
    (r : StaffLoginResponse) × (login dollars readable process started
        (strip process.staff_pin)
        1000
      ≡ (if is_pin (codes "0042") then ok r else err pin_refused))
    × (get_current_staff readable (some r.access_token) process started 2000
        ≡ ok (staff_claims 1000 r.expires_in))
unfolding strip lstrip is_space
bootstrap_defaults-login_example =
    bootstrap_defaults-login dollars readable process secret 5 1000 2000 no_rows started
      secret-accepted refl starts (omega arith)

routes : Routes
routes =
    cons (node 1 none none nil (cons (node 2 (some 20) (some (codes "/tables")) nil nil) nil))
      (cons (node 3 (some 30) (some (codes "/tables")) nil nil) nil)

resolve_route_handler-last_example :
    resolve_route_handler (λ pattern. true) routes
    ≡ last_or none (endpoints (λ pattern. true) routes)
resolve_route_handler-last_example = resolve_route_handler-last (λ pattern. true) routes

reachable_paths-exact_example :
    (paths : List Text) × (reachable_paths routes ≡ some paths)
    × ((p : Text) → any_of (text_eq p) paths ≡ is_served p routes)
reachable_paths-exact_example = reachable_paths-exact routes

abbrev phone_error : FieldError
phone_error = record {
  loc = name (codes "body") ∷ name (codes "phone") ∷ [];
  msg = codes "Invalid phone";
  ctx = [];
}

validation_details-first_example :
    (message_of (codes "phone") (validation_details (phone_error ∷ phone_error ∷ []))
      ≡ first_message (codes "phone") (phone_error ∷ phone_error ∷ []))
    × HasUniqueFields (validation_details (phone_error ∷ phone_error ∷ []))
validation_details-first_example =
    validation_details-first (phone_error ∷ phone_error ∷ []) (codes "phone")

abbrev get_tables : Request
get_tables = record {
  method = codes "GET";
  path = codes "/api/v1/tables";
  query = codes "phone=0912";
  client = some (codes "10.0.0.1");
  request_id = some (codes "abc");
}

abbrev no_limits : Limiter
no_limits = record {
  enabled = true;
  should_exempt = λ handler. false;
  check_limits = λ handler. none;
}

serve-Carried_example :
    Carried get_tables
      (codes "minted")
      (error_envelope (limited no_limits (λ pattern. true) routes escapes))
      (serve process no_limits (λ pattern. true) routes get_tables (codes "minted") escapes).0
      (serve process no_limits (λ pattern. true) routes get_tables (codes "minted") escapes).1
serve-Carried_example =
    serve-Carried process no_limits (λ pattern. true) routes get_tables (codes "minted") escapes

abbrev one_hit : List Hit
one_hit = record { now = 5; key = codes "10.0.0.1"; expiry = 60; amount = 1 } ∷ []

after_hits-within_cap_example :
    length (after_hits counting one_hit no_counters).storage ≤ counter_key_cap
after_hits-within_cap_example =
    after_hits-within_cap counting one_hit no_counters (record { same_keys = refl; unique = tt })
      (omega arith)

abbrev two_keys : Counters
two_keys = record {
  storage = (codes "a", 1) ∷ (codes "b", 2) ∷ [];
  expirations = (codes "a", 10) ∷ (codes "b", 99) ∷ [];
  events = [];
}

enforce_cap-keeps_newest_example :
    (enforce_cap counting 50 two_keys).storage
    ≡ drop
        (length (live 50 two_keys.expirations two_keys.storage) - counter_key_cap)
        (live 50 two_keys.expirations two_keys.storage)
enforce_cap-keeps_newest_example =
    enforce_cap-keeps_newest counting 50 two_keys
      (record { same_keys = refl; unique = (refl, (refl, tt)) })

abbrev draws : Draws
draws = record { salt = 5; table_id = λ i. i; entry_id = λ i. i; now = noon }

abbrev demonstration : Db
demonstration = with_fixture here_env dollars process draws no_rows

reset_answers : reset_data here_env dollars process draws started ≡ ok demonstration
unfolding reset_data seed_data
reset_answers = refl

reset_data-IsSeated_example :
    (process.env ≡ development)
    × (demonstration ≡ with_fixture here_env dollars process draws no_rows)
    × IsSeated demonstration
    × (labels_clash demonstration.tables ≡ false)
reset_data-IsSeated_example =
    reset_data-IsSeated here_env draws (λ i j e. e) dollars process started demonstration
      reset_answers
