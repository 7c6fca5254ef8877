-- ===== src/Examples/Surface.antt =====
-- The theorems of the whole surface, along a run of two calls.
use table_queue.Common.{refl, none, some, [], codes}
use table_queue.Store.{Db, get_row}
use table_queue.Config.{AppSettings, production}
use table_queue.Requests.Steps.{join, release}
use table_queue.Invariant.Defs.{IsSound}
use table_queue.Api.Calls.{Call, queue, serve_call, Serves, served, then_call}
use table_queue.Api.Sound.{Serves-IsSound}
use table_queue.Api.Locked.{IsKept, Serves-IsKept}
use table_queue.Examples.Fixture.{
  store_with, full_table, settings_one, here_env, noon, later, bob, no_entry-IsSound,
}
use table_queue.Examples.Packages.{dollars, readable}
use table_queue.Examples.Auth.{process}
use table_queue.Examples.Service.{loads}

-- A store whose settings row has no hash.
abbrev bare : Db
bare = store_with [] full_table

abbrev live : AppSettings
live = record process { env = production }

abbrev bob_joins : Call
bob_joins = queue (join 1 bob)

-- A table is released on a bearer that nobody signed.
abbrev forged : Call
forged = queue (release (some 100))

abbrev after_join : Db
after_join = serve_call here_env dollars readable live loads bare none bob_joins noon

abbrev after_both : Db
after_both =
    serve_call here_env dollars readable live loads after_join (some (codes "forged")) forged later

two_calls : Serves here_env dollars readable live loads bare after_both
unfolding get_row
two_calls =
    then_call bare after_both none bob_joins noon refl
      (then_call after_join after_both (some (codes "forged")) forged later tt (served after_both))

Serves-IsKept_example : IsKept bare after_both
Serves-IsKept_example =
    Serves-IsKept here_env dollars readable live loads bare settings_one refl refl after_both
      two_calls

Serves-IsSound_example : IsSound after_both
Serves-IsSound_example =
    Serves-IsSound here_env dollars readable live loads bare after_both refl two_calls
      (no_entry-IsSound full_table)
