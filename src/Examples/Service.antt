-- ===== src/Examples/Service.antt =====
-- The theorems of the settings service and of the join route, at the store of the fixture.
use table_queue.Common.{
  is_decimal, two_digits, digit_value, ◌≤◌, ◌≡◌, refl, false, Option, none, some, [], ◌∷◌, ◌++◌,
  Text, codes, strip, lstrip, is_space, length, keep, map, zero_padded, inl, inr, text_eq,
  if◌then◌else◌,
}
use table_queue.Models.{Settings, WaitlistEntry}
use table_queue.Errors.{ok}
use table_queue.Store.{Db, save_entry, order_by, Every, get_row, put_row}
use table_queue.Schemas.Settings.{
  UpdateSettingsRequest, string, Templates, refused_fields, bound_settings, is_queue_prefix,
  is_clock_time,
}
use table_queue.SettingsService.Templates.{
  Loaded, object, malformed, dumps, parse_templates, templates_are_valid,
}
use table_queue.SettingsService.Update.{
  SettingsResponse, settings_row, response_of, read_settings, check_templates, write_branch,
  write_restaurant, apply_update, update_admin_settings,
}
use table_queue.SettingsService.Answer.{overlaid, apply_update-answers}
use table_queue.SettingsService.Bounds.{
  InBounds, credential, update_admin_settings-InBounds, update_admin_settings-keeps,
}
use table_queue.Waitlist.Join
use table_queue.Waitlist.Join.{joining_entry, active_entry_for_phone}
use table_queue.Waitlist.Dates.{business_date_for, isoformat}
use table_queue.Waitlist.Lookup.{get_branch_or_404, get_settings_or_500}
use table_queue.Public
use table_queue.Public.{GuestPayload, build_entry_response}
use table_queue.Schemas.Guest.{JoinWaitlistRequest, bound_join, is_phone, matches}
use table_queue.Schemas.Join.{post_join, join_request, post_join-stores}
use table_queue.StaffWaitlist.EditBody.{
  EditBody, value, json_body, parse_edit_body, value_of, edit_waitlist,
}
use table_queue.StaffWaitlist.Actions.{edited_entry, edit_entry}
use table_queue.StaffWaitlist.Payload.{answered, get_entry}
use table_queue.Requests.Edit.{Edited, edit_waitlist-Edited}
use table_queue.Examples.Fixture.{
  ann, store_with, table_one, settings_one, branch_one, here_env, noon,
}

abbrev templates : Templates
templates =
    (codes "joined", string (codes "Hi"))
    ∷ (codes "called", string (codes "Come in"))
    ∷ (codes "no_show", string (codes "Bye"))
    ∷ []

-- A parser that knows the text of these templates, and of an object without items.
pub loads : Text → Loaded
unfolding dumps
loads raw =
    if text_eq raw (dumps templates)
    then object templates
    else if text_eq raw (codes "{}")
    then object []
    else malformed

abbrev shop : Db
shop = store_with [] table_one

abbrev body : UpdateSettingsRequest
body = record {
  address = none;
  avg_seat_minutes = none;
  branch_name = some (some (codes "North"));
  close_time = none;
  hold_minutes = some (some 15);
  is_waitlist_open = some (some false);
  notification_templates = some (some templates);
  open_time = some (some (codes "10:30"));
  phone = none;
  queue_prefix = some (some (codes "BC"));
  restaurant_name = some (some (codes "Diner"));
  sound_enabled_default = none;
}

abbrev shown : SettingsResponse
shown =
    response_of settings_one (some branch_one) (some (record { id = 1; name = codes "Bistro" })) []

shop_reads : read_settings here_env loads shop ≡ ok shown
unfolding loads dumps read_settings settings_row parse_templates get_row
shop_reads = refl

apply_update-answers_example :
    (db' : Db) × (apply_update here_env loads shop body ≡ ok (db', overlaid body shown))
    × (read_settings here_env loads db' ≡ ok (overlaid body shown))
unfolding settings_row get_row check_templates loads dumps templates_are_valid
apply_update-answers_example =
    apply_update-answers here_env loads shop settings_one branch_one
      (record { id = 1; name = codes "Bistro" }) body refl refl refl shown shop_reads refl refl

abbrev updated_row : Settings
updated_row = record settings_one {
  hold_minutes = 15;
  is_waitlist_open = false;
  queue_prefix = codes "BC";
  notification_templates = dumps templates;
}

abbrev updated_shop : Db
updated_shop = record shop {
  settings = updated_row ∷ [];
  branches = record branch_one { name = codes "North"; open_time = codes "10:30" } ∷ [];
  restaurants = record { id = 1; name = codes "Diner" } ∷ [];
}

shop_updates :
    update_admin_settings here_env loads shop body ≡ ok (updated_shop, overlaid body shown)
unfolding update_admin_settings bound_settings refused_fields is_queue_prefix is_clock_time
    two_digits digit_value apply_update check_templates templates_are_valid dumps settings_row
    get_row put_row write_branch write_restaurant read_settings parse_templates loads
shop_updates = refl

shop_bounds : Every InBounds shop.settings
unfolding is_queue_prefix
shop_bounds e (inl p) = rw p (refl, refl, refl)
shop_bounds e (inr m) = absurd m

update_admin_settings-InBounds_example : Every InBounds updated_shop.settings
update_admin_settings-InBounds_example =
    update_admin_settings-InBounds here_env loads shop updated_shop body (overlaid body shown)
      shop_bounds shop_updates

update_admin_settings-keeps_example :
    (map credential updated_shop.settings ≡ map credential shop.settings)
    × (updated_shop.entries ≡ shop.entries)
    × (updated_shop.tables ≡ shop.tables)
unfolding get_row
update_admin_settings-keeps_example =
    update_admin_settings-keeps here_env loads shop updated_shop body (overlaid body shown)
      (refl, tt) shop_updates

abbrev guest : JoinWaitlistRequest
guest = record { name = codes " Bob "; phone = codes "0922-000-111"; party_size = 3; note = none }

abbrev joined_entry : WaitlistEntry
joined_entry =
    joining_entry shop 1 (codes "2026-03-01") (codes "A")
      (join_request (record guest { name = codes "Bob" }) 8 (codes "beef")) noon

abbrev joined_shop : Db
joined_shop = record shop { entries = joined_entry ∷ [] }

guest_joins :
    post_join here_env shop 1 guest 8 (codes "beef") noon
    ≡ ok (joined_shop, build_entry_response joined_entry)
unfolding post_join bound_join is_phone matches is_decimal digit_value strip lstrip is_space
    Public.join_waitlist Join.join_waitlist get_branch_or_404 get_settings_or_500 get_row
    business_date_for isoformat active_entry_for_phone order_by zero_padded
guest_joins = refl

post_join-stores_example :
    (entry : WaitlistEntry) × (joined_shop.entries ≡ shop.entries ++ entry ∷ [])
    × (build_entry_response joined_entry ≡ build_entry_response entry)
    × (entry.name ≡ strip guest.name)
    × (entry.party_size ≡ guest.party_size)
    × (1 ≤ guest.party_size)
    × (guest.party_size ≤ 20)
    × (length (keep is_decimal guest.phone) ≡ 10)
post_join-stores_example =
    post_join-stores here_env shop joined_shop 1 guest 8 (codes "beef") noon
      (build_entry_response joined_entry) guest_joins

-- A parser that knows one text.
abbrev loads_edit : Text → Option (Option EditBody)
loads_edit raw =
    if text_eq raw (codes "{\"party_size\": 4}")
    then some (some (EditBody.object ((codes "party_size", value (some 4) none) ∷ [])))
    else none

abbrev queue : Db
queue = store_with (ann ∷ []) table_one

abbrev edited_ann : WaitlistEntry
edited_ann = edited_entry ann (record { party_size = some 4; note = none }) noon

edit_answers :
    edit_waitlist loads_edit queue (some 7) (codes "{\"party_size\": 4}") noon
    ≡ ok (answered (save_entry edited_ann queue) edited_ann noon)
unfolding edit_waitlist json_body parse_edit_body value_of edit_entry get_entry get_row
edit_answers = refl

edit_waitlist-Edited_example :
    Edited queue
      (save_entry edited_ann queue)
      (some 7)
      (json_body loads_edit (codes "{\"party_size\": 4}"))
      noon
edit_waitlist-Edited_example =
    edit_waitlist-Edited loads_edit queue (save_entry edited_ann queue) (some 7)
      (codes "{\"party_size\": 4}") noon (answered (save_entry edited_ann queue) edited_ann noon).1
      edit_answers
