-- ===== src/Models/Defs.antt =====
-- The enums and records of backend/app/models.py.
use table_queue.Common.{ℕ, Bool, Option, Text}

-- Microseconds since year 1, in UTC.
abbrev pub Instant : Type 0
Instant = ℕ

pub data WaitlistStatus : Type 0 where
  waiting called seated done no_show cancelled : WaitlistStatus

pub data TableStatus : Type 0 where
  available occupied cleaning : TableStatus

pub data WaitlistSource : Type 0 where
  customer staff : WaitlistSource

pub data CancelledReason : Type 0 where
  customer staff closed_day reset : CancelledReason

pub record Restaurant : Type 0 where
  pub id : ℕ
  pub name : Text

pub record Branch : Type 0 where
  pub id : ℕ
  pub restaurant_id : ℕ
  pub name : Text
  pub address : Text
  pub phone : Text
  pub timezone : Text
  pub business_day_cutoff_hour : ℕ
  pub open_time : Text
  pub close_time : Text

pub record Table : Type 0 where
  pub id : ℕ
  pub branch_id : ℕ
  pub label : Text
  pub capacity : ℕ
  pub section : Option Text
  pub sort_order : ℕ
  pub status : TableStatus
  pub is_active : Bool

pub record WaitlistEntry : Type 0 where
  pub id : ℕ
  pub branch_id : ℕ
  pub queue_number : Text
  pub full_queue_number : Text
  pub queue_prefix : Text
  pub seq : ℕ
  pub business_date : Text
  pub name : Text
  pub phone : Text
  pub party_size : ℕ
  pub note : Option Text
  pub status : WaitlistStatus
  pub sort_order : ℕ
  pub source : WaitlistSource
  pub hold_minutes_snapshot : Option ℕ
  pub cancelled_reason : Option CancelledReason
  pub table_id : Option ℕ
  pub status_token : Option Text
  pub created_at : Instant
  pub updated_at : Instant
  pub called_at : Option Instant
  pub seated_at : Option Instant
  pub closed_at : Option Instant

pub record Settings : Type 0 where
  pub id : ℕ
  pub branch_id : ℕ
  pub hold_minutes : ℕ
  pub avg_seat_minutes : ℕ
  pub queue_prefix : Text
  pub is_waitlist_open : Bool
  pub sound_enabled_default : Bool
  pub notification_templates : Text
  pub staff_pin_hash : Option Text
  pub token_generation : Option Text
