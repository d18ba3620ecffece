-- ===== src/Overlay/Notices.antt =====
-- guest/overlay.c: the notifications on the screen (notify, expire_notifications).
pub mod Order
mod Tests
use Prim.Native.String.{String}
use anyconsole.Base.{
  ℕ, zero, suc, ◌+◌, Bool, true, false, Option, none, some, List, [], ◌∷◌, ◌++◌, length, leb, ◌==◌,
  if◌then◌else◌,
}

abbrev pub notifications_max : ℕ
notifications_max = 4

abbrev pub notification_seconds : ℕ
notification_seconds = 4

-- struct notification, with the seconds of its `expires`.
pub record Notice : Type 0 where
  pub text : String
  pub expires : ℕ

-- A request that waits hears every notification.
pub record Listener : Type 0 where
  pub is_waiting : Bool
  pub heard : List String

-- `timer` is when the notification timer goes off: `none` when it is off.
pub record Screen : Type 0 where
  pub notices : List Notice
  pub timer : Option ℕ
  pub listeners : List Listener
  pub is_changed : Bool

abbrev pub first_expiry : List Notice → Option ℕ
first_expiry [] = none
first_expiry (n ∷ ns) = some n.expires

-- memmove over the first one.
abbrev pub without_first : List Notice → List Notice
without_first [] = []
without_first (n ∷ ns) = ns

unfoldable pub hear : String → List Listener → List Listener
hear text [] = []
hear text (l ∷ ls) =
    (if l.is_waiting then record l { heard = l.heard ++ (text ∷ []) } else l) ∷ hear text ls

-- A full table loses its oldest notification. `now` is the clock in seconds.
unfoldable pub notify : ℕ → String → Screen → Screen
notify now text s =
    let kept =
      if length s.notices == notifications_max then without_first s.notices else s.notices in
    let shown = kept ++ (record { text = text; expires = now + notification_seconds } ∷ []) in
    record s {
      notices = shown;
      timer = first_expiry shown;
      listeners = hear text s.listeners;
      is_changed = true;
    }

-- The loop stops at the first that has not expired.
unfoldable pub drop_expired : ℕ → List Notice → List Notice
drop_expired now [] = []
drop_expired now (n ∷ ns) =
    let later = drop_expired now ns in if leb n.expires now then later else n ∷ ns

unfoldable pub expire : ℕ → Screen → Screen
expire now s =
    let left = drop_expired now s.notices in
    record s { notices = left; timer = first_expiry left; is_changed = true }
